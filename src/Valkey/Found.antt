-- ===== src/Valkey/Found.antt =====
-- The index lookups of packages/ormize-adapter-valkey/src/query.ts: what it is for
-- indexes to be true of the rows, and the lookups over such indexes.
use mathlib.Core.Path.{ap₂}
use gqlize.Common.{
  ℕ, String, Bool, true, false, ◌||◌, Option, none, some, List, [], ◌∷◌, map, All, contains, ◌==◌,
  if◌then◌else◌, ◌≡◌, refl, sym, ◌∙◌, arith, Dict,
}
use gqlize.Js.Value.{Value, strict_eq}
use gqlize.Valkey.Match.{Engine, Row, row_get, includes}
use gqlize.Valkey.Transaction.{Score, set_add, add_each}
use gqlize.Valkey.Sets.{contains-add_each}
use gqlize.Valkey.Indexes.{Keys, ids_key, index_key, unique_key}
use gqlize.Valkey.Candidates.{is_distinct, set_add-is_distinct, add_each-is_distinct}
use gqlize.Valkey.Conditions.{strict_eq_comm}
use gqlize.Valkey.Plan.{object_key, Executor, SearchModel}
use gqlize.Valkey.Planner.{
  is_searchable, is_alive, alive_ids, expired_ids, collect, collect_all, active_members, one_id,
  equality_set, union_set,
}
use gqlize.Valkey.Searches.{Gives, bind-Gives, map-Gives, give-Gives, if-Gives}

or_false : (b : Bool) → (b || false) ≡ b
or_false b = ground arith

reordered :
    (w v : Value) (b : Bool) (vs : List Value)
    → ((strict_eq w v || b) || includes w vs) ≡ (b || (strict_eq v w || includes w vs))
reordered w v b vs = ground (arith, strict_eq_comm w v)

if-Holds :
    {S : Type 0} (Holds : S → Type 0) (b : Bool) (s t : S)
    → Holds s
    → Holds t
    → Holds (if b then s else t)
if-Holds Holds true s t h k = h
if-Holds Holds false s t h k = k

abbrev pub row_of_text : (String → Row) → Option String → Option Row
row_of_text f none = none
row_of_text f (some json) = some (f json)

module _ {S : Type 0} (e : Engine) (x : Executor S) (ks : Keys) (sm : SearchModel) (now : ℕ)
    (row_at : String → Option Row) (Typed : String → Value → Type 0) (Holds : S → Type 0) where
  -- The live rows by their ids; the values that a field may be asked for; and the states of the store in
  -- which the indexes are true of the rows: the lookup of a value contains a row exactly where the row's
  -- field is that value, an id that the indexes hold past its time is no live row's, and collecting such
  -- an id keeps the rest.
  pub record IsIndexed : Type 0 where
    pub key_true :
        (name : String) (v : Value) (id : String) (row : Row)
        → (name == sm.primary_key) ≡ true
        → Typed name v
        → row_at id ≡ some row
        → (e.text v == id) ≡ strict_eq (row_get row name) v
    pub unique_true :
        (s : S) (name : String) (v : Value) (id : String) (row : Row)
        → Holds s
        → contains sm.model.uniques name ≡ true
        → Typed name v
        → row_at id ≡ some row
        → contains (one_id e x ks sm now (x.get_str (unique_key ks sm.model.name name v) s)) id
          ≡ strict_eq (row_get row name) v
    pub index_true :
        (s : S) (name : String) (v : Value) (id : String) (row : Row)
        → Holds s
        → contains sm.model.indexes name ≡ true
        → Typed name v
        → row_at id ≡ some row
        → contains
            (alive_ids e x ks sm now (x.z_members (index_key ks sm.model.name name v) s) [])
            id
          ≡ strict_eq (row_get row name) v
    pub ids_true :
        (s : S) (id : String) (row : Row)
        → Holds s
        → row_at id ≡ some row
        → contains (alive_ids e x ks sm now (x.z_members (ids_key ks sm.model.name) s) []) id ≡ true
    pub expired_gone :
        (s : S) (zkey : String)
        → Holds s
        → All (λ id. row_at id ≡ none) (expired_ids e x ks sm now (x.z_members zkey s))
    pub collect_kept :
        (s : S) (id : String) → Holds s → row_at id ≡ none → Holds (collect e x ks sm now id s)
    pub objects_true :
        (s : S) (ids : List String)
        → Holds s
        → map (row_of_text x.row_of) (x.mget_obj (map (object_key ks sm.model.name) ids) s)
          ≡ map row_at ids

module _ {S : Type 0} (e : Engine) (x : Executor S) (ks : Keys) (sm : SearchModel) (now : ℕ)
    (row_at : String → Option Row) (Typed : String → Value → Type 0) (Holds : S → Type 0)
    (true_indexes : IsIndexed e x ks sm now row_at Typed Holds) where
  -- A set of ids, each once, that has a live row's id exactly where the row's field is the value.
  abbrev pub Finds : (Row → Bool) → List String → Type 0
  Finds test ids =
      (is_distinct ids ≡ true)
      × ((id : String) (row : Row) → row_at id ≡ some row → contains ids id ≡ test row)

  if-is_distinct :
      (b : Bool) (xs ys : List String)
      → is_distinct xs ≡ true
      → is_distinct ys ≡ true
      → is_distinct (if b then xs else ys) ≡ true
  if-is_distinct true xs ys h k = h
  if-is_distinct false xs ys h k = k

  pub alive_ids-is_distinct :
      (ms : Dict Score) (out : List String)
      → is_distinct out ≡ true
      → is_distinct (alive_ids e x ks sm now ms out) ≡ true
  unfolding alive_ids
  alive_ids-is_distinct [] out d = d
  alive_ids-is_distinct ((id, score) ∷ ms) out d = alive_ids-is_distinct ms _ (
      if-is_distinct (is_alive e x ks sm now score) (set_add id out) out
        (set_add-is_distinct id out d) d)

  collect_all-Holds :
      (ids : List String) (s : S)
      → All (λ id. row_at id ≡ none) ids
      → Holds s
      → Holds (collect_all e x ks sm now ids s)
  unfolding collect_all
  collect_all-Holds [] s a h = h
  collect_all-Holds (id ∷ ids) s (g, a) h =
      collect_all-Holds ids (collect e x ks sm now id s) a (true_indexes.collect_kept s id h g)

  pub active_members-Gives :
      (zkey : String) (P : List String → Type 0)
      → ((s : S) → Holds s → P (alive_ids e x ks sm now (x.z_members zkey s) []))
      → Gives Holds P (active_members e x ks sm now zkey)
  unfolding active_members
  active_members-Gives zkey P p = λ s h. (
    p s h,
    if-Holds Holds x.buffered s
        (collect_all e x ks sm now (expired_ids e x ks sm now (x.z_members zkey s)) s) h
        (collect_all-Holds (expired_ids e x ks sm now (x.z_members zkey s)) s
          (true_indexes.expired_gone s zkey h) h),
  )

  one_id-is_distinct : (o : Option String) → is_distinct (one_id e x ks sm now o) ≡ true
  unfolding is_distinct
  one_id-is_distinct none = refl
  one_id-is_distinct (some id) = if-is_distinct (id == "") [] (id ∷ []) refl refl

  -- A lookup by a value finds the rows of that value.
  pub equality_set-Gives :
      (name : String) (v : Value)
      → is_searchable e x ks sm now name ≡ true
      → Typed name v
      → Gives Holds
          (Finds (λ row. strict_eq (row_get row name) v))
          (equality_set e x ks sm now name v)
  unfolding equality_set is_distinct
  equality_set-Gives name v searchable typed =
      if-Gives Holds (Finds (λ row. strict_eq (row_get row name) v)) (name == sm.primary_key) _ _
        (λ q.
          give-Gives Holds (Finds (λ row. strict_eq (row_get row name) v)) (e.text v ∷ [])
            (refl, λ id row live. or_false _ ∙ true_indexes.key_true name v id row q typed live))
        (λ q.
          if-Gives Holds (Finds (λ row. strict_eq (row_get row name) v))
            (contains sm.model.uniques name) _ _
            (λ u. λ s h. (
              (
                one_id-is_distinct (x.get_str (unique_key ks sm.model.name name v) s),
                λ id row live. true_indexes.unique_true s name v id row h u typed live,
              ),
              h,
            ))
            (λ u.
              active_members-Gives (index_key ks sm.model.name name v)
                (Finds (λ row. strict_eq (row_get row name) v))
                (λ s h. (
                  alive_ids-is_distinct _ [] refl,
                  λ id row live.
                      true_indexes.index_true s name v id row h (ground (arith)) typed live,
                ))))

  abbrev pub TypedAll : String → List Value → Type 0
  TypedAll name vs = All (Typed name) vs

  -- The lookups for an `in` together find the rows of any of the values.
  pub union_set-Gives :
      (name : String) (vs : List Value) (out : List String) (found : Row → Bool)
      → is_searchable e x ks sm now name ≡ true
      → TypedAll name vs
      → Finds found out
      → Gives Holds
          (Finds (λ row. found row || includes (row_get row name) vs))
          (union_set e x ks sm now name vs out)
  unfolding union_set
  union_set-Gives name [] out found searchable typed (d, f) =
      give-Gives Holds (Finds (λ row. found row || false)) out
        (d, λ id row live. f id row live ∙ sym (or_false (found row)))
  union_set-Gives name (v ∷ vs) out found searchable (t, ts) (d, f) =
      bind-Gives Holds (Finds (λ row. strict_eq (row_get row name) v)) _
        (equality_set e x ks sm now name v) _ (equality_set-Gives name v searchable t)
        (λ ids r.
          map-Gives Holds
            (Finds (λ row.
              (strict_eq (row_get row name) v || found row) || includes (row_get row name) vs))
            (Finds (λ row.
              found row || (strict_eq v (row_get row name) || includes (row_get row name) vs)))
            (union_set e x ks sm now name vs (add_each ids out))
            (λ us q.
              (q.0, λ id row live. q.1 id row live ∙ reordered (row_get row name) v (found row) vs))
            (union_set-Gives name vs (add_each ids out)
              (λ row. strict_eq (row_get row name) v || found row) searchable ts
              (
                add_each-is_distinct ids out d,
                λ id row live.
                    contains-add_each id ids out ∙ ap₂ ◌||◌ (r.1 id row live) (f id row live),
              )))
