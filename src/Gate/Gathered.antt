-- ===== src/Gate/Gathered.antt =====
-- The loop of `andScopes` of packages/utilize/src/gate.ts: what it has gathered when it ends.
use gqlize.Common.{
  String, Bool, true, false, not, Option, none, some, List, [], ◌∷◌, ◌++◌, Dict, lookup, put,
  lookup-put, Result, ok, err, map_result, ◌≡◌, ◌⊎◌, inl, inr, ◌∙◌, refl, sym, ap, arith, eq_iff,
  Bool-cases, ◌==◌,
}
use gqlize.Js.Value.{Value, bool, arr, obj, to_items, truthy, strict_eq, strict_eq_sound}
use gqlize.Gate.Allow.{Error, Predicate}
use gqlize.Gate.Resolve.{
  ResolvedScope, unscoped, denied, scoped, Envelope, Gathered, gather, finish, add_forced,
  disagrees, forced_entries, push_where, outcome, and_loop,
}
use gqlize.Valkey.Match.{Engine, Row, match_where, every_item, and_then}

-- What the loop gathers from answers none of which denies.
pub data Gathers : Gathered → List ResolvedScope → Gathered → Type 0 where
  done : {g : Gathered} → Gathers g [] g
  skip :
      {g g' : Gathered} {rs : List ResolvedScope} → Gathers g rs g' → Gathers g (unscoped ∷ rs) g'
  join :
      {g g' : Gathered} {rs : List ResolvedScope} (e : Envelope) (forced : Dict Value)
      → add_forced g.forced (forced_entries e.set_part) ≡ some forced
      → Gathers (gather g e forced) rs g'
      → Gathers g (scoped e ∷ rs) g'

-- The loop ended with `v`, having read every source.
pub record Combined (args : List Value) (g : Gathered) (fs : List Predicate) (v : Value)
    : Type 0 where
  pub answers : List ResolvedScope
  pub last : Gathered
  pub read_all : map_result (outcome args) fs ≡ ok answers
  pub gathers : Gathers g answers last
  pub result : v ≡ finish last

module _ {args : List Value} {g : Gathered} {f : Predicate} {fs : List Predicate} {v : Value} where
  skip_source : outcome args f ≡ ok unscoped → Combined args g fs v → Combined args g (f ∷ fs) v
  skip_source p c = record {
    answers = unscoped ∷ c.answers;
    last = c.last;
    read_all = rw (p, c.read_all);
    gathers = skip c.gathers;
    result = c.result;
  }

  join_source :
      (e : Envelope) (forced : Dict Value)
      → outcome args f ≡ ok (scoped e)
      → add_forced g.forced (forced_entries e.set_part) ≡ some forced
      → Combined args (gather g e forced) fs v
      → Combined args g (f ∷ fs) v
  join_source e forced p q c = record {
    answers = scoped e ∷ c.answers;
    last = c.last;
    read_all = rw (p, c.read_all);
    gathers = join e forced q c.gathers;
    result = c.result;
  }

pub and_loop-cases :
    (args : List Value) (g : Gathered) (fs : List Predicate) (v : Value)
    → and_loop args g fs ≡ ok v
    → (v ≡ bool false) ⊎ Combined args g fs v
unfolding and_loop
and_loop-cases args g [] v h =
    inr (record { answers = []; last = g; read_all = refl; gathers = done; result = ground arith })
and_loop-cases args g (f ∷ fs) v h = go (outcome args f) refl (λ k. and_loop-cases args k fs v)
  where
    forced_case :
        (e : Envelope) (o : Option (Dict Value))
        → outcome args f ≡ ok (scoped e)
        → add_forced g.forced (forced_entries e.set_part) ≡ o
        → ((k : Gathered) → and_loop args k fs ≡ ok v → (v ≡ bool false) ⊎ Combined args k fs v)
        → (v ≡ bool false) ⊎ Combined args g (f ∷ fs) v
    forced_case e none p q ih = inl (ground arith)
    forced_case e (some forced) p q ih = elim (ih (gather g e forced) (ground arith)) [
      | inl false_result ↦ inl false_result
      | inr c ↦ inr (join_source e forced p q c)
    ]

    go :
        (r : Result Error ResolvedScope)
        → outcome args f ≡ r
        → ((k : Gathered) → and_loop args k fs ≡ ok v → (v ≡ bool false) ⊎ Combined args k fs v)
        → (v ≡ bool false) ⊎ Combined args g (f ∷ fs) v
    go (err x) p ih = absurd (ground arith)
    go (ok denied) p ih = inl (ground arith)
    go (ok unscoped) p ih = elim (ih g (ground arith)) [
      | inl false_result ↦ inl false_result
      | inr c ↦ inr (skip_source p c)
    ]
    go (ok (scoped e)) p ih =
        forced_case e (add_forced g.forced (forced_entries e.set_part)) p refl ih

-- The conjunction of what the answers ask of a row.
abbrev pub narrowed : Engine → Row → List ResolvedScope → Option Bool
narrowed e row [] = some true
narrowed e row (unscoped ∷ rs) = narrowed e row rs
narrowed e row (denied ∷ rs) = some false
narrowed e row (scoped s ∷ rs) = and_then (match_where e row s.where_part) (narrowed e row rs)

and_then_assoc : (a b c : Option Bool) → and_then (and_then a b) c ≡ and_then a (and_then b c)
and_then_assoc none b c = refl
and_then_assoc (some true) b c = refl
and_then_assoc (some false) b c = refl

pub and_then-true : (m : Option Bool) → and_then m (some true) ≡ m
and_then-true none = refl
and_then-true (some true) = refl
and_then-true (some false) = refl

module _ (e : Engine) (row : Row) where
  every_item-append :
      (ws : List Value) (w : Value)
      → every_item e row (to_items (ws ++ w ∷ []))
        ≡ and_then (every_item e row (to_items ws)) (match_where e row w)
  unfolding match_where
  every_item-append [] w = and_then-true _
  every_item-append (x ∷ ws) w =
      ap (and_then (match_where e row x)) (every_item-append ws w)
      ∙ sym (and_then_assoc (match_where e row x) _ _)

  match_where-falsy : (w : Value) → truthy w ≡ false → match_where e row w ≡ some true
  unfolding match_where
  match_where-falsy (arr vs) h = ground arith
  match_where-falsy (obj fs) h = ground arith
  match_where-falsy _ h = refl

  every_item-push_where :
      (ws : List Value) (w : Value)
      → every_item e row (to_items (push_where ws w))
        ≡ and_then (every_item e row (to_items ws)) (match_where e row w)
  every_item-push_where ws w = elim (Bool-cases (truthy w)) [
    | inl t ↦ rw t (every_item-append ws w)
    | inr f ↦ rw (f, match_where-falsy w f) (sym (and_then-true _))
  ]

  pub Gathers-rows :
      {g g' : Gathered} {rs : List ResolvedScope}
      → Gathers g rs g'
      → every_item e row (to_items g'.wheres)
        ≡ and_then (every_item e row (to_items g.wheres)) (narrowed e row rs)
  Gathers-rows done = sym (and_then-true _)
  Gathers-rows (skip r) = Gathers-rows r
  Gathers-rows (join {g} {rs = rs} s forced p r) =
      Gathers-rows r
      ∙ ap (λ m. and_then m (narrowed e row rs)) (every_item-push_where g.wheres s.where_part)
      ∙ and_then_assoc (every_item e row (to_items g.wheres)) _ _

-- Nothing is gathered without an opinion.
abbrev pub IsConsistent : Gathered → Type 0
IsConsistent g = (g.opinionated ≡ true) ⊎ ((g.wheres ≡ []) × (g.forced ≡ []))

pub Gathers-IsConsistent :
    {g g' : Gathered} {rs : List ResolvedScope} → Gathers g rs g' → IsConsistent g → IsConsistent g'
Gathers-IsConsistent done c = c
Gathers-IsConsistent (skip r) c = Gathers-IsConsistent r c
Gathers-IsConsistent (join s forced p r) c = Gathers-IsConsistent r (inl refl)

agreed :
    (x v : Value) (o : Option Value)
    → o ≡ some x
    → (elim o [ some old ↦ not (strict_eq old v) | none ↦ false ]) ≡ false
    → strict_eq x v ≡ true
agreed x v o p h = ground arith

-- A write that agrees with what is there changes no lookup of what is there.
put_agreeing :
    (forced : Dict Value) (name k : String) (v x : Value)
    → disagrees forced name v ≡ false
    → lookup k forced ≡ some x
    → lookup k (put name v forced) ≡ some x
put_agreeing forced name k v x agree p = elim (Bool-cases (name == k)) [
  | inl e ↦
      let same : name ≡ k = (eq_iff name k).0 e in
      lookup-put name k v forced
      ∙ rw e (
          ap some (
            sym (
              strict_eq_sound x v
                (agreed x v (lookup name forced) (ap (λ n. lookup n forced) same ∙ p) agree))))
  | inr n ↦ lookup-put name k v forced ∙ rw n p
]

-- A value that is forced stays forced: a later source can only agree with it.
pub add_forced-keeps :
    (forced extra after : Dict Value) (k : String) (x : Value)
    → add_forced forced extra ≡ some after
    → lookup k forced ≡ some x
    → lookup k after ≡ some x
unfolding add_forced
add_forced-keeps forced [] after k x h p = ground arith
add_forced-keeps forced ((name, v) ∷ rest) after k x h p =
    elim (Bool-cases (disagrees forced name v)) [
      | inl clash ↦ absurd (ground arith)
      | inr agree ↦
          add_forced-keeps (put name v forced) rest after k x (ground arith)
            (put_agreeing forced name k v x agree p)
    ]

pub add_forced-adds :
    (forced extra after : Dict Value) (k : String) (x : Value)
    → add_forced forced extra ≡ some after
    → lookup k extra ≡ some x
    → lookup k after ≡ some x
unfolding add_forced lookup
add_forced-adds forced [] after k x h p = ground arith
add_forced-adds forced ((name, v) ∷ rest) after k x h p =
    elim (Bool-cases (disagrees forced name v)) [
      | inl clash ↦ absurd (ground arith)
      | inr agree ↦ elim (Bool-cases (name == k)) [
        | inl same ↦
            add_forced-keeps (put name v forced) rest after k x (ground arith)
              (lookup-put name k v forced ∙ rw same (ground arith))
        | inr other ↦
            add_forced-adds (put name v forced) rest after k x (ground arith) (ground arith)
      ]
    ]
