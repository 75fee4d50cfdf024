-- ===== src/Cross/Examples.antt =====
-- The theorems about packages/ormize/src/cross-adapter.ts at a store that keeps its rows in memory.
use gqlize.Common.{
  ℕ, zero, suc, length, String, Bool, true, false, not, ◌&&◌, Option, none, some, List, [], ◌∷◌,
  ◌++◌, any, keep, map, Dict, lookup, lookup-append_none, lookup-append_some, ok, ◌≡◌, refl, ap,
  ◌∙◌, sym, fun_ext, arith, if◌then◌else◌, ◌==◌, Bool-cases, ◌||◌, inl, inr,
}
use gqlize.Js.Value.{Value, undefined, num, bool, is_nullish, strict_eq}
use gqlize.Gate.Resolve.{ScopeOperation, read, update}
use gqlize.Cross.Host.{Association, belongs_to_many, Wanted, denied, filter, Options, Host}
use gqlize.Cross.Keys.{among, btm_keys, request_from, writable, merge_filter, settle_writable}
use gqlize.Cross.Accessors.{relink, listed}
use gqlize.Cross.Edges.{link, unlink}
use gqlize.Cross.Store.{
  Rows, put_rows, Leads, Store, IsFiltered, IsScoped, IsReadable, IsChecked, IsStore, selects,
  wants,
}
use gqlize.Cross.Linked.{any-keep, btm_keys-linked, IsDistinct, seen_edge}
use gqlize.Cross.Links.{Grows}
use gqlize.Cross.Linking.{IsKept, link-Grows}
use gqlize.Cross.Replaced.{unlink-Remains, Remains, of_values}
use gqlize.Cross.Denied.{relink-denied}
use gqlize.Cross.Reached.{writable-IsReached, IsReached}

abbrev Entry : Type 0
Entry = Dict Value

abbrev Where : Type 0
Where = Entry → Bool

abbrev value : Entry → String → Value
value r f = elim (lookup f r) [ none ↦ undefined | some v ↦ v ]

abbrev picks : Option Where → Entry → Bool
picks none r = true
picks (some w) r = w r

-- A row that is locked is out of every scope but that of a create.
abbrev is_free : Entry → Bool
is_free r = not (strict_eq (bool true) (value r "locked"))

-- Who asks: whether updates are denied to them.
abbrev refuses : ScopeOperation → Bool → Bool
refuses update b = b
refuses op b = false

abbrev with_value : String → Wanted → Option Where → Where
with_value f v w r = picks w r && wants v (value r f)

abbrev at_most : Option ℕ → List Entry → List Entry
at_most none xs = xs
at_most (some zero) xs = []
at_most (some (suc n)) [] = []
at_most (some (suc n)) (x ∷ xs) = x ∷ at_most (some n) xs

-- A new row without a key gets the next number, as a sequence gives it.
abbrev numbered_row : Rows Entry → String → Entry → Entry
numbered_row w m d = d ++ ("id", num (length (w m))) ∷ []

abbrev host : Host Bool Entry Where (Rows Entry) String
host = record {
  can_merge = λ m. true;
  merge_filter_statement = λ m. with_value;
  value_of = λ m. value;
  primary_key = λ m. "id";
  find_all = λ m q w. (w, ok (at_most q.limit (keep (picks q.filter) (w m))));
  update = λ m r d o w. (
    put_rows m (map (λ x. if strict_eq (value r "id") (value x "id") then d ++ x else x) (w m)) w,
    ok tt,
  );
  create = λ m d tx w. (put_rows m (w m ++ numbered_row w m d ∷ []) w, ok tt);
  delete = λ m q tx w. (put_rows m (keep (λ r. not (picks q r)) (w m)) w, ok tt);
  options_for_adapter = λ m n o w. (w, ok o);
  scope_denies = λ m op req w. (w, ok (refuses op req));
  scoped_where = λ m op req q o w.
      (w, ok (if refuses op req then denied else filter (some (λ r. picks q r && is_free r))));
  scope_miss = λ m op w. (w, ok tt);
  cannot_merge = λ m. m;
  bag_request = λ tx. false;
}

abbrev store : Store host
store = record {
  rows = λ w. w;
  matches = λ w r. w r;
  in_scope = λ m op req. is_free;
  denies = λ m op req. refuses op req;
  accepts = λ m d. true;
  stores = λ m f. true;
}

value-given :
    (f : String) (v : Value) (d more : Entry) → lookup f d ≡ some v → value (d ++ more) f ≡ v
value-given f v d more e = ground (arith, lookup-append_some f d more v e)

value-kept : (f : String) (d r : Entry) → lookup f d ≡ none → value (d ++ r) f ≡ value r f
value-kept f d r e = ground (arith, lookup-append_none f d r e)

any-at_most_one :
    (p : Entry → Bool) (rs : List Entry) → any (λ r. true) (at_most (some 1) (keep p rs)) ≡ any p rs
any-at_most_one p [] = refl
any-at_most_one p (r ∷ rs) = ground (arith, any-at_most_one p rs)

any-added :
    (p : Entry → Bool) (rs : List Entry) (r : Entry) → any p (rs ++ r ∷ []) ≡ (any p rs || p r)
any-added p [] r = ground arith
any-added p (x ∷ rs) r = ground (arith, any-added p rs r)

selects-picks : (q : Option Where) (r : Entry) → selects host store q r ≡ picks q r
selects-picks none r = refl
selects-picks (some w) r = refl

store-IsFiltered : IsFiltered host store
store-IsFiltered = record {
  merges = λ m. refl;
  merged = λ m f v q r. ap (λ b. b && wants v (value r f)) (sym (selects-picks q r));
}

store-IsScoped : IsScoped host store
unfolding request_from
store-IsScoped = record {
  adapts = λ m n o w. (o, ((w, (refl, refl)), refl));
  denial = λ m op req w. (w, (refl, refl));
  scoped_denied = λ m op req q o w d. (
    w,
    (ap (λ b. (w, ok (if b then denied else filter (some (λ r. picks q r && is_free r))))) d, refl),
  );
  scoped = λ m op req q o w d. (
    some (λ r. picks q r && is_free r),
    (
      (
        w,
        (
          ap (λ b. (w, ok (if b then denied else filter (some (λ r. picks q r && is_free r))))) d,
          refl,
        ),
      ),
      λ r. ap (λ b. b && is_free r) (sym (selects-picks q r)),
    ),
  );
  misses = λ m op w. refl;
}

store-IsChecked : IsChecked host false store
store-IsChecked = record {
  filters = store-IsFiltered;
  scopes = store-IsScoped;
  looks_up =
      λ m q tx w. (at_most (some 1) (keep q (w m)), ((w, (refl, refl)), any-at_most_one q (w m)));
}

store-IsReadable : IsReadable host store
store-IsReadable = record {
  filters = store-IsFiltered;
  scopes = store-IsScoped;
  finds = λ m q tx w. (
    keep (picks q) (w m),
    (
      (w, (refl, refl)),
      λ p.
          any-keep (picks q) p (w m)
          ∙ ap (λ pick. any (λ r. pick r && p r) (w m)) (sym (fun_ext (selects-picks q))),
    ),
  );
}

store-IsStore : IsStore host store
store-IsStore = record {
  reads = store-IsReadable;
  creates = λ m d tx w k. (
    numbered_row w m d,
    (
      w m ++ numbered_row w m d ∷ [],
      (
        (_, (refl, refl)),
        (
          λ p. any-added p (w m) (numbered_row w m d),
          λ f v i e. value-given f v d (("id", num (length (w m))) ∷ []) e,
        ),
      ),
    ),
  );
  updates = λ m r d o w k. (
    λ x. if strict_eq (value r "id") (value x "id") then d ++ x else x,
    (
      (_, (refl, refl)),
      λ f x i e. elim (Bool-cases (strict_eq (value r "id") (value x "id"))) [
        | inl c ↦ ap (λ b. value (if b then d ++ x else x) f) c ∙ value-kept f d x e
        | inr c ↦ ap (λ b. value (if b then d ++ x else x) f) c
      ],
    ),
  );
  deletes = λ m q tx w. (
    put_rows m (keep (λ r. not (picks q r)) (w m)) w,
    (refl, ap (λ p. put_rows m (keep p (w m)) w) (fun_ext (λ r. ap not (sym (selects-picks q r))))),
  );
}

-- The users and the tags are joined by `marks`.
abbrev marked : Association
marked = record {
  association_type = belongs_to_many;
  source = "users";
  target = "tags";
  foreign_key = "user";
  source_key = "id";
  target_key = "id";
  through = "marks";
  other_key = "tag";
}

abbrev mark : ℕ → ℕ → Entry
mark user tag = ("user", num user) ∷ ("tag", num tag) ∷ []

abbrev locked : Entry → Entry
locked r = ("locked", bool true) ∷ r

abbrev numbered : ℕ → Entry
numbered n = ("id", num n) ∷ []

-- User 1 has tag 1 twice and, locked, tag 2.
abbrev marks : Rows Entry
marks m = if m == "marks" then mark 1 1 ∷ mark 1 1 ∷ locked (mark 1 2) ∷ mark 3 1 ∷ [] else []

abbrev asked : Bool → Options Bool Where
asked refuses_updates = record {
  graphql_context = some refuses_updates;
  as_request = false;
  transaction = none;
  where_filter = none;
  through_values = [];
  rest = undefined;
}

abbrev all_free : Options Bool Where
all_free = asked false

abbrev two_tags : List (Option Entry)
two_tags = some (numbered 1) ∷ none ∷ some (numbered 4) ∷ []

-- No attributes are given, so none names a key.
kept : IsKept host marked store store-IsStore refl []
unfolding lookup
kept = record {
  stores_foreign = refl;
  stores_other = refl;
  foreign_unnamed = refl;
  other_unnamed = refl;
}

btm_keys-linked_example :
    (ks : List Value) × (Leads store.rows
        (btm_keys host marked (numbered 1) all_free)
        marks
        ks
        marks
      × (IsDistinct ks
          × ((k : Value)
              → among ks k ≡ (
                  not (is_nullish k)
                  && any
                      (λ e.
                        seen_edge host marked store store-IsReadable all_free (num 1) e
                        && strict_eq (value e "tag") k)
                      (marks "marks")))))
unfolding lookup
btm_keys-linked_example =
    btm_keys-linked host marked store store-IsReadable (numbered 1) all_free marks refl refl

link-Grows_test :
    (all : Rows Entry) × (Leads store.rows
        (link host marked (numbered 1) two_tags all_free)
        marks
        tt
        all
      × Grows host marked marks all (num 1) (num 1 ∷ num 4 ∷ []))
unfolding lookup strict_eq listed
link-Grows_test =
    link-Grows host marked store store-IsStore refl (numbered 1) two_tags all_free marks refl kept
      ((refl, refl), ((refl, refl), tt))

unlink-Remains_test :
    (all : Rows Entry) × (Leads store.rows
        (unlink host marked (numbered 1) two_tags all_free)
        marks
        tt
        all
      × Remains host marked store store-IsStore refl marks all
          (of_values host marked store store-IsStore refl (num 1) (num 1 ∷ num 4 ∷ []))
          all_free)
unfolding lookup strict_eq listed
unlink-Remains_test =
    unlink-Remains host marked store store-IsStore refl (numbered 1) two_tags all_free marks refl
      refl

relink-denied_example : (relink host marked (num 1) two_tags (asked true) marks).0 ≡ marks
unfolding request_from
relink-denied_example =
    relink-denied host store store-IsScoped marked (num 1) two_tags (asked true) marks (inr refl)

-- User 1, among two users.
abbrev users : Rows Entry
users m = if m == "users" then numbered 1 ∷ numbered 2 ∷ [] else []

allowed : writable host "users" (numbered 1) update all_free false users ≡ (users, ok true)
unfolding writable request_from merge_filter settle_writable lookup strict_eq
allowed = refl

writable-IsReached_example :
    (store.denies "users" read false ≡ false)
    × ((store.denies "users" update false ≡ false)
        × IsReached host store false store-IsChecked "users"
            (numbered 1)
            update
            false
            (users "users"))
unfolding request_from
writable-IsReached_example =
    writable-IsReached host store false store-IsChecked "users" (numbered 1) update all_free users
      users allowed
