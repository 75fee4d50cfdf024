-- ===== src/Valkey/Candidates.antt =====
-- The sets of ids of packages/ormize-adapter-valkey/src/query.ts: unions and intersections.
use gqlize.Common.{
  String, Bool, true, false, not, ◌&&◌, ◌||◌, List, [], ◌∷◌, ◌++◌, keep, all, any, contains, ◌==◌,
  ◌≡◌, refl, ap, ◌∙◌, arith, eq_iff, Bool-cases, inl, inr, and-eq-true_iff,
}
use gqlize.Valkey.Transaction.{set_add, add_each}
use gqlize.Valkey.Sets.{contains-append, contains-add_each}
use gqlize.Valkey.Plan.{insert_by_size, sort_by_size, in_all, first_within, intersect, unite}

unfoldable pub is_distinct : List String → Bool
is_distinct [] = true
is_distinct (x ∷ xs) = not (contains xs x) && is_distinct xs

abbrev pub all_distinct : List (List String) → Bool
all_distinct sets = all is_distinct sets

abbrev pub in_any : String → List (List String) → Bool
in_any id sets = any (λ s. contains s id) sets

pub contains-keep :
    (p : String → Bool) (xs : List String) (id : String)
    → contains (keep p xs) id ≡ (p id && contains xs id)
contains-keep p [] id = ground arith
contains-keep p (x ∷ xs) id = elim (Bool-cases (x == id)) [
  | inl h ↦ ground (arith, contains-keep p xs id, ap p ((eq_iff x id).0 h))
  | inr h ↦ ground (arith, contains-keep p xs id)
]

is_distinct-append_one :
    (xs : List String) (m : String)
    → contains xs m ≡ false
    → is_distinct xs ≡ true
    → is_distinct (xs ++ m ∷ []) ≡ true
unfolding is_distinct
is_distinct-append_one [] m h d = refl
is_distinct-append_one (x ∷ xs) m h d =
    ground
      (arith, is_distinct-append_one xs m, contains-append x xs (m ∷ []), eq_iff x m, eq_iff m x)

pub set_add-is_distinct :
    (m : String) (xs : List String) → is_distinct xs ≡ true → is_distinct (set_add m xs) ≡ true
unfolding set_add
set_add-is_distinct m xs d = ground (arith, is_distinct-append_one xs m)

pub add_each-is_distinct :
    (ms xs : List String) → is_distinct xs ≡ true → is_distinct (add_each ms xs) ≡ true
unfolding add_each
add_each-is_distinct [] xs d = d
add_each-is_distinct (m ∷ ms) xs d =
    add_each-is_distinct ms (set_add m xs) (set_add-is_distinct m xs d)

pub keep-is_distinct :
    (p : String → Bool) (xs : List String) → is_distinct xs ≡ true → is_distinct (keep p xs) ≡ true
unfolding is_distinct
keep-is_distinct p [] d = refl
keep-is_distinct p (x ∷ xs) d = ground (arith, keep-is_distinct p xs, contains-keep p xs x)

pub unite-is_distinct :
    (ss : List (List String)) (out : List String)
    → is_distinct out ≡ true
    → is_distinct (unite ss out) ≡ true
unfolding unite
unite-is_distinct [] out d = d
unite-is_distinct (s ∷ ss) out d =
    unite-is_distinct ss (add_each s out) (add_each-is_distinct s out d)

pub contains-unite :
    (ss : List (List String)) (out : List String) (id : String)
    → contains (unite ss out) id ≡ (in_any id ss || contains out id)
unfolding unite
contains-unite [] out id = refl
contains-unite (s ∷ ss) out id =
    ground (arith, contains-unite ss (add_each s out) id, contains-add_each id s out)

abbrev pub has_set : List (List String) → Bool
has_set [] = false
has_set (s ∷ ss) = true

-- Sorting changes neither what is in every set nor that no set has an id twice.
insert_by_size-in_all :
    (s : List String) (ss : List (List String)) (id : String)
    → in_all id (insert_by_size s ss) ≡ (contains s id && in_all id ss)
insert_by_size-in_all s [] id = refl
insert_by_size-in_all s (t ∷ ts) id = ground (arith, insert_by_size-in_all s ts id)

sort_by_size-in_all :
    (ss : List (List String)) (id : String) → in_all id (sort_by_size ss) ≡ in_all id ss
sort_by_size-in_all [] id = refl
sort_by_size-in_all (s ∷ ss) id =
    insert_by_size-in_all s (sort_by_size ss) id
    ∙ ap (λ b. contains s id && b) (sort_by_size-in_all ss id)

insert_by_size-all_distinct :
    (s : List String) (ss : List (List String))
    → is_distinct s ≡ true
    → all_distinct ss ≡ true
    → all_distinct (insert_by_size s ss) ≡ true
insert_by_size-all_distinct s [] d ds = ground arith
insert_by_size-all_distinct s (t ∷ ts) d ds = ground (arith, insert_by_size-all_distinct s ts)

sort_by_size-all_distinct :
    (ss : List (List String)) → all_distinct ss ≡ true → all_distinct (sort_by_size ss) ≡ true
sort_by_size-all_distinct [] d = refl
sort_by_size-all_distinct (s ∷ ss) d =
    let p = (and-eq-true_iff (is_distinct s) (all_distinct ss)).0 d in
    insert_by_size-all_distinct s (sort_by_size ss) p.0 (sort_by_size-all_distinct ss p.1)

insert_by_size-has_set :
    (s : List String) (ss : List (List String)) → has_set (insert_by_size s ss) ≡ true
insert_by_size-has_set s [] = refl
insert_by_size-has_set s (t ∷ ts) = ground arith

first_within-contains :
    (ss : List (List String)) (id : String)
    → has_set ss ≡ true
    → contains (first_within ss) id ≡ in_all id ss
first_within-contains [] id h = ground arith
first_within-contains (s ∷ ss) id h = ground (arith, contains-keep (λ j. in_all j ss) s id)

first_within-is_distinct :
    (ss : List (List String)) → all_distinct ss ≡ true → is_distinct (first_within ss) ≡ true
unfolding is_distinct
first_within-is_distinct [] d = refl
first_within-is_distinct (s ∷ ss) d =
    keep-is_distinct (λ id. in_all id ss) s
      ((and-eq-true_iff (is_distinct s) (all_distinct ss)).0 d).0

-- Of at least one set, the intersection has exactly what every set has.
pub contains-intersect :
    (ss : List (List String)) (id : String)
    → has_set ss ≡ true
    → contains (intersect ss) id ≡ in_all id ss
unfolding intersect
contains-intersect [] id h = ground arith
contains-intersect (s ∷ ss) id h =
    first_within-contains (sort_by_size (s ∷ ss)) id (insert_by_size-has_set s (sort_by_size ss))
    ∙ sort_by_size-in_all (s ∷ ss) id

pub intersect-is_distinct :
    (ss : List (List String)) → all_distinct ss ≡ true → is_distinct (intersect ss) ≡ true
unfolding intersect
intersect-is_distinct ss d =
    first_within-is_distinct (sort_by_size ss) (sort_by_size-all_distinct ss d)
