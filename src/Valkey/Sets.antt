-- ===== src/Valkey/Sets.antt =====
-- The sets and maps of packages/ormize-adapter-valkey/src/transaction.ts: what a lookup finds in one
-- after each change.
use gqlize.Common.{
  String, not, ◌&&◌, ◌||◌, List, [], ◌∷◌, ◌++◌, Dict, lookup, put, contains, if◌then◌else◌, ◌==◌,
  ◌≡◌, refl, arith, eq_iff, lookup-put, Option-cases, inl, inr,
}
use gqlize.Valkey.Transaction.{set_add, set_delete, set_at, drop_from, add_each, delete_each}

pub contains-append :
    (x : String) (a b : List String) → contains (a ++ b) x ≡ (contains a x || contains b x)
contains-append x [] b = refl
contains-append x (y ∷ a) b = ground (arith, contains-append x a b)

pub contains-add :
    (m x : String) (s : List String) → contains (set_add m s) x ≡ (m == x || contains s x)
unfolding set_add
contains-add m x s = ground (arith, contains-append x s (m ∷ []), eq_iff m x)

pub contains-delete :
    (m x : String) (s : List String) → contains (set_delete m s) x ≡ (not (m == x) && contains s x)
unfolding set_delete
contains-delete m x [] = ground arith
contains-delete m x (y ∷ s) =
    ground (arith, contains-delete m x s, eq_iff m x, eq_iff y x, eq_iff m y)

pub contains-add_each :
    (x : String) (ms s : List String) → contains (add_each ms s) x ≡ (contains ms x || contains s x)
unfolding add_each
contains-add_each x [] s = refl
contains-add_each x (m ∷ ms) s =
    ground (arith, contains-add_each x ms (set_add m s), contains-add m x s)

pub contains-delete_each :
    (x : String) (ms s : List String)
    → contains (delete_each ms s) x ≡ (not (contains ms x) && contains s x)
unfolding delete_each
contains-delete_each x [] s = refl
contains-delete_each x (m ∷ ms) s =
    ground (arith, contains-delete_each x ms (set_delete m s), contains-delete m x s)

pub set_at-put :
    (j k : String) (s : List String) (d : Dict (List String))
    → set_at k (put j s d) ≡ (if j == k then s else set_at k d)
unfolding set_at
set_at-put j k s d = ground (arith, lookup-put j k s d)

pub set_at-drop :
    (j k m x : String) (d : Dict (List String))
    → contains (set_at k (drop_from j m d)) x ≡ (not (j == k && m == x) && contains (set_at k d) x)
unfolding set_at drop_from
set_at-drop j k m x d = elim (Option-cases (lookup j d)) [
  | inl n ↦ ground (arith, eq_iff j k)
  | inr (s, n) ↦
      ground (arith, eq_iff j k, lookup-put j k (set_delete m s) d, contains-delete m x s)
]
