-- ===== src/Permissions/Creates.antt =====
-- What the scope sugar of packages/utilize/src/permissions.ts puts on a create.
use gqlize.Common.{
  String, Bool, true, false, not, ◌||◌, ◌&&◌, none, some, List, [], ◌∷◌, any, ◌≡◌, refl, arith,
  if◌then◌else◌, Bool-cases, inl, inr, Dict,
}
use gqlize.Js.Value.{Value, is_nullish}
use gqlize.Permissions.Gates.{prop}
use gqlize.Permissions.Scope.{
  ScopeSugarLeaf, own, tenant, any_of, Leaves, no_leaves, leaf_of, LeafResult, denied, nothing,
  part, ref_of, is_nothing, compare_leaf, any_live, any_branches, live_of, wheres_of, compile_leaf,
  compile_leaves,
}

-- Leaves that hold a field to one value of the principal.
abbrev is_compared : ScopeSugarLeaf → Bool
is_compared (own ref) = true
is_compared (tenant ref) = true
is_compared leaf = false

abbrev pub are_compared : Leaves → Bool
are_compared no_leaves = true
are_compared (leaf_of leaf leaves) = is_compared leaf && are_compared leaves

module _ (principal : Value) where
  abbrev has_value : String → Bool
  has_value from = not (is_nullish (prop principal from))

  -- The principal has the value that a leaf is about, and that of one of several.
  abbrev has_leaf : ScopeSugarLeaf → Bool
  has_leaf (own ref) = has_value (ref_of ref "id").1
  has_leaf (tenant ref) = has_value (ref_of ref "tenantId").1
  has_leaf leaf = false

  abbrev pub has_one : Leaves → Bool
  has_one no_leaves = false
  has_one (leaf_of leaf leaves) = has_leaf leaf || has_one leaves

  -- Branches that are left, all of which force values without a filter.
  abbrev IsForcing : Bool → List LeafResult → Type 0
  IsForcing b [] = b ≡ false
  IsForcing b (r ∷ rs) =
      (b ≡ true) × ((any is_nothing (r ∷ rs) ≡ false) × (wheres_of (r ∷ rs) ≡ []))

  any_live-IsForcing :
      (b : Bool) (rs : List LeafResult)
      → IsForcing b rs
      → any_live rs ≡ (if b then nothing else denied)
  any_live-IsForcing b [] h = ground (arith, h)
  any_live-IsForcing b (r ∷ rs) (h, (n, w)) = rw (h, n, w) refl

  forced-IsForcing :
      (b : Bool) (set : Dict Value) (rs : List LeafResult)
      → IsForcing b rs
      → IsForcing true (part none (some set) ∷ rs)
  unfolding wheres_of
  forced-IsForcing b set [] h = (refl, (refl, refl))
  forced-IsForcing b set (r ∷ rs) (h, (n, w)) = (refl, (n, w))

  compared-IsForcing :
      (ref : String × String) (b : Bool) (rs : List LeafResult)
      → IsForcing b (live_of rs)
      → IsForcing (has_value ref.1 || b) (live_of (compare_leaf ref principal "create" ∷ rs))
  unfolding compare_leaf live_of
  compared-IsForcing (name, from) b rs h = elim (Bool-cases (is_nullish (prop principal from))) [
    | inl n ↦ rw (n) h
    | inr n ↦ rw (n) (forced-IsForcing b ((name, prop principal from) ∷ []) (live_of rs) h)
  ]

  leaves-IsForcing :
      (leaves : Leaves)
      → are_compared leaves ≡ true
      → IsForcing (has_one leaves) (live_of (compile_leaves principal "create" leaves))
  unfolding compile_leaves compile_leaf live_of
  leaves-IsForcing no_leaves h = refl
  leaves-IsForcing (leaf_of (own ref) leaves) h =
      compared-IsForcing (ref_of ref "id") (has_one leaves) _ (leaves-IsForcing leaves h)
  leaves-IsForcing (leaf_of (tenant ref) leaves) h =
      compared-IsForcing (ref_of ref "tenantId") (has_one leaves) _ (leaves-IsForcing leaves h)
  leaves-IsForcing (leaf_of _ _) h = ground arith

  -- On a create, an any of own and tenant leaves forces and filters nothing, however many they are: it
  -- leaves the create unscoped where the principal has the value of one of them, and denies where it has
  -- none.
  pub any_of-create :
      (leaves : Leaves)
      → are_compared leaves ≡ true
      → compile_leaf principal "create" (any_of leaves)
        ≡ (if has_one leaves then nothing else denied)
  unfolding compile_leaf any_branches
  any_of-create leaves h = any_live-IsForcing (has_one leaves) _ (leaves-IsForcing leaves h)
