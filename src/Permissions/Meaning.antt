-- ===== src/Permissions/Meaning.antt =====
-- The filters that the scope sugar of packages/utilize/src/permissions.ts compiles to, against what
-- the rules tree says.
use gqlize.Common.{
  String, Bool, true, false, not, ◌&&◌, Option, none, some, List, [], ◌∷◌, Dict, any, ◌≡◌, refl, ap,
  ◌∙◌, arith, subst, Bool-cases, inl, inr, is_some, and-eq-true_iff,
}
use gqlize.Js.Value.{
  Value, undefined, null, bool, num, str, func, arr, obj, nil, cons, to_items, is_nullish,
}
use gqlize.Gate.Where.{Logic, logical}
use gqlize.Valkey.Match.{
  Engine, Row, row_get, match_where, match_op, match_field, some_item, every_item,
}
use gqlize.Permissions.Gates.{prop}
use gqlize.Permissions.Scope.{
  ScopeSugarLeaf, deny, allow, unscoped, other, own, tenant, group, any_of, all_of, Leaves,
  no_leaves, leaf_of, LeafResult, denied, nothing, part, ref_of, is_create, compare_leaf,
  group_leaf, group_members, is_denied, is_nothing, wheres_of, live_of, sets_of, any_where,
  any_live, any_branches, all_parts, all_branches, compile_leaf, compile_leaves, condition,
}
use gqlize.Permissions.Sugar.{
  any_true, all_true, and_then-true, permits, permits_each, holds_for, in_group, is_one_of, Says,
  SaysEach, some_item-wheres, any_true-nothing, match_where-or, match_where-and,
}

-- A leaf whose fields are named like no combinator.
abbrev plain_ref : String × String → Bool
plain_ref (name, from) = not (is_some (logical name))

unfoldable mutual
  pub is_plain : ScopeSugarLeaf → Bool
  is_plain deny = true
  is_plain allow = true
  is_plain unscoped = true
  is_plain other = true
  is_plain (own ref) = plain_ref (ref_of ref "id")
  is_plain (tenant ref) = plain_ref (ref_of ref "tenantId")
  is_plain (group ref) = plain_ref (ref_of ref "groupIds")
  is_plain (any_of leaves) = each_plain leaves
  is_plain (all_of leaves) = each_plain leaves

  pub each_plain : Leaves → Bool
  each_plain no_leaves = true
  each_plain (leaf_of leaf leaves) = is_plain leaf && each_plain leaves

logical-none : (l : Option Logic) → not (is_some l) ≡ true → l ≡ none
logical-none none h = refl
logical-none (some l) h = ground arith

some-false : (b : Bool) → some false ≡ some b → b ≡ false
some-false b h = ground arith

and-true : (b : Bool) → (b && true) ≡ b
and-true b = ground arith

module _ (e : Engine) (row : Row) where
  any_where-Says :
      (ws : List Value) (b : Bool)
      → (some_item e row (to_items ws) ≡ some b)
      → (ws ≡ [] → true ≡ false)
      → Says e row (any_where ws) b
  any_where-Says [] b h n = ground (arith, n refl)
  any_where-Says (w ∷ ws) b h n = match_where-or e row w ws ∙ h

  live_of-empty :
      (rs : List LeafResult) (bs : List Bool)
      → SaysEach e row rs bs
      → any is_nothing (live_of rs) ≡ false
      → wheres_of (live_of rs) ≡ []
      → live_of rs ≡ []
  unfolding live_of wheres_of
  live_of-empty [] bs h n w = refl
  live_of-empty (r ∷ rs) [] h n w = ground arith
  live_of-empty (denied ∷ rs) (b ∷ bs) (h, hs) n w = live_of-empty rs bs hs n w
  live_of-empty (nothing ∷ rs) (b ∷ bs) (h, hs) n w = ground arith
  live_of-empty (part none set ∷ rs) (b ∷ bs) (h, hs) n w = ground arith
  live_of-empty (part (some v) set ∷ rs) (b ∷ bs) (h, hs) n w = ground arith

  live-says :
      (live rs : List LeafResult) (bs : List Bool)
      → live_of rs ≡ live
      → SaysEach e row rs bs
      → any is_nothing live ≡ false
      → some_item e row (to_items (wheres_of live)) ≡ some (any_true bs)
  live-says live rs bs l h =
      subst
        (λ x.
          any is_nothing x ≡ false → some_item e row (to_items (wheres_of x)) ≡ some (any_true bs))
        l (some_item-wheres e row rs bs h)

  live-nonempty :
      (live rs : List LeafResult) (bs : List Bool)
      → live_of rs ≡ live
      → SaysEach e row rs bs
      → any is_nothing live ≡ false
      → wheres_of live ≡ []
      → live ≡ []
  live-nonempty live rs bs l h =
      subst (λ x. any is_nothing x ≡ false → wheres_of x ≡ [] → x ≡ []) l (live_of-empty rs bs h)

  any_live-Says :
      (live : List LeafResult) (rs : List LeafResult) (bs : List Bool)
      → live_of rs ≡ live
      → SaysEach e row rs bs
      → Says e row (any_live live) (any_true bs)
  unfolding some_item wheres_of
  any_live-Says [] rs bs l h = some-false (any_true bs) (live-says [] rs bs l h refl)
  any_live-Says (r ∷ live) rs bs l h = elim (Bool-cases (any is_nothing (r ∷ live))) [
    | inl n ↦ rw (n) (any_true-nothing e row rs bs h (ap (any is_nothing) l ∙ n))
    | inr n ↦
        let full = live-nonempty (r ∷ live) rs bs l h n in
        rw (n) (
          any_where-Says (wheres_of (r ∷ live)) (any_true bs) (live-says (r ∷ live) rs bs l h n)
            (λ w. let q = full w in ground arith))
  ]

  all_parts-Says :
      (ws : List Value) (bs : List Bool)
      → every_item e row (to_items ws) ≡ some (all_true bs)
      → Says e row (all_parts ws []) (all_true bs)
  unfolding every_item
  all_parts-Says [] bs h = ground arith
  all_parts-Says (w ∷ ws) bs h = match_where-and e row w ws ∙ h

  sets_of-none : (rs : List LeafResult) (bs : List Bool) → SaysEach e row rs bs → sets_of [] rs ≡ []
  unfolding sets_of
  sets_of-none [] bs h = refl
  sets_of-none (r ∷ rs) [] h = ground arith
  sets_of-none (denied ∷ rs) (b ∷ bs) (h, hs) = sets_of-none rs bs hs
  sets_of-none (nothing ∷ rs) (b ∷ bs) (h, hs) = sets_of-none rs bs hs
  sets_of-none (part none set ∷ rs) (b ∷ bs) (h, hs) = ground arith
  sets_of-none (part (some w) (some set) ∷ rs) (b ∷ bs) (h, hs) = ground arith
  sets_of-none (part (some w) none ∷ rs) (b ∷ bs) (h, hs) = sets_of-none rs bs hs

  every_item-wheres :
      (rs : List LeafResult) (bs : List Bool)
      → SaysEach e row rs bs
      → any is_denied rs ≡ false
      → every_item e row (to_items (wheres_of rs)) ≡ some (all_true bs)
  unfolding every_item wheres_of
  every_item-wheres [] [] h n = refl
  every_item-wheres [] (b ∷ bs) h n = ground arith
  every_item-wheres (r ∷ rs) [] h n = ground arith
  every_item-wheres (denied ∷ rs) (b ∷ bs) (h, hs) n = ground arith
  every_item-wheres (nothing ∷ rs) (b ∷ bs) (h, hs) n = rw (h) (every_item-wheres rs bs hs n)
  every_item-wheres (part none set ∷ rs) (b ∷ bs) (h, hs) n = ground arith
  every_item-wheres (part (some w) (some set) ∷ rs) (b ∷ bs) (h, hs) n = ground arith
  every_item-wheres (part (some w) none ∷ rs) (true ∷ bs) (h, hs) n =
      rw (h) (every_item-wheres rs bs hs n)
  every_item-wheres (part (some w) none ∷ rs) (false ∷ bs) (h, hs) n = rw (h) refl

  all_true-denied :
      (rs : List LeafResult) (bs : List Bool)
      → SaysEach e row rs bs
      → any is_denied rs ≡ true
      → all_true bs ≡ false
  all_true-denied [] bs h n = ground arith
  all_true-denied (r ∷ rs) [] h n = ground arith
  all_true-denied (denied ∷ rs) (b ∷ bs) (h, hs) n = rw (h) refl
  all_true-denied (nothing ∷ rs) (b ∷ bs) (h, hs) n = rw (h) (all_true-denied rs bs hs n)
  all_true-denied (part w set ∷ rs) (false ∷ bs) (h, hs) n = refl
  all_true-denied (part w set ∷ rs) (true ∷ bs) (h, hs) n = all_true-denied rs bs hs n

  all_branches-Says :
      (rs : List LeafResult) (bs : List Bool)
      → SaysEach e row rs bs
      → Says e row (all_branches rs) (all_true bs)
  unfolding all_branches
  all_branches-Says rs bs h = elim (Bool-cases (any is_denied rs)) [
    | inl d ↦ rw (d) (all_true-denied rs bs h d)
    | inr d ↦
        rw (d, sets_of-none rs bs h)
          (all_parts-Says (wheres_of rs) bs (every_item-wheres rs bs h d))
  ]

  -- {[name]: {[op]: v}} holds exactly where the operator does
  match_where-condition :
      (name op : String) (v : Value)
      → logical name ≡ none
      → match_where e row (condition name op v) ≡ some (match_op e (row_get row name) op v && true)
  unfolding match_where match_field
  match_where-condition name op v n = rw (n) (and_then-true _)

  compare_leaf-Says :
      (ref : String × String) (principal : Value) (operation : String)
      → plain_ref ref ≡ true
      → is_create operation ≡ false
      → Says e row (compare_leaf ref principal operation) (holds_for e row principal ref)
  unfolding compare_leaf holds_for match_op
  compare_leaf-Says (name, from) principal operation h c =
      elim (Bool-cases (is_nullish (prop principal from))) [
        | inl n ↦ rw (n) refl
        | inr n ↦
            rw (n, c)
              (match_where-condition name "eq" (prop principal from) (logical-none (logical name) h)
                ∙ ap some (and-true _))
      ]

  group_members-Says :
      (name : String) (v : Value)
      → logical name ≡ none
      → Says e row (group_members name v) (is_one_of e row (row_get row name) v)
  unfolding match_op
  group_members-Says name (arr nil) h = refl
  group_members-Says name (arr (cons v vs)) h =
      match_where-condition name "in" (arr (cons v vs)) h ∙ ap some (and-true _)
  group_members-Says name undefined h = refl
  group_members-Says name null h = refl
  group_members-Says name (bool b) h = refl
  group_members-Says name (num n) h = refl
  group_members-Says name (str s) h = refl
  group_members-Says name (func f) h = refl
  group_members-Says name (obj fs) h = refl

  group_leaf-Says :
      (ref : String × String) (principal : Value)
      → plain_ref ref ≡ true
      → Says e row (group_leaf ref principal) (in_group e row principal ref)
  unfolding group_leaf in_group
  group_leaf-Says (name, from) principal h =
      group_members-Says name (prop principal from) (logical-none (logical name) h)

  mutual
    unfolding compile_leaf permits is_plain any_branches

    compile_leaf-Says :
        (principal : Value) (operation : String) (leaf : ScopeSugarLeaf)
        → is_plain leaf ≡ true
        → is_create operation ≡ false
        → Says e row (compile_leaf principal operation leaf) (permits e row principal leaf)
    compile_leaf-Says principal operation deny h c = refl
    compile_leaf-Says principal operation allow h c = refl
    compile_leaf-Says principal operation unscoped h c = refl
    compile_leaf-Says principal operation other h c = refl
    compile_leaf-Says principal operation (own ref) h c =
        compare_leaf-Says (ref_of ref "id") principal operation h c
    compile_leaf-Says principal operation (tenant ref) h c =
        compare_leaf-Says (ref_of ref "tenantId") principal operation h c
    compile_leaf-Says principal operation (group ref) h c =
        group_leaf-Says (ref_of ref "groupIds") principal h
    compile_leaf-Says principal operation (any_of leaves) h c =
        any_live-Says _ (compile_leaves principal operation leaves)
          (permits_each e row principal leaves) refl
          (compile_leaves-Says principal operation leaves h c)
    compile_leaf-Says principal operation (all_of leaves) h c =
        all_branches-Says (compile_leaves principal operation leaves)
          (permits_each e row principal leaves) (compile_leaves-Says principal operation leaves h c)

    compile_leaves-Says :
        (principal : Value) (operation : String) (leaves : Leaves)
        → each_plain leaves ≡ true
        → is_create operation ≡ false
        → SaysEach e row
            (compile_leaves principal operation leaves)
            (permits_each e row principal leaves)
    compile_leaves-Says principal operation no_leaves h c = tt
    compile_leaves-Says principal operation (leaf_of leaf leaves) h c =
        let both = (and-eq-true_iff (is_plain leaf) (each_plain leaves)).0 h in
        (
          compile_leaf-Says principal operation leaf both.0 c,
          compile_leaves-Says principal operation leaves both.1 c,
        )

  -- The rows that a compiled scope lets through.
  abbrev pub lets_through : LeafResult → Option Bool
  lets_through denied = some false
  lets_through nothing = some true
  lets_through (part none set) = some true
  lets_through (part (some w) set) = match_where e row w

  abbrev pub forced : LeafResult → Option (Dict Value)
  forced (part w set) = set
  forced r = none

  Says-through :
      (r : LeafResult) (b : Bool) → Says e row r b → (lets_through r ≡ some b) × (forced r ≡ none)
  Says-through denied b h = (rw (h) refl, refl)
  Says-through nothing b h = (rw (h) refl, refl)
  Says-through (part none set) b h = ground arith
  Says-through (part (some w) (some set)) b h = ground arith
  Says-through (part (some w) none) b h = (h, refl)

  -- On a read, an update or a delete, the scope that a leaf compiles to lets a row through exactly
  -- when the leaf, read off the rules tree, permits it: own and tenant where the field equals what the
  -- principal has, group where it is one of the principal's, any where one branch does, all where
  -- every branch does. It forces nothing. The leaf's fields are named like no combinator.
  pub compile_leaf-means :
      (principal : Value) (operation : String) (leaf : ScopeSugarLeaf)
      → is_plain leaf ≡ true
      → is_create operation ≡ false
      → (lets_through (compile_leaf principal operation leaf) ≡ some (permits e row principal leaf))
        × (forced (compile_leaf principal operation leaf) ≡ none)
  compile_leaf-means principal operation leaf h c =
      Says-through (compile_leaf principal operation leaf) (permits e row principal leaf)
        (compile_leaf-Says principal operation leaf h c)
