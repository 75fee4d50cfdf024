-- ===== src/Permissions/Sugar.antt =====
-- What the scope sugar of packages/utilize/src/permissions.ts means for the rows of a read, an update
-- or a delete, by the matcher of packages/ormize-adapter-valkey/src/query.ts.
use gqlize.Common.{
  String, Bool, true, false, not, ◌&&◌, ◌||◌, Option, none, some, List, [], ◌∷◌, any, ◌≡◌, refl,
  sym, arith,
}
use gqlize.Js.Value.{Value, arr, to_items, strict_eq, is_nullish, elems}
use gqlize.Gate.Where.{disj, conj}
use gqlize.Gate.Normal.{logical-name_of}
use gqlize.Valkey.Match.{
  Engine, Row, row_get, match_where, and_then, or_else, some_item, every_item, includes,
}
use gqlize.Permissions.Gates.{prop}
use gqlize.Permissions.Scope.{
  ScopeSugarLeaf, deny, allow, unscoped, other, own, tenant, group, any_of, all_of, Leaves,
  no_leaves, leaf_of, LeafResult, denied, nothing, part, ref_of, is_nothing, wheres_of, live_of,
  joined,
}

abbrev pub any_true : List Bool → Bool
any_true [] = false
any_true (b ∷ bs) = b || any_true bs

abbrev pub all_true : List Bool → Bool
all_true [] = true
all_true (b ∷ bs) = b && all_true bs

pub and_then-true : (m : Option Bool) → and_then m (some true) ≡ m
and_then-true none = refl
and_then-true (some true) = refl
and_then-true (some false) = refl

module _ (e : Engine) (row : Row) where
  -- What a leaf says of the row, read off the rules tree.
  unfoldable pub holds_for : Value → String × String → Bool
  holds_for principal (name, from) =
      let value = prop principal from in
      not (is_nullish value) && strict_eq (row_get row name) value

  abbrev pub is_one_of : Value → Value → Bool
  is_one_of v (arr vs) = includes v (elems vs)
  is_one_of v value = false

  unfoldable pub in_group : Value → String × String → Bool
  in_group principal (name, from) = is_one_of (row_get row name) (prop principal from)

  unfoldable mutual
    pub permits : Value → ScopeSugarLeaf → Bool
    permits principal deny = false
    permits principal allow = true
    permits principal unscoped = true
    permits principal other = true
    permits principal (own ref) = holds_for principal (ref_of ref "id")
    permits principal (tenant ref) = holds_for principal (ref_of ref "tenantId")
    permits principal (group ref) = in_group principal (ref_of ref "groupIds")
    permits principal (any_of leaves) = any_true (permits_each principal leaves)
    permits principal (all_of leaves) = all_true (permits_each principal leaves)

    pub permits_each : Value → Leaves → List Bool
    permits_each principal no_leaves = []
    permits_each principal (leaf_of leaf leaves) =
        permits principal leaf ∷ permits_each principal leaves

  -- A result that says `b` of the row and forces nothing.
  abbrev pub Says : LeafResult → Bool → Type 0
  Says denied b = b ≡ false
  Says nothing b = b ≡ true
  Says (part (some w) none) b = match_where e row w ≡ some b
  Says (part (some w) (some set)) b = true ≡ false
  Says (part none set) b = true ≡ false

  abbrev pub SaysEach : List LeafResult → List Bool → Type 0
  SaysEach [] [] = Unit
  SaysEach (r ∷ rs) (b ∷ bs) = Says r b × SaysEach rs bs
  SaysEach [] (b ∷ bs) = true ≡ false
  SaysEach (r ∷ rs) [] = true ≡ false

  -- the denied branches of an alternation say nothing
  pub some_item-wheres :
      (rs : List LeafResult) (bs : List Bool)
      → SaysEach rs bs
      → any is_nothing (live_of rs) ≡ false
      → some_item e row (to_items (wheres_of (live_of rs))) ≡ some (any_true bs)
  unfolding some_item wheres_of live_of
  some_item-wheres [] [] h n = refl
  some_item-wheres [] (b ∷ bs) h n = ground arith
  some_item-wheres (r ∷ rs) [] h n = ground arith
  some_item-wheres (denied ∷ rs) (b ∷ bs) (h, hs) n = rw (h) (some_item-wheres rs bs hs n)
  some_item-wheres (nothing ∷ rs) (b ∷ bs) (h, hs) n = ground arith
  some_item-wheres (part none set ∷ rs) (b ∷ bs) (h, hs) n = ground arith
  some_item-wheres (part (some w) (some set) ∷ rs) (b ∷ bs) (h, hs) n = ground arith
  some_item-wheres (part (some w) none ∷ rs) (true ∷ bs) (h, hs) n = rw (h) refl
  some_item-wheres (part (some w) none ∷ rs) (false ∷ bs) (h, hs) n =
      rw (h) (some_item-wheres rs bs hs n)

  pub any_true-nothing :
      (rs : List LeafResult) (bs : List Bool)
      → SaysEach rs bs
      → any is_nothing (live_of rs) ≡ true
      → any_true bs ≡ true
  unfolding live_of
  any_true-nothing [] bs h n = ground arith
  any_true-nothing (r ∷ rs) [] h n = ground arith
  any_true-nothing (denied ∷ rs) (b ∷ bs) (h, hs) n = rw (h) (any_true-nothing rs bs hs n)
  any_true-nothing (nothing ∷ rs) (b ∷ bs) (h, hs) n = rw (h) refl
  any_true-nothing (part none set ∷ rs) (b ∷ bs) (h, hs) n = ground arith
  any_true-nothing (part (some w) set ∷ rs) (true ∷ bs) (h, hs) n = refl
  any_true-nothing (part (some w) set ∷ rs) (false ∷ bs) (h, hs) n = any_true-nothing rs bs hs n

  or_else-false : (m : Option Bool) → or_else m (some false) ≡ m
  or_else-false none = refl
  or_else-false (some true) = refl
  or_else-false (some false) = refl

  pub match_where-or :
      (w : Value) (ws : List Value)
      → match_where e row (joined "or" (w ∷ ws)) ≡ some_item e row (to_items (w ∷ ws))
  unfolding match_where some_item
  match_where-or w [] = sym (or_else-false _)
  match_where-or w (w' ∷ ws) = rw (logical-name_of disj) (and_then-true _)

  pub match_where-and :
      (w : Value) (ws : List Value)
      → match_where e row (joined "and" (w ∷ ws)) ≡ every_item e row (to_items (w ∷ ws))
  unfolding match_where every_item
  match_where-and w [] = sym (and_then-true _)
  match_where-and w (w' ∷ ws) = rw (logical-name_of conj) (and_then-true _)
