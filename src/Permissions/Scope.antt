-- ===== src/Permissions/Scope.antt =====
-- The scope sugar of packages/utilize/src/permissions.ts: how a leaf of a rules tree becomes a filter
-- and forced values.
use gqlize.Common.{
  String, Bool, true, false, Option, none, some, List, [], ◌∷◌, Dict, put, any, if◌then◌else◌, ◌==◌,
}
use gqlize.Js.Value.{Value, undefined, arr, obj, cons, end, field, to_items, is_nullish}
use gqlize.Permissions.Gates.{prop}

-- `ScopeSugarRef`: the short form, and the long form with its optional `from`.
pub data ScopeSugarRef : Type 0 where
  short : String → ScopeSugarRef
  long : String → Option String → ScopeSugarRef

-- `ScopeSugarLeaf`; `other` is a leaf that the compiler reads as no opinion.
mutual
  pub data ScopeSugarLeaf : Type 0 where
    deny allow unscoped other : ScopeSugarLeaf
    own tenant group : ScopeSugarRef → ScopeSugarLeaf
    any_of all_of : Leaves → ScopeSugarLeaf

  pub data Leaves : Type 0 where
    no_leaves : Leaves
    leaf_of : ScopeSugarLeaf → Leaves → Leaves

-- `LeafResult`: `false`, `undefined`, or a filter and forced values, each absent or there.
pub data LeafResult : Type 0 where
  denied nothing : LeafResult
  part : Option Value → Option (Dict Value) → LeafResult

-- The field's name and the principal's; an empty `from` is falsy.
unfoldable pub ref_of : ScopeSugarRef → String → String × String
ref_of (short name) default_from = (name, default_from)
ref_of (long name none) default_from = (name, default_from)
ref_of (long name (some from)) default_from = (name, if from == "" then default_from else from)

abbrev pub is_create : String → Bool
is_create operation = operation == "create"

-- `{[name]: {[op]: v}}`
abbrev pub condition : String → String → Value → Value
condition name op v = obj (field name (obj (field op v end)) end)

unfoldable pub compare_leaf : String × String → Value → String → LeafResult
compare_leaf (name, from) principal operation =
    let value = prop principal from in
    if is_nullish value
    then denied
    else if is_create operation
    then part none (some ((name, value) ∷ []))
    else part (some (condition name "eq" value)) none

-- `value` is an array that is not empty, or the leaf denies.
abbrev pub group_members : String → Value → LeafResult
group_members name (arr (cons v vs)) = part (some (condition name "in" (arr (cons v vs)))) none
group_members name value = denied

unfoldable pub group_leaf : String × String → Value → LeafResult
group_leaf (name, from) principal = group_members name (prop principal from)

abbrev pub is_denied : LeafResult → Bool
is_denied denied = true
is_denied r = false

abbrev pub is_nothing : LeafResult → Bool
is_nothing nothing = true
is_nothing r = false

-- The filters of the branches that have one; a filter is an object, which is truthy.
unfoldable pub wheres_of : List LeafResult → List Value
wheres_of [] = []
wheres_of (part (some w) set ∷ more) = w ∷ wheres_of more
wheres_of (part none set ∷ more) = wheres_of more
wheres_of (denied ∷ more) = wheres_of more
wheres_of (nothing ∷ more) = wheres_of more

-- `branches.filter((branch) => branch !== false)`
unfoldable pub live_of : List LeafResult → List LeafResult
live_of [] = []
live_of (denied ∷ more) = live_of more
live_of (nothing ∷ more) = nothing ∷ live_of more
live_of (part w s ∷ more) = part w s ∷ live_of more

-- `Object.assign(o, set)`
unfoldable pub assign : Dict Value → Dict Value → Dict Value
assign o [] = o
assign o ((k, v) ∷ set) = assign (put k v o) set

unfoldable pub sets_of : Dict Value → List LeafResult → Dict Value
sets_of o [] = o
sets_of o (part w (some set) ∷ more) = sets_of (assign o set) more
sets_of o (part w none ∷ more) = sets_of o more
sets_of o (denied ∷ more) = sets_of o more
sets_of o (nothing ∷ more) = sets_of o more

-- The filter of several: itself for one, under a combinator for more.
abbrev pub joined : String → List Value → Value
joined name [] = undefined
joined name (w ∷ []) = w
joined name (w ∷ w' ∷ ws) = obj (field name (arr (to_items (w ∷ w' ∷ ws))) end)

abbrev pub any_where : List Value → LeafResult
any_where [] = nothing
any_where (w ∷ ws) = part (some (joined "or" (w ∷ ws))) none

abbrev pub any_live : List LeafResult → LeafResult
any_live [] = denied
any_live (b ∷ live) =
    if any is_nothing (b ∷ live) then nothing else any_where (wheres_of (b ∷ live))

unfoldable pub any_branches : List LeafResult → LeafResult
any_branches branches = any_live (live_of branches)

-- `out`, or `undefined` where it has no member
abbrev pub all_parts : List Value → Dict Value → LeafResult
all_parts [] [] = nothing
all_parts (w ∷ ws) [] = part (some (joined "and" (w ∷ ws))) none
all_parts [] (s ∷ set) = part none (some (s ∷ set))
all_parts (w ∷ ws) (s ∷ set) = part (some (joined "and" (w ∷ ws))) (some (s ∷ set))

unfoldable pub all_branches : List LeafResult → LeafResult
all_branches branches =
    if any is_denied branches then denied else all_parts (wheres_of branches) (sets_of [] branches)

module _ (principal : Value) (operation : String) where
  unfoldable mutual
    pub compile_leaf : ScopeSugarLeaf → LeafResult
    compile_leaf deny = denied
    compile_leaf allow = nothing
    compile_leaf unscoped = nothing
    compile_leaf other = nothing
    compile_leaf (own ref) = compare_leaf (ref_of ref "id") principal operation
    compile_leaf (tenant ref) = compare_leaf (ref_of ref "tenantId") principal operation
    compile_leaf (group ref) = group_leaf (ref_of ref "groupIds") principal
    compile_leaf (any_of leaves) = any_branches (compile_leaves leaves)
    compile_leaf (all_of leaves) = all_branches (compile_leaves leaves)

    pub compile_leaves : Leaves → List LeafResult
    compile_leaves no_leaves = []
    compile_leaves (leaf_of leaf leaves) = compile_leaf leaf ∷ compile_leaves leaves
