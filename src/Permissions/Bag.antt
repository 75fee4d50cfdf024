-- ===== src/Permissions/Bag.antt =====
-- The scope gate and `createRoleBasedPermissions` of packages/utilize/src/permissions.ts. The merge
-- of the package `deepmerge` is a parameter, and so is what a value reads a property by.
use gqlize.Common.{
  String, Bool, true, false, not, ◌&&◌, Option, none, some, List, [], ◌∷◌, Dict, lookup, put, keys,
  any, contains, Result, ok, ◌>>=◌, if◌then◌else◌, ◌==◌,
}
use gqlize.Js.Value.{Value, undefined, bool, obj, Fields, end, field, to_fields, truthy}
use gqlize.Gate.Allow.{Error, Predicate, predicate, Permission}
use gqlize.Permissions.Gates.{prop, one_arg_gates, two_arg_gates, decide_first, decide_both, emit}
use gqlize.Permissions.Scope.{
  ScopeSugarLeaf, allow, unscoped, other, LeafResult, denied, nothing, part, compile_leaf,
}

-- `ScopeRuleNode`: one leaf for everything, or a leaf for each operation.
pub data ScopeRuleNode : Type 0 where
  whole : ScopeSugarLeaf → ScopeRuleNode
  by_operation : Dict ScopeSugarLeaf → ScopeRuleNode

pub data ScopeRules : Type 0 where
  deny_all allow_all no_scope : ScopeRules
  by_model : Dict ScopeRuleNode → ScopeRules

-- One role's rules: the nodes of the boolean gates, and the scope rules.
pub record RoleRuleTree : Type 0 where
  pub gates : Value
  pub scope : Option ScopeRules

-- What a role has: a tree, or a bare decision.
pub data RoleEntry : Type 0 where
  tree : RoleRuleTree → RoleEntry
  bare : String → RoleEntry

abbrev pub PrincipalReader : Type 0
PrincipalReader = Value → Result Error Value

-- `a || b`
abbrev pub or_value : Value → Value → Value
or_value a b = if truthy a then a else b

unfoldable pub default_principal : PrincipalReader
default_principal context = ok (
    or_value (prop context "user") (
      or_value (prop context "principal")
        (or_value (prop (prop context "req") "user") (prop (prop context "request") "user"))))

abbrev pub scope_operation_keys : List String
scope_operation_keys = "read" ∷ "write" ∷ "create" ∷ "update" ∷ "delete" ∷ []

abbrev pub most_specific : Dict ScopeSugarLeaf → String → Option ScopeSugarLeaf
most_specific m operation = elim (lookup operation m) [
  | some leaf ↦ some leaf
  | none ↦ if operation == "read" then none else lookup "write" m
]

-- An object that is no map of operations is read as a leaf, here one of no known form.
unfoldable pub leaf_for_operation : ScopeRuleNode → String → Option ScopeSugarLeaf
leaf_for_operation (whole leaf) operation = some leaf
leaf_for_operation (by_operation m) operation =
    if any (contains scope_operation_keys) (keys m) then most_specific m operation else some other

-- `leaf !== "none" && leaf !== "allow"`
abbrev pub needs_principal : ScopeSugarLeaf → Bool
needs_principal allow = false
needs_principal unscoped = false
needs_principal leaf = true

abbrev pub leaf_scope : ScopeSugarLeaf → String → Value → LeafResult
leaf_scope leaf operation principal =
    if not (truthy principal) && needs_principal leaf
    then denied
    else compile_leaf principal operation leaf

abbrev pub node_scope :
    PrincipalReader → Option ScopeSugarLeaf → String → Value → Result Error LeafResult
node_scope principal_of none operation context = ok nothing
node_scope principal_of (some leaf) operation context = do
  principal ← principal_of context
  ok (leaf_scope leaf operation principal)

-- The scope predicate, as what its leaf compiles to.
unfoldable pub scope_result :
    ScopeRules → PrincipalReader → String → String → Value → Result Error LeafResult
scope_result no_scope principal_of def_name operation context = ok nothing
scope_result allow_all principal_of def_name operation context = ok nothing
scope_result deny_all principal_of def_name operation context = ok denied
scope_result (by_model models) principal_of def_name operation context =
    elim (lookup def_name models) [
      | none ↦ ok nothing
      | some node ↦ node_scope principal_of (leaf_for_operation node operation) operation context
    ]

-- The value that stands for a result.
abbrev pub set_field : Option (Dict Value) → Fields
set_field none = end
set_field (some set) = field "set" (obj (to_fields set)) end

abbrev pub to_value : LeafResult → Value
to_value denied = bool false
to_value nothing = undefined
to_value (part none set) = obj (set_field set)
to_value (part (some w) set) = obj (field "where" w (set_field set))

abbrev pub with_scope : Option Predicate → Permission → Permission
with_scope none bag = bag
with_scope (some f) bag = put "scope" (predicate f) bag

module _ (key_of : Value → String) where
  abbrev pub scope_call : ScopeRules → PrincipalReader → List Value → Result Error LeafResult
  scope_call rules principal_of (def_name ∷ operation ∷ options ∷ context ∷ more) =
      scope_result rules principal_of (key_of def_name) (key_of operation) context
  scope_call rules principal_of (def_name ∷ operation ∷ more) =
      scope_result rules principal_of (key_of def_name) (key_of operation) undefined
  scope_call rules principal_of (def_name ∷ []) =
      scope_result rules principal_of (key_of def_name) (key_of undefined) undefined
  scope_call rules principal_of [] =
      scope_result rules principal_of (key_of undefined) (key_of undefined) undefined

  unfoldable pub build_scope_gate : Option ScopeRules → PrincipalReader → Option Predicate
  build_scope_gate none principal_of = none
  build_scope_gate (some rules) principal_of =
      some (λ args. do r ← scope_call rules principal_of args; ok (to_value r))

  -- The bag that a compiled tree gives.
  unfoldable pub bag_of : RoleRuleTree → Bool → PrincipalReader → Permission
  bag_of rules default_deny principal_of =
      let one = emit rules.gates default_deny (decide_first key_of) one_arg_gates [] in
      let two = emit rules.gates default_deny (decide_both key_of) two_arg_gates one in
      with_scope (build_scope_gate rules.scope principal_of) two

abbrev pub empty_tree : RoleRuleTree
empty_tree = record { gates = obj end; scope = none }

-- `RoleBasedPermissionOptions`
pub record RoleBasedPermissionOptions : Type 0 where
  pub default_deny : Option Bool
  pub defaults : Option RoleRuleTree
  pub principal : Option PrincipalReader

abbrev pub or_else_default {ℓ} : {A : Type ℓ} → Option A → A → A
or_else_default none d = d
or_else_default (some a) d = a

unfoldable pub compiled_rules :
    (RoleRuleTree → RoleRuleTree → RoleRuleTree) → Option RoleEntry → RoleRuleTree → RoleRuleTree
compiled_rules deepmerge (some (tree rules)) defaults = deepmerge defaults rules
compiled_rules deepmerge (some (bare decision)) defaults = empty_tree
compiled_rules deepmerge none defaults = empty_tree

unfoldable pub create_role_based_permissions :
    (Value → String)
    → (RoleRuleTree → RoleRuleTree → RoleRuleTree)
    → String
    → Dict RoleEntry
    → RoleBasedPermissionOptions
    → Permission
create_role_based_permissions key_of deepmerge role rules options =
    bag_of key_of
      (compiled_rules deepmerge (lookup role rules) (or_else_default options.defaults empty_tree))
      (or_else_default options.default_deny true)
      (or_else_default options.principal default_principal)
