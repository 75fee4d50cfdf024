-- ===== src/Permissions/Gates.antt =====
-- The boolean gates of packages/utilize/src/permissions.ts: how a rules node decides and which rules
-- keys a gate consults. A rules tree is a JavaScript value; `undefined` is an absent node.
use gqlize.Common.{
  String, Bool, true, false, not, Option, none, some, List, [], ◌∷◌, ◌++◌, Dict, lookup, put, keys,
  keep, contains, if◌then◌else◌, ◌==◌, ok,
}
use gqlize.Js.Value.{Value, undefined, bool, str, obj, entries}
use gqlize.Gate.Allow.{Predicate, predicate, Permission}

-- `node[name]` of an object; a rules node is no array
unfoldable pub prop : Value → String → Value
prop (obj fs) name = elim (lookup name (entries fs)) [ some v ↦ v | none ↦ undefined ]
prop v name = undefined

abbrev pub is_defined : Value → Bool
is_defined undefined = false
is_defined v = true

unfoldable pub decide_key : Value → Option Bool
decide_key (str s) = if s == "deny" then some false else if s == "allow" then some true else none
decide_key v = none

-- `a` where it is an opinion, else `b`
abbrev pub or_opinion : Option Bool → Option Bool → Option Bool
or_opinion none b = b
or_opinion (some a) b = some a

unfoldable pub decide_one : Value → String → Option Bool
decide_one node name = or_opinion (decide_key node) (decide_key (prop node name))

unfoldable pub decide_two : Value → String → String → Option Bool
decide_two node model name =
    let model_node = prop node model in
    or_opinion (decide_key node)
      (or_opinion (decide_key model_node) (decide_key (prop model_node name)))

abbrev pub one_arg_gates : Dict (List String)
one_arg_gates =
    ("model", "model" ∷ [])
    ∷ ("query", "query" ∷ [])
    ∷ ("mutation", "mutation" ∷ [])
    ∷ ("mutationCreate", "mutationCreate" ∷ [])
    ∷ ("mutationUpdate", "mutationUpdate" ∷ [])
    ∷ ("mutationDelete", "mutationDelete" ∷ [])
    ∷ ("queryDeleted", "queryDeleted" ∷ [])
    ∷ ("mutationRestore", "mutationRestore" ∷ [])
    ∷ ("queryExtension", "queryExtension" ∷ "extensions" ∷ [])
    ∷ ("mutationExtension", "mutationExtension" ∷ "extensions" ∷ [])
    ∷ []

abbrev pub two_arg_gates : Dict (List String)
two_arg_gates =
    ("field", "field" ∷ [])
    ∷ ("relationship", "relationship" ∷ [])
    ∷ ("queryClassMethods", "queryClassMethods" ∷ [])
    ∷ ("mutationClassMethods", "mutationClassMethods" ∷ [])
    ∷ ("queryInstanceMethods", "queryInstanceMethods" ∷ [])
    ∷ ("mutationInstanceMethods", "mutationInstanceMethods" ∷ [])
    ∷ ("mutationCreateInput", "mutationCreateInput" ∷ "field" ∷ [])
    ∷ ("mutationUpdateInput", "mutationUpdateInput" ∷ "field" ∷ [])
    ∷ []

-- `Object.values(gates).flat()`
abbrev pub flat : Dict (List String) → List String
flat [] = []
flat ((gate, chain) ∷ more) = chain ++ flat more

abbrev pub known_rule_keys : List String
known_rule_keys = flat one_arg_gates ++ flat two_arg_gates ++ "scope" ∷ []

unfoldable pub unknown_rule_keys : Value → List String
unknown_rule_keys (obj rules) =
    keep (λ key. not (contains known_rule_keys key)) (keys (entries rules))
unknown_rule_keys rules = []

-- `ROLE_BASED_GATES`
abbrev pub role_based_gates : List String
role_based_gates = keys one_arg_gates ++ keys two_arg_gates ++ "scope" ∷ []

-- How a gate reads a node, given the arguments of the call.
abbrev pub Decide : Type 0
Decide = Value → List Value → Option Bool

-- The names a gate is called with; `key_of` is what JavaScript reads a property by for a value.
unfoldable pub decide_first : (Value → String) → Decide
decide_first key_of node [] = decide_one node (key_of undefined)
decide_first key_of node (name ∷ more) = decide_one node (key_of name)

unfoldable pub decide_both : (Value → String) → Decide
decide_both key_of node [] = decide_two node (key_of undefined) (key_of undefined)
decide_both key_of node (model ∷ []) = decide_two node (key_of model) (key_of undefined)
decide_both key_of node (model ∷ name ∷ more) = decide_two node (key_of model) (key_of name)

-- the loop of the predicate over its rules keys
unfoldable pub first_opinion : Value → Decide → List Value → List String → Option Bool
first_opinion rules decide args [] = none
first_opinion rules decide args (key ∷ more) =
    or_opinion (decide (prop rules key) args) (first_opinion rules decide args more)

abbrev pub settled : Option Bool → Bool → Bool
settled (some b) default_deny = b
settled none default_deny = not default_deny

abbrev pub gate_of : Value → Bool → Decide → List String → Option Predicate
gate_of rules default_deny decide [] = if default_deny then some (λ args. ok (bool false)) else none
gate_of rules default_deny decide (key ∷ more) =
    some (λ args. ok (bool (settled (first_opinion rules decide args (key ∷ more)) default_deny)))

unfoldable pub build_gate : Value → List String → Bool → Decide → Option Predicate
build_gate rules chain default_deny decide =
    gate_of rules default_deny decide (keep (λ key. is_defined (prop rules key)) chain)

-- One of the two loops that fill the bag.
unfoldable pub emit : Value → Bool → Decide → Dict (List String) → Permission → Permission
emit rules default_deny decide [] bag = bag
emit rules default_deny decide ((gate, chain) ∷ more) bag =
    emit rules default_deny decide more (elim (build_gate rules chain default_deny decide) [
      | some f ↦ put gate (predicate f) bag
      | none ↦ bag
    ])
