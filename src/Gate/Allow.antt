-- ===== src/Gate/Allow.antt =====
-- The build-time half of packages/utilize/src/gate.ts: the permission bag, `isAllowed`, the helpers
-- over it, the structural write guard, and the key lists.
use gqlize.Common.{
  String, Bool, true, false, not, ◌&&◌, ◌||◌, Option, none, some, List, [], ◌∷◌, ◌++◌, Dict, lookup,
  keys, keep, contains, Result, ok, err, ◌>>=◌, if◌then◌else◌, ◌==◌,
}
use gqlize.Js.Value.{Value, undefined, null, bool, str, func, arr, obj, truthy, type_of, entries}

-- What gate.ts throws. A `TypeError` of `isAllowed` carries the kind of value that came back; a
-- `ScopeConfigurationError` carries the names it complains of; `userland` is any other throw.
pub data Error : Type 0 where
  type_error : String → Error
  scope_configuration : List String → Error
  userland : String → Error

-- A predicate is a function of its argument list that may throw.
abbrev pub Predicate : Type 0
Predicate = List Value → Result Error Value

-- A member of the bag: a function, or a value that is none.
pub data Member : Type 0 where
  predicate : Predicate → Member
  plain : Value → Member

-- `Permission | undefined` is an `Option` of this.
abbrev pub Permission : Type 0
Permission = Dict Member

-- `permission?.name`
abbrev pub member : Option Permission → String → Option Member
member none name = none
member (some p) name = lookup name p

-- `permission?.options`
abbrev pub options_of : Option Permission → Value
options_of p = elim (member p "options") [ some (plain v) ↦ v | _ ↦ undefined ]

-- `result.then` is a function
abbrev pub is_promise : Value → Bool
is_promise (obj fs) = elim (lookup "then" (entries fs)) [ some (func f) ↦ true | _ ↦ false ]
is_promise v = false

-- the `kind` in the message of the `TypeError`
abbrev pub kind_of : Value → String
kind_of (arr vs) = "array"
kind_of v = if is_promise v then "promise" else type_of v

-- `undefined`, `null` or a boolean
abbrev pub is_verdict : Value → Bool
is_verdict undefined = true
is_verdict null = true
is_verdict (bool b) = true
is_verdict v = false

-- The check on what a predicate returned; `production` is `process.env.NODE_ENV === "production"`.
abbrev pub verdict : Bool → Value → Result Error Bool
verdict production r =
    if not production && not (is_verdict r) then err (type_error (kind_of r)) else ok (truthy r)

unfoldable pub is_allowed : Bool → Option Member → List Value → Result Error Bool
is_allowed production none args = ok true
is_allowed production (some (plain v)) args = ok true
is_allowed production (some (predicate f)) args = f args >>= verdict production

-- `MutationKind`
pub data MutationKind : Type 0 where
  create update delete restore : MutationKind

-- `"create" | "update"`, the kinds that have an input
pub data InputKind : Type 0 where
  create_input update_input : InputKind

-- `"query" | "mutations"`
pub data MethodTarget : Type 0 where
  query mutations : MethodTarget

pub record WritableFieldMeta : Type 0 where
  pub primary_key : Bool
  pub foreign_key : Bool
  pub auto_populated : Bool
  pub writable : Bool

unfoldable pub is_structurally_writable : Option WritableFieldMeta → Bool
is_structurally_writable none = true
is_structurally_writable (some meta) =
    if meta.writable then true else not (meta.primary_key || meta.foreign_key)

abbrev pub mutation_predicate : Option Permission → MutationKind → Option Member
mutation_predicate p create = member p "mutationCreate"
mutation_predicate p update = member p "mutationUpdate"
mutation_predicate p delete = member p "mutationDelete"
mutation_predicate p restore = member p "mutationRestore"

abbrev pub input_predicate : Option Permission → InputKind → Option Member
input_predicate p create_input = member p "mutationCreateInput"
input_predicate p update_input = member p "mutationUpdateInput"

abbrev pub class_method_predicate : Option Permission → MethodTarget → Option Member
class_method_predicate p query = member p "queryClassMethods"
class_method_predicate p mutations = member p "mutationClassMethods"

module _ (production : Bool) (p : Option Permission) where
  unfoldable pub is_model_allowed : String → Result Error Bool
  is_model_allowed model = is_allowed production (member p "model") (str model ∷ options_of p ∷ [])

  unfoldable pub is_field_allowed : String → String → Result Error Bool
  is_field_allowed model field =
      if field == "id"
      then ok true
      else is_allowed production (member p "field") (str model ∷ str field ∷ options_of p ∷ [])

  -- `definition?.ignoreFields` is a list that is empty where the source has none.
  unfoldable pub is_field_exposed : List String → String → String → Result Error Bool
  unfolding is_field_allowed
  is_field_exposed ignore_fields model field =
      if contains ignore_fields field then ok false else is_field_allowed model field

  unfoldable pub is_relationship_allowed : String → String → Value → Result Error Bool
  is_relationship_allowed model relationship target =
      is_allowed production (member p "relationship")
        (str model ∷ str relationship ∷ target ∷ options_of p ∷ [])

  unfoldable pub is_query_instance_method_allowed : String → String → Result Error Bool
  is_query_instance_method_allowed model method =
      is_allowed production (member p "queryInstanceMethods")
        (str model ∷ str method ∷ options_of p ∷ [])

  unfoldable pub is_mutation_instance_method_allowed : String → String → Result Error Bool
  is_mutation_instance_method_allowed model method =
      is_allowed production (member p "mutationInstanceMethods")
        (str model ∷ str method ∷ options_of p ∷ [])

  unfoldable pub is_query_deleted_allowed : String → Result Error Bool
  is_query_deleted_allowed model =
      is_allowed production (member p "queryDeleted") (str model ∷ options_of p ∷ [])

  unfoldable pub is_class_method_allowed : String → String → MethodTarget → Result Error Bool
  is_class_method_allowed model method target =
      is_allowed production (class_method_predicate p target)
        (str model ∷ str method ∷ options_of p ∷ [])

  unfoldable pub is_mutation_allowed : String → MutationKind → Result Error Bool
  is_mutation_allowed model kind =
      is_allowed production (mutation_predicate p kind) (str model ∷ options_of p ∷ [])

  unfoldable pub is_input_field_allowed : String → String → InputKind → Result Error Bool
  is_input_field_allowed model field kind =
      is_allowed production (input_predicate p kind) (str model ∷ str field ∷ options_of p ∷ [])

  -- `a && b`: the predicate is not called where the structural guard refuses.
  unfoldable pub is_input_field_writable :
      String → String → InputKind → Option WritableFieldMeta → Result Error Bool
  unfolding is_structurally_writable is_input_field_allowed
  is_input_field_writable model field kind meta =
      if is_structurally_writable meta then is_input_field_allowed model field kind else ok false

abbrev pub build_time_permission_keys : List String
build_time_permission_keys =
    "options" ∷ "model" ∷ "query" ∷ "queryDeleted" ∷ "mutation" ∷ "mutationCreate"
    ∷ "mutationUpdate" ∷ "mutationDelete" ∷ "mutationRestore" ∷ "mutationCreateInput"
    ∷ "mutationUpdateInput" ∷ "field" ∷ "relationship" ∷ "queryClassMethods"
    ∷ "mutationClassMethods" ∷ "queryInstanceMethods" ∷ "mutationInstanceMethods" ∷ "queryExtension"
    ∷ "mutationExtension" ∷ []

abbrev pub resolution_time_permission_keys : List String
resolution_time_permission_keys = "scope" ∷ []

abbrev pub permission_keys : List String
permission_keys = build_time_permission_keys ++ resolution_time_permission_keys

unfoldable pub unknown_permission_keys : Option Permission → List String
unknown_permission_keys none = []
unknown_permission_keys (some p) = keep (λ key. not (contains permission_keys key)) (keys p)
