-- ===== src/Guards/Checks.antt =====
-- The guards of packages/utilize/src/guards.ts. A host's `fail` throws, so a guard is a result; the
-- error is the guard's own refusal, or what a permission predicate threw.
use gqlize.Common.{
  ℕ, suc, String, Bool, true, false, not, ◌&&◌, Option, none, some, List, [], ◌∷◌, contains, keep,
  Result, ok, err, ◌>>◌, if◌then◌else◌, ◌==◌, Dict,
}
use gqlize.Js.Value.{
  Value, undefined, str, arr, obj, Items, nil, cons, Fields, end, field, entries, to_fields, elems,
}
use gqlize.Gate.Allow.{Error, Permission, is_field_exposed}
use gqlize.Gate.Where.{logical}

pub data GuardFailure : Type 0 where
  read_only : GuardFailure
  denied_field : String → GuardFailure
  unscoped_mutation : GuardFailure

pub data Refusal : Type 0 where
  guard_failed : GuardFailure → Refusal
  predicate_threw : Error → Refusal

abbrev pub Check : Type 0
Check = Result Refusal (Unit {0})

unfoldable pub assert_writable : Bool → Check
assert_writable read_only_host = if read_only_host then err (guard_failed read_only) else ok tt

-- `where && typeof where === "object" && Object.keys(where).length > 0`
abbrev pub has_filter : Value → Bool
has_filter (arr (cons v vs)) = true
has_filter (obj (field k v fs)) = true
has_filter v = false

unfoldable pub assert_scoped_mutation : Value → Bool → Check
assert_scoped_mutation filter opt_in =
    if not (has_filter filter) && not opt_in then err (guard_failed unscoped_mutation) else ok tt

-- Whose fields are checked: the bag, the model and the definition's `ignoreFields`; and the name
-- of an array index.
pub record Subject : Type 0 where
  pub production : Bool
  pub permission : Option Permission
  pub model : String
  pub ignore_fields : List String

abbrev pub exposed : Subject → String → Result Error Bool
exposed s name = is_field_exposed s.production s.permission s.ignore_fields s.model name

abbrev pub require_exposed : String → Result Error Bool → Check
require_exposed name (ok true) = ok tt
require_exposed name (ok false) = err (guard_failed (denied_field name))
require_exposed name (err e) = err (predicate_threw e)

module _ (index_key : ℕ → String) (s : Subject) where
  unfoldable mutual
    pub assert_filter_allowed : Value → Check
    assert_filter_allowed (obj fs) = assert_fields fs
    assert_filter_allowed (arr vs) = assert_indices 0 vs
    assert_filter_allowed v = ok tt

    -- one round for each key
    pub assert_fields : Fields → Check
    assert_fields end = ok tt
    assert_fields (field key v fs) =
        (elim (logical key) [
          | some l ↦ assert_branch v
          | none ↦ require_exposed key (exposed s key)
        ])
        >> assert_fields fs

    -- an array in the place of a filter: its indices are the keys
    pub assert_indices : ℕ → Items → Check
    assert_indices i nil = ok tt
    assert_indices i (cons v vs) =
        require_exposed (index_key i) (exposed s (index_key i)) >> assert_indices (suc i) vs

    -- the value of a combinator
    pub assert_branch : Value → Check
    assert_branch (arr vs) = assert_items vs
    assert_branch (obj fs) = assert_fields fs
    assert_branch v = ok tt

    pub assert_items : Items → Check
    assert_items nil = ok tt
    assert_items (cons v vs) = assert_filter_allowed v >> assert_items vs

-- `Array.isArray(entry) ? entry[0] : entry`
abbrev pub order_field : Value → Value
order_field (arr nil) = undefined
order_field (arr (cons v vs)) = v
order_field v = v

abbrev pub assert_order_field : Subject → Value → Check
assert_order_field s (str name) =
    if name == "" then ok tt else require_exposed name (exposed s name)
assert_order_field s v = ok tt

unfoldable pub assert_orders : Subject → List Value → Check
assert_orders s [] = ok tt
assert_orders s (entry ∷ rest) = assert_order_field s (order_field entry) >> assert_orders s rest

unfoldable pub assert_order_allowed : Subject → Value → Check
unfolding assert_orders
assert_order_allowed s (arr vs) = assert_orders s (elems vs)
assert_order_allowed s v = ok tt

-- The entries whose key is allowed.
unfoldable pub project_entries : List String → Dict Value → Dict Value
project_entries allowed d = keep (λ e. contains allowed e.0) d

unfoldable mutual
  -- An absent set of names leaves the value alone.
  pub project : Option (List String) → Value → Value
  project allowed (arr vs) = arr (project_items allowed vs)
  project none (obj fs) = obj fs
  project (some names) (obj fs) = obj (to_fields (project_entries names (entries fs)))
  project allowed v = v

  pub project_items : Option (List String) → Items → Items
  project_items allowed nil = nil
  project_items allowed (cons v vs) = cons (project allowed v) (project_items allowed vs)
