-- ===== src/Gate/Examples.antt =====
-- The theorems about packages/utilize/src/gate.ts at concrete inputs, and tests of its functions.
use gqlize.Common.{
  String, true, false, Option, none, some, List, [], ◌∷◌, ok, err, ◌≡◌, ◌≢◌, ◌↔◌, ◌⊎◌, refl,
  contains, keys, lookup, put, map_result,
}
use gqlize.Js.Value.{Value, undefined, bool, num, str, arr, obj, nil, cons, end, field}
use gqlize.Gate.Allow.{
  type_error, Predicate, predicate, Permission, member, is_allowed, WritableFieldMeta,
  input_predicate, is_field_exposed, is_input_field_writable, create_input, options_of,
  permission_keys, unknown_permission_keys,
}
use gqlize.Gate.Allowed.{
  IsSilent, Returns, is_allowed-ok_true_iff, filter_through_gate, is_field_exposed-ok_true_iff,
  is_input_field_writable-ok_true_iff, unknown_permission_keys_iff,
}
use gqlize.Gate.Where.{logical, target, normalise, merge_scope_where}
use gqlize.Gate.Merged.{normalise-same_rows, merge_scope_where-same_rows}
use gqlize.Gate.Normal.{well_formed}
use gqlize.Gate.Resolve.{unscoped, denied, outcome, and_scopes, given, as_resolved_scope}
use gqlize.Gate.Composed.{Composes, and_scopes-Composes, and_scopes-denies}
use gqlize.Valkey.Match.{Engine, Row, match_where, and_then}

-- An engine that compares nothing but equal values.
abbrev plain_engine : Engine
plain_engine = record {
  greater = λ a b. false;
  greater_eq = λ a b. false;
  less = λ a b. false;
  less_eq = λ a b. false;
  text = λ v. "";
  regexp_test = λ s f t. false;
  ends_with = λ s t. false;
  index_key = λ i. "0";
}

abbrev row : Row
row = ("ownerId", str "u1") ∷ ("state", str "open") ∷ []

abbrev owner : Value → Value
owner v = obj (field "ownerId" (obj (field "eq" v end)) end)

abbrev mine : Value
mine = owner (str "u1")

abbrev open_rows : Value
open_rows = obj (field "state" (str "open") end)

abbrev says : Value → Predicate
says v args = ok v

abbrev bag : Permission
bag = ("field", predicate (says (bool true))) ∷ ("feild", predicate (says (bool false))) ∷ []

is_allowed-ok_true_iff_example :
    (is_allowed false (some (predicate (says (num 1)))) [] ≡ ok true)
    ↔ (⊥ ⊎ (says (num 1) [] ≡ ok (bool true)))
is_allowed-ok_true_iff_example = is_allowed-ok_true_iff (some (predicate (says (num 1)))) []

filter_through_gate_test :
    (is_allowed false (some (predicate (says mine))) [] ≡ err (type_error "object"))
    × (is_allowed true (some (predicate (says mine))) [] ≡ ok true)
unfolding lookup
filter_through_gate_test =
    filter_through_gate (says mine) [] (field "ownerId" (obj (field "eq" (str "u1") end)) end) refl

is_field_exposed-ok_true_iff_test :
    (is_field_exposed false (some bag) ("secret" ∷ []) "Task" "name" ≡ ok true) ↔ (
      (contains ("secret" ∷ []) "name" ≡ false)
      × ((◌≡◌ {A = String} "name" "id")
          ⊎ (IsSilent (member (some bag) "field")
              ⊎ Returns
                  (member (some bag) "field")
                  (str "Task" ∷ str "name" ∷ undefined ∷ [])
                  (bool true))))
unfolding lookup
is_field_exposed-ok_true_iff_test =
    is_field_exposed-ok_true_iff (some bag) "Task" "name" ("secret" ∷ [])

abbrev key_meta : WritableFieldMeta
key_meta = record {
  primary_key = true;
  foreign_key = false;
  auto_populated = true;
  writable = false;
}

is_input_field_writable-ok_true_iff_test :
    (is_input_field_writable false (some bag) "Task" "id" create_input (some key_meta) ≡ ok true)
    ↔ (((false ≡ true) ⊎ (true ≡ false))
        × (IsSilent (input_predicate (some bag) create_input)
            ⊎ Returns
                (input_predicate (some bag) create_input)
                (str "Task" ∷ str "id" ∷ options_of (some bag) ∷ [])
                (bool true)))
is_input_field_writable-ok_true_iff_test =
    is_input_field_writable-ok_true_iff (some bag) "Task" "id" create_input key_meta

unknown_permission_keys_iff_test :
    (contains (unknown_permission_keys (some bag)) "feild" ≡ true)
    ↔ ((contains (keys bag) "feild" ≡ true) × (contains permission_keys "feild" ≡ false))
unknown_permission_keys_iff_test = unknown_permission_keys_iff bag "feild"

unknown_test : unknown_permission_keys (some bag) ≡ "feild" ∷ []
unfolding unknown_permission_keys
unknown_test = refl

abbrev shouted : Value
shouted = obj (field "AND" (arr (cons mine (cons open_rows nil))) end)

normalise_test : normalise shouted ≡ obj (field "and" (arr (cons mine (cons open_rows nil))) end)
unfolding normalise logical put
normalise_test = refl

normalise-same_rows_example :
    match_where plain_engine row (normalise shouted) ≡ match_where plain_engine row shouted
unfolding well_formed logical target
normalise-same_rows_example = normalise-same_rows plain_engine row shouted refl

merge_scope_where-same_rows_example :
    match_where plain_engine row (merge_scope_where open_rows mine)
    ≡ and_then (match_where plain_engine row open_rows) (match_where plain_engine row mine)
unfolding well_formed logical target
merge_scope_where-same_rows_example =
    merge_scope_where-same_rows plain_engine row open_rows mine refl

abbrev scope_bag : Permission
scope_bag = ("scope", predicate (says mine)) ∷ []

abbrev two_sources : List (Option Predicate)
two_sources = some (says mine) ∷ none ∷ some (says open_rows) ∷ []

abbrev composed : Value
composed = obj (field "where" (obj (field "and" (arr (cons mine (cons open_rows nil))) end)) end)

composed_test : and_scopes two_sources [] ≡ ok composed
unfolding and_scopes normalise logical put lookup
composed_test = refl

composed-allows : composed ≢ bool false
composed-allows e = cc

and_scopes-Composes_example : Composes [] (given two_sources) composed
and_scopes-Composes_example =
    and_scopes-Composes two_sources [] composed composed_test composed-allows

unscoped_answers : map_result (outcome []) (says undefined ∷ []) ≡ ok (unscoped ∷ [])
unfolding as_resolved_scope
unscoped_answers = refl

false_denies : outcome [] (says (bool false)) ≡ ok denied
unfolding as_resolved_scope
false_denies = refl

and_scopes-denies_example :
    and_scopes (some (says undefined) ∷ some (says (bool false)) ∷ some (says mine) ∷ []) []
    ≡ ok (bool false)
and_scopes-denies_example =
    and_scopes-denies [] (says undefined ∷ []) (unscoped ∷ []) (says (bool false))
      (some (says mine) ∷ []) unscoped_answers false_denies
