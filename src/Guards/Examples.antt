-- ===== src/Guards/Examples.antt =====
-- The theorems about packages/utilize/src/guards.ts at concrete inputs.
use gqlize.Common.{
  ℕ, String, true, false, none, some, [], ◌∷◌, ok, ◌≡◌, ◌↔◌, ◌⊎◌, refl, arith, lookup, contains,
  if◌then◌else◌, All, eq_iff,
}
use gqlize.Js.Value.{Value, str, arr, obj, nil, cons, Fields, end, field, entries, elems}
use gqlize.Gate.Allow.{is_field_exposed, is_allowed}
use gqlize.Gate.Where.{is_empty_where, logical}
use gqlize.Guards.Checks.{
  Subject, exposed, assert_scoped_mutation, assert_filter_allowed, assert_order_allowed,
  order_field, project,
}
use gqlize.Guards.Oracle.{filter_is_no_oracle}
use gqlize.Guards.Output.{
  IsSortable, assert_scoped_mutation-ok_iff, assert_order_allowed-ok_iff, project-fields,
}
use gqlize.Valkey.Match.{Engine, Row, row_get, match_where}

abbrev engine : Engine
engine = record {
  greater = λ a b. false;
  greater_eq = λ a b. false;
  less = λ a b. false;
  less_eq = λ a b. false;
  text = λ v. "";
  regexp_test = λ s f t. false;
  ends_with = λ s t. false;
  index_key = λ i. "0";
}

-- Everything but the password hash is exposed.
abbrev subject : Subject
subject = record {
  production = false;
  permission = none;
  model = "User";
  ignore_fields = "hash" ∷ [];
}

abbrev alice : Row
alice = ("name", str "alice") ∷ ("hash", str "x") ∷ []

abbrev alice' : Row
alice' = ("name", str "alice") ∷ ("hash", str "y") ∷ []

abbrev by_name : Value
by_name = obj (field "name" (str "alice") end)

by_name-allowed : assert_filter_allowed engine.index_key subject by_name ≡ ok tt
unfolding assert_filter_allowed is_field_exposed is_allowed logical lookup
by_name-allowed = refl

same_but_hash :
    (name : String) → exposed subject name ≡ ok true → row_get alice name ≡ row_get alice' name
unfolding is_field_exposed lookup
same_but_hash name h = ground (arith, eq_iff "hash" name, eq_iff "name" name)

no_index : (i : ℕ) → row_get alice (engine.index_key i) ≡ row_get alice' (engine.index_key i)
unfolding lookup
no_index i = refl

filter_is_no_oracle_example : match_where engine alice by_name ≡ match_where engine alice' by_name
filter_is_no_oracle_example =
    filter_is_no_oracle engine subject alice alice' same_but_hash no_index by_name by_name-allowed

assert_scoped_mutation-ok_iff_test :
    (assert_scoped_mutation (obj end) false ≡ ok tt)
    ↔ ((false ≡ true) ⊎ (is_empty_where (obj end) ≡ false))
assert_scoped_mutation-ok_iff_test = assert_scoped_mutation-ok_iff (obj end) false

assert_order_allowed-ok_iff_test :
    (assert_order_allowed subject (arr (cons (str "name") (cons (str "hash") nil))) ≡ ok tt)
    ↔ All
        (λ v. IsSortable subject (order_field v))
        (elems (cons (str "name") (cons (str "hash") nil)))
assert_order_allowed-ok_iff_test =
    assert_order_allowed-ok_iff subject (cons (str "name") (cons (str "hash") nil))

abbrev alice_fields : Fields
alice_fields = field "name" (str "alice") (field "hash" (str "x") end)

project-fields_test :
    (out : Fields) × (project (some ("name" ∷ [])) (obj alice_fields) ≡ obj out)
    × (lookup "hash" (entries out)
        ≡ (if contains ("name" ∷ []) "hash" then lookup "hash" (entries alice_fields) else none))
project-fields_test = project-fields ("name" ∷ []) alice_fields "hash"
