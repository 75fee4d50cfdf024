-- ===== src/Guards/Output.antt =====
-- The other guards of packages/utilize/src/guards.ts: bulk writes, orders and the output projection.
use gqlize.Common.{
  String, Bool, true, false, none, some, List, [], ◌∷◌, contains, Dict, lookup, All, Result, ok,
  err, if◌then◌else◌, ◌==◌, ◌≡◌, ◌≢◌, ◌∙◌, ◌↔◌, ◌⊎◌, refl, ap, arith, eq_iff, Bool-cases, inl, inr,
}
use gqlize.Js.Value.{
  Value, undefined, str, arr, obj, Items, nil, cons, Fields, end, field, entries, to_fields,
  entries-to_fields, elems,
}
use gqlize.Gate.Allow.{Error}
use gqlize.Gate.Where.{is_empty_where}
use gqlize.Guards.Checks.{
  Subject, exposed, require_exposed, assert_scoped_mutation, order_field, assert_order_field,
  assert_orders, assert_order_allowed, project_entries, project,
}

-- A bulk write is let through exactly when the caller opted in or its filter is not empty, where
-- "empty" is what `isEmptyWhere` of gate.ts says of the same filter.
pub assert_scoped_mutation-ok_iff :
    (filter : Value) (opt_in : Bool)
    → (assert_scoped_mutation filter opt_in ≡ ok tt)
      ↔ ((opt_in ≡ true) ⊎ (is_empty_where filter ≡ false))
unfolding assert_scoped_mutation
assert_scoped_mutation-ok_iff (arr nil) opt_in = ground arith
assert_scoped_mutation-ok_iff (arr (cons v vs)) opt_in = ground arith
assert_scoped_mutation-ok_iff (obj end) opt_in = ground arith
assert_scoped_mutation-ok_iff (obj (field k v fs)) opt_in = ground arith
assert_scoped_mutation-ok_iff undefined opt_in = ground arith
assert_scoped_mutation-ok_iff _ opt_in = ground arith

-- An entry names a field that is exposed, or no field.
abbrev pub IsSortable : Subject → Value → Type 0
IsSortable s (str name) = (name ≡ "") ⊎ (exposed s name ≡ ok true)
IsSortable s v = Unit

field_ok : (s : Subject) (v : Value) → (assert_order_field s v ≡ ok tt) ↔ IsSortable s v
field_ok s (str name) = elim (Bool-cases (name == "")) [
  | inl e ↦ rw e ((λ _. inl ((eq_iff name "").0 e)), (λ _. refl))
  | inr e ↦ rw e (by_answer (exposed s name) name (ne e))
]
  where
    ne : (name == "") ≡ false → name ≢ ""
    ne e p = ground (arith, eq_iff name "")

    by_answer :
        (r : Result Error Bool) (n : String)
        → n ≢ ""
        → (require_exposed n r ≡ ok tt) ↔ ((n ≡ "") ⊎ (r ≡ ok true))
    by_answer (ok true) n p = ((λ _. inr refl), (λ _. refl))
    by_answer (ok false) n p = ground arith
    by_answer (err e) n p = ground arith
field_ok s _ = ((λ _. tt), (λ _. refl))

assert_orders-ok_iff :
    (s : Subject) (vs : List Value)
    → (assert_orders s vs ≡ ok tt) ↔ All (λ v. IsSortable s (order_field v)) vs
unfolding assert_orders
assert_orders-ok_iff s [] = ((λ _. tt), (λ _. refl))
assert_orders-ok_iff s (v ∷ vs) =
    ground (arith, field_ok s (order_field v), assert_orders-ok_iff s vs)

-- An order is let through exactly when each entry, or the first member of an entry that is a pair,
-- names a field that is exposed, or is the empty text or no text at all.
pub assert_order_allowed-ok_iff :
    (s : Subject) (vs : Items)
    → (assert_order_allowed s (arr vs) ≡ ok tt) ↔ All (λ v. IsSortable s (order_field v)) (elems vs)
unfolding assert_order_allowed
assert_order_allowed-ok_iff s vs = assert_orders-ok_iff s (elems vs)

lookup-project_entries :
    (names : List String) (k : String) (d : Dict Value)
    → lookup k (project_entries names d) ≡ (if contains names k then lookup k d else none)
unfolding lookup project_entries
lookup-project_entries names k [] = ground arith
lookup-project_entries names k ((j, v) ∷ d) = elim (Bool-cases (j == k)) [
  | inl e ↦
      let same : j ≡ k = (eq_iff j k).0 e in
      ground (arith, lookup-project_entries names k d, ap (contains names) same, eq_iff j k)
  | inr e ↦ ground (arith, lookup-project_entries names k d)
]

-- A projected row has exactly the allowed fields, with the values they had.
pub project-fields :
    (names : List String) (fs : Fields) (k : String)
    → (out : Fields) × (project (some names) (obj fs) ≡ obj out)
      × (lookup k (entries out) ≡ (if contains names k then lookup k (entries fs) else none))
unfolding project
project-fields names fs k = (
  to_fields (project_entries names (entries fs)),
  refl,
  ap (lookup k) (entries-to_fields _) ∙ lookup-project_entries names k (entries fs),
)
