-- ===== src/Gate/BindExamples.antt =====
-- The theorem about the binding of scope parameters (packages/utilize/src/gate.ts) at a concrete query.
use gqlize.Common.{true, some, [], ◌∷◌, ok, ◌≡◌, refl, lookup, put, remove, ◌==◌, if◌then◌else◌}
use gqlize.Js.Value.{undefined, str, obj, end, field}
use gqlize.Gate.Resolve.{Envelope, scoped}
use gqlize.Gate.Bind.{
  Scan, bind_scope_parameters, bind_each, scope_parameters_in, collect_scope_equalities,
}
use gqlize.Gate.Bound.{bind_scope_parameters-bound, is_bindable}

-- A query that names one parameter.
abbrev scan : Scan
scan = record {
  match_all = λ query. "scopeOwnerId" ∷ [];
  is_scope_name = λ name. name == "scopeOwnerId";
  lowercase = λ word. if word == "OwnerId" then "ownerId" else word;
  index_key = λ i. "0";
  operators = λ key names. key;
}

abbrev owned : Envelope
owned = record {
  where_part = obj (field "ownerId" (obj (field "eq" (str "u1") end)) end);
  set_part = undefined;
  native_part = undefined;
}

owned-binds :
    bind_scope_parameters scan (some "select") [] (scoped owned)
    ≡ ok (some (("scopeOwnerId", str "u1") ∷ []))
unfolding bind_scope_parameters lookup bind_each scope_parameters_in collect_scope_equalities put
    remove
owned-binds = refl

bind_scope_parameters-bound_example : is_bindable owned.where_part ≡ true
bind_scope_parameters-bound_example =
    bind_scope_parameters-bound scan (some "select") [] owned (("scopeOwnerId", str "u1") ∷ [])
      owned-binds
