-- ===== src/Gate/Merged.antt =====
-- What `normaliseScopeWhere` and `mergeScopeWhere` of packages/utilize/src/gate.ts do to the meaning
-- of a filter, by the matcher of packages/ormize-adapter-valkey/src/query.ts.
use gqlize.Common.{
  Bool, true, false, Option, none, some, ◌≡◌, ◌∙◌, refl, sym, ap, arith, Bool-cases, inl, inr,
}
use gqlize.Js.Value.{Value, arr, obj, nil, cons, end, field}
use gqlize.Gate.Where.{conj, normalise, is_empty_where, both, merge_scope_where}
use gqlize.Valkey.Match.{Engine, Row, match_where, and_then}
use gqlize.Gate.Normal.{well_formed, logical-name_of, match_where-normalise}

and_then-true : (m : Option Bool) → and_then m (some true) ≡ m
and_then-true none = refl
and_then-true (some true) = refl
and_then-true (some false) = refl

module _ (e : Engine) (row : Row) where
  match_where-empty : (v : Value) → is_empty_where v ≡ true → match_where e row v ≡ some true
  unfolding match_where
  match_where-empty (arr nil) h = refl
  match_where-empty (arr (cons v vs)) h = ground arith
  match_where-empty (obj end) h = refl
  match_where-empty (obj (field k v fs)) h = ground arith
  match_where-empty _ h = refl

  match_where-both :
      (u s : Value)
      → match_where e row (both u s) ≡ and_then (match_where e row u) (match_where e row s)
  unfolding match_where
  match_where-both u s =
      rw (logical-name_of conj)
        (and_then-true _ ∙ ap (and_then (match_where e row u)) (and_then-true _))

  -- Normalising a scope's filter does not change which rows it matches, if no two of its keys are
  -- written to one place and no array stands where a filter should.
  pub normalise-same_rows :
      (v : Value) → well_formed v ≡ true → match_where e row (normalise v) ≡ match_where e row v
  normalise-same_rows v h = match_where-normalise e row v h

  -- A row matches the merged filter exactly when it matches the caller's and the scope's, whatever
  -- the caller sent: neither half can displace the other.
  pub merge_scope_where-same_rows :
      (user scope : Value)
      → well_formed scope ≡ true
      → match_where e row (merge_scope_where user scope)
        ≡ and_then (match_where e row user) (match_where e row scope)
  unfolding merge_scope_where
  merge_scope_where-same_rows user scope h = elim (Bool-cases (is_empty_where scope)) [
    | inl none_set ↦ rw (none_set, match_where-empty scope none_set) (sym (and_then-true _))
    | inr set ↦ elim (Bool-cases (is_empty_where user)) [
      | inl bare ↦ rw (set, bare, match_where-empty user bare) (match_where-normalise e row scope h)
      | inr given ↦
          rw (set, given)
            (match_where-both user (normalise scope)
              ∙ ap (and_then (match_where e row user)) (match_where-normalise e row scope h))
    ]
  ]
