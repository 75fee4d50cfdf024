-- ===== src/Guards/Oracle.antt =====
-- A filter that `assertFilterAllowed` of packages/utilize/src/guards.ts lets through is no oracle for a
-- field that is not exposed: the matcher of packages/ormize-adapter-valkey/src/query.ts cannot tell
-- rows apart that agree on the exposed fields.
use mathlib.Core.Path.{ap₂}
use gqlize.Common.{
  ℕ, suc, String, Bool, true, false, Option, none, some, Result, ok, err, ◌>>◌, ◌≡◌, refl, ap,
  arith,
}
use gqlize.Js.Value.{
  Value, undefined, null, bool, num, str, func, arr, obj, Items, nil, cons, Fields, end, field,
  strict_eq,
}
use gqlize.Gate.Allow.{Error}
use gqlize.Gate.Where.{Logic, conj, disj, neg, logical}
use gqlize.Guards.Checks.{
  Check, Subject, exposed, require_exposed, assert_filter_allowed, assert_fields, assert_branch,
  assert_items,
}
use gqlize.Valkey.Match.{
  Engine, Row, row_get, match_field, match_ops, match_where, match_fields, match_indices,
  match_every, match_some, every_item, some_item, and_then, or_else, negate,
}

-- What a passed sequence of two checks says.
both_passed : (a b : Check) → (a >> b) ≡ ok tt → (a ≡ ok tt) × (b ≡ ok tt)
both_passed (ok tt) b h = (refl, h)
both_passed (err e) b h = ground arith

passed : (name : String) (r : Result Error Bool) → require_exposed name r ≡ ok tt → r ≡ ok true
passed name (ok true) h = refl
passed name (ok false) h = ground arith
passed name (err e) h = ground arith

match_field-agree :
    (e : Engine) (r r' : Row) (name : String) (cond : Value)
    → row_get r name ≡ row_get r' name
    → match_field e r name cond ≡ match_field e r' name cond
unfolding match_field
match_field-agree e r r' name (obj ops) h = ap (λ v. match_ops e v ops) h
match_field-agree e r r' name (arr nil) h = refl
match_field-agree e r r' name (arr (cons v vs)) h = refl
match_field-agree e r r' name undefined h = ap (λ v. strict_eq v undefined) h
match_field-agree e r r' name null h = ap (λ v. strict_eq v null) h
match_field-agree e r r' name (bool b) h = ap (λ v. strict_eq v (bool b)) h
match_field-agree e r r' name (num n) h = ap (λ v. strict_eq v (num n)) h
match_field-agree e r r' name (str t) h = ap (λ v. strict_eq v (str t)) h
match_field-agree e r r' name (func f) h = ap (λ v. strict_eq v (func f)) h

module _ (e : Engine) (s : Subject) (r r' : Row)
    (agree : (name : String) → exposed s name ≡ ok true → row_get r name ≡ row_get r' name)
    (agree_index : (i : ℕ) → row_get r (e.index_key i) ≡ row_get r' (e.index_key i)) where
  match_indices-agree : (i : ℕ) (vs : Items) → match_indices e r i vs ≡ match_indices e r' i vs
  unfolding match_where
  match_indices-agree i nil = refl
  match_indices-agree i (cons v vs) =
      ap₂ and_then (ap some (match_field-agree e r r' (e.index_key i) v (agree_index i)))
        (match_indices-agree (suc i) vs)

  -- What one key asks of a row, and of the guard, by the kind of the key.
  abbrev key_match : Row → Option Logic → String → Value → Option Bool
  key_match row l key v = elim l [
    | some conj ↦ match_every e row v
    | some disj ↦ match_some e row v
    | some neg ↦ negate (match_where e row v)
    | none ↦ some (match_field e row key v)
  ]

  abbrev key_check : Option Logic → String → Value → Check
  key_check l key v = elim l [
    | some x ↦ assert_branch e.index_key s v
    | none ↦ require_exposed key (exposed s key)
  ]

  key_match-agree :
      (l : Option Logic) (key : String) (v : Value)
      → key_check l key v ≡ ok tt
      → (assert_branch e.index_key s v ≡ ok tt → match_every e r v ≡ match_every e r' v)
      → (assert_branch e.index_key s v ≡ ok tt → match_some e r v ≡ match_some e r' v)
      → (assert_branch e.index_key s v ≡ ok tt → match_where e r v ≡ match_where e r' v)
      → key_match r l key v ≡ key_match r' l key v
  key_match-agree (some conj) key v h every some_of whole = every h
  key_match-agree (some disj) key v h every some_of whole = some_of h
  key_match-agree (some neg) key v h every some_of whole = ap negate (whole h)
  key_match-agree none key v h every some_of whole =
      ap some (match_field-agree e r r' key v (agree key (passed key (exposed s key) h)))

  mutual
    unfolding match_where assert_filter_allowed

    match_where-agree :
        (v : Value)
        → assert_filter_allowed e.index_key s v ≡ ok tt
        → match_where e r v ≡ match_where e r' v
    match_where-agree (obj fs) h = match_fields-agree fs h
    match_where-agree (arr vs) h = match_indices-agree 0 vs
    match_where-agree undefined h = refl
    match_where-agree null h = refl
    match_where-agree (bool b) h = refl
    match_where-agree (num n) h = refl
    match_where-agree (str t) h = refl
    match_where-agree (func f) h = refl

    branch-agree :
        (v : Value) → assert_branch e.index_key s v ≡ ok tt → match_where e r v ≡ match_where e r' v
    branch-agree (obj fs) h = match_fields-agree fs h
    branch-agree (arr vs) h = match_indices-agree 0 vs
    branch-agree undefined h = refl
    branch-agree null h = refl
    branch-agree (bool b) h = refl
    branch-agree (num n) h = refl
    branch-agree (str t) h = refl
    branch-agree (func f) h = refl

    match_every-agree :
        (v : Value) → assert_branch e.index_key s v ≡ ok tt → match_every e r v ≡ match_every e r' v
    match_every-agree (arr vs) h = every_item-agree vs h
    match_every-agree undefined h = refl
    match_every-agree null h = refl
    match_every-agree (bool b) h = refl
    match_every-agree (num n) h = refl
    match_every-agree (str t) h = refl
    match_every-agree (func f) h = refl
    match_every-agree (obj fs) h = refl

    match_some-agree :
        (v : Value) → assert_branch e.index_key s v ≡ ok tt → match_some e r v ≡ match_some e r' v
    match_some-agree (arr vs) h = some_item-agree vs h
    match_some-agree undefined h = refl
    match_some-agree null h = refl
    match_some-agree (bool b) h = refl
    match_some-agree (num n) h = refl
    match_some-agree (str t) h = refl
    match_some-agree (func f) h = refl
    match_some-agree (obj fs) h = refl

    every_item-agree :
        (vs : Items)
        → assert_items e.index_key s vs ≡ ok tt
        → every_item e r vs ≡ every_item e r' vs
    every_item-agree nil h = refl
    every_item-agree (cons v vs) h =
        let (p, q) = both_passed _ _ h in
        ap₂ and_then (match_where-agree v p) (every_item-agree vs q)

    some_item-agree :
        (vs : Items) → assert_items e.index_key s vs ≡ ok tt → some_item e r vs ≡ some_item e r' vs
    some_item-agree nil h = refl
    some_item-agree (cons v vs) h =
        let (p, q) = both_passed _ _ h in ap₂ or_else (match_where-agree v p) (some_item-agree vs q)

    match_fields-agree :
        (fs : Fields)
        → assert_fields e.index_key s fs ≡ ok tt
        → match_fields e r fs ≡ match_fields e r' fs
    match_fields-agree end h = refl
    match_fields-agree (field key v fs) h =
        let (p, q) = both_passed _ _ h in
        ap₂ and_then
          (key_match-agree (logical key) key v p (match_every-agree v) (match_some-agree v)
            (branch-agree v))
          (match_fields-agree fs q)

  -- Two rows that agree on every exposed field, and on any field named like an array index, match
  -- a filter that the guard passed alike: its row count says nothing of a field that is denied.
  pub filter_is_no_oracle :
      (filter : Value)
      → assert_filter_allowed e.index_key s filter ≡ ok tt
      → match_where e r filter ≡ match_where e r' filter
  filter_is_no_oracle filter h = match_where-agree filter h
