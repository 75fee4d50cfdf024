-- ===== src/Valkey/Conditions.antt =====
-- Conditions on one field in packages/ormize-adapter-valkey/src/query.ts: what `scalarOf` reads of a
-- condition, against what `matchField` asks of a row.
use gqlize.Common.{
  String, Bool, true, false, not, ◌&&◌, none, some, List, ◌==◌, ◌≡◌, refl, sym, ap, ◌∙◌, subst,
  arith, eq_iff, Bool-cases, inl, inr, and-eq-true_iff, if◌then◌else◌,
}
use gqlize.Js.Value.{
  Value, undefined, null, bool, num, str, func, arr, obj, nil, cons, Fields, end, field, strict_eq,
  strict_eq_sound,
}
use gqlize.Valkey.Match.{Engine, Row, row_get, includes, match_op, match_ops, match_field}
use gqlize.Valkey.Plan.{scalar_of, member_of, list_of, is_test, other_ops, is_undefined}

-- The order of the sides does not matter to `===`.
pub strict_eq_comm : (a b : Value) → strict_eq a b ≡ strict_eq b a
strict_eq_comm a b = elim (Bool-cases (strict_eq a b)) [
  | inl h ↦ h ∙ sym (turn a b (strict_eq_sound a b h) h)
  | inr h ↦ elim (Bool-cases (strict_eq b a)) [
    | inl k ↦ turn b a (strict_eq_sound b a k) k ∙ sym k
    | inr k ↦ h ∙ sym k
  ]
]
  where
    turn : (a b : Value) → a ≡ b → strict_eq a b ≡ true → strict_eq b a ≡ true
    turn a b p h = subst (λ c. strict_eq c a ≡ true) p (subst (λ c. strict_eq a c ≡ true) (sym p) h)

abbrev no_test : Fields → Bool
no_test end = true
no_test (field op v fs) = not (is_test op) && no_test fs

-- Of `eq` and `in`, a condition has one at most, and once.
abbrev pub one_test : Fields → Bool
one_test end = true
one_test (field op v fs) = if is_test op then no_test fs else one_test fs

abbrev pub has_one_test : Value → Bool
has_one_test (obj fs) = one_test fs
has_one_test v = true

ops_end : (fs : Fields) → other_ops fs ≡ false → no_test fs ≡ true → fs ≡ end
ops_end end h k = refl
ops_end (field op v fs) h k = ground arith

module _ (e : Engine) where
  match_eq :
      (value : Value) (op : String) (t : Value)
      → (op == "eq") ≡ true
      → match_op e value op t ≡ strict_eq value t
  unfolding match_op
  match_eq value op t h = rw (h)

  match_in_list :
      (value t : Value) (vs : List Value)
      → list_of t ≡ some vs
      → match_op e value "in" t ≡ includes value vs
  unfolding match_op
  match_in_list value (arr ws) vs k =
      ap (λ o. elim o [ some us ↦ includes value us | none ↦ true ]) k
  match_in_list value undefined vs k = cc
  match_in_list value null vs k = cc
  match_in_list value (bool b) vs k = cc
  match_in_list value (num n) vs k = cc
  match_in_list value (str s) vs k = cc
  match_in_list value (func f) vs k = cc
  match_in_list value (obj fs) vs k = cc

  match_in :
      (value : Value) (op : String) (t : Value) (vs : List Value)
      → (op == "in") ≡ true
      → list_of t ≡ some vs
      → match_op e value op t ≡ includes value vs
  match_in value op t vs h k =
      ap (λ o. match_op e value o t) ((eq_iff op "in").0 h) ∙ match_in_list value t vs k

  -- A condition with one test and nothing else is that test.
  only_test :
      (value : Value) (op : String) (t : Value) (fs : Fields)
      → other_ops (field op t fs) ≡ false
      → one_test (field op t fs) ≡ true
      → (is_test op ≡ true) × (fs ≡ end)
  only_test value op t fs o h =
      let test : is_test op ≡ true = ground (arith) in
      (test, ops_end fs (ground (arith)) (ground (arith)))

  eq_exact :
      (value : Value) (fs : Fields)
      → is_undefined (member_of "eq" fs) ≡ false
      → other_ops fs ≡ false
      → one_test fs ≡ true
      → match_ops e value fs ≡ strict_eq value (member_of "eq" fs)
  eq_exact value end h o t = ground arith
  eq_exact value (field op v fs) h o t =
      let alone = (only_test value op v fs o t).1 in
      elim (Bool-cases (op == "eq")) [
        | inl q ↦ ground (arith, match_eq value op v q, ap (match_ops e value) alone)
        | inr q ↦ ground (arith, ap (λ f. is_undefined (member_of "eq" f)) alone)
      ]

  eq_implied :
      (value : Value) (fs : Fields)
      → is_undefined (member_of "eq" fs) ≡ false
      → match_ops e value fs ≡ true
      → strict_eq value (member_of "eq" fs) ≡ true
  eq_implied value end h m = ground arith
  eq_implied value (field op v fs) h m = elim (Bool-cases (op == "eq")) [
    | inl q ↦ ground (arith, match_eq value op v q)
    | inr q ↦ ground (arith, eq_implied value fs)
  ]

  in_exact :
      (value : Value) (fs : Fields) (vs : List Value)
      → list_of (member_of "in" fs) ≡ some vs
      → other_ops fs ≡ false
      → one_test fs ≡ true
      → match_ops e value fs ≡ includes value vs
  in_exact value end vs k o t = cc
  in_exact value (field op v fs) vs k o t =
      let alone = (only_test value op v fs o t).1 in
      elim (Bool-cases (op == "in")) [
        | inl q ↦
            ground
              (arith, match_in value op v vs q (here op v fs vs q k), ap (match_ops e value) alone)
        | inr q ↦
            no_list vs (sym (ap (λ f. list_of (member_of "in" f)) alone) ∙ later op v fs vs q k)
      ]
    where
      here :
          (op : String) (v : Value) (fs : Fields) (vs : List Value)
          → (op == "in") ≡ true
          → list_of (member_of "in" (field op v fs)) ≡ some vs
          → list_of v ≡ some vs
      here op v fs vs q k = sym (ap (λ b. list_of (if b then v else member_of "in" fs)) q) ∙ k

      later :
          (op : String) (v : Value) (fs : Fields) (vs : List Value)
          → (op == "in") ≡ false
          → list_of (member_of "in" (field op v fs)) ≡ some vs
          → list_of (member_of "in" fs) ≡ some vs
      later op v fs vs q k = sym (ap (λ b. list_of (if b then v else member_of "in" fs)) q) ∙ k

      no_list : {A : Type 0} (vs : List Value) → none ≡ some vs → A
      no_list vs h = cc

  in_implied :
      (value : Value) (fs : Fields) (vs : List Value)
      → list_of (member_of "in" fs) ≡ some vs
      → match_ops e value fs ≡ true
      → includes value vs ≡ true
  in_implied value end vs k m = cc
  in_implied value (field op v fs) vs k m = elim (Bool-cases (op == "in")) [
    | inl q ↦ ground (
      arith,
      match_in value op v vs q (sym (ap (λ b. list_of (if b then v else member_of "in" fs)) q) ∙ k),
    )
    | inr q ↦
        in_implied value fs vs (sym (ap (λ b. list_of (if b then v else member_of "in" fs)) q) ∙ k)
          ((and-eq-true_iff (match_op e value op v) (match_ops e value fs)).0 m).1
  ]

  -- What the plan reads of a condition, against what the condition asks.
  pub scalar-eq_exact :
      (row : Row) (key : String) (cond : Value)
      → is_undefined (scalar_of cond).eq ≡ false
      → (scalar_of cond).has_other ≡ false
      → has_one_test cond ≡ true
      → match_field e row key cond ≡ strict_eq (row_get row key) (scalar_of cond).eq
  unfolding scalar_of match_field
  scalar-eq_exact row key (obj fs) h o t = eq_exact (row_get row key) fs h o t
  scalar-eq_exact row key (arr nil) h o t = ground arith
  scalar-eq_exact row key (arr (cons v vs)) h o t = ground arith
  scalar-eq_exact row key undefined h o t = refl
  scalar-eq_exact row key null h o t = refl
  scalar-eq_exact row key (bool b) h o t = refl
  scalar-eq_exact row key (num n) h o t = refl
  scalar-eq_exact row key (str s) h o t = refl
  scalar-eq_exact row key (func f) h o t = refl

  pub scalar-eq_implied :
      (row : Row) (key : String) (cond : Value)
      → is_undefined (scalar_of cond).eq ≡ false
      → match_field e row key cond ≡ true
      → strict_eq (row_get row key) (scalar_of cond).eq ≡ true
  unfolding scalar_of match_field
  scalar-eq_implied row key (obj fs) h m = eq_implied (row_get row key) fs h m
  scalar-eq_implied row key (arr nil) h m = ground arith
  scalar-eq_implied row key (arr (cons v vs)) h m = ground arith
  scalar-eq_implied row key undefined h m = m
  scalar-eq_implied row key null h m = m
  scalar-eq_implied row key (bool b) h m = m
  scalar-eq_implied row key (num n) h m = m
  scalar-eq_implied row key (str s) h m = m
  scalar-eq_implied row key (func f) h m = m

  pub scalar-in_exact :
      (row : Row) (key : String) (cond : Value) (vs : List Value)
      → (scalar_of cond).among ≡ some vs
      → (scalar_of cond).has_other ≡ false
      → has_one_test cond ≡ true
      → match_field e row key cond ≡ includes (row_get row key) vs
  unfolding scalar_of match_field
  scalar-in_exact row key (obj fs) vs k o t = in_exact (row_get row key) fs vs k o t
  scalar-in_exact row key (arr nil) vs k o t = cc
  scalar-in_exact row key (arr (cons v ws)) vs k o t = cc
  scalar-in_exact row key undefined vs k o t = cc
  scalar-in_exact row key null vs k o t = cc
  scalar-in_exact row key (bool b) vs k o t = cc
  scalar-in_exact row key (num n) vs k o t = cc
  scalar-in_exact row key (str s) vs k o t = cc
  scalar-in_exact row key (func f) vs k o t = cc

  pub scalar-in_implied :
      (row : Row) (key : String) (cond : Value) (vs : List Value)
      → (scalar_of cond).among ≡ some vs
      → match_field e row key cond ≡ true
      → includes (row_get row key) vs ≡ true
  unfolding scalar_of match_field
  scalar-in_implied row key (obj fs) vs k m = in_implied (row_get row key) fs vs k m
  scalar-in_implied row key (arr nil) vs k m = cc
  scalar-in_implied row key (arr (cons v ws)) vs k m = cc
  scalar-in_implied row key undefined vs k m = cc
  scalar-in_implied row key null vs k m = cc
  scalar-in_implied row key (bool b) vs k m = cc
  scalar-in_implied row key (num n) vs k m = cc
  scalar-in_implied row key (str s) vs k m = cc
  scalar-in_implied row key (func f) vs k m = cc
