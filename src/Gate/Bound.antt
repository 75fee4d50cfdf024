-- ===== src/Gate/Bound.antt =====
-- What a binding of scope parameters guarantees (`bindScopeParameters` of packages/utilize/src/gate.ts).
use gqlize.Common.{
  ℕ, suc, String, Bool, true, false, ◌&&◌, ◌||◌, Option, none, some, List, [], ◌∷◌, ◌++◌, Dict,
  keys, ok, if◌then◌else◌, ◌==◌, ◌≡◌, refl, arith, sym, ap, ◌∙◌, Bool-cases, inl, inr,
}
use gqlize.Js.Value.{
  Value, undefined, null, bool, num, str, func, arr, obj, Items, nil, cons, Fields, end, field,
}
use gqlize.Gate.Resolve.{Envelope, scoped}
use gqlize.Gate.Bind.{
  Scan, Collected, unbind, collect_condition, collect_scope_equalities, collect_fields,
  collect_indices, collect_branches, collect_items, checked, settle_binding, bind_scope_parameters,
}

-- A filter that is a conjunction of equalities, through any nesting of and.
abbrev is_equality : Value → Bool
is_equality (obj (field op v end)) = op == "eq"
is_equality (obj fs) = false
is_equality v = true

unfoldable mutual
  pub is_bindable : Value → Bool
  is_bindable (obj fs) = fields_bindable fs
  is_bindable (arr vs) = indices_bindable vs
  is_bindable v = true

  pub fields_bindable : Fields → Bool
  fields_bindable end = true
  fields_bindable (field key v fs) =
      (if key == "and"
        then branches_bindable v
        else if key == "or" || key == "not"
        then false
        else is_equality v)
      && fields_bindable fs

  pub indices_bindable : Items → Bool
  indices_bindable nil = true
  indices_bindable (cons v vs) = is_equality v && indices_bindable vs

  pub branches_bindable : Value → Bool
  branches_bindable (arr vs) = items_bindable vs
  branches_bindable (obj fs) = fields_bindable fs
  branches_bindable v = true

  pub items_bindable : Items → Bool
  items_bindable nil = true
  items_bindable (cons v vs) = is_bindable v && items_bindable vs

abbrev clean : Collected → Bool
clean c = elim c.unbindable [ [] ↦ true | u ∷ us ↦ false ]

clean-snoc :
    (us : List String) (u : String) → elim (us ++ u ∷ []) [ [] ↦ true | x ∷ xs ↦ false ] ≡ false
clean-snoc [] u = refl
clean-snoc (x ∷ us) u = refl

and-false : (b : Bool) → (b && false) ≡ false
and-false b = ground arith

and-true : (b : Bool) → (b && true) ≡ b
and-true b = ground arith

and_assoc : (a b c : Bool) → ((a && b) && c) ≡ (a && (b && c))
and_assoc a b c = ground arith

module _ (s : Scan) where
  clean-unbind : (u : String) (c : Collected) → clean (unbind u c) ≡ (clean c && false)
  clean-unbind u c = clean-snoc c.unbindable u ∙ sym (and-false (clean c))

  clean-condition :
      (key : String) (v : Value) (c : Collected)
      → clean (collect_condition s key v c) ≡ (clean c && is_equality v)
  clean-condition key (obj end) c = clean-unbind _ c
  clean-condition key (obj (field op v end)) c = elim (Bool-cases (op == "eq")) [
    | inl e ↦ rw (e) (sym (and-true (clean c)))
    | inr e ↦ rw (e) (clean-unbind _ c)
  ]
  clean-condition key (obj (field op v (field op' v' fs))) c = clean-unbind _ c
  clean-condition key (arr vs) c = sym (and-true (clean c))
  clean-condition key undefined c = sym (and-true (clean c))
  clean-condition key null c = sym (and-true (clean c))
  clean-condition key (bool b) c = sym (and-true (clean c))
  clean-condition key (num n) c = sym (and-true (clean c))
  clean-condition key (str t) c = sym (and-true (clean c))
  clean-condition key (func f) c = sym (and-true (clean c))

  mutual
    unfolding collect_scope_equalities is_bindable

    clean-collect :
        (v : Value) (c : Collected)
        → clean (collect_scope_equalities s v c) ≡ (clean c && is_bindable v)
    clean-collect (obj fs) c = clean-fields fs c
    clean-collect (arr vs) c = clean-indices 0 vs c
    clean-collect undefined c = sym (and-true (clean c))
    clean-collect null c = sym (and-true (clean c))
    clean-collect (bool b) c = sym (and-true (clean c))
    clean-collect (num n) c = sym (and-true (clean c))
    clean-collect (str t) c = sym (and-true (clean c))
    clean-collect (func f) c = sym (and-true (clean c))

    clean-fields :
        (fs : Fields) (c : Collected)
        → clean (collect_fields s fs c) ≡ (clean c && fields_bindable fs)
    clean-fields end c = sym (and-true (clean c))
    clean-fields (field key v fs) c = elim (Bool-cases (key == "and")) [
      | inl e ↦ rw (e) (
          clean-fields fs (collect_branches s v c)
          ∙ (ap (λ b. b && fields_bindable fs) (clean-branches v c)
              ∙ and_assoc (clean c) (branches_bindable v) (fields_bindable fs)))
      | inr e ↦ elim (Bool-cases (key == "or" || key == "not")) [
        | inl e' ↦
            rw (e, e')
              (clean-fields fs (unbind key c)
                ∙ (ap (λ b. b && fields_bindable fs) (clean-unbind key c)
                    ∙ and_assoc (clean c) false (fields_bindable fs)))
        | inr e' ↦
            rw (e, e')
              (clean-fields fs (collect_condition s key v c)
                ∙ (ap (λ b. b && fields_bindable fs) (clean-condition key v c)
                    ∙ and_assoc (clean c) (is_equality v) (fields_bindable fs)))
      ]
    ]

    clean-indices :
        (i : ℕ) (vs : Items) (c : Collected)
        → clean (collect_indices s i vs c) ≡ (clean c && indices_bindable vs)
    clean-indices i nil c = sym (and-true (clean c))
    clean-indices i (cons v vs) c =
        clean-indices (suc i) vs (collect_condition s (s.index_key i) v c)
        ∙ (ap (λ b. b && indices_bindable vs) (clean-condition (s.index_key i) v c)
            ∙ and_assoc (clean c) (is_equality v) (indices_bindable vs))

    clean-branches :
        (v : Value) (c : Collected)
        → clean (collect_branches s v c) ≡ (clean c && branches_bindable v)
    clean-branches (arr vs) c = clean-items vs c
    clean-branches (obj fs) c = clean-fields fs c
    clean-branches undefined c = sym (and-true (clean c))
    clean-branches null c = sym (and-true (clean c))
    clean-branches (bool b) c = sym (and-true (clean c))
    clean-branches (num n) c = sym (and-true (clean c))
    clean-branches (str t) c = sym (and-true (clean c))
    clean-branches (func f) c = sym (and-true (clean c))

    clean-items :
        (vs : Items) (c : Collected) → clean (collect_items s vs c) ≡ (clean c && items_bindable vs)
    clean-items nil c = sym (and-true (clean c))
    clean-items (cons v vs) c =
        clean-items vs (collect_scope_equalities s v c)
        ∙ (ap (λ b. b && items_bindable vs) (clean-collect v c)
            ∙ and_assoc (clean c) (is_bindable v) (items_bindable vs))

  abbrev no_names : List String → Bool
  no_names names = elim names [ [] ↦ true | x ∷ xs ↦ false ]

  checked-bound :
      (names us : List String) (b d : Dict Value)
      → checked s (names ++ us) b ≡ ok (some d)
      → no_names us ≡ true
  checked-bound [] [] b d h = refl
  checked-bound [] (u ∷ us) b d h = ground arith
  checked-bound (n ∷ names) us b d h = ground arith

  settle-bound :
      (o : Option (Dict Value × Dict (List Value))) (us : List String) (d : Dict Value)
      → settle_binding s o us ≡ ok (some d)
      → no_names us ≡ true
  settle-bound none us d h = ground arith
  settle-bound (some (b, left)) us d h = checked-bound (keys left) us b d h

  -- Where the parameters of a raw query are bound, rather than the query denied or refused, the scope's
  -- filter is a conjunction of equalities: one with or, not, or another operator is never bound in part.
  pub bind_scope_parameters-bound :
      (query : Option String) (args : List String) (scope : Envelope) (d : Dict Value)
      → bind_scope_parameters s query args (scoped scope) ≡ ok (some d)
      → is_bindable scope.where_part ≡ true
  unfolding bind_scope_parameters
  bind_scope_parameters-bound query args scope d h =
      let start : Collected = record { into = []; unbindable = [] } in
      sym (clean-collect scope.where_part start) ∙ settle-bound _ _ d h
