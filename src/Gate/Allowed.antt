-- ===== src/Gate/Allowed.antt =====
-- What the build-time gates of packages/utilize/src/gate.ts guarantee.
use gqlize.Common.{
  ◌∙◌, ap, String, Bool, true, false, not, ◌&&◌, ◌||◌, Option, none, some, List, [], ◌∷◌, ◌≡◌, ◌↔◌,
  ◌⊎◌, inl, inr, refl, ok, err, ◌>>=◌, contains, keys, keep, arith, eq_iff, ◌==◌, Result-cases,
  Bool-cases,
}
use gqlize.Js.Value.{Fields, Value, undefined, null, bool, str, obj}
use gqlize.Gate.Allow.{
  Predicate, Member, predicate, plain, Permission, member, is_allowed, verdict, is_field_exposed,
  options_of, InputKind, WritableFieldMeta, input_predicate, is_input_field_writable,
  permission_keys, unknown_permission_keys, type_error, kind_of,
}

verdict-true : (r : Value) → verdict false r ≡ ok true → r ≡ bool true
verdict-true (bool true) h = refl
verdict-true (bool false) h = cc
verdict-true undefined h = cc
verdict-true null h = cc
verdict-true _ h = cc

-- A member lets a call through without being asked: it is absent, or no function.
abbrev pub IsSilent : Option Member → Type 0
IsSilent none = Unit
IsSilent (some (plain v)) = Unit
IsSilent (some (predicate f)) = ⊥

-- The predicate was called and returned the given value.
abbrev pub Returns : Option Member → List Value → Value → Type 0
Returns (some (predicate f)) args v = f args ≡ ok v
Returns m args v = ⊥

-- Outside production a gate allows exactly when there is no predicate, or the predicate returned
-- the boolean `true` itself: nothing that merely coerces to true is let through.
pub is_allowed-ok_true_iff :
    (m : Option Member) (args : List Value)
    → (is_allowed false m args ≡ ok true) ↔ (IsSilent m ⊎ Returns m args (bool true))
unfolding is_allowed
is_allowed-ok_true_iff none args = (λ _. inl tt, λ _. refl)
is_allowed-ok_true_iff (some (plain v)) args = (λ _. inl tt, λ _. refl)
is_allowed-ok_true_iff (some (predicate f)) args = (to, from)
  where
    to : (f args >>= verdict false) ≡ ok true → ⊥ ⊎ (f args ≡ ok (bool true))
    to h = elim (Result-cases (f args)) [
      | inl (r, e) ↦ inr (e ∙ ap ok (verdict-true r (ground arith)))
      | inr (x, e) ↦ ground arith
    ]

    from : ⊥ ⊎ (f args ≡ ok (bool true)) → (f args >>= verdict false) ≡ ok true
    from (inl x) = elim x [ ]
    from (inr e) = ground arith

-- A row-level filter that is routed through a gate by mistake throws outside production, and inside
-- production it coerces to an unrestricted "allowed".
pub filter_through_gate :
    (f : Predicate) (args : List Value) (fs : Fields)
    → f args ≡ ok (obj fs)
    → (is_allowed false (some (predicate f)) args ≡ err (type_error (kind_of (obj fs))))
      × (is_allowed true (some (predicate f)) args ≡ ok true)
unfolding is_allowed
filter_through_gate f args fs h = ground arith

module _ (p : Option Permission) (model field : String) where
  -- Outside production a field is exposed exactly when the definition does not ignore it and it is
  -- `id`, or the `field` gate has no predicate, or its predicate returned `true` itself.
  pub is_field_exposed-ok_true_iff :
      (ignored : List String)
      → (is_field_exposed false p ignored model field ≡ ok true) ↔ (
          (contains ignored field ≡ false)
          × ((field ≡ "id")
              ⊎ (IsSilent (member p "field")
                  ⊎ Returns
                      (member p "field")
                      (str model ∷ str field ∷ options_of p ∷ [])
                      (bool true))))
  unfolding is_field_exposed
  is_field_exposed-ok_true_iff ignored = ground (
    arith,
    eq_iff field "id",
    is_allowed-ok_true_iff (member p "field") (str model ∷ str field ∷ options_of p ∷ []),
  )

  -- Outside production a field is writable input exactly when it opted in with `writable`, or is
  -- neither a primary nor a foreign key, and the gate for the kind of input has no predicate or
  -- its predicate returned `true`. No predicate can make a key column writable.
  pub is_input_field_writable-ok_true_iff :
      (kind : InputKind) (meta : WritableFieldMeta)
      → (is_input_field_writable false p model field kind (some meta) ≡ ok true) ↔ (
          ((meta.writable ≡ true) ⊎ ((meta.primary_key || meta.foreign_key) ≡ false))
          × (IsSilent (input_predicate p kind)
              ⊎ Returns
                  (input_predicate p kind)
                  (str model ∷ str field ∷ options_of p ∷ [])
                  (bool true)))
  unfolding is_input_field_writable
  is_input_field_writable-ok_true_iff kind meta = ground (
    arith,
    is_allowed-ok_true_iff (input_predicate p kind) (str model ∷ str field ∷ options_of p ∷ []),
  )

and-not_iff : (a b : Bool) → ((a && not b) ≡ true) ↔ ((a ≡ true) × (b ≡ false))
and-not_iff a b = ground arith

contains-keep :
    (q : String → Bool) (xs : List String) (k : String)
    → contains (keep q xs) k ≡ (contains xs k && q k)
contains-keep q [] k = refl
contains-keep q (x ∷ xs) k = elim (Bool-cases (x == k)) [
  | inl e ↦ let same : x ≡ k = (eq_iff x k).0 e in ground (arith, contains-keep q xs k, eq_iff x k)
  | inr e ↦ ground (arith, contains-keep q xs k, eq_iff x k)
]

-- The keys reported as unknown are exactly the keys of the bag that are in neither key list.
pub unknown_permission_keys_iff :
    (p : Permission) (key : String)
    → (contains (unknown_permission_keys (some p)) key ≡ true)
      ↔ ((contains (keys p) key ≡ true) × (contains permission_keys key ≡ false))
unfolding unknown_permission_keys
unknown_permission_keys_iff p key =
    rw (contains-keep (λ k. not (contains permission_keys k)) (keys p) key)
      (and-not_iff (contains (keys p) key) (contains permission_keys key))
