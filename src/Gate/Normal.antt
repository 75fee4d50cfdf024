-- ===== src/Gate/Normal.antt =====
-- `normaliseScopeWhere` of packages/utilize/src/gate.ts keeps the meaning of a filter: the induction.
use mathlib.Core.Path.{ap₂}
use gqlize.Common.{
  String, Bool, true, false, not, ◌&&◌, Option, none, some, List, [], ◌∷◌, ◌++◌, Dict, lookup, put,
  put_fresh, lookup-put, contains, ◌≡◌, ◌∙◌, refl, sym, ap, arith, eq_iff, Option-cases, inl, inr,
  and-eq-true_iff, append_assoc, append-nil,
}
use gqlize.Js.Value.{
  Value, undefined, null, bool, num, str, func, arr, obj, Items, nil, cons, Fields, end, field,
  entries, to_fields, to_fields-entries,
}
use gqlize.Gate.Where.{
  Logic, conj, disj, neg, logical, name_of, target, normalise, normalise_items, normalise_fields,
}
use gqlize.Valkey.Match.{
  Engine, Row, match_where, match_fields, match_every, match_some, every_item, some_item,
  match_field, and_then, or_else, negate,
}

-- The keys that `normaliseScopeWhere` writes for an object, in order.
abbrev targets : Fields → List String
targets end = []
targets (field k v fs) = target k ∷ targets fs

-- A filter in which, at every level that the normalisation enters, no two keys are written to the
-- same place and no array stands where a filter should.
unfoldable mutual
  pub well_formed : Value → Bool
  well_formed (obj fs) = well_formed_fields fs
  well_formed (arr vs) = false
  well_formed v = true

  pub well_formed_list : Value → Bool
  well_formed_list (arr vs) = well_formed_items vs
  well_formed_list v = true

  pub well_formed_items : Items → Bool
  well_formed_items nil = true
  well_formed_items (cons v vs) = well_formed v && well_formed_items vs

  pub well_formed_fields : Fields → Bool
  well_formed_fields end = true
  well_formed_fields (field k v fs) =
      not (contains (targets fs) (target k))
      && (elim (logical k) [
        | some neg ↦ well_formed v
        | some conj ↦ well_formed_list v
        | some disj ↦ well_formed_list v
        | none ↦ true
      ])
      && well_formed_fields fs

-- The object with each key normalised in place.
renamed : Fields → Fields
renamed end = end
renamed (field k v fs) =
    field (target k) (elim (logical k) [ some l ↦ normalise v | none ↦ v ]) (renamed fs)

pub logical-name_of : (l : Logic) → logical (name_of l) ≡ some l
unfolding logical
logical-name_of conj = refl
logical-name_of disj = refl
logical-name_of neg = refl

split_and : (a b c : Bool) → (not a && b && c) ≡ true → (a ≡ false) × (b ≡ true) × (c ≡ true)
split_and a b c h = ground arith

-- What holds of the first entry of a well-formed filter.
abbrev value_ok : Option Logic → Value → Bool
value_ok l v = elim l [
  | some neg ↦ well_formed v
  | some conj ↦ well_formed_list v
  | some disj ↦ well_formed_list v
  | none ↦ true
]

well_formed_fields-cons :
    (k : String) (v : Value) (fs : Fields)
    → well_formed_fields (field k v fs) ≡ true
    → (contains (targets fs) (target k) ≡ false)
      × (value_ok (logical k) v ≡ true)
      × (well_formed_fields fs ≡ true)
unfolding well_formed_fields
well_formed_fields-cons k v fs h = split_and _ _ _ h

module _ (v : Value) (vs : Items) (h : well_formed_items (cons v vs) ≡ true) where
  first : well_formed v ≡ true
  unfolding well_formed
  first = ((and-eq-true_iff _ _).0 h).0

  second : well_formed_items vs ≡ true
  unfolding well_formed
  second = ((and-eq-true_iff _ _).0 h).1

-- None of the places that an object's keys are written to is taken yet.
abbrev Fresh : Dict Value → Fields → Type 0
Fresh out end = Unit
Fresh out (field k v fs) = (lookup (target k) out ≡ none) × Fresh out fs

Fresh-put :
    (t : String) (v : Value) (out : Dict Value) (fs : Fields)
    → contains (targets fs) t ≡ false
    → Fresh out fs
    → Fresh (put t v out) fs
Fresh-put t v out end h f = tt
Fresh-put t v out (field k w fs) h (p, f) = (
  ground (arith, lookup-put t (target k) v out, eq_iff t (target k), eq_iff (target k) t),
  Fresh-put t v out fs (ground arith) f,
)

-- One round of the loop is one write.
round :
    (out : Dict Value) (k : String) (v : Value)
    → (elim (logical k) [ some l ↦ put (name_of l) (normalise v) out | none ↦ put k v out ])
      ≡ put (target k) (elim (logical k) [ some l ↦ normalise v | none ↦ v ]) out
unfolding target
round out k v = ground arith

Fresh-nil : (fs : Fields) → Fresh [] fs
unfolding lookup
Fresh-nil end = tt
Fresh-nil (field k v fs) = (refl, Fresh-nil fs)

normalise_fields-eq-renamed :
    (out : Dict Value) (fs : Fields)
    → well_formed_fields fs ≡ true
    → Fresh out fs
    → normalise_fields out fs ≡ out ++ entries (renamed fs)
unfolding normalise_fields renamed
normalise_fields-eq-renamed out end h f = sym (append-nil out)
normalise_fields-eq-renamed out (field k v fs) h (p, f) =
    let v' = elim (logical k) as (λ _. Value) [ some l ↦ normalise v | none ↦ v ] in
    let (new, valued, rest) = well_formed_fields-cons k v fs h in
    ap (λ o. normalise_fields o fs) (round out k v)
    ∙ normalise_fields-eq-renamed (put (target k) v' out) fs rest
        (Fresh-put (target k) v' out fs new f)
    ∙ ap (λ o. o ++ entries (renamed fs)) (put_fresh (target k) v' out p)
    ∙ append_assoc out ((target k, v') ∷ []) (entries (renamed fs))

target_of_none : (k : String) → logical k ≡ none → target k ≡ k
unfolding target
target_of_none k e = rw (e, target)

target_of_some : (k : String) (l : Logic) → logical k ≡ some l → target k ≡ name_of l
unfolding target
target_of_some k l e = rw (e, target)

logical-target : (k : String) → logical (target k) ≡ logical k
logical-target k = elim (Option-cases (logical k)) [
  | inl e ↦ ap logical (target_of_none k e)
  | inr (l, e) ↦ ap logical (target_of_some k l e) ∙ logical-name_of l ∙ sym e
]

module _ (e : Engine) (row : Row) where
  -- What one key asks of the row.
  abbrev key_match : Option Logic → String → Value → Option Bool
  key_match l key v = elim l [
    | some conj ↦ match_every e row v
    | some disj ↦ match_some e row v
    | some neg ↦ negate (match_where e row v)
    | none ↦ some (match_field e row key v)
  ]

  key_match-renamed :
      (k : String) (v : Value) (l : Option Logic)
      → logical k ≡ l
      → value_ok l v ≡ true
      → (well_formed_list v ≡ true → match_every e row (normalise v) ≡ match_every e row v)
      → (well_formed_list v ≡ true → match_some e row (normalise v) ≡ match_some e row v)
      → (well_formed v ≡ true → match_where e row (normalise v) ≡ match_where e row v)
      → key_match
          (logical (target k))
          (target k)
          (elim (logical k) [ some l' ↦ normalise v | none ↦ v ])
        ≡ key_match (logical k) k v
  key_match-renamed k v (some conj) p h every some_of whole = rw (logical-target k, p) (every h)
  key_match-renamed k v (some disj) p h every some_of whole = rw (logical-target k, p) (some_of h)
  key_match-renamed k v (some neg) p h every some_of whole =
      rw (logical-target k, p) (ap negate (whole h))
  key_match-renamed k v none p h every some_of whole =
      rw (logical-target k, p) (ap (λ t. some (match_field e row t v)) (target_of_none k p))

  mutual
    unfolding match_where normalise renamed well_formed

    pub match_where-normalise :
        (v : Value) → well_formed v ≡ true → match_where e row (normalise v) ≡ match_where e row v
    match_where-normalise (obj fs) h =
        ap (λ d. match_fields e row (to_fields d))
          (normalise_fields-eq-renamed [] fs h (Fresh-nil fs))
        ∙ ap (match_fields e row) (to_fields-entries (renamed fs))
        ∙ match_fields-renamed fs h
    match_where-normalise (arr vs) h = ground arith
    match_where-normalise undefined h = refl
    match_where-normalise null h = refl
    match_where-normalise (bool b) h = refl
    match_where-normalise (num n) h = refl
    match_where-normalise (str s) h = refl
    match_where-normalise (func f) h = refl

    match_every-normalise :
        (v : Value)
        → well_formed_list v ≡ true
        → match_every e row (normalise v) ≡ match_every e row v
    match_every-normalise (arr vs) h = every_item-normalise vs h
    match_every-normalise (obj fs) h = refl
    match_every-normalise undefined h = refl
    match_every-normalise null h = refl
    match_every-normalise (bool b) h = refl
    match_every-normalise (num n) h = refl
    match_every-normalise (str s) h = refl
    match_every-normalise (func f) h = refl

    match_some-normalise :
        (v : Value)
        → well_formed_list v ≡ true
        → match_some e row (normalise v) ≡ match_some e row v
    match_some-normalise (arr vs) h = some_item-normalise vs h
    match_some-normalise (obj fs) h = refl
    match_some-normalise undefined h = refl
    match_some-normalise null h = refl
    match_some-normalise (bool b) h = refl
    match_some-normalise (num n) h = refl
    match_some-normalise (str s) h = refl
    match_some-normalise (func f) h = refl

    every_item-normalise :
        (vs : Items)
        → well_formed_items vs ≡ true
        → every_item e row (normalise_items vs) ≡ every_item e row vs
    every_item-normalise nil h = refl
    every_item-normalise (cons v vs) h =
        ap₂ and_then (match_where-normalise v (first v vs h))
          (every_item-normalise vs (second v vs h))

    some_item-normalise :
        (vs : Items)
        → well_formed_items vs ≡ true
        → some_item e row (normalise_items vs) ≡ some_item e row vs
    some_item-normalise nil h = refl
    some_item-normalise (cons v vs) h =
        ap₂ or_else (match_where-normalise v (first v vs h))
          (some_item-normalise vs (second v vs h))

    match_fields-renamed :
        (fs : Fields)
        → well_formed_fields fs ≡ true
        → match_fields e row (renamed fs) ≡ match_fields e row fs
    match_fields-renamed end h = refl
    match_fields-renamed (field k v fs) h =
        let (new, valued, rest) = well_formed_fields-cons k v fs h in
        ap₂ and_then
          (key_match-renamed k v (logical k) refl valued (match_every-normalise v)
            (match_some-normalise v) (match_where-normalise v))
          (match_fields-renamed fs rest)
