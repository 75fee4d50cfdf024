-- ===== src/Ormize/Covered.antt =====
-- What the plan of `scopeIncludePlan` (packages/ormize/src/scope.ts) can load, by the matcher of
-- packages/ormize-adapter-valkey/src/query.ts.
use gqlize.Common.{
  String, Bool, true, false, Option, none, some, Result, ok, err, ◌>>=◌, ◌≡◌, refl, sym, ◌∙◌, arith,
  Bool-cases, Result-cases, inl, inr, subst,
}
use gqlize.Js.Value.{Value, arr, obj, truthy}
use gqlize.Gate.Allow.{Error}
use gqlize.Gate.Where.{merge_scope_where}
use gqlize.Gate.Normal.{well_formed}
use gqlize.Gate.Merged.{merge_scope_where-same_rows}
use gqlize.Gate.Resolve.{ResolvedScope, unscoped, denied, scoped}
use gqlize.Valkey.Match.{Engine, Row, match_where, and_then}
use gqlize.Ormize.Includes.{
  Plan, absent, no_level, level, Level, no_relation, relation, descriptor, kept, Reader,
  denied_relation, placed, scope_include_plan, scope_level,
}

abbrev WhenOk : {A : Type 0} → (A → Type 0) → Result Error A → Type 0
WhenOk P (ok a) = P a
WhenOk P (err x) = Unit

when_ok :
    {A B : Type 0} (P : A → Type 0) (Q : B → Type 0) (m : Result Error A) (f : A → Result Error B)
    → WhenOk P m
    → ((a : A) → P a → WhenOk Q (f a))
    → WhenOk Q (m >>= f)
when_ok P Q (ok a) f p k = k a p
when_ok P Q (err x) f p k = tt

module _ (e : Engine) (row : Row) (r : Reader) where
  abbrev Matches : Value → Type 0
  Matches w = match_where e row w ≡ some true

  -- The row, where a filter of the plan selects it, is one that the target's scope lets through; no
  -- scope is unknown, and a denied target is under the filter that nothing satisfies.
  abbrev pub Through : ResolvedScope → String → Value → Type 0
  Through unscoped target w = Unit
  Through denied target w = Matches w → Matches (r.match_nothing_for target)
  Through (scoped v) target w = Matches w → Matches v.where_part

  abbrev pub ThroughResult : Result Error ResolvedScope → String → Value → Type 0
  ThroughResult (ok s) target w = Through s target w
  ThroughResult (err x) target w = true ≡ false

  abbrev pub WellFormedResult : Result Error ResolvedScope → Type 0
  WellFormedResult (ok (scoped v)) = well_formed v.where_part ≡ true
  WellFormedResult (ok unscoped) = Unit
  WellFormedResult (ok denied) = Unit
  WellFormedResult (err x) = Unit

  mutual
    pub IsCovered : Plan → Type 0
    IsCovered absent = Unit
    IsCovered no_level = Unit
    IsCovered (level l more) = IsCoveredLevel l × IsCovered more

    pub IsCoveredLevel : Level → Type 0
    IsCoveredLevel no_relation = Unit
    IsCoveredLevel (relation name (descriptor target w required inner) more) =
        ThroughResult (r.read_scope_for target) target w × (IsCovered inner × IsCoveredLevel more)

  module _ (formed : (target : String) → WellFormedResult (r.read_scope_for target))
      (formed' : (target : String) → well_formed (r.match_nothing_for target) ≡ true) where
    and_then-both : (a b : Option Bool) → and_then a b ≡ some true → b ≡ some true
    and_then-both none b h = ground arith
    and_then-both (some true) b h = h
    and_then-both (some false) b h = ground arith

    merged-through :
        (w s : Value) → well_formed s ≡ true → Matches (merge_scope_where w s) → Matches s
    merged-through w s f m =
        and_then-both (match_where e row w) (match_where e row s)
          (sym (merge_scope_where-same_rows e row w s f) ∙ m)

    match_where-falsy : (v : Value) → truthy v ≡ false → Matches v
    unfolding match_where
    match_where-falsy (arr vs) h = ground arith
    match_where-falsy (obj fs) h = ground arith
    match_where-falsy _ h = refl

    kept-IsCovered :
        (name target : String) (w : Value) (required : Option Bool) (inner : Plan)
        (s : ResolvedScope) (more : Level)
        → r.read_scope_for target ≡ ok s
        → IsCovered inner
        → IsCoveredLevel more
        → IsCoveredLevel (kept name target w required inner s more)
    unfolding kept IsCovered
    kept-IsCovered name target w required inner denied more q ci cm = cm
    kept-IsCovered name target w required inner unscoped more q ci cm =
        (subst (λ x. ThroughResult x target w) (sym q) tt, (ci, cm))
    kept-IsCovered name target w required inner (scoped v) more q ci cm =
        elim (Bool-cases (truthy v.where_part)) [
          | inl t ↦ rw (t) (
            subst (λ x. ThroughResult x target (merge_scope_where w v.where_part)) (sym q)
                (merged-through w v.where_part (subst WellFormedResult q (formed target))),
            (ci, cm),
          )
          | inr t ↦ rw (t) (
            subst (λ x. ThroughResult x target w) (sym q) (λ m. match_where-falsy v.where_part t),
            (ci, cm),
          )
        ]

    denied-IsCovered :
        (name target : String) (w : Value) (required : Option Bool) (more : Level)
        → r.read_scope_for target ≡ ok denied
        → IsCoveredLevel more
        → IsCoveredLevel (denied_relation r name target w required more)
    unfolding denied_relation IsCovered
    denied-IsCovered name target w none more q cm = cm
    denied-IsCovered name target w (some false) more q cm = cm
    denied-IsCovered name target w (some true) more q cm =
        elim (Bool-cases (truthy (r.match_nothing_for target))) [
          | inl t ↦ rw (t) (
            subst (λ x. ThroughResult x target (merge_scope_where w (r.match_nothing_for target)))
                (sym q) (merged-through w (r.match_nothing_for target) (formed' target)),
            (tt, cm),
          )
          | inr t ↦ rw (t) cm
        ]

    placed-IsCovered :
        (name target : String) (w : Value) (required : Option Bool) (s : ResolvedScope)
        (inner : Result Error Plan) (more : Result Error Level)
        → r.read_scope_for target ≡ ok s
        → WhenOk IsCovered inner
        → WhenOk IsCoveredLevel more
        → WhenOk IsCoveredLevel (placed r name target w required s inner more)
    placed-IsCovered name target w required denied inner (ok rest) q ci cm =
        denied-IsCovered name target w required rest q cm
    placed-IsCovered name target w required denied inner (err x) q ci cm = tt
    placed-IsCovered name target w required unscoped inner more q ci cm =
        when_ok IsCovered IsCoveredLevel inner _ ci (λ below cb.
          when_ok IsCoveredLevel IsCoveredLevel more _ cm
            (λ rest cr. kept-IsCovered name target w required below unscoped rest q cb cr))
    placed-IsCovered name target w required (scoped v) inner more q ci cm =
        when_ok IsCovered IsCoveredLevel inner _ ci (λ below cb.
          when_ok IsCoveredLevel IsCoveredLevel more _ cm
            (λ rest cr. kept-IsCovered name target w required below (scoped v) rest q cb cr))

    mutual
      unfolding scope_include_plan IsCovered

      plan-IsCovered : (p : Plan) → WhenOk IsCovered (scope_include_plan r p)
      plan-IsCovered absent = tt
      plan-IsCovered no_level = tt
      plan-IsCovered (level l more) =
          when_ok IsCoveredLevel IsCovered (scope_level r l) _ (level-IsCovered l) (λ mapped cl.
            when_ok IsCovered IsCovered (scope_include_plan r more) _ (plan-IsCovered more)
              (λ rest cr. (cl, cr)))

      level-IsCovered : (l : Level) → WhenOk IsCoveredLevel (scope_level r l)
      level-IsCovered no_relation = tt
      level-IsCovered (relation name (descriptor target w required inner) more) =
          elim (Result-cases (r.read_scope_for target)) [
            | inl (s, q) ↦ rw (q) (
                placed-IsCovered name target w required s (scope_include_plan r inner)
                  (scope_level r more) q (plan-IsCovered inner) (level-IsCovered more))
            | inr (x, q) ↦ rw (q) tt
          ]

    module _
        (reads : (target : String) → (s : ResolvedScope) × (r.read_scope_for target ≡ ok s)) where
      placed-returns :
          (name target : String) (w : Value) (required : Option Bool) (s : ResolvedScope)
          (below : Plan) (rest : Level)
          → (l : Level) × (placed r name target w required s (ok below) (ok rest) ≡ ok l)
      placed-returns name target w required denied below rest = (_, refl)
      placed-returns name target w required unscoped below rest = (_, refl)
      placed-returns name target w required (scoped v) below rest = (_, refl)

      mutual
        unfolding scope_include_plan

        plan-returns : (p : Plan) → (q : Plan) × (scope_include_plan r p ≡ ok q)
        plan-returns absent = (absent, refl)
        plan-returns no_level = (no_level, refl)
        plan-returns (level l more) =
            let (l', e) = level-returns l in
            let (more', e') = plan-returns more in (level l' more', rw (e, e') refl)

        level-returns : (l : Level) → (m : Level) × (scope_level r l ≡ ok m)
        level-returns no_relation = (no_relation, refl)
        level-returns (relation name (descriptor target w required inner) more) =
            let (s, e) = reads target in
            let (below, e') = plan-returns inner in
            let (rest, e'') = level-returns more in
            let (l, h) = placed-returns name target w required s below rest in
            (l, rw (e, e', e'') h)

      -- Where every read of a scope succeeds, the scoped plan is returned, and in it, at every depth, the
      -- filter of a relationship selects only rows that the read scope of its target selects; a target
      -- whose scope denies stays only under the filter that nothing satisfies. The scopes and that
      -- filter are well-formed.
      pub scope_include_plan-IsCovered :
          (p : Plan) → (q : Plan) × ((scope_include_plan r p ≡ ok q) × IsCovered q)
      scope_include_plan-IsCovered p =
          let (q, h) = plan-returns p in (q, (h, subst (WhenOk IsCovered) h (plan-IsCovered p)))
