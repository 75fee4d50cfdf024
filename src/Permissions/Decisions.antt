-- ===== src/Permissions/Decisions.antt =====
-- What the boolean gates of packages/utilize/src/permissions.ts answer, read through `isAllowed` of
-- packages/utilize/src/gate.ts.
use gqlize.Common.{
  String, Bool, true, false, not, ◌&&◌, Option, none, some, List, [], ◌∷◌, Dict, lookup, put, keys,
  keep, is_some, Result, ok, if◌then◌else◌, ◌==◌, ◌≡◌, refl, sym, ap, ◌∙◌, arith, eq_iff,
  lookup-put, Bool-cases, inl, inr, subst, and-eq-true_iff, all,
}
use gqlize.Js.Value.{Value, undefined}
use gqlize.Gate.Allow.{Error, Predicate, Member, predicate, Permission, is_allowed, member}
use gqlize.Permissions.Gates.{
  prop, is_defined, Decide, one_arg_gates, two_arg_gates, decide_first, decide_both, decide_one,
  decide_two, decide_key, first_opinion, settled, gate_of, build_gate, emit, or_opinion,
}
use gqlize.Permissions.Bag.{RoleRuleTree, PrincipalReader, build_scope_gate, with_scope, bag_of}

-- A gate that is silent on an absent node, as both are.
abbrev IsSilent : Decide → Type 0
IsSilent decide = (args : List Value) → decide undefined args ≡ none

decide_first-IsSilent : (key_of : Value → String) → IsSilent (decide_first key_of)
unfolding decide_first decide_one decide_key prop
decide_first-IsSilent key_of [] = refl
decide_first-IsSilent key_of (a ∷ args) = refl

decide_both-IsSilent : (key_of : Value → String) → IsSilent (decide_both key_of)
unfolding decide_both decide_two decide_key prop
decide_both-IsSilent key_of [] = refl
decide_both-IsSilent key_of (a ∷ []) = refl
decide_both-IsSilent key_of (a ∷ b ∷ args) = refl

abbrev member_or : Option Predicate → Option Member → Option Member
member_or (some f) m = some (predicate f)
member_or none m = m

module _ (rules : Value) (decide : Decide) (silent : IsSilent decide) where
  is_defined-false : (v : Value) (args : List Value) → is_defined v ≡ false → decide v args ≡ none
  is_defined-false undefined args h = silent args
  is_defined-false _ args h = ground arith

  first_opinion-present :
      (args : List Value) (chain : List String)
      → first_opinion rules decide args (keep (λ key. is_defined (prop rules key)) chain)
        ≡ first_opinion rules decide args chain
  unfolding first_opinion
  first_opinion-present args [] = refl
  first_opinion-present args (key ∷ chain) = elim (Bool-cases (is_defined (prop rules key))) [
    | inl e ↦
        rw (e) (ap (or_opinion (decide (prop rules key) args)) (first_opinion-present args chain))
    | inr e ↦ rw (e, is_defined-false (prop rules key) args e) (first_opinion-present args chain)
  ]

  -- The answer of a gate with the given predicate in its place.
  abbrev answer : Bool → Option Predicate → List Value → Result Error Bool
  answer production f args = is_allowed production (member_or f none) args

  answer-gate_of :
      (production default_deny : Bool) (args : List Value) (chain : List String)
      → answer production (gate_of rules default_deny decide chain) args
        ≡ ok (settled (first_opinion rules decide args chain) default_deny)
  unfolding is_allowed first_opinion
  answer-gate_of true true args [] = refl
  answer-gate_of false true args [] = refl
  answer-gate_of production false args [] = refl
  answer-gate_of true default_deny args (key ∷ chain) = refl
  answer-gate_of false default_deny args (key ∷ chain) = refl

  answer-build_gate :
      (production default_deny : Bool) (args : List Value) (chain : List String)
      → answer production (build_gate rules chain default_deny decide) args
        ≡ ok (settled (first_opinion rules decide args chain) default_deny)
  unfolding build_gate
  answer-build_gate production default_deny args chain =
      answer-gate_of production default_deny args _
      ∙ ap (λ o. ok (settled o default_deny)) (first_opinion-present args chain)

abbrev keyed {ℓ} : {V : Type ℓ} → Dict V → Bool
keyed [] = true
keyed ((k, v) ∷ d) = not (is_some (lookup k d)) && keyed d

head_alone :
    (g gate : String) (c chain : List String) (table : Dict (List String))
    → g == gate ≡ true
    → keyed ((g, c) ∷ table) ≡ true
    → lookup gate ((g, c) ∷ table) ≡ some chain
    → (lookup gate table ≡ none) × (c ≡ chain)
unfolding lookup
head_alone g gate c chain table e d h = (
  rw (sym ((eq_iff g gate).0 e))
      (ground (arith, ((and-eq-true_iff (not (is_some (lookup g table))) (keyed table)).0 d).0)),
  ground arith,
)

passed :
    (g gate : String) (c chain : List String) (table : Dict (List String))
    → g == gate ≡ false
    → lookup gate ((g, c) ∷ table) ≡ some chain
    → lookup gate table ≡ some chain
unfolding lookup
passed g gate c chain table e h = ground arith

lookup-all :
    (p : String → Bool) (gate : String) (chain : List String) (table : Dict (List String))
    → all p (keys table) ≡ true
    → lookup gate table ≡ some chain
    → p gate ≡ true
unfolding lookup
lookup-all p gate chain [] a h = ground arith
lookup-all p gate chain ((g, c) ∷ table) a h = elim (Bool-cases (g == gate)) [
  | inl e ↦
      subst (λ k. p k ≡ true) ((eq_iff g gate).0 e)
        (((and-eq-true_iff (p g) (all p (keys table))).0 a).0)
  | inr e ↦
      lookup-all p gate chain table (((and-eq-true_iff (p g) (all p (keys table))).0 a).1)
        (passed g gate c chain table e h)
]

module _ (rules : Value) (default_deny : Bool) (decide : Decide) where
  abbrev placed : String → Option Predicate → Permission → Permission
  placed g o bag = elim o [ some f ↦ put g (predicate f) bag | none ↦ bag ]

  lookup-placed :
      (g gate : String) (o : Option Predicate) (bag : Permission)
      → lookup gate (placed g o bag)
        ≡ (if g == gate then member_or o (lookup gate bag) else lookup gate bag)
  lookup-placed g gate none bag = ground arith
  lookup-placed g gate (some f) bag = ground (arith, lookup-put g gate (predicate f) bag)

  lookup-emit_other :
      (gate : String) (table : Dict (List String)) (bag : Permission)
      → lookup gate table ≡ none
      → lookup gate (emit rules default_deny decide table bag) ≡ lookup gate bag
  unfolding emit lookup
  lookup-emit_other gate [] bag h = refl
  lookup-emit_other gate ((g, chain) ∷ table) bag h =
      let built = build_gate rules chain default_deny decide in
      ground
        (arith, lookup-emit_other gate table (placed g built bag), lookup-placed g gate built bag)

  lookup-emit :
      (gate : String) (chain : List String) (table : Dict (List String)) (bag : Permission)
      → keyed table ≡ true
      → lookup gate table ≡ some chain
      → lookup gate (emit rules default_deny decide table bag)
        ≡ member_or (build_gate rules chain default_deny decide) (lookup gate bag)
  unfolding emit lookup
  lookup-emit gate chain [] bag d h = ground arith
  lookup-emit gate chain ((g, c) ∷ table) bag d h =
      let built = build_gate rules c default_deny decide in
      elim (Bool-cases (g == gate)) [
        | inl e ↦
            let only = head_alone g gate c chain table e d h in
            rw
              (
                lookup-emit_other gate table (placed g built bag) only.0,
                lookup-placed g gate built bag,
                e,
                only.1,
              )
              refl
        | inr e ↦
            rw
              (
                lookup-emit gate chain table (placed g built bag)
                    (((and-eq-true_iff (not (is_some (lookup g table))) (keyed table)).0 d).1)
                    (passed g gate c chain table e h),
                lookup-placed g gate built bag,
                e,
              )
              refl
      ]

-- a gate of one table, which is no gate of the other and not the scope
abbrev apart : Dict (List String) → String → Bool
apart table gate = not (is_some (lookup gate table)) && not ("scope" == gate)

apart-none :
    (table : Dict (List String)) (gate : String)
    → apart table gate ≡ true
    → (lookup gate table ≡ none) × ("scope" == gate ≡ false)
apart-none table gate h = (ground arith, ground arith)

one_arg-apart :
    (gate : String) (chain : List String)
    → lookup gate one_arg_gates ≡ some chain
    → (lookup gate two_arg_gates ≡ none) × ("scope" == gate ≡ false)
unfolding lookup
one_arg-apart gate chain h =
    apart-none two_arg_gates gate (lookup-all (apart two_arg_gates) gate chain one_arg_gates refl h)

two_arg-apart :
    (gate : String) (chain : List String)
    → lookup gate two_arg_gates ≡ some chain
    → (lookup gate one_arg_gates ≡ none) × ("scope" == gate ≡ false)
unfolding lookup
two_arg-apart gate chain h =
    apart-none one_arg_gates gate (lookup-all (apart one_arg_gates) gate chain two_arg_gates refl h)

lookup-with_scope :
    (gate : String) (f : Option Predicate) (bag : Permission)
    → "scope" == gate ≡ false
    → lookup gate (with_scope f bag) ≡ lookup gate bag
lookup-with_scope gate none bag h = refl
lookup-with_scope gate (some f) bag h = rw (lookup-put "scope" gate (predicate f) bag, h) refl

module _ (key_of : Value → String) (rules : RoleRuleTree) (default_deny : Bool)
    (principal_of : PrincipalReader) where
  -- A gate on one name, in the bag of a role's compiled rules, answers with the first opinion that
  -- the rules keys it consults have, in their order, and without one allows exactly when the role
  -- does not deny by default. It never throws.
  pub one_arg_gate-answers :
      (gate : String) (chain : List String) (production : Bool) (args : List Value)
      → lookup gate one_arg_gates ≡ some chain
      → is_allowed production
          (member (some (bag_of key_of rules default_deny principal_of)) gate)
          args
        ≡ ok (settled (first_opinion rules.gates (decide_first key_of) args chain) default_deny)
  unfolding bag_of lookup
  one_arg_gate-answers gate chain production args h =
      let other = one_arg-apart gate chain h in
      rw
        (
          lookup-with_scope gate (build_scope_gate key_of rules.scope principal_of) _ other.1,
          lookup-emit_other rules.gates default_deny (decide_both key_of) gate two_arg_gates _
              other.0,
          lookup-emit rules.gates default_deny (decide_first key_of) gate chain one_arg_gates []
              refl h,
        )
        (answer-build_gate rules.gates (decide_first key_of) (decide_first-IsSilent key_of)
          production default_deny args chain)

  -- A gate on two names does the same with the opinions on them.
  pub two_arg_gate-opinion :
      (gate : String) (chain : List String) (production : Bool) (args : List Value)
      → lookup gate two_arg_gates ≡ some chain
      → is_allowed production
          (member (some (bag_of key_of rules default_deny principal_of)) gate)
          args
        ≡ ok (settled (first_opinion rules.gates (decide_both key_of) args chain) default_deny)
  unfolding bag_of lookup
  two_arg_gate-opinion gate chain production args h =
      let other = two_arg-apart gate chain h in
      rw
        (
          lookup-with_scope gate (build_scope_gate key_of rules.scope principal_of) _ other.1,
          lookup-emit rules.gates default_deny (decide_both key_of) gate chain two_arg_gates _ refl
              h,
          lookup-emit_other rules.gates default_deny (decide_first key_of) gate one_arg_gates []
              other.0,
        )
        (answer-build_gate rules.gates (decide_both key_of) (decide_both-IsSilent key_of) production
          default_deny args chain)
