-- ===== src/Permissions/Verdicts.antt =====
-- What a gate on two names of packages/utilize/src/permissions.ts answers, told from the places of a
-- rules tree that speak, a blanket word before a more specific one.
use gqlize.Common.{
  String, Bool, true, false, not, Option, none, some, List, [], ◌∷◌, lookup, ok, ◌==◌, ◌≡◌, refl,
  subst, sym, ◌∙◌, ap, arith, if◌then◌else◌, inl, inr, ◌⊎◌,
}
use gqlize.Js.Value.{Value, str}
use gqlize.Gate.Allow.{is_allowed, member}
use gqlize.Permissions.Gates.{
  prop, two_arg_gates, decide_both, decide_two, decide_key, first_opinion, settled, or_opinion,
}
use gqlize.Permissions.Bag.{RoleRuleTree, PrincipalReader, bag_of}
use gqlize.Permissions.Decisions.{two_arg_gate-opinion}

abbrev is_text : String → Value → Bool
is_text word (str s) = s == word
is_text word v = false

abbrev word_of : Bool → String
word_of b = if b then "allow" else "deny"

-- The node at a path of names.
abbrev at_path : Value → List String → Value
at_path node [] = node
at_path node (name ∷ path) = at_path (prop node name) path

-- The paths that a gate reads for two names: each rules key, the model under it, the name under that.
abbrev pub places : List String → String → String → List (List String)
places [] model name = []
places (key ∷ chain) model name =
    (key ∷ []) ∷ (key ∷ model ∷ []) ∷ (key ∷ model ∷ name ∷ []) ∷ places chain model name

-- The word of the first path at which the rules have one, and where none has, the default.
pub data Verdict (rules : Value) (default_deny : Bool) : List (List String) → Bool → Type 0 where
  unsaid : Verdict rules default_deny [] (not default_deny)
  said :
      (b : Bool) (path : List String) (paths : List (List String))
      → is_text (word_of b) (at_path rules path) ≡ true
      → Verdict rules default_deny (path ∷ paths) b
  silent :
      {b : Bool} (path : List String) {paths : List (List String)}
      → is_text "allow" (at_path rules path) ≡ false
      → is_text "deny" (at_path rules path) ≡ false
      → Verdict rules default_deny paths b
      → Verdict rules default_deny (path ∷ paths) b

-- How a node is read.
decide_key-cases :
    (v : Value)
    → ((decide_key v ≡ none) × ((is_text "allow" v ≡ false) × (is_text "deny" v ≡ false)))
      ⊎ ((b : Bool) × ((decide_key v ≡ some b) × (is_text (word_of b) v ≡ true)))
unfolding decide_key
decide_key-cases (str s) = text_cases (s == "deny") (s == "allow") refl refl
  where
    text_cases :
        (d a : Bool)
        → (s == "deny") ≡ d
        → (s == "allow") ≡ a
        → ((decide_key (str s) ≡ none)
            × ((is_text "allow" (str s) ≡ false) × (is_text "deny" (str s) ≡ false)))
          ⊎ ((b : Bool) × ((decide_key (str s) ≡ some b) × (is_text (word_of b) (str s) ≡ true)))
    text_cases true a p q = inr (false, (ground arith, p))
    text_cases false true p q = inr (true, (ground arith, q))
    text_cases false false p q = inl (ground arith, (q, p))
decide_key-cases _ = inl (refl, (refl, refl))

or_opinion_assoc :
    (a b c : Option Bool) → or_opinion (or_opinion a b) c ≡ or_opinion a (or_opinion b c)
or_opinion_assoc none b c = refl
or_opinion_assoc (some x) b c = refl

module _ (rules : Value) (default_deny : Bool) where
  -- One more path, in front.
  Verdict-before :
      (path : List String) (paths : List (List String)) (o : Option Bool)
      → Verdict rules default_deny paths (settled o default_deny)
      → Verdict rules default_deny
          (path ∷ paths)
          (settled (or_opinion (decide_key (at_path rules path)) o) default_deny)
  Verdict-before path paths o v = elim (decide_key-cases (at_path rules path)) [
    | inl (e, (a, d)) ↦
        subst
          (λ x. Verdict rules default_deny (path ∷ paths) (settled (or_opinion x o) default_deny))
          (sym e) (silent path a d v)
    | inr (b, (e, w)) ↦
        subst
          (λ x. Verdict rules default_deny (path ∷ paths) (settled (or_opinion x o) default_deny))
          (sym e) (said b path paths w)
  ]

  first_opinion-Verdict :
      (key_of : Value → String) (model name : Value) (chain : List String)
      → Verdict rules default_deny (places chain (key_of model) (key_of name)) (
          settled (first_opinion rules (decide_both key_of) (model ∷ name ∷ []) chain) default_deny)
  unfolding first_opinion decide_both decide_two
  first_opinion-Verdict key_of model name [] = unsaid
  first_opinion-Verdict key_of model name (key ∷ chain) =
      let m = key_of model in
      let n = key_of name in
      let rest = first_opinion rules (decide_both key_of) (model ∷ name ∷ []) chain in
      let a = decide_key (at_path rules (key ∷ [])) in
      let b = decide_key (at_path rules (key ∷ m ∷ [])) in
      let c = decide_key (at_path rules (key ∷ m ∷ n ∷ [])) in
      let flat : or_opinion (or_opinion a (or_opinion b c)) rest
          ≡ or_opinion a (or_opinion b (or_opinion c rest)) =
        or_opinion_assoc a (or_opinion b c) rest ∙ ap (or_opinion a) (or_opinion_assoc b c rest) in
      subst (λ o. Verdict rules default_deny (places (key ∷ chain) m n) (settled o default_deny))
        (sym flat)
        (Verdict-before (key ∷ []) _ _ (
          Verdict-before (key ∷ m ∷ []) _ _ (
            Verdict-before (key ∷ m ∷ n ∷ []) _ _ (first_opinion-Verdict key_of model name chain))))

-- A gate on two names answers with the word, allow or deny, that the rules have at the first of its
-- places: the rules key, the model under it and the name under that, for each of the gate's rules keys
-- in turn. Where none of the places has a word, it allows exactly when the role does not deny by
-- default.
pub two_arg_gate-verdict :
    (key_of : Value → String) (rules : RoleRuleTree) (default_deny : Bool)
    (principal_of : PrincipalReader) (gate : String) (chain : List String) (production : Bool)
    (model name : Value)
    → lookup gate two_arg_gates ≡ some chain
    → (b : Bool) × ((is_allowed production
            (member (some (bag_of key_of rules default_deny principal_of)) gate)
            (model ∷ name ∷ [])
          ≡ ok b)
        × Verdict rules.gates default_deny (places chain (key_of model) (key_of name)) b)
two_arg_gate-verdict key_of rules default_deny principal_of gate chain production model name h = (
  _,
  (
    two_arg_gate-opinion key_of rules default_deny principal_of gate chain production
        (model ∷ name ∷ []) h,
    first_opinion-Verdict rules.gates default_deny key_of model name chain,
  ),
)
