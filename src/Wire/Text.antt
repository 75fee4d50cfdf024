-- ===== src/Wire/Text.antt =====
-- Text as its code units, for code that looks for a character or cuts a text.
use gqlize.Common.{
  ℕ, Bool, true, false, ◌&&◌, Option, none, some, List, [], ◌∷◌, ◌++◌, ◌≡◌, refl, arith, nat_eq,
  if◌then◌else◌, Option-cases, inl, inr,
}

abbrev pub Text : Type 0
Text = List ℕ

unfoldable pub eq_text : Text → Text → Bool
eq_text [] [] = true
eq_text (c ∷ s) (d ∷ t) = nat_eq c d && eq_text s t
eq_text _ _ = false

pub eq_text_sound : (s t : Text) → eq_text s t ≡ true → s ≡ t
unfolding eq_text
eq_text_sound [] [] h = refl
eq_text_sound (c ∷ s) (d ∷ t) h = ground (arith, eq_text_sound s t)
eq_text_sound [] (d ∷ t) h = ground arith
eq_text_sound (c ∷ s) [] h = ground arith

pub eq_text_refl : (s : Text) → eq_text s s ≡ true
unfolding eq_text
eq_text_refl [] = refl
eq_text_refl (c ∷ s) = ground (arith, eq_text_refl s)

-- Whether a text has a character.
unfoldable pub has : ℕ → Text → Bool
has c [] = false
has c (d ∷ s) = let rest = has c s in if nat_eq c d then true else rest

-- A text cut at the last place of a character: `lastIndexOf`, and `slice` before and after it.
unfoldable pub cut_last : ℕ → Text → Option (Text × Text)
cut_last c [] = none
cut_last c (d ∷ s) = elim (cut_last c s) [
  | none ↦ if nat_eq c d then some ([], s) else none
  | some (before, after) ↦ some (d ∷ before, after)
]

cut_last-none : (c : ℕ) (s : Text) → has c s ≡ false → cut_last c s ≡ none
unfolding has cut_last
cut_last-none c [] h = refl
cut_last-none c (d ∷ s) h = ground (arith, cut_last-none c s)

-- A text without the character follows its last place.
pub cut_last-append : (c : ℕ) (s t : Text) → has c t ≡ false → cut_last c (s ++ c ∷ t) ≡ some (s, t)
unfolding cut_last
cut_last-append c [] t h = ground (arith, cut_last-none c t h)
cut_last-append c (d ∷ s) t h = ground (arith, cut_last-append c s t h)

pub cut_last_joins :
    (c : ℕ) (s before after : Text) → cut_last c s ≡ some (before, after) → s ≡ before ++ c ∷ after
unfolding cut_last
cut_last_joins c [] before after h = cc
cut_last_joins c (d ∷ s) before after h = elim (Option-cases (cut_last c s)) [
  | inl e ↦ ground (arith, e)
  | inr ((b, a), e) ↦ ground (arith, e, cut_last_joins c s b a e)
]

-- `value.startsWith(prefix)`, and what follows the prefix.
unfoldable pub starts_with : Text → Text → Bool
starts_with s [] = true
starts_with [] (d ∷ t) = false
starts_with (c ∷ s) (d ∷ t) = nat_eq c d && starts_with s t
