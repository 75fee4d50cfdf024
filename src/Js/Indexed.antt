-- ===== src/Js/Indexed.antt =====
-- The own members that JavaScript gives the elements of an array and the characters of a text, a name
-- for each place: what `Object.keys` and a lookup by key see of them.
use Prim.Native.Nat.{◌/◌, ◌%◌}
use Prim.Native.String
use gqlize.Common.{ℕ, zero, suc, String, List, [], ◌∷◌, Dict, ltb, if◌then◌else◌, ◌≡◌, refl}
use gqlize.Js.Value.{Value, str}

abbrev text_at : List String → ℕ → String
text_at [] n = ""
text_at (s ∷ ss) zero = s
text_at (s ∷ ss) (suc n) = text_at ss n

abbrev digit_text : ℕ → String
digit_text = text_at ("0" ∷ "1" ∷ "2" ∷ "3" ∷ "4" ∷ "5" ∷ "6" ∷ "7" ∷ "8" ∷ "9" ∷ [])

-- The digits of a number in front of a text, at most as many as the fuel.
abbrev digits_before : ℕ → ℕ → String → String
digits_before zero n rest = rest
digits_before (suc fuel) n rest =
    let more = digits_before fuel (n / 10) (String.◌++◌ (digit_text (n % 10)) rest) in
    if ltb n 10 then String.◌++◌ (digit_text n) rest else more

-- A number has fewer digits than itself and one.
unfoldable pub index_name : ℕ → String
index_name n = digits_before (suc n) n ""

abbrev pub indexed : ℕ → List Value → Dict Value
indexed n [] = []
indexed n (v ∷ vs) = (index_name n, v) ∷ indexed (suc n) vs

abbrev pub characters : ℕ → String → Dict Value
characters n String.[] = []
characters n (String.◌∷◌ c s) = (index_name n, str (String.◌∷◌ c String.[])) ∷ characters (suc n) s

index_name_test : index_name 407 ≡ "407"
unfolding index_name
index_name_test = refl
