-- ===== src/Wire/Decimals.antt =====
-- Integers as JavaScript prints them in a template and as `parseInt(text, 10)` reads them.
use Prim.Native.Nat.{◌*◌, ◌/◌, ◌%◌}
use gqlize.Common.{
  ℕ, zero, suc, ◌+◌, ◌-◌, ◌≤◌, ◌<◌, Bool, true, false, ◌&&◌, ◌||◌, Option, none, some, [], ◌∷◌, ◌≡◌,
  refl, ap, sym, ◌∙◌, arith, nat_eq, leb, ltb, if◌then◌else◌, all, Bool-cases, inl, inr, subst,
}
use gqlize.Wire.Text.{Text, has}

-- `negsuc n` is `-(n + 1)`.
pub data ℤ : Type 0 where
  pos : ℕ → ℤ
  negsuc : ℕ → ℤ

abbrev pub digit : ℕ → ℕ
digit d = b'0' + d

abbrev pub is_digit : ℕ → Bool
is_digit c = leb b'0' c && leb c b'9'

-- The digits of a number before a text. The first argument bounds the number.
unfoldable print_before : ℕ → ℕ → Text → Text
print_before zero n rest = digit n ∷ rest
print_before (suc f) n rest =
    let more = print_before f (n / 10) (digit (n % 10) ∷ rest) in
    if ltb n 10 then digit n ∷ rest else more

unfoldable pub decimal : ℕ → Text
unfolding print_before
decimal n = print_before n n []

unfoldable pub print : ℤ → Text
print (pos n) = decimal n
print (negsuc n) = b'-' ∷ decimal (suc n)

-- The number that the leading digits of a text add to.
unfoldable pub read_more : ℕ → Text → ℕ
read_more n [] = n
read_more n (c ∷ s) = let more = read_more (n * 10 + (c - b'0')) s in if is_digit c then more else n

unfoldable pub read_digits : Text → Option ℕ
read_digits [] = none
read_digits (c ∷ s) = if is_digit c then some (read_more (c - b'0') s) else none

unfoldable pub negated : ℕ → ℤ
negated zero = pos zero
negated (suc n) = negsuc n

-- A leading minus or plus, then digits.
unfoldable pub read_signed : Text → Option ℤ
unfolding read_digits negated
read_signed [] = none
read_signed (c ∷ s) =
    if nat_eq c b'-'
    then elim (read_digits s) [ none ↦ none | some n ↦ some (negated n) ]
    else if nat_eq c b'+'
    then elim (read_digits s) [ none ↦ none | some n ↦ some (pos n) ]
    else elim (read_digits (c ∷ s)) [ none ↦ none | some n ↦ some (pos n) ]

-- The white space and line ends that `parseInt` skips.
abbrev is_space : ℕ → Bool
is_space c =
    (leb 9 c && leb c 13)
    || nat_eq c 32
    || nat_eq c 160
    || nat_eq c 5760
    || (leb 8192 c && leb c 8202)
    || nat_eq c 8232
    || nat_eq c 8233
    || nat_eq c 8239
    || nat_eq c 8287
    || nat_eq c 12288
    || nat_eq c 65279

unfoldable pub skip_space : Text → Text
skip_space [] = []
skip_space (c ∷ s) = let rest = skip_space s in if is_space c then rest else c ∷ s

unfoldable pub parse_int : Text → Option ℤ
unfolding skip_space read_signed
parse_int s = read_signed (skip_space s)

-- `/^\d+$/`
unfoldable pub all_digits : Text → Bool
all_digits [] = false
all_digits (c ∷ s) = is_digit c && all is_digit s

-- `/^-?\d+$/`
unfoldable pub is_integer_text : Text → Bool
unfolding all_digits
is_integer_text [] = false
is_integer_text (c ∷ s) = if nat_eq c b'-' then all_digits s else all_digits (c ∷ s)

-- A text of digits alone, which reads as a number.
record Numeral (n : ℕ) (rest s : Text) : Type 0 where
  head : ℕ
  tail : Text
  splits : s ≡ head ∷ tail
  starts : is_digit head ≡ true
  continues : all is_digit tail ≡ all is_digit rest
  reads : read_more (head - b'0') tail ≡ read_more n rest

one_digit : (n : ℕ) (rest : Text) → n < 10 → Numeral n rest (digit n ∷ rest)
one_digit n rest h = record {
  head = digit n;
  tail = rest;
  splits = refl;
  starts = ground arith;
  continues = refl;
  reads = ap (λ m. read_more m rest) (omega (arith, h));
}

-- The last digit, below which the others stand.
last_digit : (n : ℕ) → is_digit (digit (n % 10)) ≡ true
last_digit n = ground (arith, below)
  where
    below : n % 10 < 10
    below = omega arith

read_last : (n : ℕ) (rest : Text) → read_more (n / 10) (digit (n % 10) ∷ rest) ≡ read_more n rest
unfolding read_more
read_last n rest =
    ap (λ b. if b then read_more (n / 10 * 10 + (digit (n % 10) - b'0')) rest else n / 10)
      (last_digit n)
    ∙ ap (λ m. read_more m rest) (omega arith)

one_more : (n : ℕ) (rest s : Text) → Numeral (n / 10) (digit (n % 10) ∷ rest) s → Numeral n rest s
one_more n rest s k = record {
  head = k.head;
  tail = k.tail;
  splits = k.splits;
  starts = k.starts;
  continues = k.continues ∙ ap (λ b. b && all is_digit rest) (last_digit n);
  reads = k.reads ∙ read_last n rest;
}

either_digits :
    (n : ℕ) (rest more : Text)
    → Numeral n rest more
    → Numeral n rest (if ltb n 10 then digit n ∷ rest else more)
either_digits n rest more k = elim (Bool-cases (ltb n 10)) [
  | inl e ↦
      subst (λ b. Numeral n rest (if b then digit n ∷ rest else more)) (sym e)
        (one_digit n rest (ground arith))
  | inr e ↦ subst (λ b. Numeral n rest (if b then digit n ∷ rest else more)) (sym e) k
]

print_before-Numeral : (f n : ℕ) (rest : Text) → n ≤ f → Numeral n rest (print_before f n rest)
unfolding print_before
print_before-Numeral zero n rest h = one_digit n rest (omega (arith, h))
print_before-Numeral (suc f) n rest h =
    either_digits n rest _
      (one_more n rest _ (print_before-Numeral f (n / 10) _ (omega (arith, h))))

decimal-Numeral : (n : ℕ) → Numeral n [] (decimal n)
unfolding decimal
decimal-Numeral n = print_before-Numeral n n [] (omega arith)

-- A character that is no digit stands in no text of digits.
has-digits : (c : ℕ) (s : Text) → is_digit c ≡ false → all is_digit s ≡ true → has c s ≡ false
unfolding has
has-digits c [] h k = refl
has-digits c (d ∷ s) h k = ground (arith, has-digits c s h)

Numeral-is_digit : (n : ℕ) (s : Text) → Numeral n [] s → all is_digit s ≡ true
Numeral-is_digit n s k = ap (all is_digit) k.splits ∙ ground (arith, k.starts, k.continues)

pub has-decimal : (c n : ℕ) → is_digit c ≡ false → has c (decimal n) ≡ false
has-decimal c n h = has-digits c (decimal n) h (Numeral-is_digit n _ (decimal-Numeral n))

Numeral-all_digits : (n : ℕ) (s : Text) → Numeral n [] s → all_digits s ≡ true
unfolding all_digits
Numeral-all_digits n s k = ap all_digits k.splits ∙ ground (arith, k.starts, k.continues)

read_digits-Numeral : (n : ℕ) (s : Text) → Numeral n [] s → read_digits s ≡ some n
unfolding read_digits read_more
read_digits-Numeral n s k =
    ap read_digits k.splits
    ∙ ap (λ b. if b then some (read_more (k.head - b'0') k.tail) else none) k.starts
    ∙ ap some k.reads

-- A text that begins with a digit has no white space and no sign to read.
parse_int_unsigned :
    (c : ℕ) (s : Text)
    → is_digit c ≡ true
    → parse_int (c ∷ s) ≡ elim (read_digits (c ∷ s)) [ none ↦ none | some n ↦ some (pos n) ]
unfolding parse_int skip_space read_signed
parse_int_unsigned c s h = ground arith

is_integer_text_unsigned :
    (c : ℕ) (s : Text) → is_digit c ≡ true → is_integer_text (c ∷ s) ≡ all_digits (c ∷ s)
unfolding is_integer_text
is_integer_text_unsigned c s h = ground arith

parse_int-Numeral : (n : ℕ) (s : Text) → Numeral n [] s → parse_int s ≡ some (pos n)
parse_int-Numeral n s k =
    ap parse_int k.splits
    ∙ parse_int_unsigned k.head k.tail k.starts
    ∙ ap (λ o. elim o [ none ↦ none | some m ↦ some (pos m) ])
        (sym (ap read_digits k.splits) ∙ read_digits-Numeral n s k)

pub is_integer_text-print : (i : ℤ) → is_integer_text (print i) ≡ true
unfolding is_integer_text print
is_integer_text-print (pos n) =
    ap is_integer_text k.splits
    ∙ is_integer_text_unsigned k.head k.tail k.starts
    ∙ sym (ap all_digits k.splits)
    ∙ Numeral-all_digits n _ k
  where
    k : Numeral n [] (decimal n)
    k = decimal-Numeral n
is_integer_text-print (negsuc n) = Numeral-all_digits (suc n) _ (decimal-Numeral (suc n))

-- A printed integer is read back.
pub parse_int-print : (i : ℤ) → parse_int (print i) ≡ some i
unfolding print parse_int
parse_int-print (pos n) = parse_int-Numeral n _ (decimal-Numeral n)
parse_int-print (negsuc n) =
    ap (λ o. elim o [ none ↦ none | some m ↦ some (negated m) ])
      (read_digits-Numeral (suc n) _ (decimal-Numeral (suc n)))
