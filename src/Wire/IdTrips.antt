-- ===== src/Wire/IdTrips.antt =====
-- packages/gqlize/src/codecs/id.ts: ids that come back.
use gqlize.Common.{
  ℕ, zero, suc, ◌-◌, ◌≤◌, ◌<◌, true, Option, none, some, [], ◌∷◌, ◌++◌, ok, if◌then◌else◌, ◌≡◌, ◌≢◌,
  refl, ap, ◌∙◌, arith, length, ltb, In, ◌⊎◌, inl, inr, Bool-cases,
}
use gqlize.Wire.Text.{Text, eq_text, starts_with, eq_text_sound}
use gqlize.Wire.Decimals.{all_digits}
use gqlize.Wire.Cursors.{text}
use gqlize.Wire.Ids.{
  TypedId, Prefixes, prefix_of, by_prefix, pad_start, drop_zeros, key_after, decode_prefixed,
  encode_prefixed, prefix_id_codec, zeros, drop,
}
use gqlize.Wire.Longest.{
  by_prefix-Longest, In-by_prefix, In-by_prefix_only, find_prefix-Found, Found,
}

starts_with-append : (p s : Text) → starts_with (p ++ s) p ≡ true
unfolding starts_with
starts_with-append [] s = refl
starts_with-append (c ∷ p) s = ground (arith, starts_with-append p s)

drop-append : (p s : Text) → drop (length p) (p ++ s) ≡ s
drop-append [] s = refl
drop-append (c ∷ p) s = drop-append p s

In-prefix_of : (t p : Text) (d : Prefixes) → prefix_of t d ≡ some p → In (t, p) d
unfolding prefix_of
In-prefix_of t p [] h = ground arith
In-prefix_of t p ((u, q) ∷ d) h = elim (Bool-cases (eq_text u t)) [
  | inl e ↦ inl (
      ap (λ (x : Text). (x, q)) (eq_text_sound u t e)
      ∙ ap (λ (y : Text). (t, y)) (ground (arith, e, h)))
  | inr e ↦ inr (In-prefix_of t p d (ground (arith, e, h)))
]

-- Leading zeros before digits are dropped.
drop_zeros-zero : (c : ℕ) (s : Text) → drop_zeros (b'0' ∷ c ∷ s) ≡ drop_zeros (c ∷ s)
unfolding drop_zeros
drop_zeros-zero c s = refl

drop_zeros-zeros : (n c : ℕ) (s : Text) → drop_zeros (zeros n ++ c ∷ s) ≡ drop_zeros (c ∷ s)
drop_zeros-zeros zero c s = refl
drop_zeros-zeros (suc zero) c s = drop_zeros-zero c s
drop_zeros-zeros (suc (suc n)) c s =
    drop_zeros-zero b'0' (zeros n ++ c ∷ s) ∙ drop_zeros-zeros (suc n) c s

all_digits-zeros : (n : ℕ) (s : Text) → all_digits s ≡ true → all_digits (zeros n ++ s) ≡ true
unfolding all_digits
all_digits-zeros zero s h = h
all_digits-zeros (suc zero) [] h = ground arith
all_digits-zeros (suc zero) (c ∷ s) h = h
all_digits-zeros (suc (suc n)) s h = all_digits-zeros (suc n) s h

-- A key that padding, if there is any, does not spoil: digits without a leading zero.
abbrev pub Restores : ℕ → Text → Type 0
Restores pad key = (pad ≡ 0) ⊎ ((all_digits key ≡ true) × (drop_zeros key ≡ key))

abbrev padded : ℕ → Text → Text
padded pad key = if ltb 0 pad then pad_start pad key else key

digits_restored :
    (n m : ℕ) (t : Text) (c : ℕ) (s : Text)
    → all_digits (c ∷ s) ≡ true
    → drop_zeros (c ∷ s) ≡ c ∷ s
    → key_after (suc n) t (zeros m ++ c ∷ s) ≡ some (record { type_name = t; key = c ∷ s })
unfolding key_after
digits_restored n zero t c s d z = ground (arith, d, z)
digits_restored n (suc m) t c s d z =
    ground (arith, all_digits-zeros (suc m) (c ∷ s) d, drop_zeros-zeros (suc m) c s, z)

key_after-padded :
    (pad : ℕ) (t key : Text)
    → key ≢ []
    → Restores pad key
    → key_after pad t (padded pad key) ≡ some (record { type_name = t; key = key })
unfolding key_after pad_start
key_after-padded pad t [] h r = absurd (h refl)
key_after-padded zero t (c ∷ s) h r = refl
key_after-padded (suc n) t (c ∷ s) h (inl e) = ground (arith, e)
key_after-padded (suc n) t (c ∷ s) h (inr (d, z)) =
    ap (λ b. key_after (suc n) t (if b then pad_start (suc n) (c ∷ s) else c ∷ s)) positive
    ∙ digits_restored n (suc n - length (c ∷ s)) t c s d z
  where
    positive : ltb 0 (suc n) ≡ true
    positive = ground arith

-- The value starts with no other prefix that is as long.
abbrev pub IsUnambiguous : Prefixes → Text → Text → Text → Type 0
IsUnambiguous prefixes value t p =
    (u q : Text)
    → In (u, q) prefixes
    → starts_with value q ≡ true
    → length p ≤ length q
    → (u ≡ t) × (q ≡ p)

encode_prefixed-value :
    (prefixes : Prefixes) (pad : ℕ) (i : TypedId) (p value : Text)
    → prefix_of i.type_name prefixes ≡ some p
    → encode_prefixed prefixes pad i ≡ ok value
    → value ≡ p ++ padded pad i.key
unfolding encode_prefixed
encode_prefixed-value prefixes pad i p value k h = ground (arith, k, h)

decode_prefixed-found :
    (prefixes : Prefixes) (pad : ℕ) (t p rest value : Text)
    → In (t, p) prefixes
    → 0 < length p
    → value ≡ p ++ rest
    → IsUnambiguous prefixes value t p
    → decode_prefixed prefixes pad value ≡ key_after pad t rest
unfolding decode_prefixed
decode_prefixed-found prefixes pad t p rest value i long e one =
    ap (λ o. elim o [ none ↦ none | some (u, q) ↦ key_after pad u (drop (length q) value) ]) k.found
    ∙ ap (λ u. key_after pad u (drop (length k.prefix) value)) same.0
    ∙ ap (λ q. key_after pad t (drop (length q) value)) same.1
    ∙ ap (λ v. key_after pad t (drop (length p) v)) e
    ∙ ap (key_after pad t) (drop-append p rest)
  where
    k : Found value (length p) (by_prefix prefixes)
    k =
        find_prefix-Found value t p (by_prefix prefixes) (by_prefix-Longest prefixes)
          (In-by_prefix (t, p) prefixes i) long
          (ap (λ v. starts_with v p) e ∙ starts_with-append p rest)

    same : (k.name ≡ t) × (k.prefix ≡ p)
    same =
        one k.name k.prefix (In-by_prefix_only (k.name, k.prefix) prefixes k.is_in) k.suits k.long

-- An id with a key, of a type whose prefix is not empty, comes back from a prefix codec, if its value
-- starts with no other prefix that is as long as its own, and the key, where keys are padded, is digits without a leading zero.
pub prefix_id_codec-trip :
    (prefixes : Prefixes) (pad : ℕ) (i : TypedId) (p value : Text) (type : Option Text)
    → prefix_of i.type_name prefixes ≡ some p
    → 0 < length p
    → i.key ≢ []
    → Restores pad i.key
    → (prefix_id_codec prefixes pad).encode i ≡ ok value
    → IsUnambiguous prefixes value i.type_name p
    → (prefix_id_codec prefixes pad).decode (text value) type ≡ some i
unfolding prefix_id_codec decode_prefixed encode_prefixed
prefix_id_codec-trip prefixes pad i p value type has_prefix long has_key r h one =
    decode_prefixed-found prefixes pad i.type_name p (padded pad i.key) value
      (In-prefix_of i.type_name p prefixes has_prefix) long
      (encode_prefixed-value prefixes pad i p value has_prefix h) one
    ∙ key_after-padded pad i.type_name i.key has_key r
