-- ===== src/Wire/Ids.antt =====
-- packages/gqlize/src/codecs/id.ts: the id codecs. `toGlobalId` and `fromGlobalId` are
-- graphql-relay's, and parameters here. An id is handed over as its text.
use gqlize.Common.{
  ℕ, zero, suc, ◌-◌, Bool, true, false, ◌&&◌, ◌||◌, Option, none, some, List, [], ◌∷◌, ◌++◌, Result,
  ok, err, if◌then◌else◌, String, length, leb, ltb, nat_eq,
}
use gqlize.Wire.Text.{Text, eq_text, starts_with}
use gqlize.Wire.Decimals.{is_digit, all_digits}
use gqlize.Wire.Cursors.{Given, text, other}

pub record TypedId : Type 0 where
  pub type_name : Text
  pub key : Text

pub record IdCodec : Type 0 where
  pub carries_type : Bool
  pub encode : TypedId → Result String Text
  -- The value, and the type of the field that it came for.
  pub decode : Given → Option Text → Option TypedId

abbrev is_base64 : ℕ → Bool
is_base64 c =
    (leb b'A' c && leb c b'Z')
    || (leb b'a' c && leb c b'z')
    || is_digit c
    || nat_eq c b'+'
    || nat_eq c b'/'

-- `/^(?:[A-Za-z0-9+/]{4})*(?:[A-Za-z0-9+/]{2}==|[A-Za-z0-9+/]{3}=)?$/`
unfoldable pub base64_shaped : Text → Bool
base64_shaped [] = true
base64_shaped (a ∷ b ∷ c ∷ d ∷ s) =
    let rest = base64_shaped s in
    let last : Bool = elim s [ [] ↦ true | _ ↦ false ] in
    is_base64 a
    && is_base64 b
    && ((is_base64 c && is_base64 d && rest)
        || (last && nat_eq d b'=' && (is_base64 c || nat_eq c b'=')))
base64_shaped _ = false

-- `fromGlobalId` is `none` where it throws.
unfoldable pub relay_id_codec : (TypedId → Text) → (Text → Option TypedId) → IdCodec
unfolding base64_shaped
relay_id_codec to_global_id from_global_id = record {
  carries_type = true;
  encode = λ i. ok (to_global_id i);
  decode = λ v type. elim v [
    | other ↦ none
    | text s ↦
        if base64_shaped s
        then elim (from_global_id s) [
          | none ↦ none
          | some i ↦ elim i.type_name [ [] ↦ none | _ ↦ elim i.key [ [] ↦ none | _ ↦ some i ] ]
        ]
        else none
  ];
}

-- The prefix of each type, in the order of `Object.keys`.
abbrev pub Prefixes : Type 0
Prefixes = List (Text × Text)

unfoldable pub prefix_of : Text → Prefixes → Option Text
prefix_of t [] = none
prefix_of t ((u, p) ∷ d) = let rest = prefix_of t d in if eq_text u t then some p else rest

-- A stable sort by length, the longest first.
unfoldable pub insert_longest : Text × Text → Prefixes → Prefixes
insert_longest e [] = e ∷ []
insert_longest (t, p) ((u, q) ∷ d) =
    let rest = insert_longest (t, p) d in
    if leb (length q) (length p) then (t, p) ∷ (u, q) ∷ d else (u, q) ∷ rest

unfoldable pub by_prefix : Prefixes → Prefixes
unfolding insert_longest
by_prefix [] = []
by_prefix (e ∷ d) = insert_longest e (by_prefix d)

abbrev pub zeros : ℕ → Text
zeros zero = []
zeros (suc n) = b'0' ∷ zeros n

-- `raw.padStart(pad, "0")`
unfoldable pub pad_start : ℕ → Text → Text
pad_start pad raw = zeros (pad - length raw) ++ raw

-- `id.replace(/^0+(?=\d)/, "")` on a text of digits
unfoldable pub drop_zeros : Text → Text
drop_zeros [] = []
drop_zeros (c ∷ []) = c ∷ []
drop_zeros (c ∷ d ∷ s) = let rest = drop_zeros (d ∷ s) in if nat_eq c b'0' then rest else c ∷ d ∷ s

abbrev pub drop : ℕ → Text → Text
drop zero s = s
drop (suc n) [] = []
drop (suc n) (c ∷ s) = drop n s

-- The first prefix, not empty, that the value starts with.
unfoldable pub find_prefix : Text → Prefixes → Option (Text × Text)
find_prefix s [] = none
find_prefix s ((t, p) ∷ d) =
    let rest = find_prefix s d in if ltb 0 (length p) && starts_with s p then some (t, p) else rest

unfoldable pub key_after : ℕ → Text → Text → Option TypedId
unfolding drop_zeros
key_after pad t [] = none
key_after pad t (c ∷ s) =
    let stripped = drop_zeros (c ∷ s) in
    some
      (record { type_name = t; key = if ltb 0 pad && all_digits (c ∷ s) then stripped else c ∷ s })

unfoldable pub decode_prefixed : Prefixes → ℕ → Text → Option TypedId
unfolding by_prefix find_prefix key_after
decode_prefixed prefixes pad s = elim (find_prefix s (by_prefix prefixes)) [
  | none ↦ none
  | some (t, p) ↦ key_after pad t (drop (length p) s)
]

unfoldable pub encode_prefixed : Prefixes → ℕ → TypedId → Result String Text
unfolding prefix_of pad_start
encode_prefixed prefixes pad i = elim (prefix_of i.type_name prefixes) [
  | none ↦ err "gqlize: prefixIdCodec has no prefix for the type"
  | some p ↦ ok (p ++ (if ltb 0 pad then pad_start pad i.key else i.key))
]

unfoldable pub prefix_id_codec : Prefixes → ℕ → IdCodec
unfolding decode_prefixed encode_prefixed
prefix_id_codec prefixes pad = record {
  carries_type = true;
  encode = encode_prefixed prefixes pad;
  decode = λ v type. elim v [ other ↦ none | text s ↦ decode_prefixed prefixes pad s ];
}

unfoldable pub raw_id_codec : IdCodec
raw_id_codec = record {
  carries_type = false;
  encode = λ i. ok i.key;
  decode = λ v type. elim v [
    | other ↦ none
    | text s ↦ some (record { type_name = elim type [ none ↦ [] | some t ↦ t ]; key = s })
  ];
}
