-- ===== src/Wire/Examples.antt =====
-- The theorems about the codecs of packages/gqlize/src/codecs at concrete inputs.
use gqlize.Common.{
  true, false, Option, none, some, List, [], ◌∷◌, ◌++◌, ok, ◌≡◌, refl, ap, sym, inl, inr, arith,
  all, String, length,
}
use gqlize.Wire.Text.{Text, eq_text, has, cut_last, cut_last-append}
use gqlize.Wire.Decimals.{pos, print, parse_int, parse_int-print, all_digits, read_more, decimal}
use gqlize.Wire.Cursors.{
  Cursor, text, other, CursorCodec, Part, string, integer, Json, array, Formats, relay_cursor_codec,
  plain_cursor_codec, SignedCursorCodecOptions, sign, signed_cursor_codec, payload_of, read_payload,
  read_signed, cut_inside, as_index, fallback_cursor_codec,
}
use gqlize.Wire.CursorTrips.{
  signed_cursor_codec-trip, signed_cursor_codec-only_signed, Reads, fallback_cursor_codec-accepts,
  plain_cursor_codec-trip, relay_cursor_codec-trip, IsStandard, cursor_parts, is_ascii, has-print,
}
use gqlize.Wire.Ids.{TypedId, prefix_id_codec, drop_zeros, Prefixes, prefix_of}
use gqlize.Wire.IdTrips.{prefix_id_codec-trip, IsUnambiguous}

-- Row 12 of the connection "a".
abbrev twelfth : Cursor
twelfth = record { connection = b'a' ∷ []; index = pos 12 }

-- A digest of the letters "a" and "b", for a secret and a payload.
abbrev hmac : String → Text → Text → Text
hmac algorithm secret [] = []
hmac algorithm secret (c ∷ s) = b'a' ∷ hmac algorithm secret s

abbrev options : SignedCursorCodecOptions
options = record { secret = b's' ∷ []; algorithm = none; length = some 2 }

dotless : (payload : Text) → has b'.' (sign hmac options payload) ≡ false
unfolding sign has
dotless [] = refl
dotless (c ∷ []) = refl
dotless (c ∷ d ∷ s) = refl

-- The codec of those options.
abbrev signed_text : Text
signed_text = b'a' ∷ b':' ∷ b'1' ∷ b'2' ∷ b'.' ∷ b'a' ∷ b'a' ∷ []

abbrev signed : CursorCodec
signed = record {
  encode = λ c. payload_of c ++ b'.' ∷ sign hmac options (payload_of c);
  decode = λ v. elim v [ other ↦ none | text s ↦ read_signed hmac options s ];
}

signed_is : signed_cursor_codec hmac options ≡ ok signed
unfolding signed_cursor_codec
signed_is = refl

signed_cursor_codec-trip_example : signed.decode (text (signed.encode twelfth)) ≡ some twelfth
signed_cursor_codec-trip_example =
    signed_cursor_codec-trip hmac options signed twelfth dotless signed_is (λ h. ground (arith, h))

reads_it : signed.decode (text signed_text) ≡ some twelfth
unfolding read_signed cut_inside read_payload sign as_index read_more
reads_it = refl

signed_cursor_codec-only_signed_example :
    (payload : Text) × ((signed_text ≡ payload ++ b'.' ∷ sign hmac options payload)
      × (read_payload payload ≡ some twelfth))
signed_cursor_codec-only_signed_example =
    signed_cursor_codec-only_signed hmac options signed signed_text twelfth dotless signed_is
      reads_it

forged : signed.decode (text (b'a' ∷ b':' ∷ b'9' ∷ b'.' ∷ b'a' ∷ b'b' ∷ [])) ≡ none
unfolding read_signed cut_inside read_payload sign as_index
forged = refl

plain_cursor_codec-trip_test :
    plain_cursor_codec.decode (text (plain_cursor_codec.encode twelfth)) ≡ some twelfth
plain_cursor_codec-trip_test = plain_cursor_codec-trip twelfth (λ h. ground (arith, h))

-- A signed codec that still reads the plain cursors of the one before it.
fallback_cursor_codec-accepts_example :
    (e : Cursor) × (((fallback_cursor_codec signed (plain_cursor_codec ∷ [])).decode
          (text (plain_cursor_codec.encode twelfth))
        ≡ some e)
      × Reads (signed ∷ plain_cursor_codec ∷ []) (text (plain_cursor_codec.encode twelfth)) e)
fallback_cursor_codec-accepts_example =
    fallback_cursor_codec-accepts signed plain_cursor_codec (plain_cursor_codec ∷ []) twelfth
      twelfth (inr (inl refl)) (plain_cursor_codec-trip twelfth (λ h. ground (arith, h)))

-- JSON and base64 that stand for Node's: a name, a colon and the index.
abbrev join_parts : List Part → Text
join_parts (string s ∷ integer i ∷ []) = s ++ b':' ∷ print i
join_parts _ = []

abbrev split_parts : Text → Option Json
split_parts s = elim (cut_last b':' s) [
  | none ↦ none
  | some (before, after) ↦ elim (parse_int after) [
    | none ↦ none
    | some i ↦ some (array (string before ∷ integer i ∷ []))
  ]
]

abbrev formats : Formats
formats = record { base64 = λ t. t; unbase64 = λ t. t; stringify = join_parts; parse = split_parts }

formats-IsStandard : IsStandard formats
formats-IsStandard = record {
  unbase64-base64 = λ t h. refl;
  parse-stringify = λ c. ground (
    arith,
    cut_last-append b':' c.connection (print c.index) (has-print c.index),
    parse_int-print c.index,
  );
}

ascii : all is_ascii (join_parts (cursor_parts twelfth)) ≡ true
unfolding print decimal
ascii = refl

relay_cursor_codec-trip_test :
    (relay_cursor_codec formats).decode (text ((relay_cursor_codec formats).encode twelfth))
    ≡ some twelfth
relay_cursor_codec-trip_test = relay_cursor_codec-trip formats twelfth formats-IsStandard ascii

-- "TSKI7": the type "I" has a prefix that continues that of "T".
abbrev prefixes : Prefixes
prefixes = ((b'T' ∷ []), (b'T' ∷ b'S' ∷ [])) ∷ ((b'I' ∷ []), (b'T' ∷ b'S' ∷ b'I' ∷ [])) ∷ []

abbrev seventh : TypedId
seventh = record { type_name = b'I' ∷ []; key = b'7' ∷ [] }

abbrev seventh_text : Text
seventh_text = b'T' ∷ b'S' ∷ b'I' ∷ b'0' ∷ b'7' ∷ []

unambiguous : IsUnambiguous prefixes seventh_text (b'I' ∷ []) (b'T' ∷ b'S' ∷ b'I' ∷ [])
unambiguous u q (inl e) fits long = ground (arith, ap (λ (f : Text × Text). length f.1) e, long)
unambiguous u q (inr (inl e)) fits long =
    (sym (ap (λ (f : Text × Text). f.0) e), sym (ap (λ (f : Text × Text). f.1) e))
unambiguous u q (inr (inr e)) fits long = elim e [ ]

has_prefix : prefix_of (b'I' ∷ []) prefixes ≡ some (b'T' ∷ b'S' ∷ b'I' ∷ [])
unfolding prefix_of eq_text
has_prefix = refl

encoded : (prefix_id_codec prefixes 2).encode seventh ≡ ok seventh_text
unfolding prefix_id_codec eq_text
encoded = refl

digits : all_digits (b'7' ∷ []) ≡ true
unfolding all_digits
digits = refl

canonical : drop_zeros (b'7' ∷ []) ≡ b'7' ∷ []
unfolding drop_zeros
canonical = refl

prefix_id_codec-trip_example :
    (prefix_id_codec prefixes 2).decode (text seventh_text) none ≡ some seventh
prefix_id_codec-trip_example =
    prefix_id_codec-trip prefixes 2 seventh (b'T' ∷ b'S' ∷ b'I' ∷ []) seventh_text none has_prefix
      (omega arith) (λ h. ground (arith, h)) (inr (digits, canonical)) encoded unambiguous
