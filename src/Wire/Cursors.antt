-- ===== src/Wire/Cursors.antt =====
-- packages/gqlize/src/codecs/cursor.ts: the cursor codecs. Base64, JSON and the keyed digest are
-- Node's, and parameters here; a JSON value is told apart as far as a cursor looks at it.
use gqlize.Common.{
  ℕ, zero, suc, Option, none, some, List, [], ◌∷◌, ◌++◌, Result, ok, err, if◌then◌else◌, String,
}
use gqlize.Wire.Text.{Text, eq_text, cut_last}
use gqlize.Wire.Decimals.{ℤ, print, parse_int, is_integer_text}

pub record Cursor : Type 0 where
  pub connection : Text
  pub index : ℤ

-- What a client sent for a cursor: a string, or something else.
pub data Given : Type 0 where
  text : Text → Given
  other : Given

pub record CursorCodec : Type 0 where
  pub encode : Cursor → Text
  pub decode : Given → Option Cursor

-- A member of a JSON array: a string, an integer, or anything else.
pub data Part : Type 0 where
  string : Text → Part
  integer : ℤ → Part
  anything : Part

pub data Json : Type 0 where
  array : List Part → Json
  no_array : Json

-- `Buffer` and `JSON`; `parse` is `none` where `JSON.parse` throws.
pub record Formats : Type 0 where
  pub base64 : Text → Text
  pub unbase64 : Text → Text
  pub stringify : List Part → Text
  pub parse : Text → Option Json

unfoldable pub as_index : Part → Option ℤ
unfolding parse_int
as_index (integer i) = some i
as_index (string s) = parse_int s
as_index anything = none

-- The array is read by position, and a member that is missing is undefined.
unfoldable pub from_parts : List Part → Option Cursor
unfolding as_index
from_parts (string c ∷ raw ∷ rest) = elim (as_index raw) [
  | none ↦ none
  | some i ↦ some (record { connection = c; index = i })
]
from_parts _ = none

unfoldable pub relay_cursor_codec : Formats → CursorCodec
unfolding from_parts
relay_cursor_codec f = record {
  encode = λ c. f.base64 (f.stringify (string c.connection ∷ integer c.index ∷ []));
  decode = λ v. elim v [
    | other ↦ none
    | text s ↦ elim (f.parse (f.unbase64 s)) [
      | none ↦ none
      | some no_array ↦ none
      | some (array parts) ↦ from_parts parts
    ]
  ];
}

-- `${connection}:${index}`
unfoldable pub payload_of : Cursor → Text
unfolding print
payload_of c = c.connection ++ b':' ∷ print c.index

-- The two sides of the last place of a character, which is not the first place.
unfoldable pub cut_inside : ℕ → Text → Option (Text × Text)
unfolding cut_last
cut_inside c s = elim (cut_last c s) [
  | none ↦ none
  | some ([], after) ↦ none
  | some (d ∷ before, after) ↦ some (d ∷ before, after)
]

unfoldable pub read_plain : Text → Option Cursor
unfolding cut_inside as_index is_integer_text
read_plain s = elim (cut_inside b':' s) [
  | none ↦ none
  | some (before, after) ↦ elim (as_index (string after)) [
    | none ↦ none
    | some i ↦
        if is_integer_text after then some (record { connection = before; index = i }) else none
  ]
]

unfoldable pub plain_cursor_codec : CursorCodec
unfolding payload_of read_plain
plain_cursor_codec = record {
  encode = payload_of;
  decode = λ v. elim v [ other ↦ none | text s ↦ read_plain s ];
}

-- The options of a signed codec. `algorithm` and `length` have defaults.
pub record SignedCursorCodecOptions : Type 0 where
  pub secret : Text
  pub algorithm : Option String
  pub length : Option ℕ

abbrev take : ℕ → Text → Text
take zero s = []
take (suc n) [] = []
take (suc n) (c ∷ s) = c ∷ take n s

abbrev or_default {ℓ} : {A : Type ℓ} → Option A → A → A
or_default none a = a
or_default (some b) a = b

unfoldable pub read_payload : Text → Option Cursor
unfolding cut_inside as_index
read_payload s = elim (cut_inside b':' s) [
  | none ↦ none
  | some (before, after) ↦ elim (as_index (string after)) [
    | none ↦ none
    | some i ↦ some (record { connection = before; index = i })
  ]
]

-- `createHmac(algorithm, secret).update(payload).digest("hex")`, cut to the length that is kept.
module _ (hmac : String → Text → Text → Text) where
  unfoldable pub sign : SignedCursorCodecOptions → Text → Text
  sign o payload =
      take (or_default o.length 16) (hmac (or_default o.algorithm "sha256") o.secret payload)

  -- Two buffers of UTF-8 are taken to be equal exactly when their texts are.
  unfoldable pub read_signed : SignedCursorCodecOptions → Text → Option Cursor
  unfolding cut_inside sign eq_text read_payload
  read_signed o s = elim (cut_inside b'.' s) [
    | none ↦ none
    | some (payload, supplied) ↦
        if eq_text supplied (sign o payload) then read_payload payload else none
  ]

  unfoldable pub signed_cursor_codec : SignedCursorCodecOptions → Result String CursorCodec
  unfolding payload_of sign read_signed
  signed_cursor_codec o = elim o.secret [
    | [] ↦ err "gqlize: signedCursorCodec requires a secret — an unsigned signature signs nothing."
    | _ ↦ ok (record {
      encode = λ c. payload_of c ++ b'.' ∷ sign o (payload_of c);
      decode = λ v. elim v [ other ↦ none | text s ↦ read_signed o s ];
    })
  ]

-- The first codec that reads the cursor.
unfoldable pub first_decoded : List CursorCodec → Given → Option Cursor
first_decoded [] v = none
first_decoded (codec ∷ codecs) v = elim (codec.decode v) [
  | none ↦ first_decoded codecs v
  | some c ↦ some c
]

unfoldable pub fallback_cursor_codec : CursorCodec → List CursorCodec → CursorCodec
unfolding first_decoded
fallback_cursor_codec next previous = record {
  encode = next.encode;
  decode = first_decoded (next ∷ previous);
}
