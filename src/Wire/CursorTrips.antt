-- ===== src/Wire/CursorTrips.antt =====
-- packages/gqlize/src/codecs/cursor.ts: cursors that come back.
use gqlize.Common.{
  ℕ, suc, Bool, true, false, none, some, List, [], ◌∷◌, ◌++◌, ok, ◌≡◌, ◌≢◌, refl, ap, ◌∙◌, arith,
  String, Option-cases, Bool-cases, all, ltb, In, subst, inl, inr,
}
use gqlize.Wire.Text.{
  Text, eq_text, cut_last, has, cut_last-append, cut_last_joins, eq_text_refl, eq_text_sound,
}
use gqlize.Wire.Decimals.{
  ℤ, pos, negsuc, print, has-decimal, parse_int-print, is_integer_text-print,
}
use gqlize.Wire.Cursors.{
  Cursor, Given, text, other, CursorCodec, Part, string, integer, array, Formats,
  relay_cursor_codec, as_index, from_parts, payload_of, cut_inside, read_plain, plain_cursor_codec,
  SignedCursorCodecOptions, sign, read_payload, read_signed, signed_cursor_codec, first_decoded,
  fallback_cursor_codec,
}

-- A cut at a place that is not the first.
cut_inside-append :
    (c : ℕ) (s t : Text) → s ≢ [] → has c t ≡ false → cut_inside c (s ++ c ∷ t) ≡ some (s, t)
unfolding cut_inside
cut_inside-append c [] t h k = absurd (h refl)
cut_inside-append c (d ∷ s) t h k =
    ap
      (λ o. elim o [
        | none ↦ none
        | some ([], after) ↦ none
        | some (e ∷ before, after) ↦ some (e ∷ before, after)
      ])
      (cut_last-append c (d ∷ s) t k)

cut_inside_joins :
    (c : ℕ) (s before after : Text)
    → cut_inside c s ≡ some (before, after)
    → s ≡ before ++ c ∷ after
unfolding cut_inside
cut_inside_joins c s before after h = elim (Option-cases (cut_last c s)) [
  | inl e ↦ ground (arith, e)
  | inr (([], t), e) ↦ ground (arith, e)
  | inr ((d ∷ b, t), e) ↦ ground (arith, e, cut_last_joins c s (d ∷ b) t e)
]

-- A printed integer has no colon.
pub has-print : (i : ℤ) → has b':' (print i) ≡ false
unfolding print has
has-print (pos n) = has-decimal b':' n refl
has-print (negsuc n) = has-decimal b':' (suc n) refl

cut-payload :
    (c : Cursor)
    → c.connection ≢ []
    → cut_inside b':' (payload_of c) ≡ some (c.connection, print c.index)
unfolding payload_of
cut-payload c h = cut_inside-append b':' c.connection (print c.index) h (has-print c.index)

read_plain-payload : (c : Cursor) → c.connection ≢ [] → read_plain (payload_of c) ≡ some c
unfolding read_plain as_index
read_plain-payload c h =
    ground (arith, cut-payload c h, parse_int-print c.index, is_integer_text-print c.index)

read_payload-payload : (c : Cursor) → c.connection ≢ [] → read_payload (payload_of c) ≡ some c
unfolding read_payload as_index
read_payload-payload c h = ground (arith, cut-payload c h, parse_int-print c.index)

-- A payload is not empty.
append_some : (c : ℕ) (s t : Text) → s ++ c ∷ t ≢ []
append_some c [] t h = ground arith
append_some c (d ∷ s) t h = ground arith

payload_some : (c : Cursor) → payload_of c ≢ []
unfolding payload_of
payload_some c h = append_some b':' c.connection (print c.index) h

-- A plain cursor for a named connection is read back as what was minted.
pub plain_cursor_codec-trip :
    (c : Cursor)
    → c.connection ≢ []
    → plain_cursor_codec.decode (text (plain_cursor_codec.encode c)) ≡ some c
unfolding plain_cursor_codec
plain_cursor_codec-trip c h = read_plain-payload c h

abbrev pub is_ascii : ℕ → Bool
is_ascii c = ltb c 128

-- The JSON array that a cursor is minted from.
abbrev pub cursor_parts : Cursor → List Part
cursor_parts c = string c.connection ∷ integer c.index ∷ []

-- What Node documents: base64 of ASCII text is read back, and so is JSON.
pub record IsStandard (f : Formats) : Type 0 where
  pub unbase64-base64 : (t : Text) → all is_ascii t ≡ true → f.unbase64 (f.base64 t) ≡ t
  pub parse-stringify :
      (c : Cursor) → f.parse (f.stringify (cursor_parts c)) ≡ some (array (cursor_parts c))

-- A default cursor whose JSON text is ASCII is read back as what was minted.
pub relay_cursor_codec-trip :
    (f : Formats) (c : Cursor)
    → IsStandard f
    → all is_ascii (f.stringify (cursor_parts c)) ≡ true
    → (relay_cursor_codec f).decode (text ((relay_cursor_codec f).encode c)) ≡ some c
unfolding relay_cursor_codec from_parts as_index
relay_cursor_codec-trip f c laws h = ground (
  arith,
  ap f.parse (laws.unbase64-base64 (f.stringify (cursor_parts c)) h),
  laws.parse-stringify c,
)

module _ (hmac : String → Text → Text → Text) (o : SignedCursorCodecOptions) where
  read_signed-signed :
      (payload : Text)
      → payload ≢ []
      → has b'.' (sign hmac o payload) ≡ false
      → read_signed hmac o (payload ++ b'.' ∷ sign hmac o payload) ≡ read_payload payload
  unfolding read_signed
  read_signed-signed payload h k = ground (
    arith,
    cut_inside-append b'.' payload (sign hmac o payload) h k,
    eq_text_refl (sign hmac o payload),
  )

  -- What a signed codec reads is a payload with its own signature.
  read_signed_sound :
      (s : Text) (c : Cursor)
      → read_signed hmac o s ≡ some c
      → (payload : Text) × ((s ≡ payload ++ b'.' ∷ sign hmac o payload)
          × (read_payload payload ≡ some c))
  unfolding read_signed
  read_signed_sound s c h = elim (Option-cases (cut_inside b'.' s)) [
    | inl e ↦ ground (arith, e)
    | inr ((p, t), e) ↦ elim (Bool-cases (eq_text t (sign hmac o p))) [
      | inl q ↦ (
        p,
        (
          cut_inside_joins b'.' s p t e ∙ ap (λ u. p ++ b'.' ∷ u) (eq_text_sound t _ q),
          ground (arith, e, q, h),
        ),
      )
      | inr q ↦ ground (arith, e, q, h)
    ]
  ]

  -- The codec that a secret gives.
  abbrev signed : CursorCodec
  signed = record {
    encode = λ c. payload_of c ++ b'.' ∷ sign hmac o (payload_of c);
    decode = λ v. elim v [ other ↦ none | text s ↦ read_signed hmac o s ];
  }

  signed_cursor_codec-signed :
      (codec : CursorCodec) → signed_cursor_codec hmac o ≡ ok codec → signed ≡ codec
  unfolding signed_cursor_codec
  signed_cursor_codec-signed codec h = ground (arith, h)

  abbrev ReadsBack : CursorCodec → Type 0
  ReadsBack codec =
      ((c : Cursor) → c.connection ≢ [] → codec.decode (text (codec.encode c)) ≡ some c)
      × ((s : Text) (c : Cursor)
          → codec.decode (text s) ≡ some c
          → (payload : Text) × ((s ≡ payload ++ b'.' ∷ sign hmac o payload)
              × (read_payload payload ≡ some c)))

  signed-ReadsBack : ((payload : Text) → has b'.' (sign hmac o payload) ≡ false) → ReadsBack signed
  signed-ReadsBack dotless = (
    λ c h.
        read_signed-signed (payload_of c) (payload_some c) (dotless (payload_of c))
        ∙ read_payload-payload c h,
    read_signed_sound,
  )

  settled :
      (codec : CursorCodec)
      → ((payload : Text) → has b'.' (sign hmac o payload) ≡ false)
      → signed_cursor_codec hmac o ≡ ok codec
      → ReadsBack codec
  settled codec dotless h =
      subst ReadsBack (signed_cursor_codec-signed codec h) (signed-ReadsBack dotless)

  -- Where the digest has no dot, the codec that a secret gives reads a signed cursor for a named
  -- connection back as what was minted.
  pub signed_cursor_codec-trip :
      (codec : CursorCodec) (c : Cursor)
      → ((payload : Text) → has b'.' (sign hmac o payload) ≡ false)
      → signed_cursor_codec hmac o ≡ ok codec
      → c.connection ≢ []
      → codec.decode (text (codec.encode c)) ≡ some c
  signed_cursor_codec-trip codec c dotless h k = (settled codec dotless h).0 c k

  -- Where the digest has no dot, whatever the codec that a secret gives reads is a payload, followed
  -- by the signature of that payload, and what it gives is what the payload says.
  pub signed_cursor_codec-only_signed :
      (codec : CursorCodec) (s : Text) (c : Cursor)
      → ((payload : Text) → has b'.' (sign hmac o payload) ≡ false)
      → signed_cursor_codec hmac o ≡ ok codec
      → codec.decode (text s) ≡ some c
      → (payload : Text) × ((s ≡ payload ++ b'.' ∷ sign hmac o payload)
          × (read_payload payload ≡ some c))
  signed_cursor_codec-only_signed codec s c dotless h k = (settled codec dotless h).1 s c k

-- Some codec of a list reads a cursor so.
abbrev pub Reads : List CursorCodec → Given → Cursor → Type 0
Reads codecs v c = (codec : CursorCodec) × (In codec codecs × (codec.decode v ≡ some c))

-- What a later codec reads is read where the first reads nothing.
later :
    (codec : CursorCodec) (codecs : List CursorCodec) (v : Given)
    → codec.decode v ≡ none
    → (d : Cursor) × ((first_decoded codecs v ≡ some d) × Reads codecs v d)
    → (d : Cursor) × ((first_decoded (codec ∷ codecs) v ≡ some d) × Reads (codec ∷ codecs) v d)
unfolding first_decoded
later codec codecs v e (d, (q, (k, (i, r)))) = (d, (ground (arith, e, q), (k, (inr i, r))))

first_decoded-Reads :
    (codecs : List CursorCodec) (codec : CursorCodec) (v : Given) (c : Cursor)
    → In codec codecs
    → codec.decode v ≡ some c
    → (d : Cursor) × ((first_decoded codecs v ≡ some d) × Reads codecs v d)
unfolding first_decoded
first_decoded-Reads [] k v c i h = elim i [ ]
first_decoded-Reads (codec ∷ codecs) k v c i h = elim (Option-cases (codec.decode v)) [
  | inr (d, e) ↦ (d, (ground (arith, e), (codec, (inl refl, e))))
  | inl e ↦ elim i [
    | inl p ↦ ground (arith, e, ap (λ (x : CursorCodec). x.decode v) p, h)
    | inr j ↦ later codec codecs v e (first_decoded-Reads codecs k v c j h)
  ]
]

-- A cursor that any of the codecs minted and reads is read by the fallback codec too, as one of the
-- codecs reads it.
pub fallback_cursor_codec-accepts :
    (next codec : CursorCodec) (previous : List CursorCodec) (c d : Cursor)
    → In codec (next ∷ previous)
    → codec.decode (text (codec.encode c)) ≡ some d
    → (e : Cursor) × (((fallback_cursor_codec next previous).decode (text (codec.encode c))
          ≡ some e)
        × Reads (next ∷ previous) (text (codec.encode c)) e)
unfolding fallback_cursor_codec
fallback_cursor_codec-accepts next codec previous c d i h =
    first_decoded-Reads (next ∷ previous) codec (text (codec.encode c)) d i h
