-- ===== src/Codec/Stored.antt =====
-- The proofs about packages/ormize-adapter-valkey/src/serialize.ts: what a stored row comes back as.
use gqlize.Common.{
  chain_step, ℕ, String, true, false, Bool-cases, inl, inr, List, Option, none, some, ok, ◌>>=◌,
  ◌≡◌, ◌≢◌, refl, ◌∙◌, ap, arith,
}
use gqlize.Codec.Datum.{
  Datum, Members, undefined, null, bool, num, str, bigint, date, buffer, with_to_json, arr, obj,
  end, member, keep_member, is_undefined, carried, carried_members, IsPlain, HasPlain, Engine,
  IsStandard,
}
use gqlize.Codec.Rows.{
  DataType, string, int, float, boolean, big_integer, decimal, date_time, date_only, time, uuid,
  enum, array, json, blob, unknown, FieldMap, type_at, encode_typed, encode_field, decode_typed,
  decode_raw, decode_field, encode_row, decode_row, serialize, deserialize,
}

-- The types whose fields are decoded to a date, and those whose fields pass through.
pub data IsTemporal : Option DataType → Type 0 where
  a_date_time : IsTemporal (some date_time)
  a_date_only : IsTemporal (some date_only)
  a_time : IsTemporal (some time)

pub data IsUntyped : Option DataType → Type 0 where
  no_type : IsUntyped none
  a_string : IsUntyped (some string)
  a_boolean : IsUntyped (some boolean)
  a_uuid : IsUntyped (some uuid)
  an_enum : IsUntyped (some enum)
  an_array : IsUntyped (some array)
  a_json : IsUntyped (some json)
  an_unknown : IsUntyped (some unknown)

module _ {Json : Type 0} (e : Engine Json) where
  -- What a field of a type holds, and what it comes back as. A date comes back; a text in a field for
  -- a date comes back as the date that it is read as, so does a number; a decimal comes back as a text.
  pub data IsBack : Option DataType → Datum → Datum → Type 0 where
    back_null : (t : Option DataType) → IsBack t null null
    back_undefined : (t : Option DataType) → IsBack t undefined undefined
    back_date :
        {t : Option DataType} → IsTemporal t → (u : ℕ) → IsBack t (date (some u)) (date (some u))
    back_text :
        {t : Option DataType}
        → IsTemporal t
        → (s : String) → IsBack t (str s) (date (e.new_date (str s)))
    back_stamp :
        {t : Option DataType}
        → IsTemporal t
        → (n : ℕ) → IsBack t (num n) (date (e.new_date (num n)))
    back_bigint : (n : ℕ) → IsBack (some big_integer) (bigint n) (bigint n)
    back_decimal_text : (s : String) → IsBack (some decimal) (str s) (str s)
    back_decimal : (n : ℕ) → IsBack (some decimal) (num n) (str (e.text_of (num n)))
    back_blob : (bs : List ℕ) → IsBack (some blob) (buffer bs) (buffer bs)
    back_int : (n : ℕ) → IsBack (some int) (num n) (num n)
    back_float : (n : ℕ) → IsBack (some float) (num n) (num n)
    back_plain :
        {t : Option DataType} → IsUntyped t → (v : Datum) → IsPlain v → IsBack t v (carried v)

  -- The row a row comes back as: each field as its type has it, and none that is undefined.
  pub data IsRowBack (fields : FieldMap) : Members → Members → Type 0 where
    back_end : IsRowBack fields end end
    back_field :
        (k : String) {v w : Datum} {ms ns : Members}
        → IsBack (type_at k fields) v w
        → IsRowBack fields ms ns
        → IsRowBack fields (member k v ms) (keep_member k w ns)

  -- A field that is stored: what it is encoded to is plain, and what JSON carries of that is decoded.
  record IsStored (t : Option DataType) (v w : Datum) : Type 0 where
    through : Datum
    encoded : encode_field e t v ≡ ok through
    plain : IsPlain through
    decoded : decode_field e t (carried through) ≡ ok w
    kept : is_undefined (carried through) ≡ is_undefined w

  stored :
      {t : Option DataType} {v w : Datum} (x : Datum)
      → encode_field e t v ≡ ok x
      → IsPlain x
      → decode_field e t (carried x) ≡ ok w
      → is_undefined (carried x) ≡ is_undefined w
      → IsStored t v w
  stored x encoded plain decoded kept = record {
    through = x;
    encoded = encoded;
    plain = plain;
    decoded = decoded;
    kept = kept;
  }

  encode_typed-untyped :
      {t : Option DataType} → IsUntyped t → (v : Datum) → encode_typed e t v ≡ ok v
  encode_typed-untyped no_type v = refl
  encode_typed-untyped a_string v = refl
  encode_typed-untyped a_boolean v = refl
  encode_typed-untyped a_uuid v = refl
  encode_typed-untyped an_enum v = refl
  encode_typed-untyped an_array v = refl
  encode_typed-untyped a_json v = refl
  encode_typed-untyped an_unknown v = refl

  decode_typed-untyped :
      {t : Option DataType} → IsUntyped t → (v : Datum) → decode_typed e t v ≡ ok v
  decode_typed-untyped no_type v = refl
  decode_typed-untyped a_string v = refl
  decode_typed-untyped a_boolean v = refl
  decode_typed-untyped a_uuid v = refl
  decode_typed-untyped an_enum v = refl
  decode_typed-untyped an_array v = refl
  decode_typed-untyped a_json v = refl
  decode_typed-untyped an_unknown v = refl

  -- A plain value, stored under a type that does not look at it.
  as_it_is :
      {t : Option DataType}
      → IsUntyped t
      → (v : Datum) → IsPlain v
      → encode_field e t v ≡ encode_typed e t v
      → decode_field e t (carried v) ≡ decode_typed e t (carried v)
      → IsStored t v (carried v)
  as_it_is u v p h k =
      stored v (h ∙ encode_typed-untyped u v) p (k ∙ decode_typed-untyped u (carried v)) refl

  plain-IsStored :
      {t : Option DataType} → IsUntyped t → (v : Datum) → IsPlain v → IsStored t v (carried v)
  unfolding encode_field decode_field carried IsPlain
  plain-IsStored u undefined p = stored undefined refl tt refl refl
  plain-IsStored u null p = stored null refl tt refl refl
  plain-IsStored u (bool b) p = as_it_is u (bool b) p refl refl
  plain-IsStored u (num n) p = as_it_is u (num n) p refl refl
  plain-IsStored u (str s) p = as_it_is u (str s) p refl refl
  plain-IsStored u (arr vs) p = as_it_is u (arr vs) p refl refl
  plain-IsStored u (obj ms) p = as_it_is u (obj ms) p refl refl
  plain-IsStored u (bigint n) p = elim p [ ]
  plain-IsStored u (date t) p = elim p [ ]
  plain-IsStored u (buffer bs) p = elim p [ ]
  plain-IsStored u (with_to_json v) p = elim p [ ]

  module _ (std : IsStandard e) where
    date-IsStored :
        {t : Option DataType} → IsTemporal t → (u : ℕ) → IsStored t (date (some u)) (date (some u))
    unfolding encode_field decode_field carried IsPlain
    date-IsStored a_date_time u =
        stored (str (e.iso u)) refl tt (ap (λ d. ok (date d)) (std.reads_iso u)) refl
    date-IsStored a_date_only u =
        stored (str (e.iso u)) refl tt (ap (λ d. ok (date d)) (std.reads_iso u)) refl
    date-IsStored a_time u =
        stored (str (e.iso u)) refl tt (ap (λ d. ok (date d)) (std.reads_iso u)) refl

    text-IsStored :
        {t : Option DataType}
        → IsTemporal t
        → (s : String) → IsStored t (str s) (date (e.new_date (str s)))
    unfolding encode_field decode_field carried IsPlain
    text-IsStored a_date_time s = stored (str s) refl tt refl refl
    text-IsStored a_date_only s = stored (str s) refl tt refl refl
    text-IsStored a_time s = stored (str s) refl tt refl refl

    stamp-IsStored :
        {t : Option DataType}
        → IsTemporal t
        → (n : ℕ) → IsStored t (num n) (date (e.new_date (num n)))
    unfolding encode_field decode_field carried IsPlain
    stamp-IsStored a_date_time n = stored (num n) refl tt refl refl
    stamp-IsStored a_date_only n = stored (num n) refl tt refl refl
    stamp-IsStored a_time n = stored (num n) refl tt refl refl

    back-IsStored : {t : Option DataType} {v w : Datum} → IsBack t v w → IsStored t v w
    unfolding encode_field decode_field carried IsPlain
    back-IsStored (back_null t) = stored null refl tt refl refl
    back-IsStored (back_undefined t) = stored undefined refl tt refl refl
    back-IsStored (back_date d u) = date-IsStored d u
    back-IsStored (back_text d x) = text-IsStored d x
    back-IsStored (back_stamp d n) = stamp-IsStored d n
    back-IsStored (back_bigint n) =
        stored (str (e.integer_text n)) refl tt
          (ap (λ r. r >>= λ m. ok (bigint m)) (std.reads_integer n)) refl
    back-IsStored (back_decimal_text x) =
        stored (str (e.text_of (str x))) refl tt (ap (λ y. ok (str y)) (std.text_of_str x)) refl
    back-IsStored (back_decimal n) = stored (str (e.text_of (num n))) refl tt refl refl
    back-IsStored (back_blob bs) =
        stored (str (e.base64 bs)) refl tt
          (ap (λ r. r >>= λ m. ok (buffer m)) (std.reads_base64 bs)) refl
    back-IsStored (back_int n) = stored (num n) refl tt refl refl
    back-IsStored (back_float n) = stored (num n) refl tt refl refl
    back-IsStored (back_plain u v p) = plain-IsStored u v p

    obj_defined : (ms : Members) → obj ms ≢ undefined
    obj_defined ms h = let no : false ≡ true = ap is_undefined h in ground arith

    -- A stored row: its fields encode to plain members, which are decoded to the row that comes back.
    record IsRowStored (fields : FieldMap) (row back : Members) : Type 0 where
      out : Members
      encoded : encode_row e fields row ≡ ok out
      plain : HasPlain out
      decoded : decode_row e fields (carried_members out) ≡ ok back

    field_stored :
        (fields : FieldMap) (k : String) (v w : Datum) (ms ns : Members)
        → IsStored (type_at k fields) v w
        → IsRowStored fields ms ns
        → IsRowStored fields (member k v ms) (keep_member k w ns)
    unfolding encode_row decode_row carried HasPlain
    field_stored fields k v w ms ns s r = record {
      out = member k s.through r.out;
      encoded = rw (s.encoded, r.encoded);
      plain = (s.plain, r.plain);
      decoded = elim (Bool-cases (is_undefined w)) [
        | inl u ↦ rw (s.kept, u, r.decoded)
        | inr u ↦ rw (s.kept, u, s.decoded, r.decoded)
      ];
    }

    row_stored :
        (fields : FieldMap) {row back : Members}
        → IsRowBack fields row back
        → IsRowStored fields row back
    unfolding encode_row decode_row carried HasPlain
    row_stored fields back_end = record { out = end; encoded = refl; plain = tt; decoded = refl }
    row_stored fields (back_field k b bs) =
        field_stored fields k _ _ _ _ (back-IsStored b) (row_stored fields bs)

    -- A row whose fields hold what their types describe is serialized, and deserializing the text
    -- gives the row with each field as its type has it: dates, bigints and buffers are back, and
    -- fields that were undefined are gone.
    pub deserialize-serialize :
        (fields : FieldMap) (row back : Members)
        → IsRowBack fields row back
        → (do t ← serialize e fields row; deserialize e fields (some t)) ≡ ok (some back)
    unfolding serialize deserialize carried IsPlain
    deserialize-serialize fields row back b =
        let r = row_stored fields b in
        ap (λ o. do t ← (o >>= λ out. e.stringify (obj out)); deserialize e fields (some t))
          r.encoded
        ∙ chain_step (e.stringify (obj r.out)) e.parse
            (λ raw. decode_raw e fields raw >>= λ out. ok (some out)) (carried (obj r.out))
            (std.reads_json (obj r.out) r.plain (obj_defined r.out))
        ∙ ap (λ o. o >>= λ out. ok (some out)) r.decoded
