-- ===== src/Codec/Rows.antt =====
-- packages/ormize-adapter-valkey/src/serialize.ts, and DataType of
-- packages/utilize/src/types/data-type.ts: a row as a JSON text, by the descriptors of its fields.
-- A descriptor is read by its `type` alone; a text is `none` where it is null or undefined.
use gqlize.Common.{String, Option, none, some, Dict, lookup, Result, ok, err, ◌>>=◌}
use gqlize.Codec.Datum.{
  Datum, Members, undefined, null, num, str, bigint, date, buffer, obj, end, member, Engine, Thrown,
  range_error,
}

pub data DataType : Type 0 where
  string int float boolean big_integer decimal date_time date_only time uuid enum : DataType
  array json blob unknown : DataType

-- `fields[k]?.type`, and the `type` of that descriptor.
abbrev pub FieldMap : Type 0
FieldMap = Dict (Option DataType)

abbrev pub joined : Option (Option DataType) → Option DataType
joined none = none
joined (some t) = t

abbrev pub type_at : String → FieldMap → Option DataType
type_at k fields = joined (lookup k fields)

module _ {Json : Type 0} (e : Engine Json) where
  -- `toISOString` throws on an invalid date.
  abbrev pub encode_date : Datum → Result Thrown Datum
  encode_date (date (some t)) = ok (str (e.iso t))
  encode_date (date none) = err range_error
  encode_date v = ok v

  abbrev pub encode_big : Datum → Result Thrown Datum
  encode_big (bigint n) = ok (str (e.integer_text n))
  encode_big v = ok (str (e.text_of v))

  abbrev pub encode_blob : Datum → Result Thrown Datum
  encode_blob (buffer bs) = ok (str (e.base64 bs))
  encode_blob v = ok v

  abbrev pub encode_typed : Option DataType → Datum → Result Thrown Datum
  encode_typed (some date_time) v = encode_date v
  encode_typed (some date_only) v = encode_date v
  encode_typed (some time) v = encode_date v
  encode_typed (some big_integer) v = encode_big v
  encode_typed (some decimal) v = ok (str (e.text_of v))
  encode_typed (some blob) v = encode_blob v
  encode_typed t v = ok v

  unfoldable pub encode_field : Option DataType → Datum → Result Thrown Datum
  encode_field t null = ok null
  encode_field t undefined = ok undefined
  encode_field t v = encode_typed t v

  abbrev pub decode_int : Datum → Datum
  decode_int (num n) = num n
  decode_int v = e.parse_int (e.text_of v)

  abbrev pub decode_float : Datum → Datum
  decode_float (num n) = num n
  decode_float v = e.parse_float (e.text_of v)

  abbrev pub decode_typed : Option DataType → Datum → Result Thrown Datum
  decode_typed (some date_time) v = ok (date (e.new_date v))
  decode_typed (some date_only) v = ok (date (e.new_date v))
  decode_typed (some time) v = ok (date (e.new_date v))
  decode_typed (some big_integer) v = do n ← e.big_int v; ok (bigint n)
  decode_typed (some blob) v = do bs ← e.from_base64 v; ok (buffer bs)
  decode_typed (some int) v = ok (decode_int v)
  decode_typed (some float) v = ok (decode_float v)
  decode_typed t v = ok v

  unfoldable pub decode_field : Option DataType → Datum → Result Thrown Datum
  decode_field t null = ok null
  decode_field t undefined = ok undefined
  decode_field t v = decode_typed t v

  unfoldable pub encode_row : FieldMap → Members → Result Thrown Members
  encode_row fields end = ok end
  encode_row fields (member k v ms) = do
    w ← encode_field (type_at k fields) v
    rest ← encode_row fields ms
    ok (member k w rest)

  unfoldable pub serialize : FieldMap → Members → Result Thrown Json
  serialize fields row = do out ← encode_row fields row; e.stringify (obj out)

  unfoldable pub decode_row : FieldMap → Members → Result Thrown Members
  decode_row fields end = ok end
  decode_row fields (member k v ms) = do
    w ← decode_field (type_at k fields) v
    rest ← decode_row fields ms
    ok (member k w rest)

  -- The own members of what was read back: an object's, or what `Object.keys` finds on other values.
  abbrev pub decode_raw : FieldMap → Datum → Result Thrown Members
  decode_raw fields (obj ms) = decode_row fields ms
  decode_raw fields v = do ms ← e.members_of v; decode_row fields ms

  unfoldable pub deserialize : FieldMap → Option Json → Result Thrown (Option Members)
  deserialize fields none = ok none
  deserialize fields (some t) = do raw ← e.parse t; out ← decode_raw fields raw; ok (some out)
