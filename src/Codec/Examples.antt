-- ===== src/Codec/Examples.antt =====
-- Tests of the codecs, and their theorems at a concrete engine: numbers and bytes are written in
-- unary, and a JSON text is the datum that it carries.
use gqlize.Common.{
  ℕ, zero, suc, String, List, [], ◌∷◌, Option, none, some, Result, ok, err, ◌>>=◌, if◌then◌else◌,
  nat_eq, ◌≡◌, refl, lookup, ap,
}
use Prim.Native.Char.{code}
use gqlize.Codec.Datum.{
  Datum, Members, undefined, null, num, str, bigint, date, buffer, with_to_json, arr, obj, nil,
  cons, end, member, carried, IsPlain, Engine, IsStandard, Thrown, type_error,
}
use gqlize.Codec.Tags.{tag_key, tag, untag, revive, revive_date, encode, decode}
use gqlize.Codec.RoundTrip.{settled, IsUntagged, decode-encode, tag-IsPlain}
use gqlize.Codec.Rows.{date_time, date_only, big_integer, blob, FieldMap, serialize, deserialize}
use gqlize.Codec.Stored.{
  a_date_time, a_date_only, back_date, back_text, back_bigint, back_blob, back_undefined,
  back_field, back_end, IsRowBack, deserialize-serialize,
}

abbrev unary : ℕ → String → String
unary zero s = s
unary (suc n) s = String.◌∷◌ "a" (unary n s)

abbrev print : List ℕ → String
print [] = ""
print (n ∷ ns) = unary n (String.◌∷◌ "b" (print ns))

abbrev bump : List ℕ → List ℕ
bump [] = []
bump (n ∷ ns) = suc n ∷ ns

abbrev read : String → List ℕ
read String.[] = []
read (String.◌∷◌ c s) = let rest = read s in if nat_eq (code c) 97 then bump rest else 0 ∷ rest

read-unary :
    (n : ℕ) (ns : List ℕ)
    → read (print ns) ≡ ns
    → read (unary n (String.◌∷◌ "b" (print ns))) ≡ n ∷ ns
read-unary zero ns h = ap (◌∷◌ 0) h
read-unary (suc n) ns h = ap bump (read-unary n ns h)

read-print : (ns : List ℕ) → read (print ns) ≡ ns
read-print [] = refl
read-print (n ∷ ns) = read-unary n ns (read-print ns)

abbrev first : List ℕ → Option ℕ
first [] = none
first (n ∷ ns) = some n

abbrev bytes_of : Datum → Result Thrown (List ℕ)
bytes_of (str s) = ok (read s)
bytes_of v = err type_error

abbrev number_of : Datum → Option ℕ
number_of (str s) = first (read s)
number_of (num n) = some n
number_of v = none

abbrev or_thrown : Option ℕ → Result Thrown ℕ
or_thrown none = err type_error
or_thrown (some n) = ok n

abbrev shown : Datum → String
shown (str s) = s
shown v = "1"

abbrev engine : Engine Datum
engine = record {
  stringify = λ v. ok (carried v);
  parse = λ v. ok v;
  iso = λ t. print (t ∷ []);
  new_date = number_of;
  base64 = print;
  from_base64 = bytes_of;
  integer_text = λ n. print (n ∷ []);
  big_int = λ v. or_thrown (number_of v);
  text_of = shown;
  members_of = λ v. err type_error;
  parse_int = λ s. num 1;
  parse_float = λ s. num 1;
}

engine-IsStandard : IsStandard engine
engine-IsStandard = record {
  reads_json = λ v p d. refl;
  reads_iso = λ t. ap first (read-print (t ∷ []));
  reads_base64 = λ bs. ap {B = Result Thrown (List ℕ)} ok (read-print bs);
  reads_integer = λ n. ap (λ ns. or_thrown (first ns)) (read-print (n ∷ []));
  text_of_str = λ s. refl;
}

-- `{createdAt: Date, note: undefined, tags: [undefined, Buffer], total: {toJSON: () => 5n}}`
abbrev result : Datum
result = obj (
    member "createdAt" (date (some 3)) (
      member "note" undefined (
        member "tags" (arr (cons undefined (cons (buffer (7 ∷ 0 ∷ [])) nil)))
          (member "total" (with_to_json (bigint 5)) end))))

decode-encode_example :
    (do t ← encode engine result; decode engine t)
    ≡ ok (
        obj (
          member "createdAt" (date (some 3)) (
            member "tags"
              (arr (cons null (cons (buffer (7 ∷ 0 ∷ [])) nil)))
              (member "total" (bigint 5) end))))
unfolding settled IsUntagged
decode-encode_example =
    decode-encode engine engine-IsStandard result
      (refl, (tt, (refl, (tt, (refl, ((tt, (tt, tt)), (refl, (tt, tt)))))))) refl

tag-IsPlain_example : IsPlain (tag engine result)
tag-IsPlain_example = tag-IsPlain engine result

abbrev fields : FieldMap
fields =
    ("createdAt", some date_time)
    ∷ ("day", some date_only)
    ∷ ("total", some big_integer)
    ∷ ("raw", some blob)
    ∷ []

abbrev row : Members
row = member "createdAt" (date (some 3)) (
    member "day" (str "aab")
      (member "total" (bigint 5) (member "raw" (buffer (9 ∷ [])) (member "note" undefined end))))

abbrev row_back : Members
row_back =
    member "createdAt" (date (some 3)) (
      member "day" (date (some 2)) (member "total" (bigint 5) (member "raw" (buffer (9 ∷ [])) end)))

row-IsRowBack : IsRowBack engine fields row row_back
unfolding lookup
row-IsRowBack = back_field "createdAt" (back_date a_date_time 3) (
    back_field "day" (back_text a_date_only "aab") (
      back_field "total" (back_bigint 5)
        (back_field "raw" (back_blob (9 ∷ [])) (back_field "note" (back_undefined none) back_end))))

deserialize-serialize_example :
    (do t ← serialize engine fields row; deserialize engine fields (some t)) ≡ ok (some row_back)
deserialize-serialize_example =
    deserialize-serialize engine engine-IsStandard fields row row_back row-IsRowBack

-- An object with the tag's own name for a member is misread.
misread_test :
    (do
      t ← encode engine (obj (member tag_key (str "date") (member "v" null end)))
      decode engine t)
    ≡ ok (date none)
unfolding encode decode untag carried tag revive revive_date
misread_test = refl
