-- ===== src/Codec/Datum.antt =====
-- The values that a cached result or a stored row holds, and what JSON carries of them: a `Date` by
-- its time (`none` where it is invalid), a `bigint`, a `Buffer` by its bytes, and an object of a type
-- that answers `toJSON`. Numbers are the non-negative integers; functions and symbols are left out.
use gqlize.Common.{
  ℕ, String, Bool, true, false, List, Option, none, some, ◌==◌, if◌then◌else◌, ◌≡◌, ◌≢◌, Result, ok,
  ◌>>=◌,
}

mutual
  pub data Datum : Type 0 where
    undefined null : Datum
    bool : Bool → Datum
    num : ℕ → Datum
    str : String → Datum
    bigint : ℕ → Datum
    date : Option ℕ → Datum
    buffer : List ℕ → Datum
    with_to_json : Datum → Datum
    arr : Data → Datum
    obj : Members → Datum

  pub data Data : Type 0 where
    nil : Data
    cons : Datum → Data → Data

  pub data Members : Type 0 where
    end : Members
    member : String → Datum → Members → Members

abbrev pub find_member : String → Members → Option Datum
find_member k end = none
find_member k (member j v ms) = if j == k then some v else find_member k ms

abbrev pub is_undefined : Datum → Bool
is_undefined undefined = true
is_undefined v = false

-- A member that is undefined is dropped; an element that is undefined becomes null.
abbrev pub keep_member : String → Datum → Members → Members
keep_member k v ms = if is_undefined v then ms else member k v ms

abbrev pub element : Datum → Datum
element v = if is_undefined v then null else v

-- What `JSON.parse(JSON.stringify(v))` gives for plain data.
unfoldable mutual
  pub carried : Datum → Datum
  carried (arr vs) = arr (carried_elements vs)
  carried (obj ms) = obj (carried_members ms)
  carried v = v

  pub carried_elements : Data → Data
  carried_elements nil = nil
  carried_elements (cons v vs) = cons (element (carried v)) (carried_elements vs)

  pub carried_members : Members → Members
  carried_members end = end
  carried_members (member k v ms) = keep_member k (carried v) (carried_members ms)

-- No `bigint`, which `JSON.stringify` refuses, and nothing that it would call a method of.
unfoldable mutual
  pub IsPlain : Datum → Type 0
  IsPlain (arr vs) = ArePlain vs
  IsPlain (obj ms) = HasPlain ms
  IsPlain (bigint n) = ⊥
  IsPlain (date t) = ⊥
  IsPlain (buffer bs) = ⊥
  IsPlain (with_to_json v) = ⊥
  IsPlain v = Unit

  pub ArePlain : Data → Type 0
  ArePlain nil = Unit
  ArePlain (cons v vs) = IsPlain v × ArePlain vs

  pub HasPlain : Members → Type 0
  HasPlain end = Unit
  HasPlain (member k v ms) = IsPlain v × HasPlain ms

-- What is thrown.
pub data Thrown : Type 0 where
  type_error syntax_error range_error : Thrown

-- What the JavaScript engine computes and the code only calls. `JSON.stringify`, `JSON.parse`,
-- `BigInt` and `Buffer.from` throw on some arguments. `Json` is the type of JSON texts.
pub record Engine (Json : Type 0) : Type 0 where
  pub stringify : Datum → Result Thrown Json
  pub parse : Json → Result Thrown Datum
  pub iso : ℕ → String
  pub new_date : Datum → Option ℕ
  pub base64 : List ℕ → String
  pub from_base64 : Datum → Result Thrown (List ℕ)
  pub integer_text : ℕ → String
  pub big_int : Datum → Result Thrown ℕ
  pub text_of : Datum → String
  pub members_of : Datum → Result Thrown Members
  pub parse_int : String → Datum
  pub parse_float : String → Datum

-- What the standard says of them: each text is read back as what it was printed from.
pub record IsStandard {Json : Type 0} (e : Engine Json) : Type 0 where
  pub reads_json :
      (v : Datum) → IsPlain v → v ≢ undefined → (e.stringify v >>= e.parse) ≡ ok (carried v)
  pub reads_iso : (t : ℕ) → e.new_date (str (e.iso t)) ≡ some t
  pub reads_base64 : (bs : List ℕ) → e.from_base64 (str (e.base64 bs)) ≡ ok bs
  pub reads_integer : (n : ℕ) → e.big_int (str (e.integer_text n)) ≡ ok n
  pub text_of_str : (s : String) → e.text_of (str s) ≡ s
