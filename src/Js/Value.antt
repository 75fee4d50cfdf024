-- ===== src/Js/Value.antt =====
-- JavaScript values as the filter, scope and rule code reads them. Numbers are the non-negative
-- integers; a function is known by a number. Objects are their own enumerable entries in order.
use gqlize.Common.{
  ℕ, String, Bool, true, false, List, [], ◌∷◌, Dict, ◌==◌, nat_eq, not, ◌≡◌, refl, ap, arith,
  eq_iff,
}

mutual
  pub data Value : Type 0 where
    undefined null : Value
    bool : Bool → Value
    num : ℕ → Value
    str : String → Value
    func : ℕ → Value
    arr : Items → Value
    obj : Fields → Value

  pub data Fields : Type 0 where
    end : Fields
    field : String → Value → Fields → Fields

  pub data Items : Type 0 where
    nil : Items
    cons : Value → Items → Items

-- The elements of an array, and an array of given elements.
abbrev pub elems : Items → List Value
elems nil = []
elems (cons v vs) = v ∷ elems vs

abbrev pub to_items : List Value → Items
to_items [] = nil
to_items (v ∷ vs) = cons v (to_items vs)

-- The entries of an object, and an object of given entries.
abbrev pub entries : Fields → Dict Value
entries end = []
entries (field k v fs) = (k, v) ∷ entries fs

abbrev pub to_fields : Dict Value → Fields
to_fields [] = end
to_fields ((k, v) ∷ d) = field k v (to_fields d)

pub entries-to_fields : (d : Dict Value) → entries (to_fields d) ≡ d
entries-to_fields [] = refl
entries-to_fields ((k, v) ∷ d) = ap (◌∷◌ (k, v)) (entries-to_fields d)

pub to_fields-entries : (fs : Fields) → to_fields (entries fs) ≡ fs
to_fields-entries end = refl
to_fields-entries (field k v fs) = ap (field k v) (to_fields-entries fs)

pub elems-to_items : (vs : List Value) → elems (to_items vs) ≡ vs
elems-to_items [] = refl
elems-to_items (v ∷ vs) = ap (◌∷◌ v) (elems-to_items vs)

-- `!!v`
abbrev pub truthy : Value → Bool
truthy undefined = false
truthy null = false
truthy (bool b) = b
truthy (num n) = not (nat_eq n 0)
truthy (str s) = not (s == "")
truthy (func f) = true
truthy (arr vs) = true
truthy (obj fs) = true

-- `typeof v`
abbrev pub type_of : Value → String
type_of undefined = "undefined"
type_of null = "object"
type_of (bool b) = "boolean"
type_of (num n) = "number"
type_of (str s) = "string"
type_of (func f) = "function"
type_of (arr vs) = "object"
type_of (obj fs) = "object"

-- `v === undefined || v === null`
abbrev pub is_nullish : Value → Bool
is_nullish undefined = true
is_nullish null = true
is_nullish v = false

-- `a === b`. Two arrays or two objects are taken to be distinct references.
unfoldable pub strict_eq : Value → Value → Bool
strict_eq undefined undefined = true
strict_eq null null = true
strict_eq (bool true) (bool b) = b
strict_eq (bool false) (bool b) = not b
strict_eq (num m) (num n) = nat_eq m n
strict_eq (str s) (str t) = s == t
strict_eq (func f) (func g) = nat_eq f g
strict_eq _ _ = false

-- Values that `===` tells apart only by what they are.
abbrev pub IsScalar : Value → Type 0
IsScalar (arr vs) = ⊥
IsScalar (obj fs) = ⊥
IsScalar v = Unit

-- Where `===` holds, the values are the same.
pub strict_eq_sound : (a b : Value) → strict_eq a b ≡ true → a ≡ b
unfolding strict_eq
strict_eq_sound (bool true) (bool b) h = ap bool (symm h)
  where
    symm : b ≡ true → true ≡ b
    symm e = ground arith
strict_eq_sound (bool false) (bool b) h = ground arith
strict_eq_sound (num m) (num n) h = ground arith
strict_eq_sound (str s) (str t) h = ap str ((eq_iff s t).0 h)
strict_eq_sound (func f) (func g) h = ground arith
strict_eq_sound undefined undefined h = refl
strict_eq_sound null null h = refl
strict_eq_sound _ _ h = ground arith
