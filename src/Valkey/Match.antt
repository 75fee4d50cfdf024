-- ===== src/Valkey/Match.antt =====
-- The in-memory predicate matching of packages/ormize-adapter-valkey/src/query.ts. `none` is the
-- TypeError of calling `every` or `some` on a value that is no array.
use Prim.Native.Char.{Char, code}
use Prim.Native.String
use text.Mathlib.Text.{starts_with, find?}
use gqlize.Common.{
  ℕ, suc, String, Bool, true, false, not, ◌&&◌, Option, none, some, List, [], ◌∷◌, Dict, lookup,
  ◌==◌, any, nat_eq, is_some, ◌||◌, if◌then◌else◌,
}
use gqlize.Js.Value.{
  Value, undefined, arr, obj, Items, nil, cons, Fields, end, field, elems, truthy, strict_eq,
}
use gqlize.Gate.Where.{conj, disj, neg, logical}

-- What the JavaScript engine gives the operators: the relational operators on any two values,
-- `String(v)`, `RegExp.test` (source, flags, text), `endsWith` and the key of an array index.
pub record Engine : Type 0 where
  pub greater : Value → Value → Bool
  pub greater_eq : Value → Value → Bool
  pub less : Value → Value → Bool
  pub less_eq : Value → Value → Bool
  pub text : Value → String
  pub regexp_test : String → String → String → Bool
  pub ends_with : String → String → Bool
  pub index_key : ℕ → String

-- A stored row: its fields by name.
abbrev pub Row : Type 0
Row = Dict Value

abbrev pub row_get : Row → String → Value
row_get row f = elim (lookup f row) [ some v ↦ v | none ↦ undefined ]

-- the characters that have a meaning in a regular expression
abbrev special : List ℕ
special =
    b'.' ∷ b'*' ∷ b'+' ∷ b'?' ∷ b'^' ∷ b'$' ∷ b'{' ∷ b'}' ∷ b'(' ∷ b')' ∷ b'|' ∷ b'[' ∷ b']' ∷ 92
    ∷ []

-- one pass of `replace` over single characters
replace_each : (Char → Option String) → String → String
replace_each by String.[] = ""
replace_each by (String.◌∷◌ c s) =
    let rest = replace_each by s in
    elim (by c) [ none ↦ String.◌∷◌ c rest | some r ↦ String.◌++◌ r rest ]

escape : Char → Option String
escape c =
    if any (nat_eq (code c)) special then some (String.◌++◌ "\\" (String.◌∷◌ c String.[])) else none

wildcard : ℕ → String → Char → Option String
wildcard sign r c = if nat_eq (code c) sign then some r else none

-- The source of the regular expression that `likeToRegExp` builds.
unfoldable pub like_source : String → String
unfolding replace_each escape wildcard
like_source pattern =
    let escaped = replace_each escape pattern in
    String.◌++◌ "^" (
      String.◌++◌ (replace_each (wildcard b'_' ".") (replace_each (wildcard b'%' ".*") escaped))
        "$")

abbrev pub includes : Value → List Value → Bool
includes v [] = false
includes v (x ∷ xs) = strict_eq x v || includes v xs

-- `Array.isArray(v)`
abbrev pub is_array : Value → Bool
is_array (arr vs) = true
is_array v = false

abbrev items_of : Value → List Value
items_of (arr vs) = elems vs
items_of v = []

module _ (e : Engine) where
  abbrev like : String → Value → Value → Bool
  like flags value target = e.regexp_test (like_source (e.text target)) flags (e.text value)

  -- the `switch` on the operator's name
  unfoldable pub match_op : Value → String → Value → Bool
  unfolding strict_eq
  match_op value op target =
      if op == "eq"
      then strict_eq value target
      else if op == "ne" || op == "not"
      then not (strict_eq value target)
      else if op == "gt"
      then e.greater value target
      else if op == "gte"
      then e.greater_eq value target
      else if op == "lt"
      then e.less value target
      else if op == "lte"
      then e.less_eq value target
      else if op == "in"
      then is_array target && includes value (items_of target)
      else if op == "notIn"
      then is_array target && not (includes value (items_of target))
      else if op == "is"
      then strict_eq value target
      else if op == "like"
      then like "" value target
      else if op == "iLike"
      then like "i" value target
      else if op == "notLike"
      then not (like "" value target)
      else if op == "startsWith"
      then starts_with (e.text value) (e.text target)
      else if op == "endsWith"
      then e.ends_with (e.text value) (e.text target)
      else if op == "substring"
      then is_some (find? (e.text value) (e.text target))
      else false

  abbrev pub match_ops : Value → Fields → Bool
  match_ops value end = true
  match_ops value (field op target fs) = match_op value op target && match_ops value fs

  -- An array as a condition has its indices for operators, and no operator is named like one.
  unfoldable pub match_field : Row → String → Value → Bool
  unfolding strict_eq
  match_field row name (obj ops) = match_ops (row_get row name) ops
  match_field row name (arr nil) = true
  match_field row name (arr (cons v vs)) = false
  match_field row name cond = strict_eq (row_get row name) cond

-- `a && b` in a loop that may throw: `b` is not reached after a false.
abbrev pub and_then : Option Bool → Option Bool → Option Bool
and_then none m = none
and_then (some false) m = some false
and_then (some true) m = m

abbrev pub or_else : Option Bool → Option Bool → Option Bool
or_else none m = none
or_else (some true) m = some true
or_else (some false) m = m

abbrev pub negate : Option Bool → Option Bool
negate none = none
negate (some b) = some (not b)

-- `value || []` where it is no array: a falsy value is the empty list, any other throws.
abbrev pub no_list : Value → Bool → Option Bool
no_list v empty = if truthy v then none else some empty

module _ (e : Engine) (row : Row) where
  unfoldable mutual
    unfolding match_field

    pub match_where : Value → Option Bool
    match_where (obj fs) = match_fields fs
    match_where (arr vs) = match_indices 0 vs
    match_where v = some true

    -- one round for each key
    pub match_fields : Fields → Option Bool
    match_fields end = some true
    match_fields (field key v fs) =
        and_then
          (elim (logical key) [
            | some conj ↦ match_every v
            | some disj ↦ match_some v
            | some neg ↦ negate (match_where v)
            | none ↦ some (match_field e row key v)
          ])
          (match_fields fs)

    -- an array in the place of a filter: its indices are fields
    pub match_indices : ℕ → Items → Option Bool
    match_indices i nil = some true
    match_indices i (cons v vs) =
        and_then (some (match_field e row (e.index_key i) v)) (match_indices (suc i) vs)

    pub match_every : Value → Option Bool
    match_every (arr vs) = every_item vs
    match_every v = no_list v true

    pub match_some : Value → Option Bool
    match_some (arr vs) = some_item vs
    match_some v = no_list v false

    pub every_item : Items → Option Bool
    every_item nil = some true
    every_item (cons v vs) = and_then (match_where v) (every_item vs)

    pub some_item : Items → Option Bool
    some_item nil = some false
    some_item (cons v vs) = or_else (match_where v) (some_item vs)
