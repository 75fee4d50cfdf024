-- ===== src/Gate/Where.antt =====
-- The portable filter of packages/utilize/src/gate.ts: its combinators, `normaliseScopeWhere`,
-- `isEmptyWhere` and `mergeScopeWhere`. A filter is a JavaScript value; `undefined` is an absent one.
use Prim.Native.Char.{code}
use gqlize.Common.{
  ℕ, ◌+◌, String, Bool, true, false, ◌&&◌, Option, none, some, List, [], ◌∷◌, Dict, put, map, leb,
  nat_eq, if◌then◌else◌,
}
use gqlize.Js.Value.{Value, arr, obj, Items, nil, cons, Fields, end, field, to_fields}

-- `LOGICAL_OPERATORS`
pub data Logic : Type 0 where
  conj disj neg : Logic

abbrev codes : String → List ℕ
codes String.[] = []
codes (String.◌∷◌ letter rest) = code letter ∷ codes rest

-- `toLowerCase` as far as the names "and", "or" and "not" can tell: no character outside A to Z has
-- one of their letters for its lower case.
abbrev lower : ℕ → ℕ
lower c = if leb b'A' c && leb c b'Z' then c + 32 else c

abbrev same : List ℕ → List ℕ → Bool
same [] [] = true
same (a ∷ as') (b ∷ bs) = nat_eq a b && same as' bs
same _ _ = false

-- Which combinator a key is, whatever its case.
unfoldable pub logical : String → Option Logic
logical key =
    let low = map lower (codes key) in
    if same low (codes "and")
    then some conj
    else if same low (codes "or")
    then some disj
    else if same low (codes "not")
    then some neg
    else none

-- The lowercased key.
abbrev pub name_of : Logic → String
name_of conj = "and"
name_of disj = "or"
name_of neg = "not"

-- The key that `normaliseScopeWhere` writes for a key.
unfoldable pub target : String → String
target key = elim (logical key) [ some l ↦ name_of l | none ↦ key ]

unfoldable mutual
  pub normalise : Value → Value
  normalise (arr vs) = arr (normalise_items vs)
  normalise (obj fs) = obj (to_fields (normalise_fields [] fs))
  normalise v = v

  pub normalise_items : Items → Items
  normalise_items nil = nil
  normalise_items (cons v vs) = cons (normalise v) (normalise_items vs)

  -- the loop over the keys; `out` is the object that is built
  pub normalise_fields : Dict Value → Fields → Dict Value
  normalise_fields out end = out
  normalise_fields out (field k v fs) =
      normalise_fields
        (elim (logical k) [ some l ↦ put (name_of l) (normalise v) out | none ↦ put k v out ]) fs

-- `!where`, not an object, or an object with no keys
abbrev pub is_empty_where : Value → Bool
is_empty_where (arr nil) = true
is_empty_where (arr (cons v vs)) = false
is_empty_where (obj end) = true
is_empty_where (obj (field k v fs)) = false
is_empty_where v = true

-- `{ and: [user, scope] }`
abbrev pub both : Value → Value → Value
both u s = obj (field "and" (arr (cons u (cons s nil))) end)

unfoldable pub merge_scope_where : Value → Value → Value
merge_scope_where user scope =
    if is_empty_where scope
    then user
    else if is_empty_where user
    then normalise scope
    else both user (normalise scope)
