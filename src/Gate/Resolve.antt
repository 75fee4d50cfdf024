-- ===== src/Gate/Resolve.antt =====
-- Row-level scopes in packages/utilize/src/gate.ts: `asResolvedScope`, `resolveScope`, `andScopes`.
-- A call of a predicate stands for the awaited call: a rejected promise is a throw.
use gqlize.Common.{
  String, Bool, true, false, not, ◌||◌, Option, none, some, List, [], ◌∷◌, ◌++◌, Dict, lookup, put,
  is_some, Result, ok, err, ◌>>=◌, if◌then◌else◌,
}
use gqlize.Js.Value.{
  Value, undefined, null, bool, str, arr, obj, Fields, end, field, elems, to_items, entries,
  to_fields, truthy, strict_eq,
}
use gqlize.Js.Indexed.{indexed, characters}
use gqlize.Gate.Allow.{
  Error, type_error, scope_configuration, userland, Predicate, predicate, plain, Permission, member,
  options_of,
}
use gqlize.Gate.Where.{normalise, is_empty_where}

-- `ScopeOperation`
pub data ScopeOperation : Type 0 where
  read create update delete : ScopeOperation

abbrev pub operation_name : ScopeOperation → String
operation_name read = "read"
operation_name create = "create"
operation_name update = "update"
operation_name delete = "delete"

-- The object form of a resolved scope; an absent member is `undefined`.
pub record Envelope : Type 0 where
  pub where_part : Value
  pub set_part : Value
  pub native_part : Value

-- `ResolvedScope`: `undefined`, `false`, or the object.
pub data ResolvedScope : Type 0 where
  unscoped denied : ResolvedScope
  scoped : Envelope → ResolvedScope

-- `value.name`
abbrev pub property : Value → String → Value
property (obj fs) name = elim (lookup name (entries fs)) [ some v ↦ v | none ↦ undefined ]
property v name = undefined

-- `name in value`
abbrev pub has_property : Fields → String → Bool
has_property fs name = is_some (lookup name (entries fs))

abbrev pub is_envelope : Fields → Bool
is_envelope fs = has_property fs "where" || has_property fs "set" || has_property fs "native"

abbrev pub shaped : Fields → Envelope
shaped fs =
    let w = property (obj fs) "where" in
    record {
      where_part = if is_empty_where w then undefined else normalise w;
      set_part = property (obj fs) "set";
      native_part = property (obj fs) "native";
    }

unfoldable pub as_resolved_scope : Value → Result Error ResolvedScope
as_resolved_scope undefined = ok unscoped
as_resolved_scope null = ok unscoped
as_resolved_scope (bool false) = ok denied
as_resolved_scope (obj fs) =
    if is_envelope fs
    then ok (scoped (shaped fs))
    else ok (
        scoped (record {
          where_part = normalise (obj fs);
          set_part = undefined;
          native_part = undefined;
        }))
as_resolved_scope v = err (scope_configuration [])

-- What a call of the predicate that threw comes to.
abbrev pub recover : Error → Result Error ResolvedScope
recover (scope_configuration names) = err (scope_configuration names)
recover (type_error kind) = ok denied
recover (userland message) = ok denied

abbrev pub settle : Result Error Value → Result Error ResolvedScope
settle (ok v) = as_resolved_scope v
settle (err e) = recover e

-- the argument list of a scope predicate
abbrev pub scope_args : Option Permission → String → ScopeOperation → Value → List Value
scope_args p def_name operation context =
    str def_name ∷ str (operation_name operation) ∷ options_of p ∷ context ∷ []

unfoldable pub resolve_scope :
    Option Permission → String → ScopeOperation → Value → Result Error ResolvedScope
unfolding as_resolved_scope
resolve_scope p def_name operation context = elim (member p "scope") [
  | some (predicate f) ↦ settle (f (scope_args p def_name operation context))
  | some (plain v) ↦ ok unscoped
  | none ↦ ok unscoped
]

-- What `andScopes` has gathered from the sources so far.
pub record Gathered : Type 0 where
  pub wheres : List Value
  pub forced : Dict Value
  pub natives : List Value
  pub opinionated : Bool

-- `natives.concat(native)`: an array is spliced in.
abbrev pub concat_native : List Value → Value → List Value
concat_native natives undefined = natives
concat_native natives (arr vs) = natives ++ elems vs
concat_native natives v = natives ++ v ∷ []

-- `Object.keys(set || {})` with the values: the members of an object, the elements of an array, and the
-- characters of a text of the basic plane
abbrev pub forced_entries : Value → Dict Value
forced_entries (obj fs) = entries fs
forced_entries (arr vs) = indexed 0 (elems vs)
forced_entries (str s) = characters 0 s
forced_entries v = []

-- `field in set && set[field] !== value`
abbrev pub disagrees : Dict Value → String → Value → Bool
disagrees forced name v = elim (lookup name forced) [
  | some old ↦ not (strict_eq old v)
  | none ↦ false
]

-- The loop over one source's forced values; `none` where two sources disagree.
unfoldable pub add_forced : Dict Value → Dict Value → Option (Dict Value)
unfolding strict_eq
add_forced forced [] = some forced
add_forced forced ((name, v) ∷ rest) =
    let more = add_forced (put name v forced) rest in if disagrees forced name v then none else more

abbrev pub push_where : List Value → Value → List Value
push_where wheres w = if truthy w then wheres ++ w ∷ [] else wheres

abbrev pub gather : Gathered → Envelope → Dict Value → Gathered
gather g e forced = record {
  wheres = push_where g.wheres e.where_part;
  forced = forced;
  natives = concat_native g.natives e.native_part;
  opinionated = true;
}

abbrev pub combined_where : List Value → Dict Value
combined_where [] = []
combined_where (w ∷ []) = ("where", w) ∷ []
combined_where (w ∷ w' ∷ ws) = ("where", obj (field "and" (arr (to_items (w ∷ w' ∷ ws))) end)) ∷ []

abbrev pub combined_set : Dict Value → Dict Value
combined_set [] = []
combined_set (e ∷ d) = ("set", obj (to_fields (e ∷ d))) ∷ []

abbrev pub combined_native : List Value → Dict Value
combined_native [] = []
combined_native (n ∷ []) = ("native", n) ∷ []
combined_native (n ∷ n' ∷ ns) = ("native", arr (to_items (n ∷ n' ∷ ns))) ∷ []

abbrev pub finish : Gathered → Value
finish g =
    if g.opinionated
    then obj (
        to_fields (combined_where g.wheres ++ (combined_set g.forced ++ combined_native g.natives)))
    else undefined

-- What one source answers.
abbrev pub outcome : List Value → Predicate → Result Error ResolvedScope
outcome args f = f args >>= as_resolved_scope

-- The loop over the sources. A deny, and a disagreement on a forced value, end it.
unfoldable pub and_loop : List Value → Gathered → List Predicate → Result Error Value
unfolding as_resolved_scope add_forced
and_loop args g [] = ok (finish g)
and_loop args g (f ∷ fs) = elim (outcome args f) [
  | err e ↦ err e
  | ok denied ↦ ok (bool false)
  | ok unscoped ↦ and_loop args g fs
  | ok (scoped e) ↦ elim (add_forced g.forced (forced_entries e.set_part)) [
    | none ↦ ok (bool false)
    | some forced ↦ and_loop args (gather g e forced) fs
  ]
]

abbrev pub nothing_gathered : Gathered
nothing_gathered = record { wheres = []; forced = []; natives = []; opinionated = false }

-- `sources.filter((source) => typeof source === "function")`
abbrev pub given : List (Option Predicate) → List Predicate
given [] = []
given (none ∷ sources) = given sources
given (some f ∷ sources) = f ∷ given sources

unfoldable pub and_scopes : List (Option Predicate) → Predicate
unfolding and_loop
and_scopes sources args = and_loop args nothing_gathered (given sources)
