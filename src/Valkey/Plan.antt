-- ===== src/Valkey/Plan.antt =====
-- The data and the locals of the query planner of packages/ormize-adapter-valkey/src/query.ts: the
-- executor, the errors, what is read of a condition, and the sets of candidates.
use gqlize.Common.{
  length, String, Bool, true, false, not, ◌||◌, Option, none, some, List, [], ◌∷◌, ◌++◌, Dict, leb,
  keep, all, contains, Result, ok, err, ◌==◌, if◌then◌else◌,
}
use gqlize.Js.Value.{Value, undefined, str, arr, obj, nil, cons, Fields, end, field, elems, truthy}
use gqlize.Gate.Where.{Logic, conj, disj, neg}
use gqlize.Valkey.Match.{Engine, Row, match_where, and_then}
use gqlize.Valkey.Transaction.{Score, add_each}
use gqlize.Valkey.Overlay.{Write}
use gqlize.Valkey.Indexes.{Keys, under, join, ValkeyModel}

unfoldable pub object_key : Keys → String → String → String
object_key ks model id = under ks model (join ":o:" id)

-- `Executor` over the state `S` of the store or of a transaction: what a query calls of it. `row_of`
-- is `deserialize`, on the rows as the filters read them.
pub record Executor (S : Type 0) : Type 0 where
  pub z_members : String → S → Dict Score
  pub get_str : String → S → Option String
  pub s_members : String → S → List String
  pub mget_obj : List String → S → List (Option String)
  pub write : Write → S → S
  pub buffered : Bool
  pub row_of : String → Row

-- The errors of a query: the two that it throws itself, and the TypeErrors of looping over a value that
-- is no list, and of a filter that the rows cannot be matched against.
pub data QueryError : Type 0 where
  not_indexed branch_not_indexed not_iterable not_matchable : QueryError

-- `ValkeyModel` with its primary key, which `isSearchable` and the index lookups read too.
pub record SearchModel : Type 0 where
  pub model : ValkeyModel
  pub primary_key : String

-- A search: it reads the state, may change it, and may throw.
abbrev pub Search : Type 0 → Type 0 → Type 0
Search S A = S → Result QueryError (A × S)

abbrev pub after {ℓ κ} :
    {A : Type ℓ} {B : Type κ}
    → Result QueryError A
    → (A → Result QueryError B)
    → Result QueryError B
after (ok a) k = k a
after (err x) k = err x

infixl 5 ◌>>=◌
abbrev pub ◌>>=◌ : {S A B : Type 0} → Search S A → (A → Search S B) → Search S B
m >>= k = λ s. after (m s) (λ r. k r.0 r.1)

abbrev pub give : {S A : Type 0} → A → Search S A
give a = λ s. ok (a, s)

abbrev pub throw : {S A : Type 0} → QueryError → Search S A
throw x = λ s. err x

abbrev pub is_undefined : Value → Bool
is_undefined undefined = true
is_undefined v = false

-- What an index plan needs of a condition on a field (`scalarOf`): `undefined` for no `eq`.
pub record Scalar : Type 0 where
  pub eq : Value
  pub among : Option (List Value)
  pub has_other : Bool

abbrev pub member_of : String → Fields → Value
member_of k end = undefined
member_of k (field j v fs) = if j == k then v else member_of k fs

abbrev pub list_of : Value → Option (List Value)
list_of (arr vs) = some (elems vs)
list_of v = none

-- `eq` or `in`
abbrev pub is_test : String → Bool
is_test op = op == "eq" || op == "in"

abbrev pub other_ops : Fields → Bool
other_ops end = false
other_ops (field op v fs) = not (is_test op) || other_ops fs

unfoldable pub scalar_of : Value → Scalar
scalar_of (obj fs) = record {
  eq = member_of "eq" fs;
  among = list_of (member_of "in" fs);
  has_other = other_ops fs;
}
scalar_of (arr nil) = record { eq = undefined; among = none; has_other = false }
scalar_of (arr (cons v vs)) = record { eq = undefined; among = none; has_other = true }
scalar_of v = record { eq = v; among = none; has_other = false }

-- The candidates: `none` for "ALL" in the source; and the clauses that the rows are still checked on.
pub record Resolved : Type 0 where
  pub set : Option (List String)
  pub residual : List Value

-- The locals of the loop over the keys.
pub record Resolving : Type 0 where
  pub conjuncts : List (List String)
  pub residual : List Value
  pub had_indexable : Bool

abbrev pub start : Resolving
start = record { conjuncts = []; residual = []; had_indexable = false }

abbrev pub all_ids : Resolved
all_ids = record { set = none; residual = [] }

-- `{ [key]: cond }`
abbrev pub clause : String → Value → Value
clause key cond = obj (field key cond end)

abbrev pub leave : String → Value → Resolving → Resolving
leave key cond r = record r { residual = r.residual ++ clause key cond ∷ [] }

-- A set of candidates, with the condition checked again where it says more than the set.
unfoldable pub narrow : List String → Bool → String → Value → Resolving → Resolving
narrow ids more key cond r = record {
  conjuncts = r.conjuncts ++ ids ∷ [];
  residual = if more then r.residual ++ clause key cond ∷ [] else r.residual;
  had_indexable = true;
}

unfoldable pub add_candidates : Option (List String) → List Value → Resolving → Resolving
add_candidates (some ids) left r = record {
  conjuncts = r.conjuncts ++ ids ∷ [];
  residual = r.residual ++ left;
  had_indexable = true;
}
add_candidates none left r = record r { residual = r.residual ++ left }

abbrev pub add_clause : Resolved → Resolving → Resolving
add_clause w r = add_candidates w.set w.residual r

unfoldable pub unite : List (List String) → List String → List String
unite [] out = out
unite (s ∷ ss) out = unite ss (add_each s out)

-- `sets.sort((a, b) => a.size - b.size)`, which is stable
abbrev pub insert_by_size : List String → List (List String) → List (List String)
insert_by_size s [] = s ∷ []
insert_by_size s (t ∷ ts) =
    let rest = insert_by_size s ts in if leb (length s) (length t) then s ∷ t ∷ ts else t ∷ rest

abbrev pub sort_by_size : List (List String) → List (List String)
sort_by_size [] = []
sort_by_size (s ∷ ss) = insert_by_size s (sort_by_size ss)

abbrev pub in_all : String → List (List String) → Bool
in_all id sets = all (λ s. contains s id) sets

abbrev pub first_within : List (List String) → List String
first_within [] = []
first_within (first ∷ rest) = keep (λ id. in_all id rest) first

unfoldable pub intersect : List (List String) → List String
intersect sets = first_within (sort_by_size sets)

-- `for (const sub of value || [])` where it is no array: the characters of a text are filters that no
-- index answers.
abbrev pub no_clauses : {S A : Type 0} → Value → A → Search S A
no_clauses (str s) a = if s == "" then give a else throw not_indexed
no_clauses v a = if truthy v then throw not_iterable else give a

abbrev pub no_keys : Fields → Bool
no_keys end = true
no_keys (field k v fs) = false

-- The case of a key: `and`, `or`, `not` or a field.
abbrev pub by_key {ℓ} : {A : Type ℓ} → Option Logic → A → A → A → A → A
by_key (some conj) a o n f = a
by_key (some disj) a o n f = o
by_key (some neg) a o n f = n
by_key none a o n f = f

-- Every clause holds of the row; the first that does not ends the loop.
abbrev pub clauses_hold : Engine → Row → List Value → Option Bool
clauses_hold e row [] = some true
clauses_hold e row (c ∷ cs) = and_then (match_where e row c) (clauses_hold e row cs)
