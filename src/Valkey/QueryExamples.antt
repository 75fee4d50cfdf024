-- ===== src/Valkey/QueryExamples.antt =====
-- The query planner of packages/ormize-adapter-valkey/src/query.ts at a concrete store: two users with
-- an index on `team`, which holds an expired third. The state is the list of the writes made.
use gqlize.Common.{
  String, Bool, true, false, Option, none, some, List, [], ◌∷◌, ◌++◌, map, Dict, lookup, contains,
  Result, ok, err, ◌==◌, if◌then◌else◌, ◌≡◌, refl, sym, ap, ◌∙◌, subst, eq_iff, Bool-cases, inl,
  inr,
}
use gqlize.Js.Value.{Value, str, arr, obj, nil, cons, end, field, strict_eq}
use gqlize.Gate.Where.{logical}
use gqlize.Valkey.Match.{Engine, Row, match_where, match_field, match_op}
use gqlize.Valkey.Transaction.{Score, finite, infinite, set_add, add_each}
use gqlize.Valkey.Overlay.{Write, unscored, string_deleted, object_deleted}
use gqlize.Valkey.Indexes.{
  Keys, join, under, ids_key, index_key, membership_key, remove_from_indexes,
}
use gqlize.Valkey.Plan.{narrow, intersect, scalar_of, object_key, Executor, SearchModel}
use gqlize.Valkey.Planner.{
  resolve_where, field_step, union_set, equality_set, active_members, finish, candidates, fetch,
  matching_rows, collect_all, collect, alive_ids, expired_ids, execute_query,
}

abbrev text_of : Value → String
text_of (str s) = s
text_of v = ""

abbrev engine : Engine
engine = record {
  greater = λ a b. false;
  greater_eq = λ a b. false;
  less = λ a b. false;
  less_eq = λ a b. false;
  text = text_of;
  regexp_test = λ s f t. false;
  ends_with = λ a b. false;
  index_key = λ n. "0";
}

abbrev ada : Row
ada = ("id", str "1") ∷ ("team", str "red") ∷ ("name", str "Ada") ∷ []

abbrev bob : Row
bob = ("id", str "2") ∷ ("team", str "red") ∷ ("name", str "Bob") ∷ []

abbrev row_at : String → Option Row
row_at id = if id == "1" then some ada else if id == "2" then some bob else none

-- A hash that tells the one team that there is from the others.
abbrev segment : Bool → String
segment b = if b then "red" else "other"

abbrev ks : Keys
ks = record { prefix = "app"; encode_value = λ v. segment (text_of v == "red") }

abbrev users : SearchModel
users = record {
  model = record { name = "User"; indexes = "team" ∷ []; uniques = [] };
  primary_key = "id";
}

abbrev members : Dict Score
members = ("1", infinite) ∷ ("9", finite 2) ∷ ("2", finite 8) ∷ []

abbrev text_at : String → Option String
text_at key =
    if key == "app:User:o:1" then some "ada" else if key == "app:User:o:2" then some "bob" else none

abbrev executor : Executor (List Write)
executor = record {
  z_members = λ key s.
      if key == "app:User:ids"
      then members
      else if key == "app:User:i:team:red"
      then members
      else [];
  get_str = λ key s. none;
  s_members = λ key s. [];
  mget_obj = λ keys s. map text_at keys;
  write = λ w s. s ++ w ∷ [];
  buffered = false;
  row_of = λ json. if json == "ada" then ada else bob;
}

abbrev Typed : String → Value → Type 0
Typed name v = (s : String) × (v ≡ str s)

abbrev Holds : List Write → Type 0
Holds s = Unit

some_same : {A : Type 0} {a b : A} → some a ≡ some b → a ≡ b
some_same {a = a} h = ap (λ o. elim o [ none ↦ a | some c ↦ c ]) h

-- The two rows that are live.
live_cases :
    (P : String → Row → Type 0)
    → P "1" ada
    → P "2" bob
    → (id : String) (row : Row) → row_at id ≡ some row
    → P id row
live_cases P one two id row h = elim (Bool-cases (id == "1")) [
  | inl a ↦
      subst (λ i. P i row) (sym ((eq_iff id "1").0 a))
        (subst (P "1") (some_same (sym (ap (λ b. if b then some ada else other id) a) ∙ h)) one)
  | inr a ↦ elim (Bool-cases (id == "2")) [
    | inl b ↦
        subst (λ i. P i row) (sym ((eq_iff id "2").0 b))
          (subst (P "2")
            (some_same (
              sym (ap (λ c. if c then some bob else none) b)
              ∙ (sym (ap (λ c. if c then some ada else other id) a) ∙ h)))
            two)
    | inr b ↦ none_live (
        sym (ap (λ c. if c then some bob else none) b)
        ∙ (sym (ap (λ c. if c then some ada else other id) a) ∙ h))
  ]
]
  where
    other : String → Option Row
    other id = if id == "2" then some bob else none

    none_live : {A : Type 0} → none ≡ some row → A
    none_live h = cc

abbrev found : Bool → String → Bool
found b id =
    contains
      (alive_ids engine executor ks users 5
        (executor.z_members (under ks "User" (join ":i:" (join "team" (join ":" (segment b))))) [])
        [])
      id

listed :
    (id : String) (row : Row)
    → row_at id ≡ some row
    → contains (alive_ids engine executor ks users 5 members []) id ≡ true
unfolding alive_ids set_add
listed =
    live_cases (λ id row. contains (alive_ids engine executor ks users 5 members []) id ≡ true) refl
      refl

abbrev yes_rows : {A E : Type 0} → Result E A → Option A
yes_rows (ok a) = some a
yes_rows (err x) = none

-- `{team: {in: ["red", "blue"]}, name: "Bob", not: {id: "1"}}`
abbrev filter : Value
filter = obj (
    field "team" (obj (field "in" (arr (cons (str "red") (cons (str "blue") nil))) end))
      (field "name" (str "Bob") (field "not" (obj (field "id" (str "1") end)) end)))

-- The run: one row, and the writes that collect the expired id.
run_test :
    yes_rows (execute_query engine executor ks users 5 filter [])
    ≡ some (
      bob ∷ [],
      unscored "app:User:ids" "9"
          ∷ string_deleted "app:User:m:9"
          ∷ object_deleted "app:User:o:9"
          ∷ [],
    )
unfolding execute_query resolve_where logical field_step scalar_of union_set equality_set
    active_members finish narrow candidates fetch intersect matching_rows collect_all collect
    expired_ids alive_ids add_each set_add lookup strict_eq ids_key index_key membership_key
    object_key remove_from_indexes match_field match_op match_where
run_test = refl

-- A condition with `eq` and `in` loses its `in`: the plan finds a row that the matcher does not select.
abbrev both_tests : Value
both_tests =
    obj (
      field "team" (obj (field "eq" (str "red") (field "in" (arr (cons (str "blue") nil)) end)))
        end)

both_tests-planned :
    yes_rows (execute_query engine executor ks users 5 both_tests [])
    ≡ some (
      ada ∷ bob ∷ [],
      unscored "app:User:ids" "9"
          ∷ string_deleted "app:User:m:9"
          ∷ object_deleted "app:User:o:9"
          ∷ [],
    )
unfolding execute_query resolve_where logical field_step scalar_of union_set equality_set
    active_members finish narrow candidates fetch intersect matching_rows collect_all collect
    expired_ids alive_ids add_each set_add lookup strict_eq ids_key index_key membership_key
    object_key remove_from_indexes match_field match_op match_where
both_tests-planned = refl

both_tests-matched : match_where engine ada both_tests ≡ some false
unfolding match_where logical match_op lookup strict_eq
both_tests-matched = refl
