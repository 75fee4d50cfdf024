-- ===== src/Ormize/ScopeExamples.antt =====
-- The theorems about packages/ormize/src/scope.ts at concrete inputs.
use gqlize.Common.{
  ℕ, true, false, Option, none, some, [], ◌∷◌, ok, ◌≡◌, refl, if◌then◌else◌, nat_eq, lookup,
}
use gqlize.Js.Value.{Value, undefined, str, arr, nil, obj, end, field}
use gqlize.Gate.Allow.{Permission, predicate}
use gqlize.Gate.Resolve.{read, ResolvedScope, denied, scoped}
use gqlize.Gate.Where.{logical}
use gqlize.Gate.Normal.{well_formed}
use gqlize.Valkey.Match.{Engine, Row}
use gqlize.Ormize.Includes.{
  Plan, absent, no_level, level, no_relation, relation, descriptor, Reader, scope_include_plan,
}
use gqlize.Ormize.Covered.{WellFormedResult, IsCovered, scope_include_plan-IsCovered}
use gqlize.Common.{Bool-cases, inl, inr, String, ◌==◌}
use gqlize.Permissions.Gates.{prop}
use gqlize.Ormize.Scope.{Context, State, Text, principal_key, inherit_scope_memo, scope_for}
use gqlize.Ormize.Memo.{scope_for-once, scope_for-inherited}

abbrev text : Text
text = record { decimal = λ n. "7"; json = λ v. none }

-- A scope that lets the first caller see one owner's rows and every later one all of them.
abbrev moody : ℕ → Option Permission
moody n = some (
    (
      "scope",
      predicate
          (λ args. ok (if nat_eq n 0 then obj (field "ownerId" (str "u1") end) else undefined)),
    )
    ∷ [])

abbrev request : ℕ → Context
request i = record {
  ident = i;
  is_object = true;
  bag = obj (field "user" (obj (field "id" (str "u1") end)) end);
}

abbrev start : State
start = record {
  memo_of = λ i. none;
  memos = λ i. [];
  fresh = 0;
  resolving = false;
  runs = 0;
  next_opaque_key = 0;
}

-- the request 1 has the memo 0
abbrev begun : State
begun = record start { memo_of = λ i. if nat_eq i 1 then some 0 else none; fresh = 1 }

key_u1 : (i : ℕ) (s : State) → principal_key text (request i) s ≡ ("u1", s)
unfolding principal_key prop lookup
key_u1 i s = refl

scope_for-once_example :
    scope_for text moody "Task" read
      (request 1)
      (scope_for text moody "Task" read (request 1) start).1
    ≡ scope_for text moody "Task" read (request 1) start
unfolding lookup
scope_for-once_example =
    scope_for-once text moody "Task" read (λ n. refl) (request 1) "u1" start refl refl (key_u1 1)

scope_for-inherited_test :
    scope_for text moody "Task" read
      (request 2)
      (scope_for text moody "Task" read
        (request 1)
        (inherit_scope_memo (request 1) (request 2) begun)).1
    ≡ scope_for text moody "Task" read
        (request 1)
        (inherit_scope_memo (request 1) (request 2) begun)
unfolding lookup
scope_for-inherited_test =
    scope_for-inherited text moody "Task" read (λ n. refl) (request 1) (request 2) 0 "u1" begun refl
      refl refl refl refl (key_u1 1) (key_u1 2)

abbrev plain_engine : Engine
plain_engine = record {
  greater = λ a b. false;
  greater_eq = λ a b. false;
  less = λ a b. false;
  less_eq = λ a b. false;
  text = λ v. "";
  regexp_test = λ s f t. false;
  ends_with = λ s t. false;
  index_key = λ i. "0";
}

abbrev task : Row
task = ("ownerId", str "u1") ∷ []

abbrev mine : Value
mine = obj (field "ownerId" (obj (field "eq" (str "u1") end)) end)

abbrev nobody : Value
nobody = obj (field "id" (obj (field "in" (arr nil) end)) end)

abbrev owned : ResolvedScope
owned = scoped (record { where_part = mine; set_part = undefined; native_part = undefined })

-- Tasks are scoped to one owner, and nobody reads notes.
abbrev reader : Reader
reader = record {
  read_scope_for = λ target. if target == "Task" then ok owned else ok denied;
  match_nothing_for = λ target. nobody;
}

reader_formed :
    (target : String) → WellFormedResult plain_engine task reader (reader.read_scope_for target)
unfolding well_formed logical
reader_formed target = elim (Bool-cases (target == "Task")) [
  | inl e ↦ rw (e) refl
  | inr e ↦ rw (e) tt
]

reader_reads : (target : String) → (s : ResolvedScope) × (reader.read_scope_for target ≡ ok s)
reader_reads target = elim (Bool-cases (target == "Task")) [
  | inl e ↦ (owned, rw (e) refl)
  | inr e ↦ (denied, rw (e) refl)
]

abbrev plan : Plan
plan =
    level
      (relation "tasks"
        (descriptor "Task" undefined none (
          level (relation "notes" (descriptor "Note" undefined (some true) absent) no_relation)
            no_level))
        no_relation)
      no_level

scope_include_plan-IsCovered_example :
    (q : Plan) × ((scope_include_plan reader plan ≡ ok q) × IsCovered plain_engine task reader q)
unfolding well_formed logical
scope_include_plan-IsCovered_example =
    scope_include_plan-IsCovered plain_engine task reader reader_formed (λ target. refl)
      reader_reads plan
