-- ===== src/Valkey/Queried.antt =====
-- The proof about `executeQuery` of packages/ormize-adapter-valkey/src/query.ts: the rows of a query.
use gqlize.Common.{
  ℕ, String, Bool, true, false, Option, none, some, List, [], ◌∷◌, contains, Result, ok, ◌≡◌,
}
use gqlize.Js.Value.{Value}
use gqlize.Valkey.Match.{Engine, Row}
use gqlize.Valkey.Indexes.{Keys}
use gqlize.Valkey.Filters.{yes}
use gqlize.Valkey.Candidates.{is_distinct}
use gqlize.Valkey.Plan.{Executor, QueryError, SearchModel, clauses_hold}
use gqlize.Valkey.Planner.{keep_row}
use gqlize.Valkey.Found.{IsIndexed}
use gqlize.Valkey.Steps.{Claim, Answers}

module _ (row_at : String → Option Row) where
  -- The rows of ids that are live, in the order of the ids.
  unfoldable pub live_rows : List String → List Row
  live_rows [] = []
  live_rows (id ∷ ids) =
      let rest = live_rows ids in elim (row_at id) [ none ↦ rest | some row ↦ row ∷ rest ]

  -- The rows are those of ids that are listed once, and a live row's id is listed exactly where the
  -- claim holds of it.
  pub record IsExactly (claim : Claim) (rows : List Row) : Type 0 where
    pub listed : List String
    pub once : is_distinct listed ≡ true
    pub rows_of : rows ≡ live_rows listed
    pub exact : (id : String) (row : Row) → row_at id ≡ some row → contains listed id ≡ claim id row

module _ {S : Type 0} (e : Engine) (x : Executor S) (ks : Keys) (sm : SearchModel) (now : ℕ)
    (row_at : String → Option Row) (Typed : String → Value → Type 0) (Holds : S → Type 0)
    (indexed : IsIndexed e x ks sm now row_at Typed Holds) where
  -- Whether the clauses that are left hold of an id's row.
  passes : List Value → String → Bool
  passes left id = elim (row_at id) [ none ↦ false | some row ↦ yes (clauses_hold e row left) ]

  -- The loop over the rows of the ids.
  abbrev rows_of_options : List Value → List (Option Row) → Result QueryError (List Row)
  rows_of_options left [] = ok []
  rows_of_options left (none ∷ os) = rows_of_options left os
  rows_of_options left (some row ∷ os) =
      keep_row e x ks sm now row (clauses_hold e row left) (rows_of_options left os)

  abbrev rows_with : Option Row → List Row → List Row
  rows_with none rows = rows
  rows_with (some row) rows = row ∷ rows

  abbrev passing : List Value → Option Row → Bool
  passing left none = false
  passing left (some row) = yes (clauses_hold e row left)
