-- ===== src/Ormize/Examples.antt =====
-- The theorems about the transaction coordinator of packages/ormize/src at concrete inputs.
use gqlize.Common.{
  ℕ, String, Bool, true, false, none, some, [], ◌∷◌, ok, err, lookup, ◌≡◌, refl, ◌==◌,
  if◌then◌else◌,
}
use gqlize.Ormize.Transaction.{
  AdapterTransaction, began, commit_called, rollback_called, callback_run, Backend, Coordinator,
  handle_for, commit, transaction, Body,
}
use gqlize.Ormize.Atomicity.{
  commit-succeeds, commit-fails, handle_for-IsKeyed, handle_for-again, transaction-commit_fails,
  IsKeyed,
}

-- Two adapters; the commit of "pg" fails where the backend says so.
abbrev backend : Bool → Backend ℕ
backend broken = record {
  can_begin = λ name. true;
  begin = λ name. ok 7;
  commit_fault = λ t. if broken then (if t.adapter == "pg" then some 1 else none) else none;
}

abbrev tx : String → AdapterTransaction
tx name = record { adapter = name; handle = 7 }

abbrev open_two : Coordinator
open_two = record {
  txs = ("sqlite", tx "sqlite") ∷ ("pg", tx "pg") ∷ [];
  committed = 3 ∷ [];
  calls = began "sqlite" ∷ began "pg" ∷ [];
}

commit-succeeds_example : commit (backend false) open_two ≡ (
  ok tt,
  record {
    txs = [];
    committed = [];
    calls =
        began "sqlite"
        ∷ began "pg"
        ∷ commit_called (tx "sqlite")
        ∷ commit_called (tx "pg")
        ∷ callback_run 3
        ∷ [];
  },
)
commit-succeeds_example = commit-succeeds (backend false) open_two (refl, (refl, tt))

open_two-IsKeyed : IsKeyed open_two
unfolding lookup
open_two-IsKeyed = (refl, refl, (refl, refl, tt))

commit-fails_example : commit (backend true) open_two ≡ (
  err 1,
  record {
    txs = [];
    committed = [];
    calls =
        began "sqlite"
        ∷ began "pg"
        ∷ commit_called (tx "sqlite")
        ∷ commit_called (tx "pg")
        ∷ rollback_called (tx "pg")
        ∷ callback_run 3
        ∷ [];
  },
)
commit-fails_example =
    commit-fails (backend true) open_two (tx "sqlite" ∷ []) [] (tx "pg") 1 open_two-IsKeyed refl
      (refl, tt) refl

handle_for-IsKeyed_test : IsKeyed (handle_for (backend false) "pg" open_two).1
handle_for-IsKeyed_test = handle_for-IsKeyed (backend false) "pg" open_two open_two-IsKeyed

pg_handle : (handle_for (backend false) "pg" open_two).0 ≡ ok (some 7)
unfolding handle_for lookup
pg_handle = refl

handle_for-again_test :
    handle_for (backend false) "pg" (handle_for (backend false) "pg" open_two).1
    ≡ (ok (some 7), (handle_for (backend false) "pg" open_two).1)
handle_for-again_test = handle_for-again (backend false) "pg" open_two 7 pg_handle

abbrev returning : Body (backend true) ℕ
returning c = (ok 5, open_two)

transaction-commit_fails_test :
    ((transaction (backend true) none returning).0 ≡ err 1)
    × ((transaction (backend true) none returning).1.calls
        ≡ began "sqlite"
          ∷ began "pg"
          ∷ commit_called (tx "sqlite")
          ∷ commit_called (tx "pg")
          ∷ rollback_called (tx "pg")
          ∷ callback_run 3
          ∷ [])
transaction-commit_fails_test =
    transaction-commit_fails (backend true) returning 5 open_two (tx "sqlite" ∷ []) [] (tx "pg") 1
      refl open_two-IsKeyed refl (refl, tt) refl
