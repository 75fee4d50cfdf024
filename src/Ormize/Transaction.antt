-- ===== src/Ormize/Transaction.antt =====
-- packages/ormize/src/transaction.ts and `transaction`, `withTransaction` of
-- packages/ormize/src/engine/transactions.ts. The adapters are not part of the package: a `Backend`
-- says what their calls do, and `calls` keeps the calls that reached them, in order.
use gqlize.Common.{
  ℕ, String, Bool, true, false, not, ◌||◌, Option, none, some, List, [], ◌∷◌, ◌++◌, map, Dict,
  lookup, put, keep, any, Result, ok, err, if◌then◌else◌, ◌==◌,
}

-- An open adapter transaction; there is one for an adapter at most.
pub record AdapterTransaction : Type 0 where
  pub adapter : String
  pub handle : ℕ

pub data Call : Type 0 where
  began : String → Call
  commit_called rollback_called : AdapterTransaction → Call
  callback_run : ℕ → Call

-- What the adapters answer: whether there is one with `beginTransaction`, what beginning returns,
-- and how a commit fails. `Fault` is what they throw.
pub record Backend (Fault : Type 0) : Type 0 where
  pub can_begin : String → Bool
  pub begin : String → Result Fault ℕ
  pub commit_fault : AdapterTransaction → Option Fault

-- `OrmizeTransaction`; a callback is known by a number.
pub record Coordinator : Type 0 where
  pub txs : Dict AdapterTransaction
  pub committed : List ℕ
  pub calls : List Call

abbrev pub new_coordinator : Coordinator
new_coordinator = record { txs = []; committed = []; calls = [] }

abbrev pub note : List Call → Coordinator → Coordinator
note more c = record c { calls = c.calls ++ more }

-- `[...this.txs.values()]`
abbrev pub values : Dict AdapterTransaction → List AdapterTransaction
values [] = []
values ((k, t) ∷ d) = t ∷ values d

-- `committed.includes(t)`
abbrev pub is_in : List AdapterTransaction → AdapterTransaction → Bool
is_in done t = any (λ d. d.adapter == t.adapter) done

unfoldable pub after_commit : ℕ → Coordinator → Coordinator
after_commit fn c = record c { committed = c.committed ++ fn ∷ [] }

unfoldable pub rollback : Coordinator → Coordinator
rollback c = record {
  txs = [];
  committed = [];
  calls = c.calls ++ map rollback_called (values c.txs);
}

module _ {Fault : Type 0} (b : Backend Fault) where
  abbrev pub open_on : String → Result Fault ℕ → Coordinator → Result Fault (Option ℕ) × Coordinator
  open_on name (ok h) c = (
    ok (some h),
    record c {
      txs = put name (record { adapter = name; handle = h }) c.txs;
      calls = c.calls ++ began name ∷ [];
    },
  )
  open_on name (err e) c = (err e, note (began name ∷ []) c)

  -- `handleFor`; `none` is the `undefined` of an adapter without transactions.
  unfoldable pub handle_for : String → Coordinator → Result Fault (Option ℕ) × Coordinator
  handle_for name c = elim (lookup name c.txs) [
    | some t ↦ (ok (some t.handle), c)
    | none ↦ if b.can_begin name then open_on name (b.begin name) c else (ok none, c)
  ]

  -- The loop of `commit`: those that committed, and the fault that ended it.
  unfoldable pub commit_all :
      List AdapterTransaction → List AdapterTransaction × Option Fault × List Call
  commit_all [] = ([], none, [])
  commit_all (t ∷ ts) =
      let rest = commit_all ts in
      elim (b.commit_fault t) [
        | some e ↦ ([], some e, commit_called t ∷ [])
        | none ↦ (t ∷ rest.0, rest.1, commit_called t ∷ rest.2)
      ]

  abbrev pub is_empty : List AdapterTransaction → Bool
  is_empty [] = true
  is_empty (t ∷ ts) = false

  -- the callbacks of the `finally` block
  abbrev pub callbacks : List AdapterTransaction → List AdapterTransaction → List ℕ → List Call
  callbacks all done fns = if not (is_empty done) || is_empty all then map callback_run fns else []

  abbrev pub settled : Option Fault → Result Fault (Unit {0})
  settled none = ok tt
  settled (some e) = err e

  -- the rollbacks of the `catch` block
  abbrev pub undone : Option Fault → List AdapterTransaction → List AdapterTransaction → List Call
  undone none all done = []
  undone (some e) all done = map rollback_called (keep (λ t. not (is_in done t)) all)

  unfoldable pub commit : Coordinator → Result Fault (Unit {0}) × Coordinator
  unfolding commit_all
  commit c =
      let all = values c.txs in
      let (done, fault, calls) = commit_all all in
      (
        settled fault,
        record {
          txs = [];
          committed = [];
          calls = c.calls ++ (calls ++ (undone fault all done ++ callbacks all done c.committed));
        },
      )

  -- What a body run in a transaction is: it may use the coordinator and may throw.
  abbrev pub Body : Type 0 → Type 0
  Body A = Coordinator → Result Fault A × Coordinator

  abbrev pub commit_result {ℓ} :
      {A : Type ℓ} → A → Result Fault (Unit {0}) × Coordinator → Result Fault A × Coordinator
  commit_result a (ok _, c) = (ok a, c)
  commit_result a (err e, c) = (err e, rollback c)

  abbrev pub finish {ℓ} : {A : Type ℓ} → Result Fault A × Coordinator → Result Fault A × Coordinator
  finish (ok a, c) = commit_result a (commit c)
  finish (err e, c) = (err e, rollback c)

  -- `transaction(orm, fn)`: within an active coordinator the body joins it, otherwise a new one is
  -- opened and finished, and the second component is the coordinator at the end.
  unfoldable pub transaction :
      {A : Type 0} → Option Coordinator → Body A → Result Fault A × Coordinator
  unfolding commit rollback
  transaction (some active) fn = fn active
  transaction none fn = finish (fn new_coordinator)
