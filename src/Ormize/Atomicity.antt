-- ===== src/Ormize/Atomicity.antt =====
-- What the coordinator of packages/ormize/src/transaction.ts guarantees: one transaction for an
-- adapter, and every open transaction committed or rolled back when it ends.
use gqlize.Common.{
  ℕ, String, false, not, none, some, List, [], ◌∷◌, ◌++◌, map, Dict, lookup, put, lookup-put, keep,
  All, Result, ok, err, if◌then◌else◌, ◌==◌, ◌≡◌, ◌∙◌, refl, sym, ap, subst, arith, eq_iff, eq_refl,
  append-nil, Bool-cases, Option-cases, inl, inr,
}
use gqlize.Ormize.Transaction.{
  AdapterTransaction, commit_called, rollback_called, callback_run, Backend, Coordinator,
  new_coordinator, values, is_in, handle_for, open_on, commit_all, commit, is_empty, callbacks,
  Body, transaction,
}

-- Each entry stands under the name of its adapter, and no name stands twice.
abbrev pub Keyed : Dict AdapterTransaction → Type 0
Keyed [] = Unit
Keyed ((k, t) ∷ d) = (t.adapter ≡ k) × (lookup k d ≡ none) × Keyed d

abbrev pub IsKeyed : Coordinator → Type 0
IsKeyed c = Keyed c.txs

Keyed-put :
    (name : String) (h : ℕ) (d : Dict AdapterTransaction)
    → Keyed d
    → Keyed (put name (record { adapter = name; handle = h }) d)
unfolding put lookup
Keyed-put name h [] k = (refl, refl, tt)
Keyed-put name h ((j, t) ∷ d) (same, new, k) = elim (Bool-cases (j == name)) [
  | inl e ↦ rw e (sym ((eq_iff j name).0 e), new, k)
  | inr e ↦ rw e (
    same,
    ground (
      arith,
      lookup-put name j (record { adapter = name; handle = h }) d,
      eq_iff name j,
      eq_iff j name,
    ),
    Keyed-put name h d k,
  )
]

-- Where an entry stands in the list of open transactions, its name is looked up.
is_in-none :
    (d : Dict AdapterTransaction) (t : AdapterTransaction)
    → Keyed d
    → lookup t.adapter d ≡ none
    → is_in (values d) t ≡ false
unfolding lookup
is_in-none [] t k h = refl
is_in-none ((j, x) ∷ d) t (same, new, k) h =
    ground (arith, is_in-none d t k, eq_iff x.adapter t.adapter, eq_iff j t.adapter)

-- No transaction of the list has the name of an earlier one.
abbrev Apart : List AdapterTransaction → Type 0
Apart [] = Unit
Apart (t ∷ ts) = (is_in ts t ≡ false) × Apart ts

Keyed-Apart : (d : Dict AdapterTransaction) → Keyed d → Apart (values d)
Keyed-Apart [] k = tt
Keyed-Apart ((j, t) ∷ d) (same, new, k) =
    (is_in-none d t k (ap (λ n. lookup n d) same ∙ new), Keyed-Apart d k)

-- Membership by name reads both ways.
is_in_sym :
    (t x : AdapterTransaction) → (t.adapter == x.adapter) ≡ false → (x.adapter == t.adapter) ≡ false
is_in_sym t x h = ground (arith, eq_iff t.adapter x.adapter, eq_iff x.adapter t.adapter)

abbrev left_over : List AdapterTransaction → List AdapterTransaction → List AdapterTransaction
left_over done all = keep (λ t. not (is_in done t)) all

-- A transaction that shares no name with a list changes nothing about what is left of it.
left_over-cons :
    (t : AdapterTransaction) (done ts : List AdapterTransaction)
    → is_in ts t ≡ false
    → left_over (t ∷ done) ts ≡ left_over done ts
left_over-cons t done [] h = refl
left_over-cons t done (x ∷ ts) h = ground (arith, left_over-cons t done ts, is_in_sym x t)

left_over-nil : (ts : List AdapterTransaction) → left_over [] ts ≡ ts
left_over-nil [] = refl
left_over-nil (t ∷ ts) = ap (◌∷◌ t) (left_over-nil ts)

left_over-prefix :
    (done rest : List AdapterTransaction)
    → Apart (done ++ rest)
    → left_over done (done ++ rest) ≡ rest
left_over-prefix [] rest a = left_over-nil rest
left_over-prefix (t ∷ done) rest (new, a) =
    let first : (not (is_in (t ∷ done) t)) ≡ false = rw eq_refl refl in
    rw first (left_over-cons t done (done ++ rest) new ∙ left_over-prefix done rest a)

module _ {Fault : Type 0} (b : Backend Fault) where
  abbrev pub Commits : AdapterTransaction → Type 0
  Commits t = b.commit_fault t ≡ none

  commit_all-ok :
      (ts : List AdapterTransaction)
      → All Commits ts
      → commit_all b ts ≡ (ts, none, map commit_called ts)
  unfolding commit_all
  commit_all-ok [] h = refl
  commit_all-ok (t ∷ ts) (p, h) = rw (p, commit_all) (rw (commit_all-ok ts h) refl)

  commit_all-fault :
      (before after : List AdapterTransaction) (t : AdapterTransaction) (e : Fault)
      → All Commits before
      → b.commit_fault t ≡ some e
      → commit_all b (before ++ t ∷ after)
        ≡ (before, some e, map commit_called before ++ commit_called t ∷ [])
  unfolding commit_all
  commit_all-fault [] after t e h f = rw (f, commit_all) refl
  commit_all-fault (x ∷ before) after t e (p, h) f =
      rw (p, commit_all) (rw (commit_all-fault before after t e h f) refl)

  callbacks-fault :
      (before after : List AdapterTransaction) (t : AdapterTransaction) (fns : List ℕ)
      → callbacks b (before ++ t ∷ after) before fns
        ≡ (if is_empty b before then [] else map callback_run fns)
  callbacks-fault [] after t fns = refl
  callbacks-fault (x ∷ before) after t fns = refl

  -- If every adapter commits, `commit` succeeds: each open transaction is committed, in the order
  -- it was opened, none is rolled back, and then every callback runs.
  pub commit-succeeds :
      (c : Coordinator)
      → All Commits (values c.txs)
      → commit b c ≡ (
        ok tt,
        record {
          txs = [];
          committed = [];
          calls = c.calls ++ (map commit_called (values c.txs) ++ map callback_run c.committed);
        },
      )
  unfolding commit
  commit-succeeds c h = elim (Bool-cases (is_empty b (values c.txs))) [
    | inl e ↦ rw (commit_all-ok (values c.txs) h, e) refl
    | inr e ↦ rw (commit_all-ok (values c.txs) h, e) refl
  ]

  -- If the adapters commit up to one that throws, `commit` throws its fault, that transaction and
  -- every later one are rolled back, none of the committed ones is, and the callbacks run exactly
  -- when at least one adapter committed.
  pub commit-fails :
      (c : Coordinator) (before after : List AdapterTransaction) (t : AdapterTransaction)
      (e : Fault)
      → IsKeyed c
      → values c.txs ≡ before ++ t ∷ after
      → All Commits before
      → b.commit_fault t ≡ some e
      → commit b c ≡ (
        err e,
        record {
          txs = [];
          committed = [];
          calls =
              c.calls
              ++ ((map commit_called before ++ commit_called t ∷ [])
                  ++ (map rollback_called (t ∷ after)
                      ++ (if is_empty b before then [] else map callback_run c.committed)));
        },
      )
  unfolding commit
  commit-fails c before after t e k p h f =
      rw
        (
          p,
          commit_all-fault before after t e h f,
          left_over-prefix before (t ∷ after) (subst Apart p (Keyed-Apart c.txs k)),
          callbacks-fault before after t c.committed,
        )
        refl

  open_on-IsKeyed :
      (name : String) (r : Result Fault ℕ) (c : Coordinator)
      → IsKeyed c
      → IsKeyed (open_on b name r c).1
  open_on-IsKeyed name (ok h) c k = Keyed-put name h c.txs k
  open_on-IsKeyed name (err e) c k = k

  -- Opening a transaction keeps one entry for an adapter, under its name.
  pub handle_for-IsKeyed :
      (name : String) (c : Coordinator) → IsKeyed c → IsKeyed (handle_for b name c).1
  unfolding handle_for
  handle_for-IsKeyed name c k = elim (Option-cases (lookup name c.txs)) [
    | inr (t, found) ↦ rw (found, handle_for) k
    | inl absent ↦ elim (Bool-cases (b.can_begin name)) [
      | inl can ↦ rw (absent, can, handle_for) (open_on-IsKeyed name (b.begin name) c k)
      | inr cannot ↦ rw (absent, cannot, handle_for) k
    ]
  ]

  -- An adapter's transaction is begun once: when a handle was given out, asking again gives the
  -- same handle, begins nothing and leaves the coordinator as it is.
  pub handle_for-again :
      (name : String) (c : Coordinator) (h : ℕ)
      → (handle_for b name c).0 ≡ ok (some h)
      → handle_for b name (handle_for b name c).1 ≡ (ok (some h), (handle_for b name c).1)
  unfolding handle_for
  handle_for-again name c h e = elim (Option-cases (lookup name c.txs)) [
    | inr (t, found) ↦ ground arith
    | inl absent ↦
        ground
          (arith, lookup-put name name (record { adapter = name; handle = h }) c.txs, eq_refl name)
  ]

  -- A body that returns, with a commit that fails half way: the fault comes out, and the rollback
  -- of the outer handler undoes nothing a second time.
  pub transaction-commit_fails :
      {A : Type 0} (fn : Body b A) (a : A) (c : Coordinator)
      (before after : List AdapterTransaction) (t : AdapterTransaction) (e : Fault)
      → fn new_coordinator ≡ (ok a, c)
      → IsKeyed c
      → values c.txs ≡ before ++ t ∷ after
      → All Commits before
      → b.commit_fault t ≡ some e
      → ((transaction b none fn).0 ≡ err e)
        × ((transaction b none fn).1.calls
            ≡ c.calls
              ++ ((map commit_called before ++ commit_called t ∷ [])
                  ++ (map rollback_called (t ∷ after)
                      ++ (if is_empty b before then [] else map callback_run c.committed))))
  unfolding transaction
  transaction-commit_fails fn a c before after t e h k p o f = (
    rw (h, commit-fails c before after t e k p o f) refl,
    rw (h, commit-fails c before after t e k p o f) (append-nil _),
  )
