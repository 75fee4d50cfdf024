-- ===== src/Ormize/Memo.antt =====
-- One scope decision for a request: what the memo of packages/ormize/src/scope.ts guarantees.
use gqlize.Common.{
  ℕ, suc, String, true, false, Option, none, some, lookup, put, Result, ◌≡◌, refl, sym, ap, ◌∙◌,
  arith, eq_refl, lookup-put, Option-cases, inl, inr, subst,
}
use gqlize.Gate.Allow.{Error, Permission, member}
use gqlize.Gate.Resolve.{ScopeOperation, operation_name, ResolvedScope, resolve_scope}
use gqlize.Ormize.Scope.{
  Context, State, Text, update, join, principal_key, memo_at, memo_for, inherit_scope_memo,
  is_function, scope_for, through_memo, remembered,
}

update-same {ℓ} : {A : Type ℓ} (f : ℕ → A) (i : ℕ) (a : A) → update f i a i ≡ a
update-same f i a = ground arith

update-keeps : (f : ℕ → Option ℕ) (j a i : ℕ) → f a ≡ some i → update f j (some i) a ≡ some i
update-keeps f j a i h = ground arith

module _ (t : Text) (permission : ℕ → Option Permission) (def_name : String)
    (operation : ScopeOperation)
    (scoped_at : (n : ℕ) → is_function (member (permission n) "scope") ≡ true) where
  abbrev step : Context → State → Result Error ResolvedScope × State
  step c st = scope_for t permission def_name operation c st

  abbrev key_for : String → String
  key_for k = join k (join "\0" (join def_name (join "\0" (operation_name operation))))

  -- A context with the memo `i` whose principal has the key `k`.
  abbrev IsReady : ℕ → String → Context → State → Type 0
  IsReady i k c st =
      (c.is_object ≡ true)
      × ((st.memo_of c.ident ≡ some i) × ((s : State) → principal_key t c s ≡ (k, s)))

  memo_for-ready :
      (i : ℕ) (c : Context) (st : State)
      → c.is_object ≡ true
      → st.memo_of c.ident ≡ some i
      → memo_for c st ≡ (some i, st)
  unfolding memo_for
  memo_for-ready i c st o m = rw (o, m) refl

  step-through :
      (c : Context) (st : State)
      → st.resolving ≡ false
      → step c st
        ≡ through_memo t permission def_name operation (memo_for c st).0 c (memo_for c st).1
  unfolding scope_for
  step-through c st off = rw (scoped_at st.runs, off) refl

  abbrev recall : ℕ → String → Context → State → Result Error ResolvedScope × State
  recall i key c st =
      remembered t permission def_name operation (lookup key (st.memos i)) i key c st

  step-ready :
      (i : ℕ) (k : String) (c : Context) (st : State)
      → IsReady i k c st
      → st.resolving ≡ false
      → step c st ≡ recall i (key_for k) c st
  step-ready i k c st (o, (m, p)) off =
      step-through c st off
      ∙ (ap (λ q. through_memo t permission def_name operation q.0 c q.1)
            (memo_for-ready i c st o m)
          ∙ ap (λ q. recall i (key_for q.0) c q.1) (p st))

  -- the state after a run of the predicate whose result was kept
  abbrev after : ℕ → String → Result Error ResolvedScope → State → State
  after i key r st = record st {
    runs = suc st.runs;
    memos = update st.memos i (put key r (st.memos i));
  }

  lookup-after :
      (i : ℕ) (key : String) (r : Result Error ResolvedScope) (st : State)
      → lookup key ((after i key r st).memos i) ≡ some r
  lookup-after i key r st =
      ap (lookup key) (update-same st.memos i (put key r (st.memos i)))
      ∙ (lookup-put key key r (st.memos i) ∙ rw (eq_refl key) refl)

  recall-again :
      (o : Option (Result Error ResolvedScope)) (i : ℕ) (k : String) (c d : Context) (st : State)
      → IsReady i k d st
      → st.resolving ≡ false
      → lookup (key_for k) (st.memos i) ≡ o
      → step d (remembered t permission def_name operation o i (key_for k) c st).1
        ≡ remembered t permission def_name operation o i (key_for k) c st
  recall-again (some r) i k c d st ready off e =
      step-ready i k d st ready off
      ∙ ap (λ q. remembered t permission def_name operation q i (key_for k) d st) e
  recall-again none i k c d st ready off e =
      let r = resolve_scope (permission st.runs) def_name operation c.bag in
      let st' = after i (key_for k) r st in
      step-ready i k d st' ready off
      ∙ ap (λ q. remembered t permission def_name operation q i (key_for k) d st')
          (lookup-after i (key_for k) r st)

  shared :
      (i : ℕ) (k : String) (c d : Context) (st : State)
      → IsReady i k c st
      → IsReady i k d st
      → st.resolving ≡ false
      → step d (step c st).1 ≡ step c st
  shared i k c d st ready ready' off =
      let e = step-ready i k c st ready off in
      ap (λ q. step d q.1) e ∙ (recall-again _ i k c d st ready' off refl ∙ sym e)

  abbrev hung : Context → State → State
  hung c st = (memo_at c none st).1

  memo_for-none :
      (c : Context) (st : State)
      → c.is_object ≡ true
      → st.memo_of c.ident ≡ none
      → memo_for c st ≡ (some st.fresh, hung c st)
  unfolding memo_for
  memo_for-none c st o m = rw (o, m) refl

  step-hung :
      (c : Context) (st : State)
      → c.is_object ≡ true
      → st.memo_of c.ident ≡ none
      → st.resolving ≡ false
      → step c st ≡ step c (hung c st)
  step-hung c st o m off =
      let there =
        memo_for-ready st.fresh c (hung c st) o (update-same st.memo_of c.ident (some st.fresh)) in
      step-through c st off
      ∙ (ap (λ q. through_memo t permission def_name operation q.0 c q.1)
            (memo_for-none c st o m ∙ sym there)
          ∙ sym (step-through c (hung c st) off))

  -- Where the context is an object and no scope predicate is running, a scope is decided once within a
  -- request: asking again in the same context, for a principal that can be told by a key, gives the same answer and changes nothing, so the predicate does not
  -- run a second time, however it would answer then.
  pub scope_for-once :
      (c : Context) (k : String) (st : State)
      → c.is_object ≡ true
      → st.resolving ≡ false
      → ((s : State) → principal_key t c s ≡ (k, s))
      → scope_for t permission def_name operation c
          (scope_for t permission def_name operation c st).1
        ≡ scope_for t permission def_name operation c st
  scope_for-once c k st o off p = elim (Option-cases (st.memo_of c.ident)) [
    | inr (i, m) ↦ shared i k c c st (o, (m, p)) (o, (m, p)) off
    | inl m ↦
        let ready : IsReady st.fresh k c (hung c st) =
          (o, (update-same st.memo_of c.ident (some st.fresh), p)) in
        let e = step-hung c st o m off in
        ap (λ q. step c q.1) e ∙ (shared st.fresh k c c (hung c st) ready ready off ∙ sym e)
  ]

  abbrev given : Context → ℕ → State → State
  given d i st = record st { memo_of = update st.memo_of d.ident (some i) }

  inherit-shares :
      (c d : Context) (i : ℕ) (st : State)
      → c.is_object ≡ true
      → d.is_object ≡ true
      → st.memo_of c.ident ≡ some i
      → st.memo_of d.ident ≡ none
      → inherit_scope_memo c d st ≡ given d i st
  unfolding inherit_scope_memo
  inherit-shares c d i st o o' m m' = rw (o, o', m, m') refl

  -- A context that inherited the memo of another, for a principal of the same key, gets the decision
  -- of the other and does not run the predicate again.
  pub scope_for-inherited :
      (c d : Context) (i : ℕ) (k : String) (st : State)
      → c.is_object ≡ true
      → d.is_object ≡ true
      → st.memo_of c.ident ≡ some i
      → st.memo_of d.ident ≡ none
      → st.resolving ≡ false
      → ((s : State) → principal_key t c s ≡ (k, s))
      → ((s : State) → principal_key t d s ≡ (k, s))
      → scope_for t permission def_name operation d
          (scope_for t permission def_name operation c (inherit_scope_memo c d st)).1
        ≡ scope_for t permission def_name operation c (inherit_scope_memo c d st)
  scope_for-inherited c d i k st o o' m m' off p p' =
      subst (λ s. step d (step c s).1 ≡ step c s) (sym (inherit-shares c d i st o o' m m'))
        (shared i k c d (given d i st) (o, (update-keeps st.memo_of d.ident c.ident i m, p))
          (o', (update-same st.memo_of d.ident (some i), p')) off)
