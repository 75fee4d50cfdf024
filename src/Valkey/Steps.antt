-- ===== src/Valkey/Steps.antt =====
-- The locals of `resolveWhere` (packages/ormize-adapter-valkey/src/query.ts): what the candidates and
-- the clauses that are left say of the live rows, and what each step adds to it.
use mathlib.Core.Path.{ap₂}
use gqlize.Common.{
  String, Bool, true, false, ◌&&◌, Option, none, some, List, [], ◌∷◌, ◌++◌, all-append, contains,
  ◌≡◌, refl, sym, ap, ◌∙◌, subst, arith,
}
use gqlize.Js.Value.{Value}
use gqlize.Valkey.Match.{Engine, Row, match_where, and_then}
use gqlize.Valkey.Plan.{
  Resolved, Resolving, start, all_ids, clause, clauses_hold, leave, narrow, add_candidates,
  add_clause, in_all, intersect,
}
use gqlize.Valkey.Filters.{clauses_hold-append}
use gqlize.Valkey.Candidates.{
  is_distinct, all_distinct, has_set, contains-intersect, intersect-is_distinct,
}

-- The last of a list of sets.
in_all-append_one :
    (id : String) (ss : List (List String)) (s : List String)
    → in_all id (ss ++ s ∷ []) ≡ (in_all id ss && contains s id)
in_all-append_one id ss s = all-append (λ t. contains t id) ss (s ∷ []) ∙ ground (arith)

all_distinct-append_one :
    (ss : List (List String)) (s : List String)
    → all_distinct ss ≡ true
    → is_distinct s ≡ true
    → all_distinct (ss ++ s ∷ []) ≡ true
all_distinct-append_one ss s h k = ground (arith, all-append is_distinct ss (s ∷ []))

has_set-append_one : (ss : List (List String)) (s : List String) → has_set (ss ++ s ∷ []) ≡ true
has_set-append_one [] s = refl
has_set-append_one (t ∷ ss) s = refl

and_true : (b : Bool) → b ≡ (b && true)
and_true b = ground arith

abbrev pub in_set : String → Option (List String) → Bool
in_set id none = true
in_set id (some ids) = contains ids id

-- What is claimed of each live row.
abbrev pub Claim : Type 0
Claim = String → Row → Bool

module _ (e : Engine) (row_at : String → Option Row) where
  -- The clauses answer on the row, and with the test of its id they are what is claimed.
  pub record Agrees (row : Row) (left : List Value) (listed claim : Bool) : Type 0 where
    pub answer : Bool
    pub answers : clauses_hold e row left ≡ some answer
    pub agrees : claim ≡ (listed && answer)

  pub record Fits (r : Resolving) (claim : Claim) : Type 0 where
    pub flagged : r.had_indexable ≡ has_set r.conjuncts
    pub distinct : all_distinct r.conjuncts ≡ true
    pub agreed :
        (id : String) (row : Row)
        → row_at id ≡ some row
        → Agrees row r.residual (in_all id r.conjuncts) (claim id row)

  abbrev pub IsDistinctSet : Option (List String) → Type 0
  IsDistinctSet none = Unit
  IsDistinctSet (some ids) = is_distinct ids ≡ true

  pub record Answers (w : Resolved) (claim : Claim) : Type 0 where
    pub distinct : IsDistinctSet w.set
    pub agreed :
        (id : String) (row : Row)
        → row_at id ≡ some row
        → Agrees row w.residual (in_set id w.set) (claim id row)

  pub Fits-map :
      (r : Resolving) (f g : Claim)
      → ((id : String) (row : Row) → row_at id ≡ some row → g id row ≡ f id row)
      → Fits r f
      → Fits r g
  Fits-map r f g same fits = record {
    flagged = fits.flagged;
    distinct = fits.distinct;
    agreed = λ id row live.
        let a = fits.agreed id row live in
        record { answer = a.answer; answers = a.answers; agrees = same id row live ∙ a.agrees };
  }

  pub start-Fits : Fits start (λ id row. true)
  start-Fits = record {
    flagged = refl;
    distinct = refl;
    agreed = λ id row live. record { answer = true; answers = refl; agrees = refl };
  }

  pub all_ids-Answers :
      (claim : Claim) → ((id : String) (row : Row) → claim id row ≡ true) → Answers all_ids claim
  all_ids-Answers claim h = record {
    distinct = tt;
    agreed = λ id row live. record { answer = true; answers = refl; agrees = h id row };
  }

  -- Two sets of ids and two lists of clauses together.
  and_Agrees :
      (row : Row) (left more : List Value) (listed also both claim m : Bool)
      → Agrees row left listed claim
      → Agrees row more also m
      → both ≡ (listed && also)
      → Agrees row (left ++ more) both (claim && m)
  and_Agrees row left more listed also both claim m a b h = record {
    answer = a.answer && b.answer;
    answers =
        clauses_hold-append e row left more
        ∙ ap₂ and_then a.answers b.answers
        ∙ joined a.answer b.answer;
    agrees = ground (arith, a.agrees, b.agrees);
  }
    where
      joined : (c d : Bool) → and_then (some c) (some d) ≡ some (c && d)
      joined true d = refl
      joined false d = refl

  one_clause :
      (row : Row) (v : Value) (m : Bool) → match_where e row v ≡ some m → Agrees row (v ∷ []) true m
  one_clause row v m h = record {
    answer = m;
    answers = ap (λ o. and_then o (some true)) h ∙ alone m;
    agrees = refl;
  }
    where
      alone : (b : Bool) → and_then (some b) (some true) ≡ some b
      alone true = refl
      alone false = refl

  -- One more set of ids.
  and_listed :
      (id : String) (row : Row) (ss : List (List String)) (s : List String) (left : List Value)
      (claim m : Bool)
      → Agrees row left (in_all id ss) claim
      → m ≡ contains s id
      → Agrees row left (in_all id (ss ++ s ∷ [])) (claim && m)
  and_listed id row ss s left claim m a h = record {
    answer = a.answer;
    answers = a.answers;
    agrees = ground (arith, a.agrees, in_all-append_one id ss s);
  }

  pub leave-Fits :
      (key : String) (v : Value) (r : Resolving) (f m : Claim)
      → Fits r f
      → ((id : String) (row : Row)
          → row_at id ≡ some row
          → match_where e row (clause key v) ≡ some (m id row))
      → Fits (leave key v r) (λ id row. f id row && m id row)
  leave-Fits key v r f m fits h = record {
    flagged = fits.flagged;
    distinct = fits.distinct;
    agreed = λ id row live.
        and_Agrees row r.residual (clause key v ∷ []) _ true _ (f id row) (m id row)
          (fits.agreed id row live) (one_clause row (clause key v) (m id row) (h id row live))
          (and_true (in_all id r.conjuncts));
  }

  pub narrow-Fits_exact :
      (key : String) (v : Value) (ids : List String) (r : Resolving) (f m : Claim)
      → Fits r f
      → is_distinct ids ≡ true
      → ((id : String) (row : Row) → row_at id ≡ some row → m id row ≡ contains ids id)
      → Fits (narrow ids false key v r) (λ id row. f id row && m id row)
  unfolding narrow
  narrow-Fits_exact key v ids r f m fits d h = record {
    flagged = sym (has_set-append_one r.conjuncts ids);
    distinct = all_distinct-append_one r.conjuncts ids fits.distinct d;
    agreed = λ id row live.
        and_listed id row r.conjuncts ids r.residual (f id row) (m id row) (fits.agreed id row live)
          (h id row live);
  }

  -- A set that is checked again by its condition, which implies it.
  narrow-Fits_checked :
      (key : String) (v : Value) (ids : List String) (r : Resolving) (f m : Claim)
      → Fits r f
      → is_distinct ids ≡ true
      → ((id : String) (row : Row)
          → row_at id ≡ some row
          → match_where e row (clause key v) ≡ some (m id row))
      → ((id : String) (row : Row)
          → row_at id ≡ some row
          → m id row ≡ true
          → contains ids id ≡ true)
      → Fits (narrow ids true key v r) (λ id row. f id row && m id row)
  unfolding narrow
  narrow-Fits_checked key v ids r f m fits d h k = record {
    flagged = sym (has_set-append_one r.conjuncts ids);
    distinct = all_distinct-append_one r.conjuncts ids fits.distinct d;
    agreed = λ id row live.
        let listed =
          and_listed id row r.conjuncts ids r.residual (f id row) (contains ids id)
            (fits.agreed id row live) refl in
        subst (Agrees row (r.residual ++ clause key v ∷ []) (in_all id (r.conjuncts ++ ids ∷ [])))
          (implied (f id row) (contains ids id) (m id row) (k id row live))
          (and_Agrees row r.residual (clause key v ∷ []) _ true _ _ (m id row) listed
            (one_clause row (clause key v) (m id row) (h id row live))
            (and_true (in_all id (r.conjuncts ++ ids ∷ []))));
  }
    where
      implied : (a b c : Bool) → (c ≡ true → b ≡ true) → ((a && b) && c) ≡ (a && c)
      implied a b true g = ground (arith, g refl)
      implied a b false g = ground arith

  -- A set of ids, with its condition checked again where that says more.
  pub narrow-Fits :
      (more : Bool) (key : String) (v : Value) (ids : List String) (r : Resolving) (f m : Claim)
      → Fits r f
      → is_distinct ids ≡ true
      → ((id : String) (row : Row)
          → row_at id ≡ some row
          → match_where e row (clause key v) ≡ some (m id row))
      → ((id : String) (row : Row)
          → row_at id ≡ some row
          → m id row ≡ true
          → contains ids id ≡ true)
      → (more ≡ false
          → (id : String) (row : Row) → row_at id ≡ some row
          → m id row ≡ contains ids id)
      → Fits (narrow ids more key v r) (λ id row. f id row && m id row)
  narrow-Fits true key v ids r f m fits d h k exact = narrow-Fits_checked key v ids r f m fits d h k
  narrow-Fits false key v ids r f m fits d h k exact =
      narrow-Fits_exact key v ids r f m fits d (exact refl)

  add_candidates-Fits :
      (set : Option (List String)) (left : List Value) (r : Resolving) (f m : Claim)
      → Fits r f
      → IsDistinctSet set
      → ((id : String) (row : Row)
          → row_at id ≡ some row
          → Agrees row left (in_set id set) (m id row))
      → Fits (add_candidates set left r) (λ id row. f id row && m id row)
  unfolding add_candidates
  add_candidates-Fits (some ids) left r f m fits d h = record {
    flagged = sym (has_set-append_one r.conjuncts ids);
    distinct = all_distinct-append_one r.conjuncts ids fits.distinct d;
    agreed = λ id row live.
        and_Agrees row r.residual left _ _ _ (f id row) (m id row) (fits.agreed id row live)
          (h id row live) (in_all-append_one id r.conjuncts ids);
  }
  add_candidates-Fits none left r f m fits d h = record {
    flagged = fits.flagged;
    distinct = fits.distinct;
    agreed = λ id row live.
        and_Agrees row r.residual left _ true _ (f id row) (m id row) (fits.agreed id row live)
          (h id row live) (and_true (in_all id r.conjuncts));
  }

  pub add_clause-Fits :
      (w : Resolved) (r : Resolving) (f m : Claim)
      → Fits r f
      → Answers w m
      → Fits (add_clause w r) (λ id row. f id row && m id row)
  add_clause-Fits w r f m fits a =
      add_candidates-Fits w.set w.residual r f m fits a.distinct a.agreed

  -- The end of the loop, where there is a set.
  pub finish-Answers :
      (r : Resolving) (f : Claim)
      → Fits r f
      → r.had_indexable ≡ true
      → Answers (record { set = some (intersect r.conjuncts); residual = r.residual }) f
  finish-Answers r f fits h = record {
    distinct = intersect-is_distinct r.conjuncts fits.distinct;
    agreed = λ id row live.
        subst (λ b. Agrees row r.residual b (f id row))
          (sym (contains-intersect r.conjuncts id (sym fits.flagged ∙ h)))
          (fits.agreed id row live);
  }
