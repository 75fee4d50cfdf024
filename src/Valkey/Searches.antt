-- ===== src/Valkey/Searches.antt =====
-- What is said of a search of packages/ormize-adapter-valkey/src/query.ts that reads the state, may change
-- it and may throw: the rules for its parts.
use gqlize.Common.{
  Bool, true, false, Option, none, some, ok, err, Result, ◌==◌, if◌then◌else◌, ◌≡◌, refl, arith,
}
use gqlize.Js.Value.{Value, undefined, null, bool, num, str, func, arr, obj, truthy}
use gqlize.Gate.Where.{Logic, conj, disj, neg}
use gqlize.Valkey.Plan.{
  QueryError, not_indexed, branch_not_indexed, not_iterable, not_matchable, Search, after, ◌>>=◌,
  give, throw, by_key, no_clauses,
}

-- The two errors of a filter that no index plan can answer.
abbrev pub IsRefusal : QueryError → Type 0
IsRefusal not_indexed = Unit
IsRefusal branch_not_indexed = Unit
IsRefusal not_iterable = ⊥
IsRefusal not_matchable = ⊥

module _ {S : Type 0} (Holds : S → Type 0) where
  -- A search gives a value that is as said, with the state still good, or is refused for want of an
  -- index; it does not fail otherwise.
  abbrev pub Settled : {A : Type 0} → (A → Type 0) → Result QueryError (A × S) → Type 0
  Settled P (ok (a, s)) = P a × Holds s
  Settled P (err x) = IsRefusal x

  abbrev pub Gives : {A : Type 0} → (A → Type 0) → Search S A → Type 0
  Gives P m = (s : S) → Holds s → Settled P (m s)

  after-Settled :
      {A B : Type 0} (P : A → Type 0) (Q : B → Type 0) (r : Result QueryError (A × S))
      (k : A → Search S B)
      → Settled P r
      → ((a : A) → P a → Gives Q (k a))
      → Settled Q (after r (λ p. k p.0 p.1))
  after-Settled P Q (ok (a, s)) k (p, h) g = g a p s h
  after-Settled P Q (err x) k p g = p

  map-Settled :
      {A : Type 0} (P Q : A → Type 0) (f : (a : A) → P a → Q a) (r : Result QueryError (A × S))
      → Settled P r
      → Settled Q r
  map-Settled P Q f (ok (a, s)) (p, h) = (f a p, h)
  map-Settled P Q f (err x) p = p

  pub bind-Gives :
      {A B : Type 0} (P : A → Type 0) (Q : B → Type 0) (m : Search S A) (k : A → Search S B)
      → Gives P m
      → ((a : A) → P a → Gives Q (k a))
      → Gives Q (m >>= k)
  bind-Gives P Q m k g h = λ s hs. after-Settled P Q (m s) k (g s hs) h

  pub map-Gives :
      {A : Type 0} (P Q : A → Type 0) (m : Search S A)
      → ((a : A) → P a → Q a)
      → Gives P m
      → Gives Q m
  map-Gives P Q m f g = λ s h. map-Settled P Q f (m s) (g s h)

  pub give-Gives : {A : Type 0} (P : A → Type 0) (a : A) → P a → Gives P (give a)
  give-Gives P a p = λ s h. (p, h)

  pub throw-Gives : {A : Type 0} (P : A → Type 0) (q : QueryError) → IsRefusal q → Gives P (throw q)
  throw-Gives P q r = λ s h. r

  pub if-Gives :
      {A : Type 0} (P : A → Type 0) (b : Bool) (m n : Search S A)
      → (b ≡ true → Gives P m)
      → (b ≡ false → Gives P n)
      → Gives P (if b then m else n)
  if-Gives P true m n g h = g refl
  if-Gives P false m n g h = h refl

  falsy-Gives :
      {A : Type 0} (P : A → Type 0) (t : Bool) (a : A)
      → t ≡ false
      → P a
      → Gives P (if t then throw not_iterable else give a)
  falsy-Gives P true a h p = ground arith
  falsy-Gives P false a h p = give-Gives P a p

  -- `value || []` of a falsy value that is no list.
  pub no_clauses-Gives :
      {A : Type 0} (P : A → Type 0) (v : Value) (a : A)
      → truthy v ≡ false
      → P a
      → Gives P (no_clauses v a)
  no_clauses-Gives P (str s) a h p =
      if-Gives P (s == "") (give a) (throw not_indexed) (λ q. give-Gives P a p)
        (λ q. throw-Gives P not_indexed tt)
  no_clauses-Gives P undefined a h p = give-Gives P a p
  no_clauses-Gives P null a h p = give-Gives P a p
  no_clauses-Gives P (bool b) a h p = falsy-Gives P b a h p
  no_clauses-Gives P (num n) a h p = falsy-Gives P (truthy (num n)) a h p
  no_clauses-Gives P (func f) a h p = ground arith
  no_clauses-Gives P (arr vs) a h p = ground arith
  no_clauses-Gives P (obj fs) a h p = ground arith

  pub by_key-Gives :
      {A : Type 0} (P : A → Type 0) (l : Option Logic) (a o n f : Search S A)
      → (l ≡ some conj → Gives P a)
      → (l ≡ some disj → Gives P o)
      → (l ≡ some neg → Gives P n)
      → (l ≡ none → Gives P f)
      → Gives P (by_key l a o n f)
  by_key-Gives P (some conj) a o n f p q r t = p refl
  by_key-Gives P (some disj) a o n f p q r t = q refl
  by_key-Gives P (some neg) a o n f p q r t = r refl
  by_key-Gives P none a o n f p q r t = t refl
