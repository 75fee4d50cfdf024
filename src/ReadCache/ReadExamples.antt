-- ===== src/ReadCache/ReadExamples.antt =====
-- The read cache of packages/ormize/src/read-cache/index.ts at concrete interleavings and inputs.
use gqlize.Common.{
  ◌≤◌, ℕ, suc, Bool, ◌≢◌, In, ap, String, true, false, List, [], ◌∷◌, lookup, length, some, none,
  ◌≡◌, refl, inl, inr, arith,
}
use gqlize.Valkey.Transaction.{add_each, set_add}
use gqlize.ReadCache.Cache.{
  CachedRead, CacheOptions, silent, names, shape_of, fits, remember_oversized,
}
use gqlize.ReadCache.Oversized.{Event, too_big, fitted, remembered, remember_oversized-bounded}
use gqlize.ReadCache.Reads.{
  Key, bump, keyed, unfound, fetching, fetched, World, goes_on, Step, begins, misses, leads,
  fetches, stores, writes, bumps, Reach, starts, follows, cleared,
}
use gqlize.ReadCache.Current.{IsLive, Reach-current}

-- One model with one read, whose result is the database itself.
abbrev rows : String → String → String
rows shape database = database

abbrev tags_of : String → List String
tags_of shape = "User" ∷ []

abbrev old_key : Key
old_key = record { shape = "users"; versions = 0 ∷ [] }

abbrev new_key : Key
new_key = record { shape = "users"; versions = 1 ∷ [] }

abbrev empty : World String
empty = record {
  database = "old";
  generations = λ t. 0;
  entries = [];
  inflight = [];
  flights = 0;
  reads = [];
  unmarked = [];
}

-- A read that misses, leads a flight and fetches.
abbrev led : World String → Key → World String
led w k = record (goes_on (goes_on (goes_on w (keyed k)) (unfound k)) (fetching w.flights k)) {
  inflight = (w.flights, k) ∷ w.inflight;
  flights = suc w.flights;
}

-- A read that fetched before the write is stored after it; another begins after the bump, and a third
-- waits for it.
abbrev fetched_old : World String
fetched_old = goes_on (led empty old_key) (fetched 0 old_key "old")

fetched_old-Reach : Reach rows tags_of true "old" fetched_old
fetched_old-Reach =
    follows
      (follows
        (follows (follows (starts (λ t. 0)) (begins "users")) (misses old_key (inl refl) none_held))
        (leads old_key (inl refl) none_flies))
      (fetches 0 old_key (inl refl))
  where
    none_held : (v : String) → ¬ In {A = Key × String} (old_key, v) []
    none_held v i = elim i [ ]

    none_flies : ◌≡◌ {A = Bool} true true → (n : ℕ) → ¬ In {A = ℕ × Key} (n, old_key) []
    none_flies e n i = elim i [ ]

abbrev bumped : World String
bumped = record fetched_old { database = "new"; generations = bump ("User" ∷ []) (λ t. 0) }

bumped-Reach : Reach rows tags_of true "old" bumped
bumped-Reach =
    follows (follows fetched_old-Reach (writes "new" ("User" ∷ []) (λ shape h. ground arith)))
      (bumps ("User" ∷ []))

abbrev stored : World String
stored = record bumped { entries = (old_key, "old") ∷ [] }

-- The two keys have other versions.
apart : old_key ≢ new_key
apart e = absurd (differ (ap first_version e))
  where
    first_version : Key → ℕ
    first_version k = elim k.versions [ [] ↦ 0 | v ∷ vs ↦ v ]

    differ : ◌≢◌ {A = ℕ} 0 1
    differ h = omega (arith, h)

abbrev begun : World String
begun = goes_on (led stored new_key) (fetched 1 new_key "new")

begun-Reach : Reach rows tags_of true "old" begun
unfolding bump
begun-Reach =
    follows
      (follows
        (follows
          (follows (follows bumped-Reach (stores 0 old_key "old" (inl refl) (inl refl)))
            (begins "users"))
          (misses new_key (inl refl) other_held))
        (leads new_key (inl refl) other_flies))
      (fetches 1 new_key (inl refl))
  where
    other_held : (v : String) → ¬ In {A = Key × String} (new_key, v) ((old_key, "old") ∷ [])
    other_held v (inl e) = apart (ap (λ (p : Key × String). p.0) e)
    other_held v (inr i) = elim i [ ]

    other_flies :
        ◌≡◌ {A = Bool} true true → (n : ℕ) → ¬ In {A = ℕ × Key} (n, new_key) ((0, old_key) ∷ [])
    other_flies e n (inl f) = apart (ap (λ (p : ℕ × Key). p.1) f)
    other_flies e n (inr i) = elim i [ ]

Reach-current_example : ◌≡◌ {A = String} "new" (rows "users" begun.database)
unfolding bump
Reach-current_example =
    Reach-current rows tags_of true "old" begun begun-Reach 1 new_key "new" (inr (inl (inl refl)))
      (refl, refl)

-- Had the generations been cleared in between, the old result would be stored under a live key.
cleared_test :
    Step rows tags_of true
      (cleared bumped)
      (record (cleared bumped) { entries = (old_key, "old") ∷ [] })
    × (IsLive rows tags_of true
          (record (cleared bumped) { entries = (old_key, "old") ∷ [] })
          old_key
        × (rows "users" (cleared bumped).database ≡ "new"))
unfolding cleared
cleared_test = (stores 0 old_key "old" (inl refl) (inl refl), ((refl, refl), refl))

-- Two shapes were too big, and a result of the second fitted later.
abbrev events : List Event
events = too_big "a" 5 1 ∷ too_big "b" 5 2 ∷ fitted "b" ∷ []

remember_oversized-bounded_example :
    (length (remembered events []) ≤ 1000)
    × (lookup "b" (remember_oversized "b" 5 4 (remembered events [])) ≡ some 9)
remember_oversized-bounded_example = remember_oversized-bounded events "b" 5 4

abbrev options : CacheOptions String String
options = record {
  exclude = names ("Secret" ∷ []);
  hooks_cached = true;
  vary = none;
  max_entry_size = some 3;
  definition_cache = λ d. silent;
  has_opaque_hooks = λ d o. true;
  fingerprint = some;
  hash = λ s. s;
  sort = λ l. l;
}

abbrev read : String → CachedRead String String
read model = record {
  def_name = model;
  operation = "findAll";
  context = "";
  options = "{}";
  in_transaction = false;
  tags = "User" ∷ "Task" ∷ "User" ∷ [];
}

shape_of_test : shape_of options (read "User") ≡ some ("User:findAll:{}|", "User" ∷ "Task" ∷ [])
unfolding shape_of add_each set_add
shape_of_test = refl

shape_of-excluded_test : shape_of options (read "Secret") ≡ none
unfolding shape_of
shape_of-excluded_test = refl

fits_test : fits options "abcd" ≡ false
unfolding fits
fits_test = refl
