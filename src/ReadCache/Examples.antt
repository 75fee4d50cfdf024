-- ===== src/ReadCache/Examples.antt =====
-- The theorems about packages/ormize/src/read-cache/memory-store.ts at concrete inputs, and tests.
use gqlize.Common.{
  ◌≤◌, true, some, [], ◌∷◌, ◌++◌, Dict, keys, lookup, remove, put, ◌≡◌, ◌⊎◌, inr, refl, arith,
}
use gqlize.ReadCache.Memory.{
  Entry, MemoryCacheStore, create, set, get, within, new_entry, evict, delete, entry_size, versions,
  invalidate,
}
use gqlize.ReadCache.Accounts.{IsAccounted}
use gqlize.ReadCache.Limits.{Reach, start, step, stored, Reach-IsAccounted}
use gqlize.ReadCache.Recency.{set-within_and_newest, get-set}

-- A store for two entries of ten bytes in all, with one entry.
abbrev small : MemoryCacheStore
small = set "a" "1" 60 0 (create (some 2) (some 10))

small-reached : Reach (create (some 2) (some 10)) small
small-reached = step start (stored "a" "1" 60 0 (create (some 2) (some 10)))

Reach-IsAccounted_example : IsAccounted small
Reach-IsAccounted_example = Reach-IsAccounted (some 2) (some 10) small small-reached

small-IsAccounted : IsAccounted small
small-IsAccounted = Reach-IsAccounted (some 2) (some 10) small small-reached

small_fits : (small.max_size ≡ 0) ⊎ (entry_size "bb" "22" ≤ small.max_size)
unfolding set create evict delete lookup put
small_fits = inr (omega arith)

set-within_and_newest_example :
    (within (set "bb" "22" 5 1 small) ≡ true)
    × (lookup "bb" (set "bb" "22" 5 1 small).entries ≡ some (new_entry "bb" "22" 6))
    × ((gone : Dict Entry) × (remove "bb" small.entries ++ ("bb", new_entry "bb" "22" 6) ∷ []
          ≡ gone ++ (set "bb" "22" 5 1 small).entries))
set-within_and_newest_example =
    set-within_and_newest "bb" "22" 5 1 small small-IsAccounted small_fits

get-set_example : (get "bb" 3 (set "bb" "22" 5 1 small)).0 ≡ some "22"
get-set_example = get-set "bb" "22" 5 1 small small-IsAccounted small_fits 3

-- The third entry evicts the first.
eviction : keys (set "c" "3" 5 2 (set "b" "2" 5 1 small)).entries ≡ "b" ∷ "c" ∷ []
unfolding set create evict delete lookup put remove
eviction = refl

-- A hit moves its entry to the end.
hit : keys (get "a" 2 (set "b" "2" 5 1 small)).1.entries ≡ "b" ∷ "a" ∷ []
unfolding set get create evict delete lookup put remove
hit = refl

bumped : versions ("t" ∷ "u" ∷ []) (invalidate ("t" ∷ "t" ∷ []) small) ≡ 2 ∷ 0 ∷ []
unfolding versions invalidate set create evict delete lookup put remove
bumped = refl
