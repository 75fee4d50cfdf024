-- ===== src/ReadCache/Limits.antt =====
-- What packages/ormize/src/read-cache/memory-store.ts promises: the books stay right over any calls,
-- a `set` ends within the limits, the entry that was just set is there, and no other key changes.
use gqlize.Common.{
  ℕ, ◌+◌, String, ◌&&◌, Option, List, [], ◌∷◌, ◌∙◌, refl, eq_refl, ltb, Bool-cases, inl, inr,
}
use gqlize.ReadCache.Memory.{
  MemoryCacheStore, create, delete, get, set, invalidate, clear, entry_size, new_entry,
}
use gqlize.ReadCache.Accounts.{
  IsAccounted, delete-IsAccounted, lookup-delete, add-IsAccounted, evict-IsAccounted,
  get-IsAccounted,
}

set-IsAccounted :
    (k v : String) (ttl now : ℕ) (s : MemoryCacheStore)
    → IsAccounted s
    → IsAccounted (set k v ttl now s)
unfolding set
set-IsAccounted k v ttl now s a =
    let s' = delete k s in
    let a' = delete-IsAccounted k s a in
    elim (Bool-cases (ltb 0 s'.max_size && ltb s'.max_size (entry_size k v))) [
      | inl big ↦ rw big a'
      | inr small ↦ rw small (
          evict-IsAccounted _ _ (
            add-IsAccounted k (new_entry k v (now + ttl)) s' a'
              (lookup-delete k k s ∙ rw eq_refl refl) refl))
    ]

invalidate-IsAccounted :
    (tags : List String) (s : MemoryCacheStore) → IsAccounted s → IsAccounted (invalidate tags s)
unfolding invalidate
invalidate-IsAccounted [] s a = a
invalidate-IsAccounted (t ∷ ts) s a =
    invalidate-IsAccounted ts _ (record { sound = a.sound; counted = a.counted })

-- The public operations, as a client calls them.
pub data Step : MemoryCacheStore → MemoryCacheStore → Type 0 where
  got : (k : String) (now : ℕ) (s : MemoryCacheStore) → Step s (get k now s).1
  stored : (k v : String) (ttl now : ℕ) (s : MemoryCacheStore) → Step s (set k v ttl now s)
  invalidated : (tags : List String) (s : MemoryCacheStore) → Step s (invalidate tags s)
  cleared : (s : MemoryCacheStore) → Step s (clear s)

pub data Reach (s : MemoryCacheStore) : MemoryCacheStore → Type 0 where
  start : Reach s s
  step : {t u : MemoryCacheStore} → Reach s t → Step t u → Reach s u

Step-IsAccounted : {s t : MemoryCacheStore} → Step s t → IsAccounted s → IsAccounted t
unfolding clear
Step-IsAccounted (got k now s) a = get-IsAccounted k now s a
Step-IsAccounted (stored k v ttl now s) a = set-IsAccounted k v ttl now s a
Step-IsAccounted (invalidated tags s) a = invalidate-IsAccounted tags s a
Step-IsAccounted (cleared s) a = record { sound = tt; counted = refl }

-- After any calls on a new store no key stands twice, every entry has the size of its key and
-- value, and the byte count is the sum of the sizes.
pub Reach-IsAccounted :
    (max_entries max_size : Option ℕ) (s : MemoryCacheStore)
    → Reach (create max_entries max_size) s
    → IsAccounted s
unfolding create
Reach-IsAccounted m n s start = record { sound = tt; counted = refl }
Reach-IsAccounted m n s (step r st) = Step-IsAccounted st (Reach-IsAccounted m n _ r)
