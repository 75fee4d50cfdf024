-- ===== src/ReadCache/Recency.antt =====
-- How a `set` of packages/ormize/src/read-cache/memory-store.ts leaves the store: within its limits,
-- with only the oldest entries gone, and with the entry that was just set.
use gqlize.Common.{
  ℕ, ◌+◌, ◌≤◌, String, true, false, ◌&&◌, none, some, [], ◌∷◌, ◌++◌, Dict, keys, lookup, remove,
  put_fresh, ◌≡◌, ◌∙◌, refl, sym, ap, subst, arith, eq_iff, eq_refl, leb, ltb, if◌then◌else◌, ◌==◌,
  Option-cases, Bool-cases, inl, inr, ◌⊎◌,
}
use gqlize.ReadCache.Memory.{
  Entry, MemoryCacheStore, delete, add, evict, get, set, within, entry_size, new_entry,
}
use gqlize.ReadCache.Accounts.{
  total, Sound, IsAccounted, delete-IsAccounted, lookup-delete, add-IsAccounted, remove_absent,
}

-- Deleting the first key takes the first entry away and leaves the limits.
record Shifted (s t : MemoryCacheStore) (d : Dict Entry) : Type 0 where
  rest : t.entries ≡ d
  same_entries : t.max_entries ≡ s.max_entries
  same_size : t.max_size ≡ s.max_size

delete_first :
    (k : String) (e : Entry) (d : Dict Entry) (s : MemoryCacheStore)
    → s.entries ≡ (k, e) ∷ d
    → Sound s.entries
    → Shifted s (delete k s) d
unfolding delete
delete_first k e d s p sound =
    let found : lookup k s.entries ≡ some e = ap (lookup k) p ∙ unfold lookup in rw eq_refl refl in
    let new : lookup k d ≡ none = (subst Sound p sound).0 in
    rw (found, delete)
      (record {
        rest = ap (remove k) p ∙ (unfold remove in rw eq_refl (remove_absent k d new));
        same_entries = refl;
        same_size = refl;
      })

within_empty : (s : MemoryCacheStore) → s.entries ≡ [] → s.bytes ≡ 0 → within s ≡ true
within_empty s p z = rw (p, z) (ground arith)

evict-within :
    (d : Dict Entry) (s : MemoryCacheStore)
    → s.entries ≡ d
    → IsAccounted s
    → within (evict (keys d) s) ≡ true
unfolding evict
evict-within [] s p a = within_empty s p (a.counted ∙ ap total p)
evict-within ((k, e) ∷ d) s p a = elim (Bool-cases (within s)) [
  | inl fits ↦ rw (fits, evict) fits
  | inr over ↦
      rw (over, evict)
        (evict-within d (delete k s) (delete_first k e d s p a.sound).rest
          (delete-IsAccounted k s a))
]

-- Only entries at the front go.
evict-suffix :
    (d : Dict Entry) (s : MemoryCacheStore)
    → s.entries ≡ d
    → IsAccounted s
    → (gone : Dict Entry) × (d ≡ gone ++ (evict (keys d) s).entries)
unfolding evict
evict-suffix [] s p a = ([], sym p)
evict-suffix ((k, e) ∷ d) s p a = elim (Bool-cases (within s)) [
  | inl fits ↦ ([], rw (fits, evict) (sym p))
  | inr over ↦
      let (gone, q) =
        evict-suffix d (delete k s) (delete_first k e d s p a.sound).rest
          (delete-IsAccounted k s a) in
      ((k, e) ∷ gone, rw (over, evict) (ap (◌∷◌ (k, e)) q))
]

lookup-last :
    (d : Dict Entry) (k : String) (e : Entry)
    → Sound (d ++ (k, e) ∷ [])
    → lookup k (d ++ (k, e) ∷ []) ≡ some e
unfolding lookup
lookup-last [] k e s = rw eq_refl refl
lookup-last ((j, x) ∷ d) k e (new, sized, s) = elim (Bool-cases (j == k)) [
  | inl same ↦ absurd (
      ground
        (arith, ap (λ t. lookup t (d ++ (k, e) ∷ [])) ((eq_iff j k).0 same), lookup-last d k e s))
  | inr other ↦ rw other (lookup-last d k e s)
]

-- One entry that fits the byte limit fits the store.
within_single :
    (k : String) (e : Entry) (s : MemoryCacheStore)
    → s.entries ≡ (k, e) ∷ []
    → s.bytes ≡ e.size
    → (s.max_size ≡ 0) ⊎ (e.size ≤ s.max_size)
    → within s ≡ true
within_single k e s p z f = rw (p, z) (ground arith)

evict-keeps_last :
    (d : Dict Entry) (k : String) (e : Entry) (s : MemoryCacheStore)
    → s.entries ≡ d ++ (k, e) ∷ []
    → IsAccounted s
    → (s.max_size ≡ 0) ⊎ (e.size ≤ s.max_size)
    → lookup k (evict (keys (d ++ (k, e) ∷ [])) s).entries ≡ some e
unfolding evict
evict-keeps_last [] k e s p a f =
    rw (within_single k e s p (a.counted ∙ ap total p ∙ omega arith) f, evict)
      (ap (lookup k) p ∙ lookup-last [] k e (subst Sound p a.sound))
evict-keeps_last ((j, x) ∷ d) k e s p a f = elim (Bool-cases (within s)) [
  | inl fits ↦
      rw (fits, evict) (ap (lookup k) p ∙ lookup-last ((j, x) ∷ d) k e (subst Sound p a.sound))
  | inr over ↦
      let moved = delete_first j x (d ++ (k, e) ∷ []) s p a.sound in
      rw (over, evict)
        (evict-keeps_last d k e (delete j s) moved.rest (delete-IsAccounted j s a)
          (rw moved.same_size f))
]

delete-max_size : (k : String) (s : MemoryCacheStore) → (delete k s).max_size ≡ s.max_size
unfolding delete
delete-max_size k s = ground arith

entries-delete : (k : String) (s : MemoryCacheStore) → (delete k s).entries ≡ remove k s.entries
unfolding delete
entries-delete k s = elim (Option-cases (lookup k s.entries)) [
  | inl absent ↦ rw (absent, delete) (sym (remove_absent k s.entries absent))
  | inr (e, found) ↦ rw (found, delete) refl
]

module _ (k v : String) (ttl now : ℕ) (s : MemoryCacheStore) (a : IsAccounted s)
    (fits : (s.max_size ≡ 0) ⊎ (entry_size k v ≤ s.max_size)) where
  abbrev cleaned : MemoryCacheStore
  cleaned = delete k s

  abbrev entry : Entry
  entry = new_entry k v (now + ttl)

  abbrev added : MemoryCacheStore
  added = add k entry cleaned

  absent : lookup k cleaned.entries ≡ none
  absent = lookup-delete k k s ∙ rw eq_refl refl

  added-IsAccounted : IsAccounted added
  added-IsAccounted = add-IsAccounted k entry cleaned (delete-IsAccounted k s a) absent refl

  at_end : added.entries ≡ cleaned.entries ++ (k, entry) ∷ []
  at_end = put_fresh k entry cleaned.entries absent

  set-evict : set k v ttl now s ≡ evict (keys added.entries) added
  unfolding set
  set-evict =
      let small : (ltb 0 cleaned.max_size && ltb cleaned.max_size (entry_size k v)) ≡ false =
        ground (arith, delete-max_size k s) in
      rw small refl

  -- Setting a value that fits the byte limit leaves the store within both limits, and the entries
  -- that remain are the previous ones without the key, oldest first gone, then the new entry.
  pub set-within_and_newest :
      (within (set k v ttl now s) ≡ true)
      × (lookup k (set k v ttl now s).entries ≡ some (new_entry k v (now + ttl)))
      × ((gone : Dict Entry) × (remove k s.entries ++ (k, new_entry k v (now + ttl)) ∷ []
            ≡ gone ++ (set k v ttl now s).entries))
  set-within_and_newest =
      let (gone, q) = evict-suffix added.entries added refl added-IsAccounted in
      (
        rw set-evict (evict-within added.entries added refl added-IsAccounted),
        rw set-evict (
            ap (λ l. lookup k (evict (keys l) added).entries) at_end
            ∙ evict-keeps_last cleaned.entries k entry added at_end added-IsAccounted
                (rw (delete-max_size k s) fits)),
        (
          gone,
          rw set-evict (ap (λ d. d ++ (k, entry) ∷ []) (sym (entries-delete k s)) ∙ sym at_end ∙ q),
        ),
      )

  -- A value that was set and fits is read back until it expires, and not after.
  pub get-set :
      (later : ℕ)
      → (get k later (set k v ttl now s)).0 ≡ (if leb (now + ttl) later then none else some v)
  unfolding get
  get-set later = rw (set-within_and_newest.1, get) (ground arith)
