-- ===== src/ReadCache/Accounts.antt =====
-- The books of packages/ormize/src/read-cache/memory-store.ts: keys are unique, and the byte count is
-- the sum of the sizes.
use gqlize.Common.{
  ℕ, ◌+◌, String, none, some, List, [], ◌∷◌, ◌++◌, Dict, lookup, remove, put_fresh, lookup-remove,
  lookup-append_none, length, ◌≡◌, ◌∙◌, refl, sym, ap, arith, eq_iff, eq_refl, leb, if◌then◌else◌,
  ◌==◌, Option-cases, Bool-cases, inl, inr,
}
use gqlize.ReadCache.Memory.{Entry, MemoryCacheStore, delete, add, evict, get, within, entry_size}

abbrev pub total : Dict Entry → ℕ
total [] = 0
total ((k, e) ∷ d) = e.size + total d

-- No key stands twice, and each size is that of its key and value.
abbrev pub Sound : Dict Entry → Type 0
Sound [] = Unit
Sound ((k, e) ∷ d) = (lookup k d ≡ none) × (e.size ≡ entry_size k e.value) × Sound d

pub record IsAccounted (s : MemoryCacheStore) : Type 0 where
  pub sound : Sound s.entries
  pub counted : s.bytes ≡ total s.entries

pub remove_absent : (k : String) (d : Dict Entry) → lookup k d ≡ none → remove k d ≡ d
unfolding lookup remove
remove_absent k [] h = refl
remove_absent k ((j, e) ∷ d) h = ground (arith, remove_absent k d)

pub total-remove :
    (k : String) (d : Dict Entry) (e : Entry)
    → Sound d
    → lookup k d ≡ some e
    → total (remove k d) + e.size ≡ total d
unfolding lookup remove
total-remove k [] e s h = ground arith
total-remove k ((j, x) ∷ d) e (new, sized, s) h = elim (Bool-cases (j == k)) [
  | inl same ↦ rw same (ground (arith, eq_iff j k, remove_absent k d))
  | inr other ↦ rw other (ground (arith, total-remove k d e))
]

pub length-remove :
    (k : String) (d : Dict Entry) (e : Entry)
    → Sound d
    → lookup k d ≡ some e
    → length (remove k d) + 1 ≡ length d
unfolding lookup remove
length-remove k [] e s h = ground arith
length-remove k ((j, x) ∷ d) e (new, sized, s) h = elim (Bool-cases (j == k)) [
  | inl same ↦ rw same (ground (arith, eq_iff j k, remove_absent k d))
  | inr other ↦ rw other (ground (arith, length-remove k d e))
]

pub Sound-remove : (k : String) (d : Dict Entry) → Sound d → Sound (remove k d)
unfolding remove
Sound-remove k [] s = tt
Sound-remove k ((j, x) ∷ d) (new, sized, s) = elim (Bool-cases (j == k)) [
  | inl same ↦ rw same (Sound-remove k d s)
  | inr other ↦ rw other (lookup-remove k j d ∙ ground arith, sized, Sound-remove k d s)
]

pub Sound-append :
    (d : Dict Entry) (k : String) (e : Entry)
    → Sound d
    → lookup k d ≡ none
    → e.size ≡ entry_size k e.value
    → Sound (d ++ (k, e) ∷ [])
unfolding lookup
Sound-append [] k e s h z = (refl, z, tt)
Sound-append ((j, x) ∷ d) k e (new, sized, s) h z = (
  ground (arith, lookup-append_none j d ((k, e) ∷ []), eq_iff j k, eq_iff k j),
  sized,
  Sound-append d k e s (ground arith) z,
)

pub total-append :
    (d : Dict Entry) (k : String) (e : Entry) → total (d ++ (k, e) ∷ []) ≡ total d + e.size
total-append [] k e = omega arith
total-append ((j, x) ∷ d) k e = omega (arith, total-append d k e)

lookup-size :
    (k : String) (d : Dict Entry) (e : Entry)
    → Sound d
    → lookup k d ≡ some e
    → e.size ≡ entry_size k e.value
unfolding lookup
lookup-size k [] e s h = ground arith
lookup-size k ((j, x) ∷ d) e (new, sized, s) h = elim (Bool-cases (j == k)) [
  | inl same ↦ ground (arith, eq_iff j k)
  | inr other ↦ lookup-size k d e s (ground arith)
]

lookup-remove_self : (k : String) (d : Dict Entry) → lookup k (remove k d) ≡ none
lookup-remove_self k d = lookup-remove k k d ∙ rw eq_refl refl

-- Deleting a key keeps the books, and the key is gone.
pub delete-IsAccounted :
    (k : String) (s : MemoryCacheStore) → IsAccounted s → IsAccounted (delete k s)
unfolding delete
delete-IsAccounted k s a = elim (Option-cases (lookup k s.entries)) [
  | inl absent ↦ rw (absent, delete) a
  | inr (e, found) ↦
      rw (found, delete)
        (record {
          sound = Sound-remove k s.entries a.sound;
          counted = omega (arith, a.counted, total-remove k s.entries e a.sound found);
        })
]

pub lookup-delete :
    (k j : String) (s : MemoryCacheStore)
    → lookup j (delete k s).entries ≡ (if k == j then none else lookup j s.entries)
unfolding delete
lookup-delete k j s = elim (Option-cases (lookup k s.entries)) [
  | inl absent ↦
      rw (absent, delete)
        (elim (Bool-cases (k == j)) [
          | inl same ↦ rw same (ap (λ t. lookup t s.entries) (sym ((eq_iff k j).0 same)) ∙ absent)
          | inr other ↦ rw other refl
        ])
  | inr (e, found) ↦ rw (found, delete) (lookup-remove k j s.entries)
]

-- A new entry of the right size keeps the books.
pub add-IsAccounted :
    (k : String) (e : Entry) (s : MemoryCacheStore)
    → IsAccounted s
    → lookup k s.entries ≡ none
    → e.size ≡ entry_size k e.value
    → IsAccounted (add k e s)
add-IsAccounted k e s a absent z = record {
  sound = rw (put_fresh k e s.entries absent) (Sound-append s.entries k e a.sound absent z);
  counted =
      omega
        (arith, a.counted, ap total (put_fresh k e s.entries absent), total-append s.entries k e);
}

pub evict-IsAccounted :
    (ks : List String) (s : MemoryCacheStore) → IsAccounted s → IsAccounted (evict ks s)
unfolding evict
evict-IsAccounted [] s a = a
evict-IsAccounted (k ∷ ks) s a = elim (Bool-cases (within s)) [
  | inl fits ↦ rw fits a
  | inr over ↦ rw over (evict-IsAccounted ks (delete k s) (delete-IsAccounted k s a))
]

pub get-IsAccounted :
    (k : String) (now : ℕ) (s : MemoryCacheStore) → IsAccounted s → IsAccounted (get k now s).1
unfolding get
get-IsAccounted k now s a = elim (Option-cases (lookup k s.entries)) [
  | inl absent ↦ rw (absent, get) a
  | inr (e, found) ↦ elim (Bool-cases (leb e.expires now)) [
    | inl expired ↦
        rw (found, expired, get)
          (record {
            sound = Sound-remove k s.entries a.sound;
            counted = omega (arith, a.counted, total-remove k s.entries e a.sound found);
          })
    | inr live ↦
        let absent = lookup-remove_self k s.entries in
        rw (found, live, get)
          (record {
            sound = rw (put_fresh k e (remove k s.entries) absent) (
                Sound-append (remove k s.entries) k e (Sound-remove k s.entries a.sound) absent
                  (lookup-size k s.entries e a.sound found));
            counted = omega (
              arith,
              a.counted,
              ap total (put_fresh k e (remove k s.entries) absent),
              total-append (remove k s.entries) k e,
              total-remove k s.entries e a.sound found,
            );
          })
  ]
]
