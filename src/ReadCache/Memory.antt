-- ===== src/ReadCache/Memory.antt =====
-- packages/ormize/src/read-cache/memory-store.ts: a least-recently-used store. `Date.now()` is an
-- argument. Sizes are bytes of UTF-8, which is what `len` of a native text counts.
use Prim.Native.String.{len}
use gqlize.Common.{
  ℕ, ◌+◌, ◌-◌, String, Bool, ◌&&◌, ◌||◌, Option, none, some, List, [], ◌∷◌, Dict, keys, lookup, put,
  remove, length, leb, ltb, nat_eq, if◌then◌else◌, map,
}

pub record Entry : Type 0 where
  pub value : String
  pub size : ℕ
  pub expires : ℕ

-- A limit of 0 means no limit.
pub record MemoryCacheStore : Type 0 where
  pub entries : Dict Entry
  pub generations : Dict ℕ
  pub bytes : ℕ
  pub max_entries : ℕ
  pub max_size : ℕ

-- The constructor: an option that is not given has its default.
unfoldable pub create : Option ℕ → Option ℕ → MemoryCacheStore
create max_entries max_size = record {
  entries = [];
  generations = [];
  bytes = 0;
  max_entries = elim max_entries [ some n ↦ n | none ↦ 1000 ];
  max_size = elim max_size [ some n ↦ n | none ↦ 67108864 ];
}

unfoldable pub size : MemoryCacheStore → ℕ
size s = length s.entries

unfoldable pub byte_size : MemoryCacheStore → ℕ
byte_size s = s.bytes

abbrev pub generation : Dict ℕ → String → ℕ
generation d tag = elim (lookup tag d) [ some n ↦ n | none ↦ 0 ]

unfoldable pub versions : List String → MemoryCacheStore → List ℕ
versions tags s = map (generation s.generations) tags

unfoldable pub get : String → ℕ → MemoryCacheStore → Option String × MemoryCacheStore
get key now s = elim (lookup key s.entries) [
  | none ↦ (none, s)
  | some e ↦
      if leb e.expires now
      then (none, record s { entries = remove key s.entries; bytes = s.bytes - e.size })
      else (some e.value, record s { entries = put key e (remove key s.entries) })
]

-- the private `delete`
unfoldable pub delete : String → MemoryCacheStore → MemoryCacheStore
delete key s = elim (lookup key s.entries) [
  | none ↦ s
  | some e ↦ record s { entries = remove key s.entries; bytes = s.bytes - e.size }
]

abbrev pub within : MemoryCacheStore → Bool
within s =
    (nat_eq s.max_entries 0 || leb (length s.entries) s.max_entries)
    && (nat_eq s.max_size 0 || leb s.bytes s.max_size)

-- The loop over the live keys: a deleted key was the one visited, so the rest keep their order.
unfoldable pub evict : List String → MemoryCacheStore → MemoryCacheStore
unfolding delete
evict [] s = s
evict (oldest ∷ rest) s = let next = evict rest (delete oldest s) in if within s then s else next

abbrev pub entry_size : String → String → ℕ
entry_size key value = len key + len value

abbrev pub add : String → Entry → MemoryCacheStore → MemoryCacheStore
add key e s = record s { entries = put key e s.entries; bytes = s.bytes + e.size }

abbrev pub new_entry : String → String → ℕ → Entry
new_entry key value expires = record {
  value = value;
  size = entry_size key value;
  expires = expires;
}

unfoldable pub set : String → String → ℕ → ℕ → MemoryCacheStore → MemoryCacheStore
unfolding delete evict
set key value ttl now s =
    let s' = delete key s in
    if ltb 0 s'.max_size && ltb s'.max_size (entry_size key value)
    then s'
    else let added = add key (new_entry key value (now + ttl)) s' in
      evict (keys added.entries) added

unfoldable pub invalidate : List String → MemoryCacheStore → MemoryCacheStore
invalidate [] s = s
invalidate (tag ∷ tags) s =
    invalidate tags
      (record s { generations = put tag (generation s.generations tag + 1) s.generations })

unfoldable pub clear : MemoryCacheStore → MemoryCacheStore
clear s = record s { entries = []; generations = []; bytes = 0 }
