-- ===== src/ReadCache/Reads.antt =====
-- The steps of `read` and `invalidate` of packages/ormize/src/read-cache/index.ts, between whose awaits
-- other reads and writes run. A store is its generations and its entries; a key is the shape of a
-- read with the generations of its tags (packages/utilize/src/utils/cache-key.ts). An entry holds what
-- was encoded, which decodes.
use gqlize.Common.{
  In, ℕ, suc, String, Bool, not, List, [], ◌∷◌, ◌++◌, map, keep, all, contains, ◌==◌, if◌then◌else◌,
  ◌≡◌, ltb, ◌||◌, true,
}

pub record Key : Type 0 where
  pub shape : String
  pub versions : List ℕ

-- `versions` and `invalidate` of a store: the generation of a tag goes up each time it is named.
abbrev pub Generations : Type 0
Generations = String → ℕ

abbrev pub versions_of : List String → Generations → List ℕ
versions_of tags g = map g tags

unfoldable pub bump : List String → Generations → Generations
bump [] g = g
bump (tag ∷ tags) g = bump tags (λ t. if tag == t then suc (g t) else g t)

-- How far a read is: it has its key; the store had no entry; it leads a flight and is fetching; its result
-- is there; it waits for the flight of another; it returned a result that it found, fetched or waited
-- for. Flights are numbered.
pub data Progress : Type 0 where
  keyed : Key → Progress
  unfound : Key → Progress
  fetching : ℕ → Key → Progress
  fetched : ℕ → Key → String → Progress
  waiting : ℕ → Key → Progress
  returned : Key → String → Progress

-- The database, the store, the flights whose leaders have not returned, how many flights there were and
-- the reads. `unmarked` has the tags of the writes that others can see and that have not been followed
-- by a bump. A read stands in the list at each point it has been at.
pub record World (Database : Type 0) : Type 0 where
  pub database : Database
  pub generations : Generations
  pub entries : List (Key × String)
  pub inflight : List (ℕ × Key)
  pub flights : ℕ
  pub reads : List Progress
  pub unmarked : List String

-- `inflight.delete`, of one flight
abbrev pub landed : ℕ → List (ℕ × Key) → List (ℕ × Key)
landed n inflight = keep (λ flight. ltb flight.0 n || ltb n flight.0) inflight

abbrev pub is_apart : List String → List String → Bool
is_apart tags written = all (λ t. not (contains written t)) tags

abbrev pub goes_on : {Database : Type 0} → World Database → Progress → World Database
goes_on w p = record w { reads = p ∷ w.reads }

-- What a read of a shape gives, encoded, the tags of the models that it touches, and whether identical
-- reads in flight are joined.
module _ {Database : Type 0} (rows : String → Database → String) (tags_of : String → List String)
    (dedupe : Bool) where
  abbrev pub key_of : String → Generations → Key
  key_of shape g = record { shape = shape; versions = versions_of (tags_of shape) g }

  pub data Step (w : World Database) : World Database → Type 0 where
    -- the key under the generations of now
    begins : (shape : String) → Step w (goes_on w (keyed (key_of shape w.generations)))
    -- the store has the entry
    hits :
        (k : Key) (v : String)
        → In (keyed k) w.reads
        → In (k, v) w.entries
        → Step w (goes_on w (returned k v))
    -- the store has no entry
    misses :
        (k : Key)
        → In (keyed k) w.reads
        → ((v : String) → ¬ In (k, v) w.entries)
        → Step w (goes_on w (unfound k))
    -- no flight to join: the read leads one
    leads :
        (k : Key)
        → In (unfound k) w.reads
        → (dedupe ≡ true → (n : ℕ) → ¬ In (n, k) w.inflight)
        → Step w (record (goes_on w (fetching w.flights k)) {
          inflight = (w.flights, k) ∷ w.inflight;
          flights = suc w.flights;
        })
    -- a flight for the key is joined
    joins :
        (n : ℕ) (k : Key)
        → dedupe ≡ true
        → In (unfound k) w.reads
        → In (n, k) w.inflight
        → Step w (goes_on w (waiting n k))
    -- the adapter's result
    fetches :
        (n : ℕ) (k : Key)
        → In (fetching n k) w.reads
        → Step w (goes_on w (fetched n k (rows k.shape w.database)))
    -- the flight's result, to one who waits for it
    hands_over :
        (n : ℕ) (k : Key) (v : String)
        → In (waiting n k) w.reads
        → In (fetched n k v) w.reads
        → Step w (goes_on w (returned k v))
    -- a result that was not encoded has no copy to give, and who waits for it fetches
    fetches_alone :
        (n : ℕ) (k : Key) (v : String)
        → In (waiting n k) w.reads
        → In (fetched n k v) w.reads
        → Step w (goes_on w (returned k (rows k.shape w.database)))
    -- the result goes under the key that the leader began with
    stores :
        (n : ℕ) (k : Key) (v : String)
        → In (fetched n k v) w.reads
        → In (n, k) w.inflight
        → Step w (record w { entries = (k, v) ∷ w.entries })
    -- the leader returns what it fetched
    finishes :
        (n : ℕ) (k : Key) (v : String)
        → In (fetched n k v) w.reads
        → In (n, k) w.inflight
        → Step w (record (goes_on w (returned k v)) { inflight = landed n w.inflight })
    -- entries that were evicted or expired
    evicts :
        (kept : List (Key × String))
        → ((entry : Key × String) → In entry kept → In entry w.entries)
        → Step w (record w { entries = kept })
    -- a write, or the commit of a transaction: the reads that touch none of its models give the same
    writes :
        (after : Database) (written : List String)
        → ((shape : String)
            → is_apart (tags_of shape) written ≡ true
            → rows shape after ≡ rows shape w.database)
        → Step w (record w { database = after; unmarked = written ++ w.unmarked })
    -- the bump of `invalidate`, at once or after the commit
    bumps :
        (tags : List String)
        → Step w (record w {
          generations = bump tags w.generations;
          unmarked = keep (λ t. not (contains tags t)) w.unmarked;
        })

  -- What can be reached from an empty store.
  pub data Reach (d : Database) : World Database → Type 0 where
    starts :
        (g : Generations)
        → Reach d (record {
          database = d;
          generations = g;
          entries = [];
          inflight = [];
          flights = 0;
          reads = [];
          unmarked = [];
        })
    follows : {w v : World Database} → Reach d w → Step w v → Reach d v

-- `clear` of packages/ormize/src/read-cache/memory-store.ts, which drops the generations too. It is no
-- step: a read in flight may hold a key whose generations then come round again.
unfoldable pub cleared : {Database : Type 0} → World Database → World Database
cleared w = record w { entries = []; generations = λ t. 0 }
