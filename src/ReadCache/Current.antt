-- ===== src/ReadCache/Current.antt =====
-- The proof about `ReadCache` of packages/ormize/src/read-cache/index.ts: the results
-- under the generations of now, however reads, writes and bumps interleave.
use mathlib.Core.Path.{ap₂}
use gqlize.Common.{
  In, Bool, ℕ, suc, ◌≤◌, ◌<◌, String, true, false, not, List, [], ◌∷◌, ◌++◌, keep, contains, ◌==◌,
  if◌then◌else◌, ◌≡◌, ◌⊎◌, inl, inr, refl, sym, ap, ◌∙◌, subst, arith, Bool-cases,
}
use gqlize.Valkey.Sets.{contains-append}
use gqlize.Valkey.Candidates.{contains-keep}
use gqlize.ReadCache.Reads.{
  Key, Generations, versions_of, bump, Progress, keyed, unfound, fetching, fetched, waiting,
  returned, World, is_apart, goes_on, Step, begins, hits, misses, leads, joins, fetches, hands_over,
  fetches_alone, stores, finishes, evicts, writes, bumps, Reach, starts, follows,
}

-- A bump leaves the generations of the other tags and raises those of its own.
bump-at :
    (tags : List String) (g : Generations) (t : String)
    → (g t ≤ bump tags g t)
      × ((contains tags t ≡ true → g t < bump tags g t)
          × (contains tags t ≡ false → bump tags g t ≡ g t))
unfolding bump
bump-at [] g t = (omega arith, (λ h. ground arith, λ h. refl))
bump-at (tag ∷ tags) g t =
    let rest = bump-at tags (λ u. if tag == u then suc (g u) else g u) t in
    (ground (arith, rest.0), (λ h. ground (arith, rest.0, rest.1.0), λ h. ground (arith, rest.1.1)))

-- The versions of a key are none of the future.
abbrev Past : Generations → List String → List ℕ → Type 0
Past g [] [] = Unit
Past g [] (v ∷ vs) = ⊥
Past g (t ∷ ts) [] = ⊥
Past g (t ∷ ts) (v ∷ vs) = (v ≤ g t) × Past g ts vs

Past-now : (g : Generations) (ts : List String) → Past g ts (versions_of ts g)
Past-now g [] = tt
Past-now g (t ∷ ts) = (omega arith, Past-now g ts)

Past-bump :
    (tags : List String) (g : Generations) (ts : List String) (vs : List ℕ)
    → Past g ts vs
    → Past (bump tags g) ts vs
Past-bump tags g [] [] p = tt
Past-bump tags g (t ∷ ts) (v ∷ vs) (h, p) =
    (omega (arith, h, (bump-at tags g t).0), Past-bump tags g ts vs p)
Past-bump tags g [] (v ∷ vs) p = elim p [ ]
Past-bump tags g (t ∷ ts) [] p = elim p [ ]

-- A key of before a bump is a key of after it only where the bump named none of its tags.
unbumped :
    (tags : List String) (g : Generations) (ts : List String) (vs : List ℕ)
    → Past g ts vs
    → vs ≡ versions_of ts (bump tags g)
    → (is_apart ts tags ≡ true) × (vs ≡ versions_of ts g)
unbumped tags g [] [] p q = (refl, refl)
unbumped tags g [] (v ∷ vs) p q = elim p [ ]
unbumped tags g (t ∷ ts) [] p q = elim p [ ]
unbumped tags g (t ∷ ts) (v ∷ vs) (h, p) q =
    let same : v ≡ bump tags g t = ap (first_of v) q in
    let rest = unbumped tags g ts vs p (ap rest_of q) in
    elim (Bool-cases (contains tags t)) [
      | inl c ↦ too_old (omega (arith, (bump-at tags g t).1.0 c, same, h))
      | inr c ↦ (ground (arith, rest.0, c), ap₂ ◌∷◌ (same ∙ (bump-at tags g t).1.1 c) rest.1)
    ]
  where
    too_old : {A : Type 0} → ⊥ → A
    too_old h = elim h [ ]

    first_of : ℕ → List ℕ → ℕ
    first_of d [] = d
    first_of d (v ∷ vs) = v

    rest_of : List ℕ → List ℕ
    rest_of [] = []
    rest_of (v ∷ vs) = vs

-- Tags that are apart from what was unmarked before a bump that named none of them.
is_apart-keep :
    (ts tags unmarked : List String)
    → is_apart ts tags ≡ true
    → is_apart ts (keep (λ t. not (contains tags t)) unmarked) ≡ true
    → is_apart ts unmarked ≡ true
is_apart-keep [] tags unmarked h k = refl
is_apart-keep (t ∷ ts) tags unmarked h k =
    ground
      (arith, is_apart-keep ts tags unmarked, contains-keep (λ u. not (contains tags u)) unmarked t)

is_apart-append :
    (ts a b : List String)
    → is_apart ts (a ++ b) ≡ true
    → (is_apart ts a ≡ true) × (is_apart ts b ≡ true)
is_apart-append [] a b h = (refl, refl)
is_apart-append (t ∷ ts) a b h =
    let rest = is_apart-append ts a b (ground (arith)) in
    (ground (arith, rest.0, contains-append t a b), ground (arith, rest.1, contains-append t a b))

module _ {Database : Type 0} (rows : String → Database → String) (tags_of : String → List String)
    (dedupe : Bool) where
  abbrev IsPast : World Database → Key → Type 0
  IsPast w k = Past w.generations (tags_of k.shape) k.versions

  -- The key is the one that a read of its shape would have now, and no write of its models waits for
  -- its bump.
  abbrev pub IsLive : World Database → Key → Type 0
  IsLive w k =
      (k.versions ≡ versions_of (tags_of k.shape) w.generations)
      × (is_apart (tags_of k.shape) w.unmarked ≡ true)

  -- A result that is the present one if its key is live.
  abbrev IsFresh : World Database → Key → String → Type 0
  IsFresh w k v = IsPast w k × (IsLive w k → v ≡ rows k.shape w.database)

  abbrev Sound : (Key → Type 0) → (Key → String → Type 0) → Progress → Type 0
  Sound past fresh (keyed k) = past k
  Sound past fresh (unfound k) = past k
  Sound past fresh (fetching n k) = past k
  Sound past fresh (waiting n k) = past k
  Sound past fresh (fetched n k v) = fresh k v
  Sound past fresh (returned k v) = fresh k v

  abbrev IsSound : World Database → Progress → Type 0
  IsSound w p = Sound (IsPast w) (IsFresh w) p

  record Inv (w : World Database) : Type 0 where
    entries_fresh : (k : Key) (v : String) → In (k, v) w.entries → IsFresh w k v
    reads_sound : (p : Progress) → In p w.reads → IsSound w p

  -- A read that goes on.
  goes_on-Inv : (w : World Database) (p : Progress) → Inv w → IsSound w p → Inv (goes_on w p)
  goes_on-Inv w p inv h = record {
    entries_fresh = λ k v i. inv.entries_fresh k v i;
    reads_sound = λ q i. either q i;
  }
    where
      either : (q : Progress) → In q (p ∷ w.reads) → IsSound w q
      either q (inl e) = subst (λ r. IsSound w r) e h
      either q (inr i) = inv.reads_sound q i

  flights-Inv :
      (w : World Database) (inflight : List (ℕ × Key)) (flights : ℕ)
      → Inv w
      → Inv (record w { inflight = inflight; flights = flights })
  flights-Inv w inflight flights inv = record {
    entries_fresh = λ k v i. inv.entries_fresh k v i;
    reads_sound = λ p i. inv.reads_sound p i;
  }

  stored-Inv :
      (w : World Database) (k : Key) (v : String)
      → Inv w
      → IsFresh w k v
      → Inv (record w { entries = (k, v) ∷ w.entries })
  stored-Inv w k v inv h = record {
    entries_fresh = λ j u i. either j u i;
    reads_sound = λ q i. inv.reads_sound q i;
  }
    where
      either : (j : Key) (u : String) → In (j, u) ((k, v) ∷ w.entries) → IsFresh w j u
      either j u (inl e) = subst (λ r. IsFresh w r.0 r.1) e h
      either j u (inr i) = inv.entries_fresh j u i

  -- Where every result that was fresh stays so, the invariant goes over.
  Sound-map :
      (past past' : Key → Type 0) (fresh fresh' : Key → String → Type 0)
      → ((k : Key) → past k → past' k)
      → ((k : Key) (v : String) → fresh k v → fresh' k v)
      → (p : Progress) → Sound past fresh p
      → Sound past' fresh' p
  Sound-map past past' fresh fresh' f g (keyed k) h = f k h
  Sound-map past past' fresh fresh' f g (unfound k) h = f k h
  Sound-map past past' fresh fresh' f g (fetching n k) h = f k h
  Sound-map past past' fresh fresh' f g (waiting n k) h = f k h
  Sound-map past past' fresh fresh' f g (fetched n k v) h = g k v h
  Sound-map past past' fresh fresh' f g (returned k v) h = g k v h

  writes-Inv :
      (w : World Database) (after : Database) (written : List String)
      → ((shape : String)
          → is_apart (tags_of shape) written ≡ true
          → rows shape after ≡ rows shape w.database)
      → Inv w
      → Inv (record w { database = after; unmarked = written ++ w.unmarked })
  writes-Inv w after written same inv = record {
    entries_fresh = λ k v i. still k v (inv.entries_fresh k v i);
    reads_sound = λ p i.
        Sound-map (IsPast w) (IsPast w) (IsFresh w) (IsFresh changed) (λ k h. h) still p
          (inv.reads_sound p i);
  }
    where
      changed : World Database
      changed = record w { database = after; unmarked = written ++ w.unmarked }

      still : (k : Key) (v : String) → IsFresh w k v → IsFresh changed k v
      still k v (past, fresh) = (
        past,
        λ live.
            let apart = is_apart-append (tags_of k.shape) written w.unmarked live.1 in
            fresh (live.0, apart.1) ∙ sym (same k.shape apart.0),
      )

  bumps-Inv :
      (w : World Database) (tags : List String)
      → Inv w
      → Inv (record w {
        generations = bump tags w.generations;
        unmarked = keep (λ t. not (contains tags t)) w.unmarked;
      })
  bumps-Inv w tags inv = record {
    entries_fresh = λ k v i. still k v (inv.entries_fresh k v i);
    reads_sound = λ p i.
        Sound-map (IsPast w) (IsPast changed) (IsFresh w) (IsFresh changed)
          (λ k h. Past-bump tags w.generations (tags_of k.shape) k.versions h) still p
          (inv.reads_sound p i);
  }
    where
      changed : World Database
      changed = record w {
        generations = bump tags w.generations;
        unmarked = keep (λ t. not (contains tags t)) w.unmarked;
      }

      still : (k : Key) (v : String) → IsFresh w k v → IsFresh changed k v
      still k v (past, fresh) = (
        Past-bump tags w.generations (tags_of k.shape) k.versions past,
        λ live.
            let old = unbumped tags w.generations (tags_of k.shape) k.versions past live.0 in
            fresh (old.1, is_apart-keep (tags_of k.shape) tags w.unmarked old.0 live.1),
      )

  step-Inv : {w v : World Database} → Step rows tags_of dedupe w v → Inv w → Inv v
  step-Inv {w = w} (begins shape) inv = goes_on-Inv w _ inv (Past-now w.generations (tags_of shape))
  step-Inv {w = w} (hits k v i j) inv = goes_on-Inv w (returned k v) inv (inv.entries_fresh k v j)
  step-Inv {w = w} (misses k i m) inv = goes_on-Inv w (unfound k) inv (inv.reads_sound (keyed k) i)
  step-Inv {w = w} (leads k i m) inv =
      flights-Inv _ _ _ (goes_on-Inv w (fetching w.flights k) inv (inv.reads_sound (unfound k) i))
  step-Inv {w = w} (joins n k on i j) inv =
      goes_on-Inv w (waiting n k) inv (inv.reads_sound (unfound k) i)
  step-Inv {w = w} (fetches n k i) inv =
      goes_on-Inv w (fetched n k (rows k.shape w.database)) inv
        (inv.reads_sound (fetching n k) i, λ live. refl)
  step-Inv {w = w} (hands_over n k v i j) inv =
      goes_on-Inv w (returned k v) inv (inv.reads_sound (fetched n k v) j)
  step-Inv {w = w} (fetches_alone n k v i j) inv =
      goes_on-Inv w (returned k (rows k.shape w.database)) inv
        (inv.reads_sound (waiting n k) i, λ live. refl)
  step-Inv {w = w} (stores n k v i j) inv = stored-Inv w k v inv (inv.reads_sound (fetched n k v) i)
  step-Inv {w = w} (finishes n k v i j) inv =
      flights-Inv _ _ _ (goes_on-Inv w (returned k v) inv (inv.reads_sound (fetched n k v) i))
  step-Inv {w = w} (evicts kept sub) inv = record {
    entries_fresh = λ k v i. inv.entries_fresh k v (sub (k, v) i);
    reads_sound = λ p i. inv.reads_sound p i;
  }
  step-Inv {w = w} (writes after written same) inv = writes-Inv w after written same inv
  step-Inv {w = w} (bumps tags) inv = bumps-Inv w tags inv

  Reach-Inv : {d : Database} {w : World Database} → Reach rows tags_of dedupe d w → Inv w
  Reach-Inv (starts g) = record {
    entries_fresh = λ k v i. elim i [ ];
    reads_sound = λ p i. elim i [ ];
  }
  Reach-Inv (follows r s) = step-Inv s (Reach-Inv r)

  -- However reads, writes, commits, bumps and evictions interleave: an entry, and a result that a read
  -- fetched, found or waited for, is what the database holds now, if its key has the generations of now
  -- and every write of its models that others can see has been followed by a bump.
  pub Reach-current :
      (d : Database) (w : World Database)
      → Reach rows tags_of dedupe d w
      → (n : ℕ) (k : Key) (v : String)
      → In (k, v) w.entries ⊎ (In (fetched n k v) w.reads ⊎ In (returned k v) w.reads)
      → IsLive w k
      → v ≡ rows k.shape w.database
  Reach-current d w r n k v (inl i) live = ((Reach-Inv r).entries_fresh k v i).1 live
  Reach-current d w r n k v (inr (inl i)) live =
      ((Reach-Inv r).reads_sound (fetched n k v) i).1 live
  Reach-current d w r n k v (inr (inr i)) live = ((Reach-Inv r).reads_sound (returned k v) i).1 live
