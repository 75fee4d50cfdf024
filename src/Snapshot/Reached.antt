-- ===== src/Snapshot/Reached.antt =====
-- The proof about `collectSnapshotTypes` of packages/gqlize/src/graphql/snapshot/reachability.ts:
-- the end of the walk and the types that it collects.
use gqlize.Common.{
  length, ℕ, zero, suc, ◌+◌, ◌≤◌, String, Bool, true, false, not, ◌||◌, Option, none, some, List,
  [], ◌∷◌, ◌++◌, keep, All, contains, ◌==◌, if◌then◌else◌, ◌≡◌, ◌↔◌, refl, sym, ap, ◌∙◌, subst,
  arith, eq_iff, Bool-cases, inl, inr, and-eq-true_iff,
}
use gqlize.Valkey.Sets.{contains-append}
use gqlize.Valkey.Candidates.{contains-keep}
use gqlize.Snapshot.Reachability.{
  Schema, Walk, references, visit_all, is_boundary, descend, add_root, roots, walk,
  collect_snapshot_types,
}
use gqlize.Snapshot.Walk.{unseen, unseen-fewer, Visited, visit_all-Visited}

length-append : (a b : List String) → length (a ++ b) ≡ (length a + length b)
length-append [] b = omega arith
length-append (x ∷ a) b = ground (arith, length-append a b)

length-keep : (p : String → Bool) (xs : List String) → length (keep p xs) ≤ length xs
length-keep p [] = omega arith
length-keep p (x ∷ xs) = ground (arith, length-keep p xs)

pub All-contains :
    (P : String → Type 0) (xs : List String) (x : String) → All P xs → contains xs x ≡ true → P x
All-contains P [] x a h = ground arith
All-contains P (y ∷ xs) x (p, a) h = elim (Bool-cases (y == x)) [
  | inl q ↦ subst P ((eq_iff y x).0 q) p
  | inr q ↦ All-contains P xs x a (ground (arith))
]

module _ (s : Schema) (external : List String) where
  abbrev refs : String → List String
  refs n = references (s.type_of n)

  -- A root, or a type that a reachable one refers to and that is no boundary.
  pub data IsReachable : String → Type 0 where
    from_query : (n : String) → s.query ≡ some n → IsReachable n
    from_mutation : (n : String) → s.mutation ≡ some n → IsReachable n
    from_type :
        (n m : String)
        → IsReachable n
        → contains (refs n) m ≡ true
        → is_boundary s external m ≡ false
        → IsReachable m

  -- The type map has the roots, and every type that one of its types refers to.
  pub record IsClosed : Type 0 where
    pub has_query : (n : String) → s.query ≡ some n → contains s.type_names n ≡ true
    pub has_mutation : (n : String) → s.mutation ≡ some n → contains s.type_names n ≡ true
    pub has_references :
        (n : String)
        → contains s.type_names n ≡ true
        → All (λ m. contains s.type_names m ≡ true) (refs n)

  record Walking (seen pending : List String) : Type 0 where
    reachable : (x : String) → contains seen x ≡ true → IsReachable x
    named : (x : String) → contains pending x ≡ true → contains s.type_names x ≡ true
    claimed : (x : String) → contains pending x ≡ true → contains seen x ≡ true
    done :
        (x y : String)
        → contains seen x ≡ true
        → contains pending x ≡ false
        → contains (refs x) y ≡ true
        → (is_boundary s external y || contains seen y) ≡ true

  -- One round of the loop.
  step-Walking :
      (n : String) (rest seen queue after : List String)
      → IsClosed
      → Walking seen (n ∷ rest)
      → Visited s external s.type_names (refs n) seen queue after
      → Walking after (queue ++ rest)
  step-Walking n rest seen queue after closed w v = record {
    reachable = λ x h. elim (Bool-cases (contains queue x)) [
      | inl q ↦
          from_type n x (w.reachable n (w.claimed n (ground (arith, eq_iff n n)))) (v.queued x q).0
            (v.queued x q).1
      | inr q ↦ w.reachable x (ground (arith, v.kept x))
    ];
    named = λ x h. elim (Bool-cases (contains queue x)) [
      | inl q ↦
          All-contains (λ m. contains s.type_names m ≡ true) (refs n) x
            (closed.has_references n (w.named n (ground (arith, eq_iff n n)))) (v.queued x q).0
      | inr q ↦ w.named x (ground (arith, contains-append x queue rest))
    ];
    claimed = λ x h. ground (arith, v.kept x, contains-append x queue rest, w.claimed x);
    done = λ x y h p r. elim (Bool-cases (n == x)) [
      | inl e ↦ v.covered y (ap (λ m. contains (refs m) y) ((eq_iff n x).0 e) ∙ r)
      | inr e ↦ ground (
        arith,
        v.kept y,
        w.done x y (ground (arith, v.kept x, contains-append x queue rest))
            (ground (arith, contains-append x queue rest)) r,
      )
    ];
  }

  -- The loop ends within as many rounds as there are types unseen or pending.
  record Ended (seen : List String) (fuel : ℕ) (pending : List String) : Type 0 where
    out : List String
    ends : walk s external fuel seen pending ≡ some out
    walked : Walking out []
    grown : (x : String) → contains seen x ≡ true → contains out x ≡ true

  walk-Ended :
      (fuel : ℕ) (seen pending : List String)
      → IsClosed
      → Walking seen pending
      → unseen s.type_names seen + length pending ≤ fuel
      → Ended seen fuel pending
  unfolding walk descend
  walk-Ended fuel seen [] closed w h = record {
    out = seen;
    ends = refl;
    walked = w;
    grown = λ x k. k;
  }
  walk-Ended zero seen (n ∷ rest) closed w h = ground (arith, h)
  walk-Ended (suc fuel) seen (n ∷ rest) closed w h =
      let here : contains s.type_names n ≡ true = w.named n (ground (arith, eq_iff n n)) in
      let v =
        visit_all-Visited s external s.type_names (refs n) seen (closed.has_references n here) in
      let next =
        walk-Ended fuel (visit_all s external (refs n) seen).1
          ((visit_all s external (refs n) seen).0 ++ rest) closed
          (step-Walking n rest seen _ _ closed w v)
          (omega (arith, h, v.fewer, length-append (visit_all s external (refs n) seen).0 rest)) in
      record {
        out = next.out;
        ends = next.ends;
        walked = next.walked;
        grown = λ x k. next.grown x (ground (arith, v.kept x));
      }

  -- A root is claimed without a test for a boundary.
  record IsBegun (w : Walk) : Type 0 where
    walking : Walking w.seen w.pending
    small : unseen s.type_names w.seen + length w.pending ≤ length s.type_names

  root-Walking :
      (root : String) (seen pending : List String)
      → IsReachable root
      → contains s.type_names root ≡ true
      → Walking seen pending
      → Walking (seen ++ root ∷ []) (root ∷ pending)
  root-Walking root seen pending r n w = record {
    reachable = λ x h. elim (Bool-cases (root == x)) [
      | inl q ↦ subst IsReachable ((eq_iff root x).0 q) r
      | inr q ↦ w.reachable x (ground (arith, contains-append x seen (root ∷ [])))
    ];
    named = λ x h. elim (Bool-cases (root == x)) [
      | inl q ↦ ap (contains s.type_names) (sym ((eq_iff root x).0 q)) ∙ n
      | inr q ↦ w.named x (ground (arith))
    ];
    claimed = λ x h. ground (arith, contains-append x seen (root ∷ []), w.claimed x);
    done = λ x y h p q. ground (
      arith,
      contains-append y seen (root ∷ []),
      w.done x y (ground (arith, contains-append x seen (root ∷ []))) (ground (arith)) q,
    );
  }

  -- A root is there afterwards, and what was seen before.
  record IsAdded (root : Option String) (before after : Walk) : Type 0 where
    begun : IsBegun after
    grown : (x : String) → contains before.seen x ≡ true → contains after.seen x ≡ true
    there : (n : String) → root ≡ some n → contains after.seen n ≡ true

  add_root-IsAdded :
      (root : Option String) (w : Walk)
      → ((n : String) → root ≡ some n → IsReachable n × (contains s.type_names n ≡ true))
      → IsBegun w
      → IsAdded root w (add_root s external root w)
  unfolding add_root
  add_root-IsAdded none w h b = record { begun = b; grown = λ x k. k; there = λ n k. cc }
  add_root-IsAdded (some root) w h b = elim (Bool-cases (contains w.seen root)) [
    | inl q ↦
        subst
          (λ c.
            IsAdded (some root) w
              (if c then w else record { seen = w.seen ++ root ∷ []; pending = root ∷ w.pending }))
          (sym q)
          (record {
            begun = b;
            grown = λ x k. k;
            there = λ n k. subst (λ m. contains w.seen m ≡ true) (same k) q;
          })
    | inr q ↦
        subst
          (λ c.
            IsAdded (some root) w
              (if c then w else record { seen = w.seen ++ root ∷ []; pending = root ∷ w.pending }))
          (sym q)
          (record {
            begun = record {
              walking =
                  root-Walking root w.seen w.pending (h root refl).0 (h root refl).1 b.walking;
              small =
                  omega (arith, b.small, unseen-fewer s.type_names w.seen root (h root refl).1 q);
            };
            grown = λ x k. ground (arith, contains-append x w.seen (root ∷ []));
            there = λ n k.
                subst (λ m. contains (w.seen ++ root ∷ []) m ≡ true) (same k)
                  (ground (arith, contains-append root w.seen (root ∷ []), eq_iff root root));
          })
  ]
    where
      same : {n : String} → some root ≡ some n → root ≡ n
      same h = ap (λ o. elim o [ none ↦ root | some m ↦ m ]) h

  empty-IsBegun : IsBegun (record { seen = []; pending = [] })
  empty-IsBegun = record {
    walking = record {
      reachable = λ x h. ground arith;
      named = λ x h. ground arith;
      claimed = λ x h. ground arith;
      done = λ x y h p r. ground arith;
    };
    small = omega (arith, length-keep (λ n. not (contains [] n)) s.type_names);
  }

  -- What is reachable is in a list that has the roots and is closed.
  reachable-within :
      (out : List String)
      → Walking out []
      → ((n : String) → s.query ≡ some n → contains out n ≡ true)
      → ((n : String) → s.mutation ≡ some n → contains out n ≡ true)
      → (x : String) → IsReachable x
      → contains out x ≡ true
  reachable-within out w q m x (from_query n h) = q n h
  reachable-within out w q m x (from_mutation n h) = m n h
  reachable-within out w q m x (from_type n y r c b) =
      ground (arith, w.done n x (reachable-within out w q m n r) refl c)

  -- On a schema whose type map has its roots and every type that its types refer to, the walk ends
  -- within as many rounds as the map has types, and it collects exactly the types of the map that are
  -- a root, or that a collected type refers to without being a boundary.
  pub collect_snapshot_types-exact :
      IsClosed
      → (types : List String) × ((collect_snapshot_types s external ≡ some types)
          × ((x : String)
              → (contains types x ≡ true) ↔ ((contains s.type_names x ≡ true) × IsReachable x)))
  unfolding collect_snapshot_types roots
  collect_snapshot_types-exact closed =
      let first =
        add_root-IsAdded s.query (record { seen = []; pending = [] })
          (λ n h. (from_query n h, closed.has_query n h)) empty-IsBegun in
      let second =
        add_root-IsAdded s.mutation
          (add_root s external s.query (record { seen = []; pending = [] }))
          (λ n h. (from_mutation n h, closed.has_mutation n h)) first.begun in
      let end =
        walk-Ended (length s.type_names) _ _ closed second.begun.walking second.begun.small in
      let all_in =
        reachable-within end.out end.walked (λ n h. end.grown n (second.grown n (first.there n h)))
          (λ n h. end.grown n (second.there n h)) in
      (
        keep (contains end.out) s.type_names,
        (
          ap (λ o. elim o [ none ↦ none | some seen ↦ some (keep (contains seen) s.type_names) ])
              end.ends,
          λ x. (
            λ h.
                let both =
                  (and-eq-true_iff (contains end.out x) (contains s.type_names x)).0
                    (sym (contains-keep (contains end.out) s.type_names x) ∙ h) in
                (both.1, end.walked.reachable x both.0),
            λ h.
                contains-keep (contains end.out) s.type_names x
                ∙ (and-eq-true_iff (contains end.out x) (contains s.type_names x)).1
                    (all_in x h.1, h.0),
          ),
        ),
      )
