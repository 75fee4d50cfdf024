-- ===== src/Snapshot/Walk.antt =====
-- The steps of the walk of packages/gqlize/src/graphql/snapshot/reachability.ts.
use gqlize.Common.{
  length, ℕ, suc, ◌+◌, ◌≤◌, String, Bool, true, false, not, ◌||◌, List, [], ◌∷◌, ◌++◌, keep, All,
  contains, ◌==◌, if◌then◌else◌, ◌≡◌, sym, ap, subst, arith, eq_iff, Bool-cases, inl, inr,
}
use gqlize.Valkey.Sets.{contains-append}
use gqlize.Snapshot.Reachability.{Schema, visit_all, is_boundary}

-- How many of the names are not seen.
abbrev pub unseen : List String → List String → ℕ
unseen names seen = length (keep (λ n. not (contains seen n)) names)

unseen-le :
    (names seen : List String) (m : String) → unseen names (seen ++ m ∷ []) ≤ unseen names seen
unseen-le [] seen m = omega arith
unseen-le (n ∷ names) seen m =
    ground (arith, unseen-le names seen m, contains-append n seen (m ∷ []))

-- A name that is seen for the first time is one fewer.
pub unseen-fewer :
    (names seen : List String) (m : String)
    → contains names m ≡ true
    → contains seen m ≡ false
    → suc (unseen names (seen ++ m ∷ [])) ≤ unseen names seen
unseen-fewer [] seen m h k = ground arith
unseen-fewer (n ∷ names) seen m h k = elim (Bool-cases (n == m)) [
  | inl q ↦ ground (
    arith,
    unseen-le names seen m,
    contains-append n seen (m ∷ []),
    ap (contains seen) ((eq_iff n m).0 q),
    (eq_iff m n).1 (sym ((eq_iff n m).0 q)),
  )
  | inr q ↦ ground (arith, unseen-fewer names seen m, contains-append n seen (m ∷ []), eq_iff m n)
]

module _ (s : Schema) (external : List String) where
  -- A name that a visit passes over.
  abbrev skips : String → List String → Bool
  skips n seen = contains seen n || is_boundary s external n

  abbrev next_seen : String → List String → List String
  next_seen n seen = if skips n seen then seen else seen ++ n ∷ []

  -- What one visit more adds, by whether it is passed over.
  pub visit_all-skip :
      (n : String) (ns seen : List String)
      → skips n seen ≡ true
      → visit_all s external (n ∷ ns) seen ≡ visit_all s external ns seen
  unfolding visit_all
  visit_all-skip n ns seen h =
      ap
        (λ b.
          let rest = visit_all s external ns (if b then seen else seen ++ n ∷ []) in
          if b then rest else (n ∷ rest.0, rest.1))
        h

  pub visit_all-take :
      (n : String) (ns seen : List String)
      → skips n seen ≡ false
      → visit_all s external (n ∷ ns) seen ≡ (
        n ∷ (visit_all s external ns (seen ++ n ∷ [])).0,
        (visit_all s external ns (seen ++ n ∷ [])).1,
      )
  unfolding visit_all
  visit_all-take n ns seen h =
      ap
        (λ b.
          let rest = visit_all s external ns (if b then seen else seen ++ n ∷ []) in
          if b then rest else (n ∷ rest.0, rest.1))
        h

  -- What a visit of names leaves.
  pub record Visited (names ns seen queue after : List String) : Type 0 where
    pub kept : (x : String) → contains after x ≡ (contains seen x || contains queue x)
    pub queued :
        (x : String)
        → contains queue x ≡ true
        → (contains ns x ≡ true) × (is_boundary s external x ≡ false)
    pub covered :
        (x : String) → contains ns x ≡ true → (is_boundary s external x || contains after x) ≡ true
    pub fewer : unseen names after + length queue ≤ unseen names seen

  pub visit_all-Visited :
      (names ns seen : List String)
      → All (λ n. contains names n ≡ true) ns
      → Visited names ns seen (visit_all s external ns seen).0 (visit_all s external ns seen).1
  unfolding visit_all
  visit_all-Visited names [] seen a = record {
    kept = λ x. ground arith;
    queued = λ x h. ground arith;
    covered = λ x h. ground arith;
    fewer = omega arith;
  }
  visit_all-Visited names (n ∷ ns) seen (h, a) = elim (Bool-cases (skips n seen)) [
    | inl q ↦
        subst (λ r. Visited names (n ∷ ns) seen r.0 r.1) (sym (visit_all-skip n ns seen q))
          (skipped n ns seen _ _ q (visit_all-Visited names ns seen a))
    | inr q ↦
        subst (λ r. Visited names (n ∷ ns) seen r.0 r.1) (sym (visit_all-take n ns seen q))
          (taken n ns seen _ _ h q (visit_all-Visited names ns (seen ++ n ∷ []) a))
  ]
    where
      skipped :
          (n : String) (ns seen queue after : List String)
          → skips n seen ≡ true
          → Visited names ns seen queue after
          → Visited names (n ∷ ns) seen queue after
      skipped n ns seen queue after q v = record {
        kept = v.kept;
        queued = λ x k. (ground (arith, (v.queued x k).0), (v.queued x k).1);
        covered = λ x k. elim (Bool-cases (n == x)) [
          | inl e ↦ ground (
            arith,
            v.kept x,
            ap (contains seen) ((eq_iff n x).0 e),
            ap (is_boundary s external) ((eq_iff n x).0 e),
          )
          | inr e ↦ v.covered x (ground (arith))
        ];
        fewer = v.fewer;
      }

      taken :
          (n : String) (ns seen queue after : List String)
          → contains names n ≡ true
          → skips n seen ≡ false
          → Visited names ns (seen ++ n ∷ []) queue after
          → Visited names (n ∷ ns) seen (n ∷ queue) after
      taken n ns seen queue after h q v = record {
        kept = λ x. ground (arith, v.kept x, contains-append x seen (n ∷ []));
        queued = λ x k. elim (Bool-cases (n == x)) [
          | inl e ↦
              (ground (arith, e), ground (arith, ap (is_boundary s external) ((eq_iff n x).0 e)))
          | inr e ↦
              (ground (arith, (v.queued x (ground (arith))).0), (v.queued x (ground (arith))).1)
        ];
        covered = λ x k. elim (Bool-cases (n == x)) [
          | inl e ↦ ground (arith, v.kept x, contains-append x seen (n ∷ []), e)
          | inr e ↦ v.covered x (ground (arith))
        ];
        fewer = omega (arith, v.fewer, unseen-fewer names seen n h (ground (arith)));
      }
