-- ===== src/Wire/Longest.antt =====
-- packages/gqlize/src/codecs/id.ts: the longest prefix is found first.
use gqlize.Common.{
  ℕ, ◌≤◌, ◌<◌, true, false, ◌&&◌, some, [], ◌∷◌, if◌then◌else◌, ◌≡◌, refl, ap, sym, ◌∙◌, subst,
  arith, length, leb, ltb, In, ◌⊎◌, inl, inr, Bool-cases,
}
use gqlize.Wire.Text.{Text, starts_with}
use gqlize.Wire.Ids.{Prefixes, insert_longest, by_prefix, find_prefix}

-- Every prefix of a list is at most so long.
abbrev NoLonger : ℕ → Prefixes → Type 0
NoLonger n [] = Unit
NoLonger n ((t, p) ∷ d) = (length p ≤ n) × NoLonger n d

abbrev pub Longest : Prefixes → Type 0
Longest [] = Unit
Longest ((t, p) ∷ d) = NoLonger (length p) d × Longest d

NoLonger-trans : (m n : ℕ) (d : Prefixes) → m ≤ n → NoLonger m d → NoLonger n d
NoLonger-trans m n [] h k = tt
NoLonger-trans m n ((t, p) ∷ d) h (j, k) = (omega (arith, h, j), NoLonger-trans m n d h k)

insert_longest-NoLonger :
    (n : ℕ) (t p : Text) (d : Prefixes)
    → length p ≤ n
    → NoLonger n d
    → NoLonger n (insert_longest (t, p) d)
unfolding insert_longest
insert_longest-NoLonger n t p [] h k = (h, tt)
insert_longest-NoLonger n t p ((u, q) ∷ d) h (j, k) =
    ground (arith, insert_longest-NoLonger n t p d h k)

insert_longest-Longest : (t p : Text) (d : Prefixes) → Longest d → Longest (insert_longest (t, p) d)
unfolding insert_longest
insert_longest-Longest t p [] k = (tt, tt)
insert_longest-Longest t p ((u, q) ∷ d) (j, k) = elim (Bool-cases (leb (length q) (length p))) [
  | inl e ↦
      subst (λ b. Longest (if b then (t, p) ∷ (u, q) ∷ d else (u, q) ∷ insert_longest (t, p) d))
        (sym e)
        ((ground (arith, e), NoLonger-trans (length q) (length p) d (ground (arith, e)) j), (j, k))
  | inr e ↦
      subst (λ b. Longest (if b then (t, p) ∷ (u, q) ∷ d else (u, q) ∷ insert_longest (t, p) d))
        (sym e)
        (
          insert_longest-NoLonger (length q) t p d (ground (arith, e)) j,
          insert_longest-Longest t p d k,
        )
]

pub by_prefix-Longest : (d : Prefixes) → Longest (by_prefix d)
unfolding by_prefix
by_prefix-Longest [] = tt
by_prefix-Longest ((t, p) ∷ d) = insert_longest-Longest t p (by_prefix d) (by_prefix-Longest d)

In-insert_longest :
    (e f : Text × Text) (d : Prefixes) → (e ≡ f) ⊎ In f d → In f (insert_longest e d)
unfolding insert_longest
In-insert_longest e f [] i = i
In-insert_longest (t, p) f ((u, q) ∷ d) i = ground (arith, In-insert_longest (t, p) f d)

In-insert_longest_only :
    (e f : Text × Text) (d : Prefixes) → In f (insert_longest e d) → (e ≡ f) ⊎ In f d
unfolding insert_longest
In-insert_longest_only e f [] i = i
In-insert_longest_only (t, p) f ((u, q) ∷ d) i = ground (arith, In-insert_longest_only (t, p) f d)

pub In-by_prefix : (f : Text × Text) (d : Prefixes) → In f d → In f (by_prefix d)
unfolding by_prefix
In-by_prefix f [] i = i
In-by_prefix f (e ∷ d) (inl p) = In-insert_longest e f (by_prefix d) (inl p)
In-by_prefix f (e ∷ d) (inr i) = In-insert_longest e f (by_prefix d) (inr (In-by_prefix f d i))

pub In-by_prefix_only : (f : Text × Text) (d : Prefixes) → In f (by_prefix d) → In f d
unfolding by_prefix
In-by_prefix_only f [] i = i
In-by_prefix_only f (e ∷ d) i = elim (In-insert_longest_only e f (by_prefix d) i) [
  | inl p ↦ inl p
  | inr j ↦ inr (In-by_prefix_only f d j)
]

-- What a value was found to start with: as long as any other prefix that it starts with.
pub record Found (s : Text) (n : ℕ) (d : Prefixes) : Type 0 where
  pub name : Text
  pub prefix : Text
  pub found : find_prefix s d ≡ some (name, prefix)
  pub is_in : In (name, prefix) d
  pub suits : starts_with s prefix ≡ true
  pub long : n ≤ length prefix

found_later :
    (s t p : Text) (n : ℕ) (d : Prefixes)
    → (ltb 0 (length p) && starts_with s p) ≡ false
    → Found s n d
    → Found s n ((t, p) ∷ d)
unfolding find_prefix
found_later s t p n d e k = record {
  name = k.name;
  prefix = k.prefix;
  found = ap (λ b. if b then some (t, p) else find_prefix s d) e ∙ k.found;
  is_in = inr k.is_in;
  suits = k.suits;
  long = k.long;
}

found_here :
    (s t p : Text) (n : ℕ) (d : Prefixes)
    → (ltb 0 (length p) && starts_with s p) ≡ true
    → n ≤ length p
    → Found s n ((t, p) ∷ d)
unfolding find_prefix
found_here s t p n d e h = record {
  name = t;
  prefix = p;
  found = ap (λ b. if b then some (t, p) else find_prefix s d) e;
  is_in = inl refl;
  suits = ground (arith, e);
  long = h;
}

NoLonger-In : (n : ℕ) (t p : Text) (d : Prefixes) → NoLonger n d → In (t, p) d → length p ≤ n
NoLonger-In n t p [] k i = elim i [ ]
NoLonger-In n t p ((u, q) ∷ d) (j, k) (inl e) = subst (λ (f : Text × Text). length f.1 ≤ n) e j
NoLonger-In n t p ((u, q) ∷ d) (j, k) (inr i) = NoLonger-In n t p d k i

-- In a list with the longest first, the first prefix that suits is as long as any that does.
pub find_prefix-Found :
    (s t p : Text) (d : Prefixes)
    → Longest d
    → In (t, p) d
    → 0 < length p
    → starts_with s p ≡ true
    → Found s (length p) d
find_prefix-Found s t p [] l i h k = elim i [ ]
find_prefix-Found s t p ((u, q) ∷ d) (j, l) i h k =
    elim (Bool-cases (ltb 0 (length q) && starts_with s q)) [
      | inl e ↦ found_here s u q (length p) d e (elim i [
        | inl r ↦ ground (arith, ap (λ (f : Text × Text). length f.1) r)
        | inr x ↦ NoLonger-In (length q) t p d j x
      ])
      | inr e ↦ elim i [
        | inl r ↦
            ground (arith, ap (λ (f : Text × Text). ltb 0 (length f.1) && starts_with s f.1) r)
        | inr x ↦ found_later s u q (length p) d e (find_prefix-Found s t p d l x h k)
      ]
    ]
