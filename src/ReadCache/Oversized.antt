-- ===== src/ReadCache/Oversized.antt =====
-- The proof about `rememberOversized` of packages/ormize/src/read-cache/index.ts.
use gqlize.Common.{
  lookup-remove, lookup-put, Bool-cases, inl, inr, subst, sym, ◌∙◌, ◌+◌, ◌<◌, length, ℕ, suc, ◌≤◌,
  String, List, [], ◌∷◌, Dict, put, remove, lookup, none, some, ltb, if◌then◌else◌, ◌==◌, ◌≡◌, refl,
  arith, eq_iff, ap, true, false,
}
use gqlize.ReadCache.Cache.{remember_oversized, drop_first, oversized_memory}

length-remove : (k : String) (m : Dict ℕ) → length (remove k m) ≤ length m
unfolding remove
length-remove k [] = omega arith
length-remove k ((j, v) ∷ m) = ground (arith, length-remove k m)

length-put : (k : String) (v : ℕ) (m : Dict ℕ) → length (put k v m) ≤ suc (length m)
unfolding put
length-put k v [] = omega arith
length-put k v ((j, w) ∷ m) = ground (arith, length-put k v m)

length-drop_first :
    (j : String) (v : ℕ) (m : Dict ℕ) → suc (length (drop_first ((j, v) ∷ m))) ≤ length ((j, v) ∷ m)
unfolding remove
length-drop_first j v m = ground (arith, eq_iff j j, length-remove j m)

lookup_removed : (k : String) (m : Dict ℕ) → lookup k (remove k m) ≡ none
lookup_removed k m =
    lookup-remove k k m ∙ ap (λ b. if b then none else lookup k m) ((eq_iff k k).1 refl)

-- Where the memory is over its limit, the one that goes is not the one just remembered.
keeps_newest :
    (shape : String) (v : ℕ) (rest : Dict ℕ)
    → lookup shape rest ≡ none
    → oversized_memory < length (put shape v rest)
    → lookup shape (drop_first (put shape v rest)) ≡ some v
unfolding lookup put
keeps_newest shape v [] h l = ground arith
keeps_newest shape v ((j, w) ∷ rest) h l =
    let apart : (j == shape) ≡ false = key_apart j w rest h in
    ap (λ b. lookup shape (drop_first (if b then (j, v) ∷ rest else (j, w) ∷ put shape v rest)))
      apart
    ∙ lookup-remove j shape ((j, w) ∷ put shape v rest)
    ∙ ap (λ b. if b then none else lookup shape ((j, w) ∷ put shape v rest)) apart
    ∙ ap (λ b. if b then some w else lookup shape (put shape v rest)) apart
    ∙ lookup-put shape shape v rest
    ∙ ap (λ b. if b then some v else lookup shape rest) ((eq_iff shape shape).1 refl)
  where
    key_apart :
        (j : String) (w : ℕ) (rest : Dict ℕ)
        → lookup shape ((j, w) ∷ rest) ≡ none
        → (j == shape) ≡ false
    key_apart j w rest h = ground arith

drop_first-bound :
    (m : Dict ℕ) → length m ≤ suc oversized_memory → length (drop_first m) ≤ oversized_memory
drop_first-bound [] h = omega arith
drop_first-bound ((j, v) ∷ m) h = ground (arith, length-drop_first j v m)

remember_oversized-at_most :
    (shape : String) (ttl now : ℕ) (m : Dict ℕ)
    → length m ≤ 1000
    → (length (remember_oversized shape ttl now m) ≤ 1000)
      × (lookup shape (remember_oversized shape ttl now m) ≡ some (now + ttl))
unfolding remember_oversized
remember_oversized-at_most shape ttl now m h =
    let rest = remove shape m in
    let added = put shape (now + ttl) rest in
    let small : length added ≤ suc oversized_memory =
      omega (arith, length-put shape (now + ttl) rest, length-remove shape m) in
    let there : lookup shape added ≡ some (now + ttl) =
      lookup-put shape shape (now + ttl) rest
      ∙ ap (λ b. if b then some (now + ttl) else lookup shape rest) ((eq_iff shape shape).1 refl) in
    elim (Bool-cases (ltb oversized_memory (length added))) [
      | inl q ↦ (
        subst (λ b. length (if b then drop_first added else added) ≤ 1000) (sym q)
            (drop_first-bound added small),
        ap (λ b. lookup shape (if b then drop_first added else added)) q
            ∙ keeps_newest shape (now + ttl) rest (lookup_removed shape m) (ltb→lt _ _ q),
      )
      | inr q ↦ (
        subst (λ b. length (if b then drop_first added else added) ≤ 1000) (sym q) (ltb→ge _ _ q),
        ap (λ b. lookup shape (if b then drop_first added else added)) q ∙ there,
      )
    ]
  where
    ltb→lt : (a b : ℕ) → ltb a b ≡ true → a < b
    ltb→lt a b h = ground arith

    ltb→ge : (a b : ℕ) → ltb a b ≡ false → b ≤ a
    ltb→ge a b h = ground arith

-- What happens to the memory: a result was too big, or one of a shape fitted.
pub data Event : Type 0 where
  too_big : String → ℕ → ℕ → Event
  fitted : String → Event

abbrev pub remembered : List Event → Dict ℕ → Dict ℕ
remembered [] m = m
remembered (too_big shape ttl now ∷ events) m =
    remembered events (remember_oversized shape ttl now m)
remembered (fitted shape ∷ events) m = remembered events (remove shape m)

remembered-at_most :
    (events : List Event) (m : Dict ℕ) → length m ≤ 1000 → length (remembered events m) ≤ 1000
remembered-at_most [] m h = h
remembered-at_most (too_big shape ttl now ∷ events) m h =
    remembered-at_most events (remember_oversized shape ttl now m)
      (remember_oversized-at_most shape ttl now m h).0
remembered-at_most (fitted shape ∷ events) m h =
    remembered-at_most events (remove shape m) (omega (arith, h, length-remove shape m))

-- However many results were too big or fitted since the memory was empty, at most a thousand shapes are
-- remembered, and a shape whose result is then too big is remembered with the time to try it again.
pub remember_oversized-bounded :
    (events : List Event) (shape : String) (ttl now : ℕ)
    → (length (remembered events []) ≤ 1000)
      × (lookup shape (remember_oversized shape ttl now (remembered events [])) ≡ some (now + ttl))
remember_oversized-bounded events shape ttl now =
    let bound = remembered-at_most events [] (omega arith) in
    (bound, (remember_oversized-at_most shape ttl now (remembered events []) bound).1)
