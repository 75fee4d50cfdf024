-- ===== src/Gate/Composed.antt =====
-- `andScopes` of packages/utilize/src/gate.ts: composing sources can only narrow.
use gqlize.Common.{
  String, map, false, Option, some, List, [], ◌∷◌, ◌++◌, Dict, lookup, ok, map_result, ◌≡◌, ◌≢◌,
  ◌⊎◌, inl, inr, ◌∙◌, refl, sym, ap, arith, Result-cases, Option-cases, Bool-cases,
}
use gqlize.Js.Value.{Value, bool, obj, to_items, to_fields, entries-to_fields}
use gqlize.Gate.Allow.{Predicate}
use gqlize.Gate.Resolve.{
  ResolvedScope, unscoped, denied, scoped, property, Gathered, gather, finish, nothing_gathered,
  add_forced, forced_entries, outcome, and_loop, and_scopes, given, combined_where, combined_set,
  combined_native,
}
use gqlize.Gate.Normal.{logical-name_of}
use gqlize.Gate.Where.{conj}
use gqlize.Gate.Gathered.{
  Gathers, done, skip, join, and_loop-cases, and_then-true, Gathers-rows, IsConsistent,
  Gathers-IsConsistent, narrowed, add_forced-keeps, add_forced-adds,
}
use gqlize.Valkey.Match.{Engine, Row, match_where, every_item}

-- Some answer forces the field `k` to `x`.
abbrev pub Forces : String → Value → List ResolvedScope → Type 0
Forces k x [] = ⊥
Forces k x (scoped e ∷ rs) = (lookup k (forced_entries e.set_part) ≡ some x) ⊎ Forces k x rs
Forces k x (unscoped ∷ rs) = Forces k x rs
Forces k x (denied ∷ rs) = Forces k x rs

module _ (k : String) (x : Value) where
  Gathers-keeps :
      {g g' : Gathered} {rs : List ResolvedScope}
      → Gathers g rs g'
      → lookup k g.forced ≡ some x
      → lookup k g'.forced ≡ some x
  Gathers-keeps done p = p
  Gathers-keeps (skip r) p = Gathers-keeps r p
  Gathers-keeps (join {g} s forced q r) p =
      Gathers-keeps r (add_forced-keeps g.forced (forced_entries s.set_part) forced k x q p)

  Gathers-Forces :
      {g g' : Gathered} {rs : List ResolvedScope}
      → Gathers g rs g'
      → Forces k x rs
      → lookup k g'.forced ≡ some x
  Gathers-Forces done p = elim p [ ]
  Gathers-Forces (skip r) p = Gathers-Forces r p
  Gathers-Forces (join {g} s forced q r) (inl p) =
      Gathers-keeps r (add_forced-adds g.forced (forced_entries s.set_part) forced k x q p)
  Gathers-Forces (join s forced q r) (inr p) = Gathers-Forces r p

-- No answer denies.
abbrev pub NoneDenies : List ResolvedScope → Type 0
NoneDenies [] = Unit
NoneDenies (denied ∷ rs) = ⊥
NoneDenies (unscoped ∷ rs) = NoneDenies rs
NoneDenies (scoped e ∷ rs) = NoneDenies rs

Gathers-NoneDenies : {g g' : Gathered} {rs : List ResolvedScope} → Gathers g rs g' → NoneDenies rs
Gathers-NoneDenies done = tt
Gathers-NoneDenies (skip r) = Gathers-NoneDenies r
Gathers-NoneDenies (join s forced q r) = Gathers-NoneDenies r

-- The two members of the combined scope, read back.
abbrev members : List Value → Dict Value → List Value → Value
members ws d ns = obj (to_fields (combined_where ws ++ (combined_set d ++ combined_native ns)))

where-members :
    (e : Engine) (row : Row) (ws : List Value) (d : Dict Value) (ns : List Value)
    → match_where e row (property (members ws d ns) "where") ≡ every_item e row (to_items ws)
unfolding match_where lookup
where-members e row [] [] [] = refl
where-members e row [] [] (n ∷ []) = refl
where-members e row [] [] (n ∷ n' ∷ ns) = refl
where-members e row [] (x ∷ d) [] = refl
where-members e row [] (x ∷ d) (n ∷ []) = refl
where-members e row [] (x ∷ d) (n ∷ n' ∷ ns) = refl
where-members e row (w ∷ []) d ns = sym (and_then-true _)
where-members e row (w ∷ w' ∷ ws) d ns = rw (logical-name_of conj) (and_then-true _)

set-members :
    (k : String) (ws : List Value) (d : Dict Value) (ns : List Value)
    → lookup k (forced_entries (property (members ws d ns) "set")) ≡ lookup k d
unfolding lookup
set-members k [] [] [] = refl
set-members k [] [] (n ∷ []) = refl
set-members k [] [] (n ∷ n' ∷ ns) = refl
set-members k [] (x ∷ d) ns = ap (lookup k) (entries-to_fields (x ∷ d))
set-members k (w ∷ []) [] [] = refl
set-members k (w ∷ []) [] (n ∷ []) = refl
set-members k (w ∷ []) [] (n ∷ n' ∷ ns) = refl
set-members k (w ∷ []) (x ∷ d) ns = ap (lookup k) (entries-to_fields (x ∷ d))
set-members k (w ∷ w' ∷ ws) [] [] = refl
set-members k (w ∷ w' ∷ ws) [] (n ∷ []) = refl
set-members k (w ∷ w' ∷ ws) [] (n ∷ n' ∷ ns) = refl
set-members k (w ∷ w' ∷ ws) (x ∷ d) ns = ap (lookup k) (entries-to_fields (x ∷ d))

finish-where :
    (e : Engine) (row : Row) (g : Gathered)
    → IsConsistent g
    → match_where e row (property (finish g) "where") ≡ every_item e row (to_items g.wheres)
unfolding match_where
finish-where e row g c = elim (Bool-cases g.opinionated) [
  | inl o ↦ rw o (where-members e row g.wheres g.forced g.natives)
  | inr o ↦ elim c [ inl o' ↦ ground arith | inr (ws, d) ↦ rw (o, ws) refl ]
]

finish-set :
    (k : String) (x : Value) (g : Gathered)
    → IsConsistent g
    → lookup k g.forced ≡ some x
    → lookup k (forced_entries (property (finish g) "set")) ≡ some x
finish-set k x g c p = elim (Bool-cases g.opinionated) [
  | inl o ↦ rw o (set-members k g.wheres g.forced g.natives ∙ p)
  | inr o ↦ elim c [
    | inl o' ↦ ground arith
    | inr (ws, d) ↦ absurd (unfold lookup in ground (arith, sym (ap (lookup k) d) ∙ p))
  ]
]

-- What `andScopes` composes, where it does not deny: every source was asked and none denied, a row
-- matches the composed filter exactly when it matches every source's, and every value that a source
-- forces is forced.
pub record Composes (args : List Value) (fs : List Predicate) (v : Value) : Type 0 where
  pub answers : List ResolvedScope
  pub asked : map_result (outcome args) fs ≡ ok answers
  pub allowed : NoneDenies answers
  pub rows :
      (e : Engine) (row : Row) → match_where e row (property v "where") ≡ narrowed e row answers
  pub forces :
      (k : String) (x : Value)
      → Forces k x answers
      → lookup k (forced_entries (property v "set")) ≡ some x

-- If composing sources does not throw and does not deny, every source was asked, none denied, the
-- composed filter is the conjunction of theirs and all their forced values are forced.
pub and_scopes-Composes :
    (sources : List (Option Predicate)) (args : List Value) (v : Value)
    → and_scopes sources args ≡ ok v
    → v ≢ bool false
    → Composes args (given sources) v
unfolding and_scopes
and_scopes-Composes sources args v h allowed =
    elim (and_loop-cases args nothing_gathered (given sources) v h) [
      | inl false_result ↦ absurd (allowed false_result)
      | inr c ↦
          let consistent = Gathers-IsConsistent c.gathers (inr (refl, refl)) in
          record {
            answers = c.answers;
            asked = c.read_all;
            allowed = Gathers-NoneDenies c.gathers;
            rows = λ e row.
                ap (λ r. match_where e row (property r "where")) c.result
                ∙ finish-where e row c.last consistent
                ∙ unfold match_where in Gathers-rows e row c.gathers;
            forces = λ k x p.
                ap (λ r. lookup k (forced_entries (property r "set"))) c.result
                ∙ finish-set k x c.last consistent (Gathers-Forces k x c.gathers p);
          }
    ]

-- A loop that did not throw had an answer from each source.
map_result-cons :
    (args : List Value) (f : Predicate) (fs : List Predicate) (rs : List ResolvedScope)
    → map_result (outcome args) (f ∷ fs) ≡ ok rs
    → (r : ResolvedScope) × (qs : List ResolvedScope) × (outcome args f ≡ ok r)
      × (map_result (outcome args) fs ≡ ok qs)
map_result-cons args f fs rs h = elim (Result-cases (outcome args f)) [
  | inl (r, p) ↦ elim (Result-cases (map_result (outcome args) fs)) [
    | inl (qs, q) ↦ (r, qs, p, q)
    | inr (x, q) ↦ absurd (ground arith)
  ]
  | inr (x, p) ↦ absurd (ground arith)
]

module _ (args : List Value) (f : Predicate) (after : List (Option Predicate))
    (denies : outcome args f ≡ ok denied) where
  abbrev rest_of : List Predicate → List Predicate
  rest_of fs = given (map some fs ++ some f ∷ after)

  and_loop-cons :
      (g : Gathered) (f' : Predicate) (fs : List Predicate) (r : ResolvedScope)
      → outcome args f' ≡ ok r
      → ((k : Gathered) → and_loop args k fs ≡ ok (bool false))
      → and_loop args g (f' ∷ fs) ≡ ok (bool false)
  unfolding and_loop
  and_loop-cons g f' fs unscoped p ih = rw (p, and_loop) (ih g)
  and_loop-cons g f' fs denied p ih = rw (p, and_loop) refl
  and_loop-cons g f' fs (scoped e) p ih =
      elim (Option-cases (add_forced g.forced (forced_entries e.set_part))) [
        | inl clash ↦ rw (p, clash, and_loop) refl
        | inr (forced, agree) ↦ rw (p, agree, and_loop) (ih (gather g e forced))
      ]

  and_loop-denies :
      (before : List Predicate) (rs : List ResolvedScope) (g : Gathered)
      → map_result (outcome args) before ≡ ok rs
      → and_loop args g (rest_of before) ≡ ok (bool false)
  unfolding and_loop
  and_loop-denies [] rs g h = rw (denies, and_loop) refl
  and_loop-denies (f' ∷ fs) rs g h =
      let (r, qs, p, q) = map_result-cons args f' fs rs h in
      and_loop-cons g f' (rest_of fs) r p (λ k. and_loop-denies fs qs k q)

-- A deny cannot be widened: once a source denies, and those before it did not throw, the composed
-- scope denies, whatever the sources after it say.
pub and_scopes-denies :
    (args : List Value) (before : List Predicate) (rs : List ResolvedScope) (f : Predicate)
    (after : List (Option Predicate))
    → map_result (outcome args) before ≡ ok rs
    → outcome args f ≡ ok denied
    → and_scopes (map some before ++ some f ∷ after) args ≡ ok (bool false)
unfolding and_scopes
and_scopes-denies args before rs f after h d =
    and_loop-denies args f after d before rs nothing_gathered h
