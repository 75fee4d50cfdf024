-- ===== src/Valkey/Filters.antt =====
-- Filters that packages/ormize-adapter-valkey/src/query.ts matches without an error, and what it
-- answers on them.
use gqlize.Common.{
  String, Bool, true, false, not, ◌&&◌, ◌||◌, Option, none, some, List, [], ◌∷◌, ◌++◌, ◌≡◌, refl,
  ap, sym, ◌∙◌, subst, if◌then◌else◌, arith, Option-cases, inl, inr, and-eq-true_iff,
}
use gqlize.Js.Value.{
  Value, undefined, null, bool, num, str, func, arr, obj, Items, nil, cons, Fields, end, field,
  truthy,
}
use gqlize.Gate.Where.{Logic, conj, disj, neg, logical}
use gqlize.Valkey.Match.{
  Engine, Row, match_where, match_fields, match_every, match_some, every_item, some_item,
  match_field, and_then, or_else, negate,
}
use gqlize.Valkey.Plan.{by_key, clauses_hold, clause}

-- Every `and` and `or` holds a list of filters, or nothing; an array is no filter.
unfoldable mutual
  pub is_filter : Value → Bool
  is_filter (obj fs) = is_filter_fields fs
  is_filter (arr vs) = false
  is_filter v = true

  pub is_filter_list : Value → Bool
  is_filter_list (arr vs) = are_filters vs
  is_filter_list v = not (truthy v)

  pub are_filters : Items → Bool
  are_filters nil = true
  are_filters (cons v vs) = is_filter v && are_filters vs

  pub is_filter_fields : Fields → Bool
  is_filter_fields end = true
  is_filter_fields (field key v fs) =
      by_key (logical key) (is_filter_list v) (is_filter_list v) (is_filter v) true
      && is_filter_fields fs

-- The answer of a match, false where it throws.
abbrev pub yes : Option Bool → Bool
yes none = false
yes (some b) = b

-- A match that answers.
abbrev pub Answered : Option Bool → Type 0
Answered none = ⊥
Answered (some b) = Unit

pub answered : (o : Option Bool) → Answered o → o ≡ some (yes o)
answered none h = elim h [ ]
answered (some b) h = refl

and_then-Answered : (m n : Option Bool) → Answered m → Answered n → Answered (and_then m n)
and_then-Answered none n h k = elim h [ ]
and_then-Answered (some true) n h k = k
and_then-Answered (some false) n h k = tt

or_else-Answered : (m n : Option Bool) → Answered m → Answered n → Answered (or_else m n)
or_else-Answered none n h k = elim h [ ]
or_else-Answered (some true) n h k = tt
or_else-Answered (some false) n h k = k

negate-Answered : (m : Option Bool) → Answered m → Answered (negate m)
negate-Answered none h = elim h [ ]
negate-Answered (some b) h = tt

pub yes-and_then : (m n : Option Bool) → yes (and_then m n) ≡ (yes m && yes n)
yes-and_then none n = refl
yes-and_then (some true) n = refl
yes-and_then (some false) n = refl

pub yes-or_else : (m n : Option Bool) → Answered m → yes (or_else m n) ≡ (yes m || yes n)
yes-or_else none n h = elim h [ ]
yes-or_else (some true) n h = refl
yes-or_else (some false) n h = refl

pub and_then-negate :
    (m : Option Bool) → Answered m → and_then (negate m) (some true) ≡ some (yes (negate m))
and_then-negate none h = elim h [ ]
and_then-negate (some true) h = refl
and_then-negate (some false) h = refl

and_then_assoc : (l m n : Option Bool) → and_then (and_then l m) n ≡ and_then l (and_then m n)
and_then_assoc none m n = refl
and_then_assoc (some true) m n = refl
and_then_assoc (some false) m n = refl

no_path : {A : Type 0} → false ≡ true → A
no_path h = ground arith

if-Answered : (t b : Bool) → not t ≡ true → Answered (if t then none else some b)
if-Answered true b h = no_path h
if-Answered false b h = tt

by_key-Answered :
    (a o n : Option Bool) (l : Option Logic) (v : Value) (b : Bool)
    → (is_filter_list v ≡ true → Answered a)
    → (is_filter_list v ≡ true → Answered o)
    → (is_filter v ≡ true → Answered n)
    → by_key l (is_filter_list v) (is_filter_list v) (is_filter v) true ≡ true
    → Answered (by_key l a o (negate n) (some b))
by_key-Answered a o n (some conj) v b f g k h = f h
by_key-Answered a o n (some disj) v b f g k h = g h
by_key-Answered a o n (some neg) v b f g k h = negate-Answered n (k h)
by_key-Answered a o n none v b f g k h = tt

module _ (e : Engine) (row : Row) where
  -- What one key of a filter asks of the row.
  abbrev pub match_key : String → Value → Option Bool
  match_key key v =
      by_key (logical key) (match_every e row v) (match_some e row v) (negate (match_where e row v))
        (some (match_field e row key v))

  pub match_fields-step :
      (key : String) (v : Value) (fs : Fields)
      → match_fields e row (field key v fs) ≡ and_then (match_key key v) (match_fields e row fs)
  unfolding match_where
  match_fields-step key v fs = elim (Option-cases (logical key)) [
    | inl h ↦ rw (h)
    | inr (conj, h) ↦ rw (h)
    | inr (disj, h) ↦ rw (h)
    | inr (neg, h) ↦ rw (h)
  ]

  pub match_clause :
      (key : String) (v : Value)
      → match_where e row (clause key v) ≡ and_then (match_key key v) (some true)
  unfolding match_where
  match_clause key v = match_fields-step key v end

  pub clauses_hold-append :
      (cs ds : List Value)
      → clauses_hold e row (cs ++ ds) ≡ and_then (clauses_hold e row cs) (clauses_hold e row ds)
  clauses_hold-append [] ds = refl
  clauses_hold-append (c ∷ cs) ds =
      ap (and_then (match_where e row c)) (clauses_hold-append cs ds)
      ∙ sym (and_then_assoc (match_where e row c) (clauses_hold e row cs) (clauses_hold e row ds))

  mutual
    unfolding match_where is_filter

    pub match_where-Answered : (v : Value) → is_filter v ≡ true → Answered (match_where e row v)
    match_where-Answered (obj fs) h = match_fields-Answered fs h
    match_where-Answered (arr vs) h = no_path h
    match_where-Answered undefined h = tt
    match_where-Answered null h = tt
    match_where-Answered (bool b) h = tt
    match_where-Answered (num n) h = tt
    match_where-Answered (str s) h = tt
    match_where-Answered (func f) h = tt

    pub match_every-Answered :
        (v : Value) → is_filter_list v ≡ true → Answered (match_every e row v)
    match_every-Answered (arr vs) h = every_item-Answered vs h
    match_every-Answered (obj fs) h = no_path h
    match_every-Answered (func f) h = no_path h
    match_every-Answered undefined h = tt
    match_every-Answered null h = tt
    match_every-Answered (bool b) h = if-Answered (truthy (bool b)) true h
    match_every-Answered (num n) h = if-Answered (truthy (num n)) true h
    match_every-Answered (str s) h = if-Answered (truthy (str s)) true h

    pub match_some-Answered : (v : Value) → is_filter_list v ≡ true → Answered (match_some e row v)
    match_some-Answered (arr vs) h = some_item-Answered vs h
    match_some-Answered (obj fs) h = no_path h
    match_some-Answered (func f) h = no_path h
    match_some-Answered undefined h = tt
    match_some-Answered null h = tt
    match_some-Answered (bool b) h = if-Answered (truthy (bool b)) false h
    match_some-Answered (num n) h = if-Answered (truthy (num n)) false h
    match_some-Answered (str s) h = if-Answered (truthy (str s)) false h

    pub every_item-Answered : (vs : Items) → are_filters vs ≡ true → Answered (every_item e row vs)
    every_item-Answered nil h = tt
    every_item-Answered (cons v vs) h =
        let p = (and-eq-true_iff (is_filter v) (are_filters vs)).0 h in
        and_then-Answered (match_where e row v) (every_item e row vs) (match_where-Answered v p.0)
          (every_item-Answered vs p.1)

    pub some_item-Answered : (vs : Items) → are_filters vs ≡ true → Answered (some_item e row vs)
    some_item-Answered nil h = tt
    some_item-Answered (cons v vs) h =
        let p = (and-eq-true_iff (is_filter v) (are_filters vs)).0 h in
        or_else-Answered (match_where e row v) (some_item e row vs) (match_where-Answered v p.0)
          (some_item-Answered vs p.1)

    pub match_fields-Answered :
        (fs : Fields) → is_filter_fields fs ≡ true → Answered (match_fields e row fs)
    match_fields-Answered end h = tt
    match_fields-Answered (field key v fs) h =
        let p =
          (and-eq-true_iff
              (by_key (logical key) (is_filter_list v) (is_filter_list v) (is_filter v) true)
              (is_filter_fields fs)).0
            h in
        subst Answered (sym (match_fields-step key v fs)) (
          and_then-Answered (match_key key v) (match_fields e row fs)
            (by_key-Answered (match_every e row v) (match_some e row v) (match_where e row v)
              (logical key) v (match_field e row key v) (match_every-Answered v)
              (match_some-Answered v) (match_where-Answered v) p.0)
            (match_fields-Answered fs p.1))
