-- ===== src/Valkey/Added.antt =====
-- The proof about the query planner of packages/ormize-adapter-valkey/src/query.ts:
-- what each step of `resolveWhere` adds to the answer, against the in-memory matcher.
use mathlib.Core.Path.{ap₂}
use gqlize.Common.{
  ℕ, String, Bool, true, false, not, ◌&&◌, ◌||◌, Option, none, some, List, [], ◌∷◌, contains,
  if◌then◌else◌, ◌≡◌, refl, sym, ap, ◌∙◌, subst, arith,
}
use gqlize.Js.Value.{Value, Items, cons, Fields, end, field, truthy}
use gqlize.Gate.Where.{Logic, neg, logical}
use gqlize.Valkey.Match.{
  Engine, Row, match_where, match_fields, match_every, match_some, some_item, match_field, and_then,
  negate, no_list,
}
use gqlize.Valkey.Indexes.{Keys}
use gqlize.Valkey.Filters.{
  is_filter, is_filter_list, yes, match_key, match_clause, yes-and_then, yes-or_else,
  and_then-negate, match_where-Answered,
}
use gqlize.Valkey.Candidates.{is_distinct, unite-is_distinct, contains-unite, in_any, all_distinct}
use gqlize.Valkey.Plan.{
  Executor, SearchModel, ◌>>=◌, give, by_key, clause, Resolving, all_ids, narrow, unite, no_keys,
  no_clauses, not_indexed, branch_not_indexed,
}
use gqlize.Valkey.Planner.{is_searchable, branch_ids, finish, resolve_branches}
use gqlize.Valkey.Found.{IsIndexed}
use gqlize.Valkey.Searches.{Gives, bind-Gives, give-Gives, throw-Gives, if-Gives, no_clauses-Gives}
use gqlize.Valkey.Steps.{
  Agrees, Claim, Fits, Answers, IsDistinctSet, in_set, Fits-map, all_ids-Answers, narrow-Fits_exact,
  finish-Answers,
}
use gqlize.Valkey.Asked.{AskedCond, AskedList}

or_false : (b : Bool) → (b || false) ≡ b
or_false b = ground arith

pub and_true : (b : Bool) → b ≡ (b && true)
and_true b = ground arith

falsy_of : (v : Value) → not (truthy v) ≡ true → truthy v ≡ false
falsy_of v h = ground arith

pub no_keys-yes :
    (e : Engine) (row : Row) (fs : Fields) → no_keys fs ≡ true → yes (match_fields e row fs) ≡ true
unfolding match_where
no_keys-yes e row end h = refl
no_keys-yes e row (field k v fs) h = ground arith

no_list-yes : (v : Value) (b : Bool) → truthy v ≡ false → yes (no_list v b) ≡ b
no_list-yes v b h = ap (λ t. yes (if t then none else some b)) h

pub also :
    (f : Bool) (c m n : Option Bool) → c ≡ and_then m n → (f && yes c) ≡ ((f && yes m) && yes n)
also f c m n h = ground (arith, ap yes h, yes-and_then m n)

module _ {S : Type 0} (e : Engine) (x : Executor S) (ks : Keys) (sm : SearchModel) (now : ℕ)
    (row_at : String → Option Row) (Typed : String → Value → Type 0) (Holds : S → Type 0)
    (indexed : IsIndexed e x ks sm now row_at Typed Holds) where
  -- The answer of the matcher, as a claim about the rows; and that a step adds one to what is claimed.
  abbrev pub said : (Row → Option Bool) → Claim
  said m = λ id row. yes (m row)

  abbrev pub Adds : Claim → (Row → Option Bool) → Resolving → Type 0
  Adds f m n = Fits e row_at n (λ id row. f id row && yes (m row))

  -- Sets of ids for the branches of an `or`.
  abbrev pub Branches : (Row → Option Bool) → List (List String) → Type 0
  Branches m sets =
      (all_distinct sets ≡ true)
      × ((id : String) (row : Row) → row_at id ≡ some row → yes (m row) ≡ in_any id sets)

  abbrev pub OneBranch : Claim → List String → Type 0
  OneBranch f ids =
      (is_distinct ids ≡ true)
      × ((id : String) (row : Row) → row_at id ≡ some row → f id row ≡ contains ids id)

  pub finish-Gives :
      (r : Resolving) (f : Claim)
      → Fits e row_at r f
      → Gives Holds (λ w. Answers e row_at w f) (finish e x ks sm now r)
  unfolding finish
  finish-Gives r f fits =
      if-Gives Holds (λ w. Answers e row_at w f) r.had_indexable _ _
        (λ h. give-Gives Holds (λ w. Answers e row_at w f) _ (finish-Answers e row_at r f fits h))
        (λ h. throw-Gives Holds (λ w. Answers e row_at w f) not_indexed tt)

  pub branch_ids-Gives :
      (set : Option (List String)) (left : List Value) (f : Claim)
      → IsDistinctSet e row_at set
      → ((id : String) (row : Row)
          → row_at id ≡ some row
          → Agrees e row_at row left (in_set id set) (f id row))
      → Gives Holds (OneBranch f) (branch_ids e x ks sm now set left)
  branch_ids-Gives (some ids) [] f d a = give-Gives Holds (OneBranch f) ids (
    d,
    λ id row live. whole (a id row live).answer (a id row live).answers (a id row live).agrees,
  )
    where
      whole : {c l : Bool} (b : Bool) → some true ≡ some b → c ≡ (l && b) → c ≡ l
      whole true h k = k ∙ sym (and_true _)
      whole false h k = cc
  branch_ids-Gives (some ids) (c ∷ cs) f d a = throw-Gives Holds (OneBranch f) branch_not_indexed tt
  branch_ids-Gives none left f d a = throw-Gives Holds (OneBranch f) branch_not_indexed tt

  pub every_nothing :
      (v : Value) (r : Resolving) (f : Claim)
      → not (truthy v) ≡ true
      → ((row : Row) → match_every e row v ≡ no_list v true)
      → Fits e row_at r f
      → Gives Holds (Adds f (λ row. match_every e row v)) (no_clauses v r)
  every_nothing v r f h m fits =
      no_clauses-Gives Holds (Adds f (λ row. match_every e row v)) v r (falsy_of v h) (
        Fits-map e row_at r f (λ id row. f id row && yes (match_every e row v))
          (λ id row live.
            ap (λ o. f id row && yes o) (m row)
            ∙ ap (λ b. f id row && b) (no_list-yes v true (falsy_of v h))
            ∙ sym (and_true (f id row)))
          fits)

  pub some_nothing :
      (v : Value)
      → not (truthy v) ≡ true
      → ((row : Row) → match_some e row v ≡ no_list v false)
      → Gives Holds (Branches (λ row. match_some e row v)) (no_clauses v [])
  some_nothing v h m =
      no_clauses-Gives Holds (Branches (λ row. match_some e row v)) v [] (falsy_of v h)
        (refl, λ id row live. ap yes (m row) ∙ no_list-yes v false (falsy_of v h))

  -- The case of a key.
  pub key_said :
      (key : String) (v : Value) (l : Option Logic) (n : Resolving) (f : Claim)
      → logical key ≡ l
      → Adds f
          (λ row.
            by_key l
              (match_every e row v)
              (match_some e row v)
              (negate (match_where e row v))
              (some (match_field e row key v)))
          n
      → Adds f (λ row. match_key e row key v) n
  key_said key v l n f h fits =
      Fits-map e row_at n _ (λ id row. f id row && yes (match_key e row key v))
        (λ id row live.
          ap
            (λ o.
              f id row
              && yes (
                  by_key o (match_every e row v) (match_some e row v) (negate (match_where e row v))
                    (some (match_field e row key v))))
            h)
        fits

  pub negated :
      (key : String) (v : Value) (row : Row)
      → logical key ≡ some neg
      → is_filter v ≡ true
      → match_where e row (clause key v) ≡ some (yes (negate (match_where e row v)))
  negated key v row h k =
      match_clause e row key v
      ∙ ap
          (λ o.
            and_then
              (by_key o (match_every e row v) (match_some e row v) (negate (match_where e row v))
                (some (match_field e row key v)))
              (some true))
          h
      ∙ and_then-negate (match_where e row v) (match_where-Answered e row v k)

  pub filter_key :
      (key : String) (v : Value) (l : Option Logic)
      → logical key ≡ l
      → by_key (logical key) (is_filter_list v) (is_filter_list v) (is_filter v) true ≡ true
      → by_key l (is_filter_list v) (is_filter_list v) (is_filter v) true ≡ true
  filter_key key v l h p =
      sym (ap (λ o. by_key o (is_filter_list v) (is_filter_list v) (is_filter v) true) h) ∙ p

  abbrev AskedKey : String → Value → Option Logic → Type 0
  AskedKey key v l =
      by_key l (AskedList e x ks sm now row_at Typed Holds v)
        (AskedList e x ks sm now row_at Typed Holds v) Unit
        (is_searchable e x ks sm now key ≡ true → AskedCond e x ks sm now row_at Typed Holds key v)

  pub asked_key :
      (key : String) (v : Value) (l : Option Logic)
      → logical key ≡ l
      → AskedKey key v (logical key)
      → AskedKey key v l
  asked_key key v l h a = subst (AskedKey key v) h a

  pub united :
      (key : String) (v : Value) (sets : List (List String)) (r : Resolving) (f : Claim)
      → Fits e row_at r f
      → Branches (λ row. match_some e row v) sets
      → Adds f (λ row. match_some e row v) (narrow (unite sets []) false key v r)
  unfolding is_distinct
  united key v sets r f fits (d, b) =
      narrow-Fits_exact e row_at key v (unite sets []) r f (said (λ row. match_some e row v)) fits
        (unite-is_distinct sets [] refl)
        (λ id row live. b id row live ∙ sym (contains-unite sets [] id ∙ or_false _))

  -- One more branch.
  pub map-bound :
      (ids : List String) (v : Value) (vs : Items)
      → is_filter v ≡ true
      → OneBranch (said (λ row. match_where e row v)) ids
      → Gives Holds (Branches (λ row. some_item e row vs)) (resolve_branches e x ks sm now vs)
      → Gives Holds
          (Branches (λ row. some_item e row (cons v vs)))
          (resolve_branches e x ks sm now vs >>= λ more. give (ids ∷ more))
  unfolding match_where
  map-bound ids v vs h (d, one) g =
      bind-Gives Holds (Branches (λ row. some_item e row vs))
        (Branches (λ row. some_item e row (cons v vs))) (resolve_branches e x ks sm now vs) _ g
        (λ more b. give-Gives Holds (Branches (λ row. some_item e row (cons v vs))) (ids ∷ more) (
          ap₂ ◌&&◌ d b.0,
          λ id row live.
              yes-or_else (match_where e row v) (some_item e row vs)
                (match_where-Answered e row v h)
              ∙ ap₂ ◌||◌ (one id row live) (b.1 id row live),
        ))

  pub everything : Gives Holds (λ w. Answers e row_at w (λ id row. true)) (give all_ids)
  everything =
      give-Gives Holds (λ w. Answers e row_at w (λ id row. true)) all_ids
        (all_ids-Answers e row_at _ (λ id row. refl))
