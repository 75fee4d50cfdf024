-- ===== src/Valkey/Asked.antt =====
-- The conditions on fields in packages/ormize-adapter-valkey/src/query.ts: what a filter must ask of the
-- indexes, and the step of the plan for one condition.
use gqlize.Common.{
  ℕ, String, Bool, true, false, ◌&&◌, ◌||◌, Option, none, some, List, [], All, ◌≡◌, refl, sym, ap,
  ◌∙◌,
}
use gqlize.Js.Value.{Value, arr, obj, Items, nil, cons, Fields, end, field, strict_eq}
use gqlize.Gate.Where.{logical}
use gqlize.Valkey.Match.{
  Engine, Row, row_get, includes, match_where, match_every, match_some, match_field, and_then,
  negate,
}
use gqlize.Valkey.Indexes.{Keys}
use gqlize.Valkey.Filters.{match_clause}
use gqlize.Valkey.Candidates.{is_distinct}
use gqlize.Valkey.Conditions.{
  has_one_test, scalar-eq_exact, scalar-eq_implied, scalar-in_exact, scalar-in_implied,
}
use gqlize.Valkey.Plan.{
  Executor, SearchModel, by_key, is_undefined, scalar_of, clause, Resolving, leave, narrow,
}
use gqlize.Valkey.Planner.{is_searchable, equality_set, union_set, among_step, field_step}
use gqlize.Valkey.Found.{IsIndexed, Finds, equality_set-Gives, union_set-Gives}
use gqlize.Valkey.Searches.{Gives, bind-Gives, give-Gives, if-Gives}
use gqlize.Valkey.Steps.{Claim, Fits, leave-Fits, narrow-Fits}

module _ {S : Type 0} (e : Engine) (x : Executor S) (ks : Keys) (sm : SearchModel) (now : ℕ)
    (row_at : String → Option Row) (Typed : String → Value → Type 0) (Holds : S → Type 0) where
  abbrev pub AskedAmong : String → Option (List Value) → Type 0
  AskedAmong name none = Unit
  AskedAmong name (some vs) = All (Typed name) vs

  -- The values that the indexes are asked for have the field's type, and `eq` and `in` stand in no
  -- condition together, nor twice.
  abbrev pub AskedCond : String → Value → Type 0
  AskedCond name cond =
      (is_undefined (scalar_of cond).eq ≡ false → Typed name (scalar_of cond).eq)
      × (AskedAmong name (scalar_of cond).among × (has_one_test cond ≡ true))

  unfoldable mutual
    -- What a filter asks of searchable fields outside `not` is asked so.
    pub AskedWhere : Value → Type 0
    AskedWhere (obj fs) = AskedFields fs
    AskedWhere v = Unit

    pub AskedFields : Fields → Type 0
    AskedFields end = Unit
    AskedFields (field key v fs) =
        by_key (logical key) (AskedList v) (AskedList v) Unit
          (is_searchable e x ks sm now key ≡ true → AskedCond key v)
        × AskedFields fs

    pub AskedList : Value → Type 0
    AskedList (arr vs) = AskedItems vs
    AskedList v = Unit

    pub AskedItems : Items → Type 0
    AskedItems nil = Unit
    AskedItems (cons v vs) = AskedWhere v × AskedItems vs

  module _ (indexed : IsIndexed e x ks sm now row_at Typed Holds) where
    clause_field :
        (row : Row) (key : String) (v : Value)
        → logical key ≡ none
        → match_where e row (clause key v) ≡ some (match_field e row key v)
    clause_field row key v h =
        match_clause e row key v
        ∙ ap
            (λ o.
              and_then
                (by_key o (match_every e row v) (match_some e row v) (negate (match_where e row v))
                  (some (match_field e row key v)))
                (some true))
            h
        ∙ alone (match_field e row key v)
      where
        alone : (b : Bool) → and_then (some b) (some true) ≡ some b
        alone true = refl
        alone false = refl

    -- A condition in a list of values, through the indexes.
    among-Gives :
        (key : String) (cond : Value) (o : Option (List Value)) (r : Resolving) (f : Claim)
        → logical key ≡ none
        → is_searchable e x ks sm now key ≡ true
        → (scalar_of cond).among ≡ o
        → AskedAmong key o
        → has_one_test cond ≡ true
        → Fits e row_at r f
        → Gives Holds
            (λ n. Fits e row_at n (λ id row. f id row && match_field e row key cond))
            (among_step e x ks sm now key cond o (scalar_of cond).has_other r)
    unfolding is_distinct
    among-Gives key cond none r f l s q a t fits =
        give-Gives Holds (λ n. Fits e row_at n (λ id row. f id row && match_field e row key cond))
          (leave key cond r)
          (leave-Fits e row_at key cond r f (λ id row. match_field e row key cond) fits
            (λ id row live. clause_field row key cond l))
    among-Gives key cond (some vs) r f l s q a t fits =
        bind-Gives Holds
          (Finds e x ks sm now row_at Typed Holds indexed
            (λ row. false || includes (row_get row key) vs))
          _ (union_set e x ks sm now key vs []) _
          (union_set-Gives e x ks sm now row_at Typed Holds indexed key vs [] (λ row. false) s a
            (refl, λ id row live. refl))
          (λ ids d.
            give-Gives Holds
              (λ n. Fits e row_at n (λ id row. f id row && match_field e row key cond))
              (narrow ids (scalar_of cond).has_other key cond r)
              (narrow-Fits e row_at (scalar_of cond).has_other key cond ids r f
                (λ id row. match_field e row key cond) fits d.0
                (λ id row live. clause_field row key cond l)
                (λ id row live m. d.1 id row live ∙ scalar-in_implied e row key cond vs q m)
                (λ o id row live. scalar-in_exact e row key cond vs q o t ∙ sym (d.1 id row live))))

    pub field_step-Gives :
        (key : String) (cond : Value) (r : Resolving) (f : Claim)
        → logical key ≡ none
        → (is_searchable e x ks sm now key ≡ true → AskedCond key cond)
        → Fits e row_at r f
        → Gives Holds
            (λ n. Fits e row_at n (λ id row. f id row && match_field e row key cond))
            (field_step e x ks sm now key cond r)
    unfolding field_step
    field_step-Gives key cond r f l asked fits =
        if-Gives Holds Next (is_searchable e x ks sm now key) _ _
          (λ s.
            if-Gives Holds Next (is_undefined (scalar_of cond).eq) _ _
              (λ u.
                among-Gives key cond (scalar_of cond).among r f l s refl (asked s).1.0 (asked s).1.1
                  fits)
              (λ u.
                bind-Gives Holds
                  (Finds e x ks sm now row_at Typed Holds indexed
                    (λ row. strict_eq (row_get row key) (scalar_of cond).eq))
                  Next (equality_set e x ks sm now key (scalar_of cond).eq) _
                  (equality_set-Gives e x ks sm now row_at Typed Holds indexed key
                    (scalar_of cond).eq s ((asked s).0 u))
                  (λ ids d.
                    give-Gives Holds Next (narrow ids (scalar_of cond).has_other key cond r) (
                      narrow-Fits e row_at (scalar_of cond).has_other key cond ids r f
                        (λ id row. match_field e row key cond) fits d.0
                        (λ id row live. clause_field row key cond l)
                        (λ id row live m. d.1 id row live ∙ scalar-eq_implied e row key cond u m)
                        (λ o id row live.
                          scalar-eq_exact e row key cond u o (asked s).1.1
                          ∙ sym (d.1 id row live))))))
          (λ s. give-Gives Holds Next (leave key cond r) (
            leave-Fits e row_at key cond r f (λ id row. match_field e row key cond) fits
              (λ id row live. clause_field row key cond l)))
      where
        Next : Resolving → Type 0
        Next n = Fits e row_at n (λ id row. f id row && match_field e row key cond)
