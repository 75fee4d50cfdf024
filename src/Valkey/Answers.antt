-- ===== src/Valkey/Answers.antt =====
-- The proof about the query planner of packages/ormize-adapter-valkey/src/query.ts:
-- `resolveWhere` against the in-memory matcher, by induction on the filter.
use gqlize.Common.{
  ℕ, String, true, false, ◌&&◌, Option, none, some, [], ◌==◌, ◌≡◌, refl, sym, arith,
  and-eq-true_iff,
}
use gqlize.Js.Value.{
  Value, undefined, null, bool, num, str, func, arr, obj, Items, nil, cons, Fields, end, field,
}
use gqlize.Gate.Where.{conj, disj, neg, logical}
use gqlize.Valkey.Match.{
  Engine, Row, match_where, match_fields, match_every, match_some, every_item, some_item,
  match_field, negate,
}
use gqlize.Valkey.Indexes.{Keys}
use gqlize.Valkey.Filters.{
  is_filter, is_filter_list, are_filters, is_filter_fields, yes, match_key, match_fields-step,
}
use gqlize.Valkey.Plan.{
  Executor, SearchModel, by_key, Resolving, start, all_ids, leave, narrow, add_clause, unite,
  no_keys, not_indexed,
}
use gqlize.Valkey.Planner.{
  branch, resolve_where, resolve_fields, resolve_every, resolve_clauses, resolve_some,
  resolve_branches,
}
use gqlize.Valkey.Found.{IsIndexed}
use gqlize.Valkey.Searches.{
  Gives, bind-Gives, map-Gives, give-Gives, throw-Gives, if-Gives, by_key-Gives,
}
use gqlize.Valkey.Steps.{
  Claim, Fits, Answers, Fits-map, start-Fits, all_ids-Answers, leave-Fits, add_clause-Fits,
}
use gqlize.Valkey.Asked.{AskedWhere, AskedFields, AskedList, AskedItems, field_step-Gives}
use gqlize.Valkey.Added.{
  and_true, no_keys-yes, also, Adds, Branches, OneBranch, finish-Gives, branch_ids-Gives,
  every_nothing, some_nothing, key_said, negated, filter_key, asked_key, united, map-bound,
  everything, said,
}

module _ {S : Type 0} (e : Engine) (x : Executor S) (ks : Keys) (sm : SearchModel) (now : ℕ)
    (row_at : String → Option Row) (Typed : String → Value → Type 0) (Holds : S → Type 0)
    (indexed : IsIndexed e x ks sm now row_at Typed Holds) where
  mutual
    unfolding resolve_where match_where is_filter AskedWhere

    pub resolve_where-Gives :
        (v : Value)
        → is_filter v ≡ true
        → AskedWhere e x ks sm now row_at Typed Holds v
        → Gives Holds
            (λ w.
              Answers e row_at w
                (said e x ks sm now row_at Typed Holds indexed (λ row. match_where e row v)))
            (resolve_where e x ks sm now v)
    resolve_where-Gives (obj fs) h a =
        if-Gives Holds
          (λ w.
            Answers e row_at w
              (said e x ks sm now row_at Typed Holds indexed (λ row. match_fields e row fs)))
          (no_keys fs) _ _
          (λ k.
            give-Gives Holds
              (λ w.
                Answers e row_at w
                  (said e x ks sm now row_at Typed Holds indexed (λ row. match_fields e row fs)))
              all_ids (all_ids-Answers e row_at _ (λ id row. no_keys-yes e row fs k)))
          (λ k.
            bind-Gives Holds
              (Adds e x ks sm now row_at Typed Holds indexed (λ id row. true)
                (λ row. match_fields e row fs))
              (λ w.
                Answers e row_at w
                  (said e x ks sm now row_at Typed Holds indexed (λ row. match_fields e row fs)))
              (resolve_fields e x ks sm now fs start) _
              (resolve_fields-Gives fs start (λ id row. true) h a (start-Fits e row_at))
              (λ r fits. finish-Gives e x ks sm now row_at Typed Holds indexed r _ fits))
    resolve_where-Gives (arr vs) h a = ground arith
    resolve_where-Gives (str s) h a =
        if-Gives Holds (λ w. Answers e row_at w (λ id row. true)) (s == "") _ _
          (λ k. everything e x ks sm now row_at Typed Holds indexed)
          (λ k. throw-Gives Holds (λ w. Answers e row_at w (λ id row. true)) not_indexed tt)
    resolve_where-Gives undefined h a = everything e x ks sm now row_at Typed Holds indexed
    resolve_where-Gives null h a = everything e x ks sm now row_at Typed Holds indexed
    resolve_where-Gives (bool b) h a = everything e x ks sm now row_at Typed Holds indexed
    resolve_where-Gives (num n) h a = everything e x ks sm now row_at Typed Holds indexed
    resolve_where-Gives (func g) h a = everything e x ks sm now row_at Typed Holds indexed

    resolve_fields-Gives :
        (fs : Fields) (r : Resolving) (f : Claim)
        → is_filter_fields fs ≡ true
        → AskedFields e x ks sm now row_at Typed Holds fs
        → Fits e row_at r f
        → Gives Holds
            (Adds e x ks sm now row_at Typed Holds indexed f (λ row. match_fields e row fs))
            (resolve_fields e x ks sm now fs r)
    resolve_fields-Gives end r f h a fits =
        give-Gives Holds (Adds e x ks sm now row_at Typed Holds indexed f (λ row. some true)) r
          (Fits-map e row_at r f _ (λ id row live. sym (and_true (f id row))) fits)
    resolve_fields-Gives (field key v fs) r f h (a, as') fits =
        let p =
          (and-eq-true_iff
              (by_key (logical key) (is_filter_list v) (is_filter_list v) (is_filter v) true)
              (is_filter_fields fs)).0
            h in
        bind-Gives Holds
          (Adds e x ks sm now row_at Typed Holds indexed f (λ row. match_key e row key v))
          (Adds e x ks sm now row_at Typed Holds indexed f
            (λ row. match_fields e row (field key v fs)))
          _ _
          (by_key-Gives Holds
            (Adds e x ks sm now row_at Typed Holds indexed f (λ row. match_key e row key v))
            (logical key) _ _ _ _
            (λ l.
              map-Gives Holds
                (Adds e x ks sm now row_at Typed Holds indexed f (λ row. match_every e row v))
                (Adds e x ks sm now row_at Typed Holds indexed f (λ row. match_key e row key v)) _
                (λ n. key_said e x ks sm now row_at Typed Holds indexed key v (some conj) n f l)
                (resolve_every-Gives v r f
                  (filter_key e x ks sm now row_at Typed Holds indexed key v (some conj) l p.0)
                  (asked_key e x ks sm now row_at Typed Holds indexed key v (some conj) l a) fits))
            (λ l.
              bind-Gives Holds
                (Branches e x ks sm now row_at Typed Holds indexed (λ row. match_some e row v))
                (Adds e x ks sm now row_at Typed Holds indexed f (λ row. match_key e row key v))
                (resolve_some e x ks sm now v) _
                (resolve_some-Gives v
                  (filter_key e x ks sm now row_at Typed Holds indexed key v (some disj) l p.0)
                  (asked_key e x ks sm now row_at Typed Holds indexed key v (some disj) l a))
                (λ sets b.
                  give-Gives Holds
                    (Adds e x ks sm now row_at Typed Holds indexed f (λ row. match_key e row key v))
                    (narrow (unite sets []) false key v r)
                    (key_said e x ks sm now row_at Typed Holds indexed key v (some disj) _ f l
                      (united e x ks sm now row_at Typed Holds indexed key v sets r f fits b))))
            (λ l.
              give-Gives Holds
                (Adds e x ks sm now row_at Typed Holds indexed f (λ row. match_key e row key v))
                (leave key v r)
                (key_said e x ks sm now row_at Typed Holds indexed key v (some neg) _ f l (
                  leave-Fits e row_at key v r f
                    (said e x ks sm now row_at Typed Holds indexed
                      (λ row. negate (match_where e row v)))
                    fits
                    (λ id row live. negated e x ks sm now row_at Typed Holds indexed key v row l (
                      filter_key e x ks sm now row_at Typed Holds indexed key v (some neg) l
                        p.0)))))
            (λ l.
              map-Gives Holds
                (Adds e x ks sm now row_at Typed Holds indexed f
                  (λ row. some (match_field e row key v)))
                (Adds e x ks sm now row_at Typed Holds indexed f (λ row. match_key e row key v)) _
                (λ n. key_said e x ks sm now row_at Typed Holds indexed key v none n f l)
                (field_step-Gives e x ks sm now row_at Typed Holds indexed key v r f l
                  (asked_key e x ks sm now row_at Typed Holds indexed key v none l a) fits)))
          (λ n fits'.
            map-Gives Holds
              (Adds e x ks sm now row_at Typed Holds indexed
                (λ id row. f id row && yes (match_key e row key v)) (λ row. match_fields e row fs))
              (Adds e x ks sm now row_at Typed Holds indexed f
                (λ row. match_fields e row (field key v fs)))
              (resolve_fields e x ks sm now fs n)
              (λ m. Fits-map e row_at m _ _ (λ id row live.
                also (f id row) (match_fields e row (field key v fs)) (match_key e row key v)
                  (match_fields e row fs) (match_fields-step e row key v fs)))
              (resolve_fields-Gives fs n (λ id row. f id row && yes (match_key e row key v)) p.1 as'
                fits'))

    resolve_every-Gives :
        (v : Value) (r : Resolving) (f : Claim)
        → is_filter_list v ≡ true
        → AskedList e x ks sm now row_at Typed Holds v
        → Fits e row_at r f
        → Gives Holds
            (Adds e x ks sm now row_at Typed Holds indexed f (λ row. match_every e row v))
            (resolve_every e x ks sm now v r)
    resolve_every-Gives (arr vs) r f h a fits = resolve_clauses-Gives vs r f h a fits
    resolve_every-Gives undefined r f h a fits =
        every_nothing e x ks sm now row_at Typed Holds indexed undefined r f h (λ row. refl) fits
    resolve_every-Gives null r f h a fits =
        every_nothing e x ks sm now row_at Typed Holds indexed null r f h (λ row. refl) fits
    resolve_every-Gives (bool b) r f h a fits =
        every_nothing e x ks sm now row_at Typed Holds indexed (bool b) r f h (λ row. refl) fits
    resolve_every-Gives (num n) r f h a fits =
        every_nothing e x ks sm now row_at Typed Holds indexed (num n) r f h (λ row. refl) fits
    resolve_every-Gives (str s) r f h a fits =
        every_nothing e x ks sm now row_at Typed Holds indexed (str s) r f h (λ row. refl) fits
    resolve_every-Gives (func g) r f h a fits =
        every_nothing e x ks sm now row_at Typed Holds indexed (func g) r f h (λ row. refl) fits
    resolve_every-Gives (obj fs) r f h a fits =
        every_nothing e x ks sm now row_at Typed Holds indexed (obj fs) r f h (λ row. refl) fits

    resolve_clauses-Gives :
        (vs : Items) (r : Resolving) (f : Claim)
        → are_filters vs ≡ true
        → AskedItems e x ks sm now row_at Typed Holds vs
        → Fits e row_at r f
        → Gives Holds
            (Adds e x ks sm now row_at Typed Holds indexed f (λ row. every_item e row vs))
            (resolve_clauses e x ks sm now vs r)
    resolve_clauses-Gives nil r f h a fits =
        give-Gives Holds (Adds e x ks sm now row_at Typed Holds indexed f (λ row. some true)) r
          (Fits-map e row_at r f _ (λ id row live. sym (and_true (f id row))) fits)
    resolve_clauses-Gives (cons v vs) r f h (a, as') fits =
        let p = (and-eq-true_iff (is_filter v) (are_filters vs)).0 h in
        bind-Gives Holds
          (λ w.
            Answers e row_at w
              (said e x ks sm now row_at Typed Holds indexed (λ row. match_where e row v)))
          (Adds e x ks sm now row_at Typed Holds indexed f (λ row. every_item e row (cons v vs)))
          (resolve_where e x ks sm now v) _ (resolve_where-Gives v p.0 a)
          (λ w answers.
            map-Gives Holds
              (Adds e x ks sm now row_at Typed Holds indexed
                (λ id row. f id row && yes (match_where e row v)) (λ row. every_item e row vs))
              (Adds e x ks sm now row_at Typed Holds indexed f
                (λ row. every_item e row (cons v vs)))
              (resolve_clauses e x ks sm now vs (add_clause w r))
              (λ m. Fits-map e row_at m _ _ (λ id row live.
                also (f id row) (every_item e row (cons v vs)) (match_where e row v)
                  (every_item e row vs) refl))
              (resolve_clauses-Gives vs (add_clause w r)
                (λ id row. f id row && yes (match_where e row v)) p.1 as'
                (add_clause-Fits e row_at w r f
                  (said e x ks sm now row_at Typed Holds indexed (λ row. match_where e row v)) fits
                  answers)))

    resolve_some-Gives :
        (v : Value)
        → is_filter_list v ≡ true
        → AskedList e x ks sm now row_at Typed Holds v
        → Gives Holds
            (Branches e x ks sm now row_at Typed Holds indexed (λ row. match_some e row v))
            (resolve_some e x ks sm now v)
    resolve_some-Gives (arr vs) h a = resolve_branches-Gives vs h a
    resolve_some-Gives undefined h a =
        some_nothing e x ks sm now row_at Typed Holds indexed undefined h (λ row. refl)
    resolve_some-Gives null h a =
        some_nothing e x ks sm now row_at Typed Holds indexed null h (λ row. refl)
    resolve_some-Gives (bool b) h a =
        some_nothing e x ks sm now row_at Typed Holds indexed (bool b) h (λ row. refl)
    resolve_some-Gives (num n) h a =
        some_nothing e x ks sm now row_at Typed Holds indexed (num n) h (λ row. refl)
    resolve_some-Gives (str s) h a =
        some_nothing e x ks sm now row_at Typed Holds indexed (str s) h (λ row. refl)
    resolve_some-Gives (func g) h a =
        some_nothing e x ks sm now row_at Typed Holds indexed (func g) h (λ row. refl)
    resolve_some-Gives (obj fs) h a =
        some_nothing e x ks sm now row_at Typed Holds indexed (obj fs) h (λ row. refl)

    resolve_branches-Gives :
        (vs : Items)
        → are_filters vs ≡ true
        → AskedItems e x ks sm now row_at Typed Holds vs
        → Gives Holds
            (Branches e x ks sm now row_at Typed Holds indexed (λ row. some_item e row vs))
            (resolve_branches e x ks sm now vs)
    resolve_branches-Gives nil h a =
        give-Gives Holds (Branches e x ks sm now row_at Typed Holds indexed (λ row. some false)) []
          (refl, λ id row live. refl)
    resolve_branches-Gives (cons v vs) h (a, as') =
        let p = (and-eq-true_iff (is_filter v) (are_filters vs)).0 h in
        bind-Gives Holds
          (λ w.
            Answers e row_at w
              (said e x ks sm now row_at Typed Holds indexed (λ row. match_where e row v)))
          (Branches e x ks sm now row_at Typed Holds indexed (λ row. some_item e row (cons v vs)))
          (resolve_where e x ks sm now v) _ (resolve_where-Gives v p.0 a)
          (λ w answers.
            bind-Gives Holds
              (OneBranch e x ks sm now row_at Typed Holds indexed
                (said e x ks sm now row_at Typed Holds indexed (λ row. match_where e row v)))
              (Branches e x ks sm now row_at Typed Holds indexed
                (λ row. some_item e row (cons v vs)))
              (branch e x ks sm now w) _
              (branch_ids-Gives e x ks sm now row_at Typed Holds indexed w.set w.residual _
                answers.distinct answers.agreed)
              (λ ids one.
                map-bound e x ks sm now row_at Typed Holds indexed ids v vs p.0 one
                  (resolve_branches-Gives vs p.1 as')))
