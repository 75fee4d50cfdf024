-- ===== src/Cross/Linking.antt =====
-- packages/ormize/src/cross-adapter.ts: what making links does to the join model.
use gqlize.Common.{
  ℕ, String, Bool, true, false, All, ◌&&◌, ◌||◌, Option, none, some, List, [], ◌∷◌, ◌++◌, any, map,
  Dict, lookup, ok, ◌≡◌, refl, ap, ◌∙◌, sym, subst, fun_ext, arith, ◌==◌, Bool-cases, inl, inr,
}
use gqlize.Js.Value.{Value, undefined, strict_eq, strict_eq_sound}
use gqlize.Gate.Resolve.{create}
use gqlize.Cross.Host.{Association, one, Options, Act, pure, after, ◌>>>◌, for_each, Host}
use gqlize.Cross.Keys.{request_from, plain_query}
use gqlize.Cross.Accessors.{listed}
use gqlize.Cross.Edges.{
  spread, for_through, transaction_only, settle_edge, link_one, link_allowed, link,
}
use gqlize.Cross.Store.{Rows, put_rows, Leads, Store, IsStore, selects}
use gqlize.Cross.Links.{
  is_edge, is_linked, Grows, pair, IsNew, is_edge-new, of_both, edge_where-Leads, selects-of_both,
  put_rows-same,
}

any-append :
    {A : Type 0} (p : A → Bool) (xs ys : List A) → any p (xs ++ ys) ≡ (any p xs || any p ys)
any-append p [] ys = refl
any-append p (x ∷ xs) ys = ground (arith, any-append p xs ys)

any-map :
    {A : Type 0} (p : A → Bool) (f : A → A) (xs : List A)
    → ((x : A) → p (f x) ≡ p x)
    → any p (map f xs) ≡ any p xs
any-map p f [] h = refl
any-map p f (x ∷ xs) h = ground (arith, h x, any-map p f xs h)

module _ {Request Row Where World Fault : Type 0} (h : Host Request Row Where World Fault)
    (a : Association) where
  module _ (s : Store h) (laws : IsStore h s)
      (distinct : (a.foreign_key == a.other_key) ≡ false) where
    -- The join model stores the two keys as they are given, and the attributes name neither.
    pub record IsKept (attributes : Dict Value) : Type 0 where
      pub stores_foreign : s.stores a.through a.foreign_key ≡ true
      pub stores_other : s.stores a.through a.other_key ≡ true
      pub foreign_unnamed : lookup a.foreign_key attributes ≡ none
      pub other_unnamed : lookup a.other_key attributes ≡ none

    -- The join model takes a row for two values with attributes, and the attributes alone.
    abbrev pub Takes : Value → Dict Value → Value → Type 0
    Takes u attributes v =
        (s.accepts a.through (spread ((a.foreign_key, u) ∷ (a.other_key, v) ∷ []) attributes)
          ≡ true)
        × (s.accepts a.through attributes ≡ true)

    created-Grows :
        (u v : Value) (attributes : Dict Value) (new : Row) (made : List Row) (all : Rows Row)
        → IsKept attributes
        → IsNew h a s laws distinct new (spread (pair h a s laws distinct u v) attributes)
        → ((p : Row → Bool) → any p made ≡ (any p (all a.through) || p new))
        → Grows h a all (put_rows a.through made all) u (v ∷ [])
    created-Grows u v attributes new made all k n m x y =
        ap (any (is_edge h a x y)) (put_rows-same a.through made all)
        ∙ ground (
          arith,
          m (is_edge h a x y),
          is_edge-new h a s laws distinct new u v x y attributes k.stores_foreign k.stores_other
              k.foreign_unnamed k.other_unnamed n,
        )

    changed-linked :
        (x y : Value) (attributes : Dict Value) (change : Row → Row) (all : Rows Row)
        → IsKept attributes
        → ((f : String) (r : Row)
            → s.stores a.through f ≡ true
            → lookup f attributes ≡ none
            → h.value_of a.through (change r) f ≡ h.value_of a.through r f)
        → is_linked h a (put_rows a.through (map change (all a.through)) all) x y
          ≡ is_linked h a all x y
    changed-linked x y attributes change all k n =
        ap (any (is_edge h a x y)) (put_rows-same a.through _ all)
        ∙ any-map (is_edge h a x y) change (all a.through) (λ e. ground (
          arith,
          n a.foreign_key e k.stores_foreign k.foreign_unnamed,
          n a.other_key e k.stores_other k.other_unnamed,
        ))

    -- A link that is there already adds nothing by being made.
    linked_there :
        (u v x y : Value) (all : Rows Row)
        → is_linked h a all u v ≡ true
        → is_linked h a all x y
          ≡ (is_linked h a all x y || (strict_eq x u && (strict_eq y v || false)))
    linked_there u v x y all k = elim (Bool-cases (strict_eq x u && strict_eq y v)) [
      | inr e ↦ ground (arith, e)
      | inl e ↦
          let there : is_linked h a all x y ≡ true =
            ap (λ z. is_linked h a all z y) (strict_eq_sound x u (ground (arith, e)))
            ∙ ap (is_linked h a all u) (strict_eq_sound y v (ground (arith, e)))
            ∙ k in
          ground (arith, there)
    ]

    settle_edge-Grows :
        (u v : Value) (attributes : Dict Value) (tx : Option ℕ) (found : List Row) (w : World)
        → IsKept attributes
        → Takes u attributes v
        → is_linked h a (s.rows w) u v ≡ any (λ r. true) found
        → (all : Rows Row) × (Leads s.rows (settle_edge h a u v attributes tx found) w tt all
            × Grows h a (s.rows w) all u (v ∷ []))
    unfolding pair
    settle_edge-Grows u v attributes tx [] w k t e =
        let (new, (made, (ran, (m, n)))) =
          laws.creates a.through (spread (pair h a s laws distinct u v) attributes) tx w t.0 in
        (_, (ran, created-Grows u v attributes new made (s.rows w) k n m))
    settle_edge-Grows u v [] tx (r ∷ rs) w k t e =
        (s.rows w, ((w, (refl, refl)), λ x y. linked_there u v x y (s.rows w) e))
    settle_edge-Grows u v (z ∷ zs) tx (r ∷ rs) w k t e =
        let (change, (ran, n)) =
          laws.updates a.through r (z ∷ zs) (transaction_only h a tx) w t.1 in
        (
          _,
          (
            ran,
            λ x y.
                changed-linked x y (z ∷ zs) change (s.rows w) k n
                ∙ linked_there u v x y (s.rows w) e,
          ),
        )

    link_one-Grows :
        (u : Value) (attributes : Dict Value) (tx : Option ℕ) (target : Row) (w : World)
        → IsKept attributes
        → Takes u attributes (h.value_of a.target target a.target_key)
        → (all : Rows Row) × (Leads s.rows (link_one h a u attributes tx target) w tt all
            × Grows h a (s.rows w) all u (h.value_of a.target target a.target_key ∷ []))
    unfolding link_one
    link_one-Grows u attributes tx target w k t =
        let (x, (merged, e)) = edge_where-Leads h a s laws distinct u (one v) w in
        let (found, ((y, (ran, f)), picks)) =
          laws.reads.finds a.through (some (of_both h a s laws distinct u (one v))) tx x in
        let (all, ((z, (settled, g)), grows)) =
          settle_edge-Grows u v attributes tx found y k t (there x y found f picks) in
        (
          all,
          (
            (
              z,
              (
                ap (λ r. after r look) merged
                    ∙ ap (λ r. after r (settle_edge h a u v attributes tx)) ran
                    ∙ settled,
                g,
              ),
            ),
            subst (λ before. Grows h a before all u (v ∷ [])) (f ∙ e) grows,
          ),
        )
      where
        v : Value
        v = h.value_of a.target target a.target_key

        look : Where → Act World Fault Unit
        look q =
            h.find_all a.through (plain_query h (some q) tx undefined)
            >>> settle_edge h a u v attributes tx

        there :
            (x y : World) (found : List Row)
            → s.rows y ≡ s.rows x
            → ((p : Row → Bool)
                → any p found
                  ≡ any
                      (λ r. selects h s (some (of_both h a s laws distinct u (one v))) r && p r)
                      (s.rows x a.through))
            → is_linked h a (s.rows y) u v ≡ any (λ r. true) found
        there x y found f picks =
            ap (λ (all : Rows Row). is_linked h a all u v) f
            ∙ ap (λ pick. any pick (s.rows x a.through))
                (fun_ext (λ r. ground (arith, selects-of_both h a s laws distinct u (one v) r)))
            ∙ sym (picks (λ r. true))

    Grows-trans :
        (u v : Value) (vs : List Value) (all more most : Rows Row)
        → Grows h a all more u (v ∷ [])
        → Grows h a more most u vs
        → Grows h a all most u (v ∷ vs)
    Grows-trans u v vs all more most j k x y = ground (arith, j x y, k x y)

    for_each-Grows :
        (u : Value) (attributes : Dict Value) (tx : Option ℕ) (targets : List Row) (w : World)
        → IsKept attributes
        → All (λ t. Takes u attributes (h.value_of a.target t a.target_key)) targets
        → (all : Rows Row) × (Leads s.rows
              (for_each (link_one h a u attributes tx) targets)
              w
              tt
              all
            × Grows h a (s.rows w) all u (map (λ t. h.value_of a.target t a.target_key) targets))
    unfolding for_each
    for_each-Grows u attributes tx [] w k takes =
        (s.rows w, ((w, (refl, refl)), λ x y. ground arith))
    for_each-Grows u attributes tx (t ∷ targets) w k takes =
        let (more, ((z, (ran, e)), j)) = link_one-Grows u attributes tx t w k takes.0 in
        let (most, ((y, (then_ran, f)), i)) = for_each-Grows u attributes tx targets z k takes.1 in
        let v : Value = h.value_of a.target t a.target_key in
        let vs : List Value = map (λ x. h.value_of a.target x a.target_key) targets in
        (
          most,
          (
            (
              y,
              (
                ap (λ x. after x (λ _. for_each (link_one h a u attributes tx) targets)) ran
                    ∙ then_ran,
                f,
              ),
            ),
            Grows-trans u v vs (s.rows w) (s.rows z) most
                (subst (λ all. Grows h a (s.rows w) all u (v ∷ [])) (sym e) j) i,
          ),
        )

    -- Where no call fails and the host keeps its promises, the two keys of the join model are different
    -- fields that it stores as given, creating a join row is not denied, the attributes name neither key
    -- and the join model takes them and the rows to be made, linking targets to a row succeeds, and then
    -- two values are linked exactly when they were before, or are those of the row and of one of the
    -- targets.
    pub link-Grows :
        (row : Row) (targets : List (Option Row)) (o : Options Request Where) (w : World)
        → s.denies a.through create (request_from h o) ≡ false
        → IsKept o.through_values
        → All
            (λ t.
              Takes
                (h.value_of a.source row a.source_key)
                o.through_values
                (h.value_of a.target t a.target_key))
            (listed targets)
        → (all : Rows Row) × (Leads s.rows (link h a row targets o) w tt all
            × Grows h a
                (s.rows w)
                all
                (h.value_of a.source row a.source_key)
                (map (λ t. h.value_of a.target t a.target_key) (listed targets)))
    unfolding link for_through
    link-Grows row targets o w d p q =
        let (v, (allowed, e)) = laws.reads.scopes.denial a.through create (request_from h o) w in
        let (opts, ((z, (adapted, f)), same)) = laws.reads.scopes.adapts a.source a.through o v in
        let (all, ((y, (ran, g)), grows)) =
          for_each-Grows u o.through_values opts.transaction (listed targets) z p q in
        (
          all,
          (
            (
              y,
              (
                ap (λ x. after x (link_allowed h a row targets o)) (allowed ∙ ap (λ b. (v, ok b)) d)
                    ∙ ap
                        (λ x.
                          after (after x (λ (opts : Options Request Where). pure opts.transaction))
                            make)
                        adapted
                    ∙ ran,
                g,
              ),
            ),
            subst (λ before. Grows h a before all u vs) (f ∙ e) grows,
          ),
        )
      where
        u : Value
        u = h.value_of a.source row a.source_key

        vs : List Value
        vs = map (λ t. h.value_of a.target t a.target_key) (listed targets)

        make : Option ℕ → Act World Fault Unit
        make tx = for_each (link_one h a u o.through_values tx) (listed targets)
