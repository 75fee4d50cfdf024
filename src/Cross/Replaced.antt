-- ===== src/Cross/Replaced.antt =====
-- packages/ormize/src/cross-adapter.ts: links removed and replaced, as far as the scopes reach.
use gqlize.Common.{
  ℕ, Bool, false, not, ◌&&◌, Option, some, List, [], ◌∷◌, any, keep, map, ◌≡◌, refl, ap, ◌∙◌, subst,
  fun_ext, arith, ◌==◌,
}
use gqlize.Js.Value.{Value, strict_eq}
use gqlize.Gate.Resolve.{read, delete}
use gqlize.Cross.Host.{
  Association, any_of, Scoped, denied, filter, Options, Act, pure, after, ◌>>>◌, Host,
}
use gqlize.Cross.Keys.{request_from}
use gqlize.Cross.Accessors.{listed}
use gqlize.Cross.Edges.{
  edge_where, for_through, transaction_only, delete_in, unlink_where, unlink_values, unlink,
}
use gqlize.Cross.Store.{Rows, put_rows, Leads, Leads-bind, Store, IsStore, selects, wants}
use gqlize.Cross.Linked.{any-keep}
use gqlize.Cross.Links.{
  is_edge, is_linked, of_both, selects-of_both, edge_where-Leads, put_rows-same,
}

module _ {Request Row Where World Fault : Type 0} (h : Host Request Row Where World Fault)
    (a : Association) (s : Store h) (laws : IsStore h s)
    (distinct : (a.foreign_key == a.other_key) ≡ false) where
  -- The join rows that a request may see and may delete.
  abbrev pub reaches : Options Request Where → Row → Bool
  reaches o r =
      s.in_scope a.through read (request_from h o) r
      && s.in_scope a.through delete (request_from h o) r

  -- The rows that are left when those of a filter are removed as far as they can be reached.
  abbrev pub left : (Row → Bool) → Options Request Where → Rows Row → Rows Row
  left picks o all =
      put_rows a.through (keep (λ r. not (picks r && reaches o r)) (all a.through)) all

  unlink_where-Leads :
      (q : Where) (o : Options Request Where) (w : World)
      → s.denies a.through read (request_from h o) ≡ false
      → s.denies a.through delete (request_from h o) ≡ false
      → Leads s.rows (unlink_where h a q o) w tt (left (s.matches q) o (s.rows w))
  unfolding unlink_where for_through
  unlink_where-Leads q o w d k =
      let (opts, ((v, (adapted, e)), same)) = laws.reads.scopes.adapts a.source a.through o w in
      let tx : Option ℕ = opts.transaction in
      let (p, ((x, (seen, f)), picks)) =
        laws.reads.scopes.scoped a.through read (request_from h o) (some q)
          (transaction_only h a tx) v d in
      let (r, ((y, (deletable, g)), fits)) =
        laws.reads.scopes.scoped a.through delete (request_from h o) p (transaction_only h a tx) x
          k in
      let (z, (gone, l)) = laws.deletes a.through r tx y in
      (
        z,
        (
          ap (λ t. after (after t (λ (opts : Options Request Where). pure opts.transaction)) rest)
                adapted
              ∙ ap (λ t. after (after t (narrow tx)) (delete_in h a tx)) seen
              ∙ ap (λ t. after t (delete_in h a tx)) deletable
              ∙ gone,
          l
              ∙ ap (λ pick. put_rows a.through (keep pick (s.rows y a.through)) (s.rows y))
                  (fun_ext (λ row. picked r p row (fits row) (picks row)))
              ∙ ap (left (s.matches q) o) (g ∙ f ∙ e),
        ),
      )
    where
      narrow : Option ℕ → Scoped Where → Act World Fault (Scoped Where)
      narrow tx scope = elim scope [
        | denied ↦ pure denied
        | filter v ↦ h.scoped_where a.through delete (request_from h o) v (transaction_only h a tx)
      ]

      rest : Option ℕ → Act World Fault Unit
      rest tx =
          h.scoped_where a.through read (request_from h o) (some q) (transaction_only h a tx)
          >>> narrow tx
          >>> delete_in h a tx

      picked :
          (r p : Option Where) (row : Row)
          → selects h s r row
            ≡ (selects h s p row && s.in_scope a.through delete (request_from h o) row)
          → selects h s p row
            ≡ (s.matches q row && s.in_scope a.through read (request_from h o) row)
          → not (selects h s r row) ≡ not (s.matches q row && reaches o row)
      picked r p row i j = ground (arith, i, j)

  -- What is linked by the rows that are left.
  abbrev pub Remains : Rows Row → Rows Row → (Row → Bool) → Options Request Where → Type 0
  Remains before remaining picks o =
      (x y : Value)
      → is_linked h a remaining x y
        ≡ any (λ e. not (picks e && reaches o e) && is_edge h a x y e) (before a.through)

  left-Remains :
      (picks : Row → Bool) (o : Options Request Where) (all : Rows Row)
      → Remains all (left picks o all) picks o
  left-Remains picks o all x y =
      ap (any (is_edge h a x y)) (put_rows-same a.through _ all)
      ∙ any-keep (λ r. not (picks r && reaches o r)) (is_edge h a x y) (all a.through)

  -- The join rows of a value, and those of it to some of others.
  abbrev pub of_value : Value → Row → Bool
  of_value u e = strict_eq u (h.value_of a.through e a.foreign_key)

  abbrev pub of_values : Value → List Value → Row → Bool
  of_values u vs e = of_value u e && wants (any_of vs) (h.value_of a.through e a.other_key)

  unlink_values-Remains :
      (u : Value) (vs : List Value) (o : Options Request Where) (w : World)
      → s.denies a.through read (request_from h o) ≡ false
      → s.denies a.through delete (request_from h o) ≡ false
      → (all : Rows Row) × (Leads s.rows (unlink_values h a u vs o) w tt all
          × Remains (s.rows w) all (of_values u vs) o)
  unlink_values-Remains u [] o w d k = (
    s.rows w,
    (
      (w, (refl, refl)),
      λ x y. ap (λ pick. any pick (s.rows w a.through)) (fun_ext (λ e. ground arith)),
    ),
  )
  unlink_values-Remains u (v ∷ vs) o w d k = (
    left (of_values u (v ∷ vs)) o (s.rows w),
    (
      Leads-bind s.rows (edge_where h a u (some (any_of (v ∷ vs)))) (λ q. unlink_where h a q o)
          (edge_where-Leads h a s laws distinct u (any_of (v ∷ vs)) w)
          (λ z e.
            subst
              (λ all.
                Leads s.rows (unlink_where h a (of_both h a s laws distinct u (any_of (v ∷ vs))) o)
                  z tt all)
              (ap (λ pick. left pick o (s.rows z))
                  (fun_ext (selects-of_both h a s laws distinct u (any_of (v ∷ vs))))
                ∙ ap (left (of_values u (v ∷ vs)) o) e)
              (unlink_where-Leads (of_both h a s laws distinct u (any_of (v ∷ vs))) o z d k)),
      left-Remains (of_values u (v ∷ vs)) o (s.rows w),
    ),
  )

  -- Where no call fails and the host keeps its promises, the two keys of the join model are different
  -- fields, and neither reading nor deleting join rows is denied, unlinking targets from a row succeeds,
  -- and the links that are left are those of the join rows that are not of the row and one of the
  -- targets, or that the scopes keep out of reach.
  pub unlink-Remains :
      (row : Row) (targets : List (Option Row)) (o : Options Request Where) (w : World)
      → s.denies a.through read (request_from h o) ≡ false
      → s.denies a.through delete (request_from h o) ≡ false
      → (all : Rows Row) × (Leads s.rows (unlink h a row targets o) w tt all
          × Remains
              (s.rows w)
              all
              (of_values
                (h.value_of a.source row a.source_key)
                (map (λ t. h.value_of a.target t a.target_key) (listed targets)))
              o)
  unfolding unlink
  unlink-Remains row targets o w d k = unlink_values-Remains _ _ o w d k
