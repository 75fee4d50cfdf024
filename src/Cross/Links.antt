-- ===== src/Cross/Links.antt =====
-- packages/ormize/src/cross-adapter.ts: the rows of a join model, and the filters that pick them.
use gqlize.Common.{
  String, Bool, true, false, ◌&&◌, ◌||◌, Option, none, some, List, [], ◌∷◌, any, Dict, lookup,
  lookup-put, put, ok, err, ◌≡◌, refl, ap, ◌∙◌, subst, arith, if◌then◌else◌, ◌==◌, eq_iff, eq_refl,
}
use gqlize.Js.Value.{Value, strict_eq}
use gqlize.Cross.Host.{Association, Wanted, one, Host}
use gqlize.Cross.Keys.{merge_filter}
use gqlize.Cross.Edges.{spread, edge_where}
use gqlize.Cross.Store.{Rows, put_rows, Leads, Leads-bind, Store, IsStore, wants}

lookup-spread :
    (k : String) (d more : Dict Value)
    → lookup k more ≡ none
    → lookup k (spread d more) ≡ lookup k d
unfolding spread lookup
lookup-spread k d [] h = refl
lookup-spread k d ((j, v) ∷ more) h =
    ground (arith, eq_iff j k, lookup-spread k (put j v d) more, lookup-put j k v d)

pub put_rows-same :
    {Row : Type 0} (m : String) (rs : List Row) (all : Rows Row) → put_rows m rs all m ≡ rs
put_rows-same m rs all = ap (λ b. if b then rs else all m) (eq_refl m)

module _ {Request Row Where World Fault : Type 0} (h : Host Request Row Where World Fault)
    (a : Association) where
  -- A row of the join model that links two values, and whether there is one.
  abbrev pub is_edge : Value → Value → Row → Bool
  is_edge u v e =
      strict_eq u (h.value_of a.through e a.foreign_key)
      && strict_eq v (h.value_of a.through e a.other_key)

  abbrev pub is_linked : Rows Row → Value → Value → Bool
  is_linked all u v = any (is_edge u v) (all a.through)

  -- The links are those there were, and those of a value to some others.
  abbrev pub Grows : Rows Row → Rows Row → Value → List Value → Type 0
  Grows before grown u vs =
      (x y : Value)
      → is_linked grown x y ≡ (is_linked before x y || (strict_eq x u && any (strict_eq y) vs))

  module _ (s : Store h) (laws : IsStore h s)
      (distinct : (a.foreign_key == a.other_key) ≡ false) where
    unfoldable pub pair : Value → Value → Dict Value
    pair u v = (a.foreign_key, u) ∷ (a.other_key, v) ∷ []

    lookup-pair :
        (u v : Value)
        → (lookup a.foreign_key (pair u v) ≡ some u) × (lookup a.other_key (pair u v) ≡ some v)
    unfolding lookup pair
    lookup-pair u v = ground (arith, distinct, eq_refl a.foreign_key, eq_refl a.other_key)

    -- A row that has the values that a join model stores as they were given.
    abbrev pub IsNew : Row → Dict Value → Type 0
    IsNew new d =
        (f : String) (v : Value)
        → s.stores a.through f ≡ true
        → lookup f d ≡ some v
        → h.value_of a.through new f ≡ v

    -- A join row made for two values links them and no others.
    pub is_edge-new :
        (new : Row) (u v x y : Value) (attributes : Dict Value)
        → s.stores a.through a.foreign_key ≡ true
        → s.stores a.through a.other_key ≡ true
        → lookup a.foreign_key attributes ≡ none
        → lookup a.other_key attributes ≡ none
        → IsNew new (spread (pair u v) attributes)
        → is_edge x y new ≡ (strict_eq x u && strict_eq y v)
    is_edge-new new u v x y attributes j k p q n =
        ap (λ z. strict_eq x z && strict_eq y (h.value_of a.through new a.other_key))
          (n a.foreign_key u j
            (lookup-spread a.foreign_key (pair u v) attributes p ∙ (lookup-pair u v).0))
        ∙ ap (λ z. strict_eq x u && strict_eq y z)
            (n a.other_key v k
              (lookup-spread a.other_key (pair u v) attributes q ∙ (lookup-pair u v).1))

    pub merge_filter-Leads :
        (f : String) (v : Wanted) (q : Option Where) (w : World)
        → Leads s.rows
            (merge_filter h a.through f v q)
            w
            (h.merge_filter_statement a.through f v q)
            (s.rows w)
    unfolding merge_filter
    merge_filter-Leads f v q w = (
      w,
      (
        ap
            (λ b.
              if b
              then (w, ok (h.merge_filter_statement a.through f v q))
              else (w, err (h.cannot_merge a.through)))
            (laws.reads.filters.merges a.through),
        refl,
      ),
    )

    unfoldable pub of_source : Value → Where
    of_source u = h.merge_filter_statement a.through a.foreign_key (one u) none

    unfoldable pub of_both : Value → Wanted → Where
    of_both u v = h.merge_filter_statement a.through a.other_key v (some (of_source u))

    pub edge_where-Leads :
        (u : Value) (v : Wanted) (w : World)
        → Leads s.rows (edge_where h a u (some v)) w (of_both u v) (s.rows w)
    unfolding edge_where of_both of_source
    edge_where-Leads u v w =
        Leads-bind s.rows (merge_filter h a.through a.foreign_key (one u) none)
          (λ q. merge_filter h a.through a.other_key v (some q))
          (merge_filter-Leads a.foreign_key (one u) none w)
          (λ t e.
            subst
              (λ all.
                Leads s.rows (merge_filter h a.through a.other_key v (some (of_source u))) t
                  (of_both u v) all)
              e (merge_filter-Leads a.other_key v (some (of_source u)) t))

    pub selects-of_both :
        (u : Value) (v : Wanted) (r : Row)
        → s.matches (of_both u v) r ≡ (
            strict_eq u (h.value_of a.through r a.foreign_key)
            && wants v (h.value_of a.through r a.other_key))
    unfolding of_both of_source
    selects-of_both u v r = ground (
      arith,
      laws.reads.filters.merged a.through a.other_key v (some (of_source u)) r,
      laws.reads.filters.merged a.through a.foreign_key (one u) none r,
    )
