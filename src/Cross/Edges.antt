-- ===== src/Cross/Edges.antt =====
-- packages/ormize/src/cross-adapter.ts: `btmWriteAccessors`. A link of a `belongsToMany` is a row of
-- the join model.
use gqlize.Common.{ℕ, Bool, true, false, Option, none, some, List, [], ◌∷◌, map, Dict, put, length}
use gqlize.Js.Value.{Value, undefined}
use gqlize.Gate.Resolve.{read, create, delete}
use gqlize.Cross.Host.{
  Association, Wanted, one, any_of, Scoped, denied, filter, Options, Act, pure, ◌>>>◌, for_each,
  Host,
}
use gqlize.Cross.Keys.{merge_filter, plain_query, request_from, btm_keys}
use gqlize.Cross.Accessors.{listed}

-- `{...d, ...more}`
unfoldable pub spread : Dict Value → Dict Value → Dict Value
unfolding put
spread d [] = d
spread d ((k, v) ∷ more) = spread (put k v d) more

module _ {Request Row Where World Fault : Type 0} (h : Host Request Row Where World Fault)
    (a : Association) where
  -- `edgeWhere`: the edges of a source, to some targets or to all.
  unfoldable pub edge_where : Value → Option Wanted → Act World Fault Where
  unfolding merge_filter
  edge_where source_value wanted =
      merge_filter h a.through a.foreign_key (one source_value) none >>> λ w. elim wanted [
        | none ↦ pure w
        | some t ↦ merge_filter h a.through a.other_key t (some w)
      ]

  -- `forThrough`: the transaction alone.
  unfoldable pub for_through : Options Request Where → Act World Fault (Option ℕ)
  for_through o = h.options_for_adapter a.source a.through o >>> λ opts. pure opts.transaction

  -- `{transaction}`, or `{}`
  abbrev pub transaction_only : Option ℕ → Options Request Where
  transaction_only tx = record {
    graphql_context = none;
    as_request = h.bag_request tx;
    transaction = tx;
    where_filter = none;
    through_values = [];
    rest = undefined;
  }

  -- A join row that is missing is made, and one that is there gets the attributes, if any.
  abbrev pub settle_edge : Value → Value → Dict Value → Option ℕ → List Row → Act World Fault Unit
  settle_edge source_value target_value attributes tx [] =
      h.create a.through
        (spread ((a.foreign_key, source_value) ∷ (a.other_key, target_value) ∷ []) attributes) tx
  settle_edge source_value target_value [] tx (existing ∷ more) = pure tt
  settle_edge source_value target_value (x ∷ xs) tx (existing ∷ more) =
      h.update a.through existing (x ∷ xs) (transaction_only tx)

  unfoldable pub link_one : Value → Dict Value → Option ℕ → Row → Act World Fault Unit
  unfolding edge_where spread
  link_one source_value attributes tx target =
      let target_value = h.value_of a.target target a.target_key in
      edge_where source_value (some (one target_value)) >>> λ w.
      h.find_all a.through (plain_query h (some w) tx undefined)
      >>> settle_edge source_value target_value attributes tx

  abbrev pub link_allowed :
      Row → List (Option Row) → Options Request Where → Bool → Act World Fault Unit
  link_allowed row targets o true = h.scope_miss a.through create
  link_allowed row targets o false = for_through o >>> λ tx.
      for_each (link_one (h.value_of a.source row a.source_key) o.through_values tx)
        (listed targets)

  -- `add` and `addMultiple`
  unfoldable pub link : Row → List (Option Row) → Options Request Where → Act World Fault Unit
  unfolding for_through link_one for_each listed request_from
  link row targets o =
      h.scope_denies a.through create (request_from h o) >>> link_allowed row targets o

  abbrev pub delete_in : Option ℕ → Scoped Where → Act World Fault Unit
  delete_in tx denied = h.scope_miss a.through delete
  delete_in tx (filter w) = h.delete a.through w tx

  -- The edges of a filter are deleted as far as both scopes let them be reached.
  unfoldable pub unlink_where : Where → Options Request Where → Act World Fault Unit
  unfolding for_through request_from
  unlink_where w o = for_through o >>> λ tx.
      h.scoped_where a.through read (request_from h o) (some w) (transaction_only tx)
      >>> (λ s. elim s [
        | denied ↦ pure denied
        | filter v ↦ h.scoped_where a.through delete (request_from h o) v (transaction_only tx)
      ])
      >>> delete_in tx

  abbrev pub unlink_values : Value → List Value → Options Request Where → Act World Fault Unit
  unlink_values source_value [] o = pure tt
  unlink_values source_value (v ∷ vs) o =
      edge_where source_value (some (any_of (v ∷ vs))) >>> λ w. unlink_where w o

  -- `remove` and `removeMultiple`
  unfoldable pub unlink : Row → List (Option Row) → Options Request Where → Act World Fault Unit
  unfolding edge_where unlink_where listed
  unlink row targets o =
      unlink_values (h.value_of a.source row a.source_key)
        (map (λ t. h.value_of a.target t a.target_key) (listed targets)) o

  -- `set`
  unfoldable pub set_links : Row → List (Option Row) → Options Request Where → Act World Fault Unit
  unfolding edge_where unlink_where link
  set_links row targets o = edge_where (h.value_of a.source row a.source_key) none >>> λ w.
      unlink_where w o >>> λ _. link row targets o

  -- `count`
  unfoldable pub count_links : Row → Options Request Where → Act World Fault ℕ
  unfolding btm_keys
  count_links row o = btm_keys h a row o >>> λ ks. pure (length ks)
