-- ===== src/Cross/Keys.antt =====
-- packages/ormize/src/cross-adapter.ts: the reads. The check of a row that is held, the keys that a
-- join model links to, and the `get` accessors.
use gqlize.Common.{
  ℕ, String, Bool, true, false, Option, none, some, List, [], ◌∷◌, ◌||◌, any, ok, err,
  if◌then◌else◌,
}
use gqlize.Js.Value.{Value, undefined, is_nullish, strict_eq}
use gqlize.Gate.Resolve.{ScopeOperation, read}
use gqlize.Cross.Host.{
  belongs_to, belongs_to_many, Association, Wanted, one, any_of, Scoped, denied, filter, Options,
  Query, Act, pure, ◌>>>◌, Host,
}

-- `seen.has(value)`, where `NaN` is no value
abbrev pub among : List Value → Value → Bool
among vs v = any (λ u. strict_eq u v) vs

module _ {Request Row Where World Fault : Type 0} (h : Host Request Row Where World Fault) where
  unfoldable pub request_from : Options Request Where → Request
  request_from o = elim o.graphql_context [ some context ↦ context | none ↦ o.as_request ]

  -- `filterMerger(host, defName)(field, value, true, where)`
  unfoldable pub merge_filter : String → String → Wanted → Option Where → Act World Fault Where
  merge_filter m field value w st =
      if h.can_merge m
      then (st, ok (h.merge_filter_statement m field value w))
      else (st, err (h.cannot_merge m))

  -- A lookup of one row by its primary key under a filter.
  abbrev pub lookup_query : Option ℕ → Where → Bool → Query Where
  lookup_query tx w deleted = record {
    filter = some w;
    handle = tx;
    limit = some 1;
    with_deleted = deleted;
    is_system = true;
    rest = undefined;
  }

  abbrev pub missed : {A : Type 0} → String → ScopeOperation → A → Act World Fault A
  missed m operation a = h.scope_miss m operation >>> λ _. pure a

  abbrev pub found_or_missed : String → ScopeOperation → List Row → Act World Fault Bool
  found_or_missed m operation [] = missed m operation false
  found_or_missed m operation (found ∷ more) = pure true

  -- The scopes of a read and of the operation, one merged onto the other, after which the row is
  -- looked for.
  unfoldable pub settle_writable :
      String
      → Row
      → ScopeOperation
      → Options Request Where
      → Bool
      → Scoped Where
      → Act World Fault Bool
  unfolding merge_filter
  settle_writable m row operation o deleted denied = missed m operation false
  settle_writable m row operation o deleted (filter none) = pure true
  settle_writable m row operation o deleted (filter (some w)) =
      let key = h.primary_key m in
      merge_filter m key (one (h.value_of m row key)) (some w) >>> λ q.
      h.find_all m (lookup_query o.transaction q deleted) >>> found_or_missed m operation

  abbrev pub narrow_scope :
      String
      → ScopeOperation
      → Options Request Where
      → Scoped Where
      → Act World Fault (Scoped Where)
  narrow_scope m operation o denied = pure denied
  narrow_scope m operation o (filter w) = h.scoped_where m operation (request_from o) w o

  unfoldable pub writable :
      String → Row → ScopeOperation → Options Request Where → Bool → Act World Fault Bool
  unfolding settle_writable request_from
  writable m row operation o deleted =
      h.scoped_where m read (request_from o) none o
      >>> narrow_scope m operation o
      >>> settle_writable m row operation o deleted

  abbrev pub plain_query : Option Where → Option ℕ → Value → Query Where
  plain_query w tx rest = record {
    filter = w;
    handle = tx;
    limit = none;
    with_deleted = false;
    is_system = false;
    rest = rest;
  }

  -- The keys of edges, without those seen before.
  unfoldable pub keys_of : Association → List Value → List Row → List Value
  keys_of a seen [] = []
  keys_of a seen (edge ∷ edges) =
      let value = h.value_of a.through edge a.other_key in
      let skipped = keys_of a seen edges in
      let kept = keys_of a (value ∷ seen) edges in
      if is_nullish value || among seen value then skipped else value ∷ kept

  abbrev pub edges_in :
      Association → Options Request Where → Scoped Where → Act World Fault (List Value)
  edges_in a o denied = pure []
  edges_in a o (filter w) =
      h.find_all a.through (plain_query w o.transaction undefined) >>> λ edges.
      pure (keys_of a [] edges)

  unfoldable pub btm_keys : Association → Row → Options Request Where → Act World Fault (List Value)
  unfolding keys_of merge_filter request_from
  btm_keys a source o =
      let value = h.value_of a.source source a.source_key in
      let read_edges = h.options_for_adapter a.source a.through o >>> λ opts.
      merge_filter a.through a.foreign_key (one value) none >>> λ w.
      h.scoped_where a.through read (request_from o) (some w) opts >>> edges_in a opts in
      if is_nullish value then pure [] else read_edges

  -- The target's `findAll`, under what its read scope leaves.
  abbrev pub rows_in :
      Association → Options Request Where → Scoped Where → Act World Fault (List Row)
  rows_in a o denied = pure []
  rows_in a o (filter w) = h.find_all a.target (plain_query w o.transaction o.rest)

  unfoldable pub rows_by_keys :
      Association → Options Request Where → List Value → Act World Fault (List Row)
  unfolding merge_filter request_from
  rows_by_keys a o [] = pure []
  rows_by_keys a o (k ∷ ks) = h.options_for_adapter a.source a.target o >>> λ opts.
      merge_filter a.target a.target_key (any_of (k ∷ ks)) opts.where_filter >>> λ w.
      h.scoped_where a.target read (request_from o) (some w) opts >>> rows_in a opts

  unfoldable pub btm_getter : Association → Row → Options Request Where → Act World Fault (List Row)
  unfolding btm_keys rows_by_keys
  btm_getter a source o = btm_keys a source o >>> rows_by_keys a o

  -- The field of the target to filter by, and the value.
  unfoldable pub join_scope :
      Association → Row → Options Request Where → Act World Fault (String × Wanted)
  unfolding btm_keys
  join_scope a source o = elim a.association_type [
    | belongs_to_many ↦ btm_keys a source o >>> λ ks. pure (a.target_key, any_of ks)
    | belongs_to ↦ pure (a.target_key, one (h.value_of a.source source a.foreign_key))
    | _ ↦ pure (a.foreign_key, one (h.value_of a.source source a.source_key))
  ]
