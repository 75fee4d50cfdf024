-- ===== src/Cross/Accessors.antt =====
-- packages/ormize/src/cross-adapter.ts: `writeAccessors` of a `belongsTo`, a `hasMany` and a
-- `hasOne`, and `createProxyFunction`.
use gqlize.Common.{
  ℕ, String, Bool, true, false, Option, none, some, List, [], ◌∷◌, map, length, if◌then◌else◌,
}
use gqlize.Js.Value.{Value, null}
use gqlize.Gate.Resolve.{update}
use gqlize.Cross.Host.{
  Association, Scoped, denied, filter, Options, Act, pure, ◌>>>◌, for_each, Host,
}
use gqlize.Cross.Keys.{among, writable}

-- `list(targets)`: what an accessor was handed, without its nulls.
unfoldable pub listed : {Row : Type 0} → List (Option Row) → List Row
listed [] = []
listed (none ∷ targets) = listed targets
listed (some t ∷ targets) = t ∷ listed targets

module _ {Request Row Where World Fault : Type 0} (h : Host Request Row Where World Fault) where
  -- A write of the foreign key, where the row may be written.
  abbrev pub repoint :
      String → Row → String → Value → Options Request Where → Bool → Act World Fault Unit
  repoint m row key value o true = h.update m row ((key, value) ∷ []) o
  repoint m row key value o false = pure tt

  -- `set` and `add` of a `belongsTo`
  unfoldable pub set_owner :
      Association → Row → Option Row → Options Request Where → Act World Fault Unit
  unfolding writable
  set_owner a row target o =
      writable h a.source row update o false
      >>> repoint a.source row a.foreign_key
          (elim target [ none ↦ null | some t ↦ h.value_of a.target t a.target_key ]) o

  -- `remove` of a `belongsTo`
  unfoldable pub clear_owner : Association → Row → Options Request Where → Act World Fault Unit
  unfolding writable
  clear_owner a row o =
      writable h a.source row update o false >>> repoint a.source row a.foreign_key null o

  -- `count` of a `belongsTo`
  unfoldable pub count_owner : Association → Row → ℕ
  count_owner a row = elim (h.value_of a.source row a.foreign_key) [ null ↦ 0 | _ ↦ 1 ]

  -- One target of `relink`, checked and written in its own right.
  unfoldable pub relink_one :
      Association → Value → Options Request Where → Row → Act World Fault Unit
  unfolding writable
  relink_one a value o target =
      writable h a.target target update o false >>> repoint a.target target a.foreign_key value o

  unfoldable pub relink :
      Association → Value → List (Option Row) → Options Request Where → Act World Fault Unit
  unfolding relink_one listed for_each
  relink a value targets o = h.options_for_adapter a.source a.target o >>> λ opts.
      for_each (relink_one a value opts) (listed targets)

  -- `add` and `addMultiple`
  unfoldable pub link_many :
      Association → Row → List (Option Row) → Options Request Where → Act World Fault Unit
  unfolding relink
  link_many a row targets o = relink a (h.value_of a.source row a.source_key) targets o

  -- `remove` and `removeMultiple`
  unfoldable pub unlink_many :
      Association → Row → List (Option Row) → Options Request Where → Act World Fault Unit
  unfolding relink
  unlink_many a row targets o = relink a null targets o

  -- A row of the collection that is to be replaced.
  unfoldable pub drop_one :
      Association → List Value → Options Request Where → Row → Act World Fault Unit
  unfolding relink_one
  drop_one a next o existing =
      let dropped = relink_one a null o existing in
      if among next (h.value_of a.target existing a.target_key) then pure tt else dropped

  -- `set`; `get` is the accessor of the row that reads the collection.
  unfoldable pub set_many :
      Association
      → (Row → Options Request Where → Act World Fault (List (Option Row)))
      → Row
      → List (Option Row)
      → Options Request Where
      → Act World Fault Unit
  unfolding drop_one listed for_each link_many
  set_many a get row targets o =
      let next = map (λ t. h.value_of a.target t a.target_key) (listed targets) in
      get row o >>> λ current. h.options_for_adapter a.source a.target o >>> λ opts.
      for_each (drop_one a next opts) (listed current) >>> λ _.
      link_many a row (map some (listed targets)) o

  -- `count`
  unfoldable pub count_many :
      (Row → Options Request Where → Act World Fault (List (Option Row)))
      → Row
      → Options Request Where
      → Act World Fault ℕ
  unfolding listed
  count_many get row o = get row o >>> λ current. pure (length (listed current))

  -- `createProxyFunction`: `adapt` and `scoped` are the optional steps, `find` what `findFunc` returns,
  -- and `nothing` the `null` or the empty list of a scope that denies.
  module _ {Found : Type 0} (nothing : Found)
      (find : Value → String → Options Request Where → Act World Fault Found) where
    abbrev pub with_filter : Options Request Where → Option Where → Options Request Where
    with_filter o none = o
    with_filter o (some w) = record o { where_filter = some w }

    abbrev pub proxied :
        Value → String → Options Request Where → Scoped Where → Act World Fault Found
    proxied key field o denied = pure nothing
    proxied key field o (filter w) = find key field (with_filter o w)

    unfoldable pub proxy_function :
        String
        → String
        → String
        → Option (Options Request Where → Act World Fault (Options Request Where))
        → Option (Options Request Where → Act World Fault (Scoped Where))
        → Row
        → Options Request Where
        → Act World Fault Found
    proxy_function m source_key filter_key adapt scoped row o =
        let key = h.value_of m row source_key in
        (elim adapt [ none ↦ pure o | some f ↦ f o ]) >>> λ opts. elim scoped [
          | none ↦ find key filter_key opts
          | some s ↦ s opts >>> proxied key filter_key opts
        ]
