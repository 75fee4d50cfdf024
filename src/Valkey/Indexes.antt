-- ===== src/Valkey/Indexes.antt =====
-- packages/ormize-adapter-valkey/src/keys.ts and indexes.ts: the keys of a model, the index keys a row
-- belongs to, and the writes that keep them. `encode` is `encodeValue`, which hashes, and `decimal` the
-- id's text is taken beforehand.
use Prim.Native.String
use gqlize.Common.{
  is_some, if◌then◌else◌, ℕ, String, not, Option, none, some, List, [], ◌∷◌, ◌++◌, map, Dict, keys,
  lookup, keep, contains,
}
use text.Mathlib.Text.{find?}
use gqlize.Js.Value.{Value}
use gqlize.Valkey.Match.{Row}
use gqlize.Valkey.Transaction.{Score, add_each}
use gqlize.Valkey.Overlay.{
  Write, string_put, string_deleted, scored, unscored, members_added, members_removed,
}

abbrev pub join : String → String → String
join a b = String.◌++◌ a b

-- `Keys`: its prefix, and how a value is encoded into a segment.
pub record Keys : Type 0 where
  pub prefix : String
  pub encode_value : Value → String

abbrev pub under : Keys → String → String → String
under ks model rest = join ks.prefix (join ":" (join model rest))

unfoldable pub ids_key : Keys → String → String
ids_key ks model = under ks model ":ids"

unfoldable pub index_key : Keys → String → String → Value → String
index_key ks model f v = under ks model (join ":i:" (join f (join ":" (ks.encode_value v))))

unfoldable pub unique_key : Keys → String → String → Value → String
unique_key ks model f v = under ks model (join ":u:" (join f (join ":" (ks.encode_value v))))

unfoldable pub membership_key : Keys → String → String → String
membership_key ks model id = under ks model (join ":m:" id)

-- The part of `ValkeyModel` that indexing reads.
pub record ValkeyModel : Type 0 where
  pub name : String
  pub indexes : List String
  pub uniques : List String

-- A unique entry is its key, its field and its value.
pub record IndexPlan : Type 0 where
  pub equality : List String
  pub unique : Dict (String × Value)

module _ (ks : Keys) (model : ValkeyModel) where
  unfoldable pub equality_keys : List String → Row → List String
  equality_keys [] row = []
  equality_keys (f ∷ fs) row =
      let rest = equality_keys fs row in
      elim (lookup f row) [ some v ↦ index_key ks model.name f v ∷ rest | none ↦ rest ]

  unfoldable pub unique_entries : List String → Row → Dict (String × Value)
  unique_entries [] row = []
  unique_entries (f ∷ fs) row =
      let rest = unique_entries fs row in
      elim (lookup f row) [ some v ↦ (unique_key ks model.name f v, (f, v)) ∷ rest | none ↦ rest ]

  unfoldable pub plan_indexes : Row → IndexPlan
  plan_indexes row = record {
    equality = equality_keys model.indexes row;
    unique = unique_entries model.uniques row;
  }

  -- `sadd` of the keys, where there are any
  abbrev pub adding : String → List String → List Write
  adding id [] = []
  adding id (k ∷ added) = members_added (membership_key ks model.name id) (k ∷ added) ∷ []

  abbrev pub removing : String → List String → List Write
  removing id [] = []
  removing id (k ∷ removed) = members_removed (membership_key ks model.name id) (k ∷ removed) ∷ []

  unfoldable pub add_to_indexes : String → IndexPlan → Score → Option ℕ → List Write
  add_to_indexes id plan score ttl =
      scored (ids_key ks model.name) score id
      ∷ (map (λ k. scored k score id) plan.equality
          ++ (map (λ k. string_put k id ttl) (keys plan.unique)
              ++ adding id (plan.equality ++ keys plan.unique)))

  -- `new Set` of the keys
  abbrev pub distinct : List String → List String
  distinct xs = add_each xs []

  abbrev pub without : List String → List String → List String
  without other xs = keep (λ k. not (contains other k)) xs

  unfoldable pub reindex : String → Row → Row → Score → Option ℕ → List Write
  unfolding plan_indexes
  reindex id old_row new_row score ttl =
      let before_eq = distinct (equality_keys model.indexes old_row) in
      let after_eq = distinct (equality_keys model.indexes new_row) in
      let before_uq = distinct (keys (unique_entries model.uniques old_row)) in
      let after_uq = distinct (keys (unique_entries model.uniques new_row)) in
      map (λ k. scored k score id) after_eq
      ++ (map (λ k. unscored k id) (without after_eq before_eq)
          ++ (map (λ k. string_put k id ttl) (without before_uq after_uq)
              ++ (map (λ k. string_deleted k) (without after_uq before_uq)
                  ++ (scored (ids_key ks model.name) score id
                      ∷ (adding id (without before_eq after_eq ++ without before_uq after_uq)
                          ++ removing id
                              (without after_eq before_eq ++ without after_uq before_uq))))))

  -- The writes of a removal, for the members that were read of the membership set.
  unfoldable pub remove_from_indexes : String → List String → List Write
  remove_from_indexes id members =
      map (λ k. if is_some (find? k ":u:") then string_deleted k else unscored k id) members
      ++ (unscored (ids_key ks model.name) id
          ∷ string_deleted (membership_key ks model.name id)
          ∷ [])
