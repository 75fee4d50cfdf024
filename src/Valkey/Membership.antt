-- ===== src/Valkey/Membership.antt =====
-- The membership set of a row, by which packages/ormize-adapter-valkey/src/indexes.ts finds the index
-- keys to clean up.
use gqlize.Common.{
  ℕ, String, Bool, true, false, not, ◌&&◌, ◌||◌, Option, List, [], ◌∷◌, ◌++◌, map, keys, keep,
  contains, ◌≡◌, refl, ap, ◌∙◌, arith, eq_iff, eq_refl,
}
use gqlize.Valkey.Match.{Row}
use gqlize.Valkey.Transaction.{Score}
use gqlize.Valkey.Sets.{contains-append, contains-add_each}
use gqlize.Valkey.Overlay.{
  Write, scored, unscored, string_put, string_deleted, member_after, replay,
}
use gqlize.Valkey.Kinds.{is_index, equality_keys-index, unique_entries-index}
use gqlize.Valkey.Indexes.{
  Keys, ValkeyModel, plan_indexes, equality_keys, unique_entries, membership_key, adding, removing,
  add_to_indexes, distinct, without, reindex, ids_key,
}

contains-keep :
    (p : String → Bool) (k : String) (ks : List String)
    → contains (keep p ks) k ≡ (p k && contains ks k)
contains-keep p k [] = ground arith
contains-keep p k (x ∷ ks) = ground (arith, contains-keep p k ks, eq_iff x k)

replay-append {ℓ} :
    {A : Type ℓ} (f : Write → A → A) (ws vs : List Write) (a : A)
    → replay f (ws ++ vs) a ≡ replay f vs (replay f ws a)
unfolding replay
replay-append f [] vs a = refl
replay-append f (w ∷ ws) vs a = replay-append f ws vs (f w a)

module _ (key m : String) where
  abbrev is_in : List Write → Bool → Bool
  is_in ws b = replay (member_after key m) ws b

  -- writes that are no change of a set
  replay-map :
      (f : String → Write) (ks : List String) (b : Bool)
      → ((k : String) (b : Bool) → member_after key m (f k) b ≡ b)
      → is_in (map f ks) b ≡ b
  unfolding replay
  replay-map f [] b h = refl
  replay-map f (k ∷ ks) b h = ap (is_in (map f ks)) (h k b) ∙ replay-map f ks b h

  skip :
      (f : String → Write) (ks : List String) (ws : List Write) (b : Bool)
      → ((k : String) (b : Bool) → member_after key m (f k) b ≡ b)
      → is_in (map f ks ++ ws) b ≡ is_in ws b
  skip f ks ws b h =
      replay-append (member_after key m) (map f ks) ws b ∙ ap (is_in ws) (replay-map f ks b h)

  -- The writes of a reindex to the indexes and the unique keys change no set.
  skip_all :
      (id : String) (score : Score) (ttl : Option ℕ) (a b c d : List String) (ws : List Write)
      (start : Bool)
      → is_in
          (map (λ k. scored k score id) a
            ++ (map (λ k. unscored k id) b
                ++ (map (λ k. string_put k id ttl) c ++ (map (λ k. string_deleted k) d ++ ws))))
          start
        ≡ is_in ws start
  unfolding member_after
  skip_all id score ttl a b c d ws start =
      skip (λ k. scored k score id) a
        (map (λ k. unscored k id) b
          ++ (map (λ k. string_put k id ttl) c ++ (map (λ k. string_deleted k) d ++ ws)))
        start (λ k x. refl)
      ∙ (skip (λ k. unscored k id) b
            (map (λ k. string_put k id ttl) c ++ (map (λ k. string_deleted k) d ++ ws)) start
            (λ k x. refl)
          ∙ (skip (λ k. string_put k id ttl) c (map (λ k. string_deleted k) d ++ ws) start
                (λ k x. refl)
              ∙ skip (λ k. string_deleted k) d ws start (λ k x. refl)))

module _ (ks : Keys) (model : ValkeyModel) (id m : String) where
  abbrev here : String
  here = membership_key ks model.name id

  replay-adding :
      (added : List String) (b : Bool)
      → is_in here m (adding ks model id added) b ≡ (contains added m || b)
  unfolding replay member_after
  replay-adding [] b = refl
  replay-adding (k ∷ added) b = rw (eq_refl (membership_key ks model.name id)) refl

  replay-removing :
      (removed : List String) (b : Bool)
      → is_in here m (removing ks model id removed) b ≡ (not (contains removed m) && b)
  unfolding replay member_after
  replay-removing [] b = refl
  replay-removing (k ∷ removed) b = rw (eq_refl (membership_key ks model.name id)) refl

-- Membership before and after, by the keys of the two kinds.
apart :
    (k be ae bu au : Bool)
    → (be ≡ true → k ≡ true)
    → (ae ≡ true → k ≡ true)
    → (bu ≡ true → k ≡ false)
    → (au ≡ true → k ≡ false)
    → (not ((not ae && be) || (not au && bu)) && (((not be && ae) || (not bu && au)) || (be || bu)))
      ≡ (ae || au)
apart true be ae false false h1 h2 h3 h4 = ground arith
apart true be ae true au h1 h2 h3 h4 = ground arith
apart true be ae false true h1 h2 h3 h4 = ground arith
apart false false false bu au h1 h2 h3 h4 = ground arith
apart false true ae bu au h1 h2 h3 h4 = ground arith
apart false false true bu au h1 h2 h3 h4 = ground arith

module _ (ks : Keys) (model : ValkeyModel) (m : String) where
  -- Whether a key is in the index plan of a row.
  unfoldable pub planned : Row → Bool
  unfolding plan_indexes
  planned row =
      let plan = plan_indexes ks model row in
      contains plan.equality m || contains (keys plan.unique) m

  contains-without :
      (other xs : List String)
      → contains (without ks model (distinct ks model other) (distinct ks model xs)) m
        ≡ (not (contains other m) && contains xs m)
  contains-without other xs = ground (
    arith,
    contains-keep (λ k. not (contains (distinct ks model other) k)) m (distinct ks model xs),
    contains-add_each m other [],
    contains-add_each m xs [],
  )

  -- What adding and removing the differences of two pairs of lists makes of a membership.
  diff : (be ae bu au : List String) → List String
  diff be ae bu au =
      without ks model (distinct ks model be) (distinct ks model ae)
      ++ without ks model (distinct ks model bu) (distinct ks model au)

  contains-diff :
      (be ae bu au : List String)
      → contains (diff be ae bu au) m
        ≡ ((not (contains be m) && contains ae m) || (not (contains bu m) && contains au m))
  unfolding diff
  contains-diff be ae bu au = ground (
    arith,
    contains-append m (without ks model (distinct ks model be) (distinct ks model ae))
        (without ks model (distinct ks model bu) (distinct ks model au)),
    contains-without be ae,
    contains-without bu au,
  )

  replay-diffs :
      (id : String) (added removed : List String) (b : Bool)
      → is_in
          (membership_key ks model.name id)
          m
          (adding ks model id added ++ removing ks model id removed)
          b
        ≡ (not (contains removed m) && (contains added m || b))
  replay-diffs id added removed b =
      replay-append (member_after (membership_key ks model.name id) m) (adding ks model id added)
        (removing ks model id removed) b
      ∙ (replay-removing ks model id m removed _
          ∙ ap (λ x. not (contains removed m) && x) (replay-adding ks model id m added b))

module _ (ks : Keys) (model : ValkeyModel) (id m : String) (old_row new_row : Row) (score : Score)
    (ttl : Option ℕ) where
  abbrev settled : Bool
  settled =
      let be = equality_keys ks model model.indexes old_row in
      let ae = equality_keys ks model model.indexes new_row in
      let bu = keys (unique_entries ks model model.uniques old_row) in
      let au = keys (unique_entries ks model model.uniques new_row) in
      not (contains (diff ks model m ae be au bu) m)
      && (contains (diff ks model m be ae bu au) m || (contains be m || contains bu m))

  settled-planned : settled ≡ planned ks model m new_row
  unfolding planned
  settled-planned =
      let be = equality_keys ks model model.indexes old_row in
      let ae = equality_keys ks model model.indexes new_row in
      let bu = keys (unique_entries ks model model.uniques old_row) in
      let au = keys (unique_entries ks model model.uniques new_row) in
      rw (contains-diff ks model m ae be au bu, contains-diff ks model m be ae bu au)
        (apart (is_index ks model.name m) (contains be m) (contains ae m) (contains bu m)
          (contains au m) (equality_keys-index ks model old_row m model.indexes)
          (equality_keys-index ks model new_row m model.indexes)
          (unique_entries-index ks model old_row m model.uniques)
          (unique_entries-index ks model new_row m model.uniques))

  -- Where the membership set of a row has exactly the keys of the old row's index plan, the writes of a
  -- reindex leave it with exactly those of the new row's.
  pub reindex-membership :
      replay
        (member_after (membership_key ks model.name id) m)
        (reindex ks model id old_row new_row score ttl)
        (planned ks model m old_row)
      ≡ planned ks model m new_row
  unfolding reindex planned replay member_after diff
  reindex-membership =
      let be = equality_keys ks model model.indexes old_row in
      let ae = equality_keys ks model model.indexes new_row in
      let bu = keys (unique_entries ks model model.uniques old_row) in
      let au = keys (unique_entries ks model model.uniques new_row) in
      let lost = diff ks model m ae be au bu in
      let gained = diff ks model m be ae bu au in
      let change = adding ks model id gained ++ removing ks model id lost in
      skip_all (membership_key ks model.name id) m id score ttl (distinct ks model ae)
        (without ks model (distinct ks model ae) (distinct ks model be))
        (without ks model (distinct ks model bu) (distinct ks model au))
        (without ks model (distinct ks model au) (distinct ks model bu))
        (scored (ids_key ks model.name) score id ∷ change) (planned ks model m old_row)
      ∙ (replay-diffs ks model m id gained lost (planned ks model m old_row) ∙ settled-planned)

-- Where the membership set of a row is empty, the writes of adding it to the indexes leave the set with
-- exactly the keys of its index plan.
pub add_to_indexes-membership :
    (ks : Keys) (model : ValkeyModel) (id m : String) (row : Row) (score : Score) (ttl : Option ℕ)
    → replay
        (member_after (membership_key ks model.name id) m)
        (add_to_indexes ks model id (plan_indexes ks model row) score ttl)
        false
      ≡ planned ks model m row
unfolding add_to_indexes planned replay member_after
add_to_indexes-membership ks model id m row score ttl =
    let plan = plan_indexes ks model row in
    let key = membership_key ks model.name id in
    skip key m (λ k. scored k score id) plan.equality
      (map (λ k. string_put k id ttl) (keys plan.unique)
        ++ adding ks model id (plan.equality ++ keys plan.unique))
      false (λ k b. refl)
    ∙ (skip key m (λ k. string_put k id ttl) (keys plan.unique)
          (adding ks model id (plan.equality ++ keys plan.unique)) false (λ k b. refl)
        ∙ (replay-adding ks model id m (plan.equality ++ keys plan.unique) false
            ∙ ground (arith, contains-append m plan.equality (keys plan.unique))))
