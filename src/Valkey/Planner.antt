-- ===== src/Valkey/Planner.antt =====
-- The query planner of packages/ormize-adapter-valkey/src/query.ts: which indexes answer a filter, what
-- is left to check on the rows, and the rows themselves. `now` is the time of the query.
use gqlize.Common.{
  ℕ, suc, String, Bool, true, false, ◌||◌, Option, none, some, List, [], ◌∷◌, ◌++◌, map, Dict, ltb,
  contains, Result, ok, err, ◌==◌, if◌then◌else◌,
}
use gqlize.Js.Value.{Value, str, arr, obj, Items, nil, cons, Fields, end, field}
use gqlize.Gate.Where.{logical}
use gqlize.Valkey.Match.{Engine, Row}
use gqlize.Valkey.Transaction.{Score, finite, infinite, not_a_number, set_add, add_each}
use gqlize.Valkey.Overlay.{Write, object_deleted}
use gqlize.Valkey.Indexes.{
  Keys, ids_key, index_key, unique_key, membership_key, remove_from_indexes,
}
use gqlize.Valkey.Plan.{
  Executor, QueryError, Resolved, Resolving, Search, SearchModel, add_clause, after, all_ids,
  branch_not_indexed, by_key, clauses_hold, give, intersect, is_undefined, leave, narrow,
  no_clauses, no_keys, not_indexed, not_matchable, object_key, scalar_of, start, throw, unite,
  ◌>>=◌,
}

module _ {S : Type 0} (e : Engine) (x : Executor S) (ks : Keys) (sm : SearchModel) (now : ℕ) where
  abbrev pub is_searchable : String → Bool
  is_searchable name =
      name == sm.primary_key || (contains sm.model.indexes name || contains sm.model.uniques name)

  abbrev pub is_alive : Score → Bool
  is_alive (finite n) = ltb now n
  is_alive infinite = true
  is_alive not_a_number = false

  unfoldable pub alive_ids : Dict Score → List String → List String
  alive_ids [] out = out
  alive_ids ((id, score) ∷ ms) out = alive_ids ms (if is_alive score then set_add id out else out)

  unfoldable pub expired_ids : Dict Score → List String
  expired_ids [] = []
  expired_ids ((id, score) ∷ ms) =
      let rest = expired_ids ms in if is_alive score then rest else id ∷ rest

  abbrev pub writes : List Write → S → S
  writes [] s = s
  writes (w ∷ ws) s = writes ws (x.write w s)

  -- An expired row goes from every index, and its object with it.
  unfoldable pub collect : String → S → S
  collect id s =
      writes
        (remove_from_indexes ks sm.model id (x.s_members (membership_key ks sm.model.name id) s)
          ++ object_deleted (object_key ks sm.model.name id) ∷ [])
        s

  unfoldable pub collect_all : List String → S → S
  collect_all [] s = s
  collect_all (id ∷ ids) s = collect_all ids (collect id s)

  unfoldable pub active_members : String → Search S (List String)
  active_members zkey s = ok (
    alive_ids (x.z_members zkey s) [],
    if x.buffered then s else collect_all (expired_ids (x.z_members zkey s)) s,
  )

  -- `id ? [id] : []`
  abbrev pub one_id : Option String → List String
  one_id none = []
  one_id (some id) = if id == "" then [] else id ∷ []

  unfoldable pub equality_set : String → Value → Search S (List String)
  equality_set name v =
      if name == sm.primary_key
      then give (e.text v ∷ [])
      else if contains sm.model.uniques name
      then (λ s. ok (one_id (x.get_str (unique_key ks sm.model.name name v) s), s))
      else active_members (index_key ks sm.model.name name v)

  -- The union over the values of an `in`.
  unfoldable pub union_set : String → List Value → List String → Search S (List String)
  union_set name [] out = give out
  union_set name (v ∷ vs) out = do s ← equality_set name v; union_set name vs (add_each s out)

  abbrev pub among_step :
      String → Value → Option (List Value) → Bool → Resolving → Search S Resolving
  among_step key cond (some vs) more r = do
    ids ← union_set key vs []
    give (narrow ids more key cond r)
  among_step key cond none more r = give (leave key cond r)

  -- A condition on a field: through its index where there is one, or left to the rows.
  unfoldable pub field_step : String → Value → Resolving → Search S Resolving
  field_step key cond r =
      let c = scalar_of cond in
      if is_searchable key
      then (if is_undefined c.eq
          then among_step key cond c.among c.has_other r
          else (do ids ← equality_set key c.eq; give (narrow ids c.has_other key cond r)))
      else give (leave key cond r)

  abbrev pub branch_ids : Option (List String) → List Value → Search S (List String)
  branch_ids (some ids) [] = give ids
  branch_ids (some ids) (c ∷ cs) = throw branch_not_indexed
  branch_ids none left = throw branch_not_indexed

  abbrev pub branch : Resolved → Search S (List String)
  branch w = branch_ids w.set w.residual

  unfoldable pub finish : Resolving → Search S Resolved
  finish r =
      if r.had_indexable
      then give (record { set = some (intersect r.conjuncts); residual = r.residual })
      else throw not_indexed

  -- An array in the place of a filter has its indices for fields.
  unfoldable pub resolve_indices : ℕ → Items → Resolving → Search S Resolving
  resolve_indices i nil r = give r
  resolve_indices i (cons v vs) r = do
    next ← field_step (e.index_key i) v r
    resolve_indices (suc i) vs next

  unfoldable mutual
    -- A text with characters has them for fields, which no model has.
    pub resolve_where : Value → Search S Resolved
    resolve_where (obj fs) =
        let looped = (do r ← resolve_fields fs start; finish r) in
        if no_keys fs then give all_ids else looped
    resolve_where (arr nil) = give all_ids
    resolve_where (arr (cons v vs)) = do r ← resolve_indices 0 (cons v vs) start; finish r
    resolve_where (str s) = if s == "" then give all_ids else throw not_indexed
    resolve_where v = give all_ids

    pub resolve_fields : Fields → Resolving → Search S Resolving
    resolve_fields end r = give r
    resolve_fields (field key v fs) r = (do
      next ←
          by_key (logical key) (resolve_every v r)
            (do sets ← resolve_some v; give (narrow (unite sets []) false key v r))
            (give (leave key v r)) (field_step key v r)
      resolve_fields fs next)

    pub resolve_every : Value → Resolving → Search S Resolving
    resolve_every (arr vs) r = resolve_clauses vs r
    resolve_every v r = no_clauses v r

    pub resolve_clauses : Items → Resolving → Search S Resolving
    resolve_clauses nil r = give r
    resolve_clauses (cons v vs) r = do w ← resolve_where v; resolve_clauses vs (add_clause w r)

    pub resolve_some : Value → Search S (List (List String))
    resolve_some (arr vs) = resolve_branches vs
    resolve_some v = no_clauses v []

    pub resolve_branches : Items → Search S (List (List String))
    resolve_branches nil = give []
    resolve_branches (cons v vs) = do
      w ← resolve_where v
      ids ← branch w
      more ← resolve_branches vs
      give (ids ∷ more)

  abbrev pub keep_row :
      Row → Option Bool → Result QueryError (List Row) → Result QueryError (List Row)
  keep_row row none more = err not_matchable
  keep_row row (some true) more = after more (λ rows. ok (row ∷ rows))
  keep_row row (some false) more = more

  -- The loop over the texts of the candidates' objects.
  unfoldable pub matching_rows : List Value → List (Option String) → Result QueryError (List Row)
  matching_rows residual [] = ok []
  matching_rows residual (none ∷ raw) = matching_rows residual raw
  matching_rows residual (some json ∷ raw) =
      keep_row (x.row_of json) (clauses_hold e (x.row_of json) residual)
        (matching_rows residual raw)

  unfoldable pub candidates : Option (List String) → Search S (List String)
  candidates (some ids) = give ids
  candidates none = active_members (ids_key ks sm.model.name)

  -- Without a candidate nothing is fetched.
  unfoldable pub fetch : List Value → List String → Search S (List Row)
  fetch residual [] s = ok ([], s)
  fetch residual (id ∷ ids) s =
      after (matching_rows residual (x.mget_obj (map (object_key ks sm.model.name) (id ∷ ids)) s))
        (λ rows. ok (rows, s))

  unfoldable pub execute_query : Value → Search S (List Row)
  execute_query where_ = do w ← resolve_where where_; ids ← candidates w.set; fetch w.residual ids
