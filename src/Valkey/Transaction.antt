-- ===== src/Valkey/Transaction.antt =====
-- `ValkeyTransaction` and `scoreArg`, `parseWithScores` of
-- packages/ormize-adapter-valkey/src/transaction.ts: the overlay of a transaction over the store.
use gqlize.Common.{
  ℕ, zero, suc, String, Bool, not, ◌||◌, Option, none, some, List, [], ◌∷◌, ◌++◌, map, Dict, lookup,
  put, remove, contains, keep, is_some, if◌then◌else◌, ◌==◌,
}

-- A score: a number, the `Infinity` of a row that does not expire, or `NaN`.
pub data Score : Type 0 where
  finite : ℕ → Score
  infinite not_a_number : Score

-- One buffered command: its name and its arguments.
pub data Arg : Type 0 where
  text : String → Arg
  number : ℕ → Arg

abbrev pub Command : Type 0
Command = String × List Arg

-- What the store answers while the transaction is open, `String(n)` and `parseFloat` of JavaScript,
-- which gives no number for some texts, which commands its pipeline has, and the fault, if any, that a
-- batch ends in.
pub record Client : Type 0 where
  pub get : String → Option String
  pub mget : List String → List (Option String)
  pub zrange : String → List String
  pub smembers : String → List String
  pub has_command : String → Bool
  pub decimal : ℕ → String
  pub parse_float : String → Option ℕ
  pub exec_fault : List Command → Option String

-- A `none` in `objects` and `strs` is the tombstone.
pub record ValkeyTransaction : Type 0 where
  pub objects : Dict (Option String)
  pub strs : Dict (Option String)
  pub z_adds : Dict (Dict Score)
  pub z_rems : Dict (List String)
  pub s_adds : Dict (List String)
  pub s_rems : Dict (List String)
  pub commands : List Command

abbrev pub new_transaction : ValkeyTransaction
new_transaction = record {
  objects = [];
  strs = [];
  z_adds = [];
  z_rems = [];
  s_adds = [];
  s_rems = [];
  commands = [];
}

-- A `Set` of texts: `add`, `delete`, and `map.get(key) || []`.
unfoldable pub set_add : String → List String → List String
set_add m s = if contains s m then s else s ++ m ∷ []

unfoldable pub set_delete : String → List String → List String
set_delete m s = keep (λ x. not (m == x)) s

unfoldable pub set_at : String → Dict (List String) → List String
set_at key d = elim (lookup key d) [ some s ↦ s | none ↦ [] ]

unfoldable pub map_at : String → Dict (Dict Score) → Dict Score
map_at key d = elim (lookup key d) [ some s ↦ s | none ↦ [] ]

-- `map.get(key)?.delete(m)`
unfoldable pub drop_from : String → String → Dict (List String) → Dict (List String)
drop_from key m d = elim (lookup key d) [ some s ↦ put key (set_delete m s) d | none ↦ d ]

unfoldable pub drop_score : String → String → Dict (Dict Score) → Dict (Dict Score)
drop_score key m d = elim (lookup key d) [ some s ↦ put key (remove m s) d | none ↦ d ]

abbrev pub push_command : String → List Arg → ValkeyTransaction → ValkeyTransaction
push_command name args t = record t { commands = t.commands ++ (name, args) ∷ [] }

-- The command of a write with an optional time to live.
unfoldable pub set_args : String → String → Option ℕ → List Arg
set_args key value none = text key ∷ text value ∷ []
set_args key value (some zero) = text key ∷ text value ∷ []
set_args key value (some (suc n)) = text key ∷ text value ∷ text "PX" ∷ number (suc n) ∷ []

unfoldable pub set_all : Dict Score → Dict Score → Dict Score
set_all [] base = base
set_all ((m, s) ∷ more) base = set_all more (put m s base)

unfoldable pub delete_all : List String → Dict Score → Dict Score
delete_all [] base = base
delete_all (m ∷ ms) base = delete_all ms (remove m base)

unfoldable pub add_each : List String → List String → List String
add_each [] base = base
add_each (m ∷ ms) base = add_each ms (set_add m base)

unfoldable pub delete_each : List String → List String → List String
delete_each [] base = base
delete_each (m ∷ ms) base = delete_each ms (set_delete m base)

module _ (c : Client) where
  unfoldable pub score_arg : Score → String
  score_arg infinite = "+inf"
  score_arg (finite n) = c.decimal n
  score_arg not_a_number = "NaN"

  unfoldable pub parse_score : String → Score
  parse_score s =
      if s == "inf" || s == "+inf"
      then infinite
      else elim (c.parse_float s) [ some n ↦ finite n | none ↦ not_a_number ]

  -- The loop of `parseWithScores`; `parseFloat(undefined)` is `NaN`.
  unfoldable pub parse_into : Dict Score → List String → Dict Score
  parse_into m (member ∷ s ∷ flat) = parse_into (put member (parse_score s) m) flat
  parse_into m (member ∷ []) = put member not_a_number m
  parse_into m [] = m

  unfoldable pub parse_with_scores : List String → Dict Score
  parse_with_scores flat = parse_into [] flat

  -- reads
  unfoldable pub overlaid : Dict (Option String) → String → Option String
  overlaid over key = elim (lookup key over) [ some v ↦ v | none ↦ c.get key ]

  unfoldable pub get_obj : ValkeyTransaction → String → Option String
  get_obj t key = overlaid t.objects key

  unfoldable pub get_str : ValkeyTransaction → String → Option String
  get_str t key = overlaid t.strs key

  -- `missing.forEach((k, i) => byKey.set(k, fetched[i]))`; a reply that is missing is not there.
  unfoldable pub by_key :
      List String → List (Option String) → Dict (Option String) → Dict (Option String)
  by_key [] fetched d = d
  by_key (k ∷ ks) [] d = by_key ks [] d
  by_key (k ∷ ks) (v ∷ vs) d = by_key ks vs (put k v d)

  abbrev pub fetch : List String → List (Option String)
  fetch [] = []
  fetch (k ∷ ks) = c.mget (k ∷ ks)

  unfoldable pub mget_obj : ValkeyTransaction → List String → List (Option String)
  mget_obj t ks =
      let missing = keep (λ k. not (is_some (lookup k t.objects))) ks in
      let found = by_key missing (fetch missing) [] in
      map
        (λ k. elim (lookup k t.objects) [
          | some v ↦ v
          | none ↦ elim (lookup k found) [ some v ↦ v | none ↦ none ]
        ])
        ks

  unfoldable pub z_members : ValkeyTransaction → String → Dict Score
  z_members t zkey =
      let base = parse_with_scores (c.zrange zkey) in
      delete_all (set_at zkey t.z_rems) (set_all (map_at zkey t.z_adds) base)

  unfoldable pub s_members : ValkeyTransaction → String → List String
  s_members t key =
      let base = add_each (c.smembers key) [] in
      delete_each (set_at key t.s_rems) (add_each (set_at key t.s_adds) base)
