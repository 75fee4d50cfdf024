-- ===== src/ReadCache/Cache.antt =====
-- `ReadCache` of packages/ormize/src/read-cache/index.ts: which reads are cached and under which shape,
-- and the memory of results that were too big. Reads has the steps of `read` and `invalidate`.
use Prim.Native.String
use Prim.Native.String.{len}
use gqlize.Common.{
  length, ℕ, ◌+◌, String, Bool, true, false, not, ◌&&◌, ◌||◌, Option, none, some, List, [], ◌∷◌,
  Dict, put, remove, contains, ltb, leb, nat_eq, if◌then◌else◌,
}
use gqlize.Valkey.Transaction.{add_each}

abbrev pub join : String → String → String
join a b = String.◌++◌ a b

-- What is cached: the model, the operation, and what the code reads of the options and the context.
pub record CachedRead (Context Options : Type 0) : Type 0 where
  pub def_name : String
  pub operation : String
  pub context : Context
  pub options : Options
  pub in_transaction : Bool
  pub tags : List String

-- `options.exclude`
pub data Exclude (Context Options : Type 0) : Type 0 where
  nothing : Exclude Context Options
  names : List String → Exclude Context Options
  test : (String → String → Context → Bool) → Exclude Context Options

-- The definition's own settings: it opted out, opted in, or says nothing.
pub data DefinitionCache : Type 0 where
  opted_out opted_in silent : DefinitionCache

-- The options and the host, with `fingerprint` and `hash`. `vary` gives the JSON of what the caller's
-- function returns, `none` where that throws; `absent` stands for no function.
pub record CacheOptions (Context Options : Type 0) : Type 0 where
  pub exclude : Exclude Context Options
  pub hooks_cached : Bool
  pub vary : Option (Context → Option String)
  pub max_entry_size : Option ℕ
  pub definition_cache : String → DefinitionCache
  pub has_opaque_hooks : String → String → Bool
  pub fingerprint : Options → Option String
  pub hash : String → String
  pub sort : List String → List String

abbrev pub oversized_memory : ℕ
oversized_memory = 1000

module _ {Context Options : Type 0} (c : CacheOptions Context Options) where
  unfoldable pub excluded : CachedRead Context Options → Bool
  excluded r = elim c.exclude [
    | nothing ↦ false
    | names ns ↦ contains ns r.def_name
    | test p ↦ p r.def_name r.operation r.context
  ]

  abbrev pub is_opted_out : DefinitionCache → Bool
  is_opted_out opted_out = true
  is_opted_out d = false

  abbrev pub is_silent : DefinitionCache → Bool
  is_silent silent = true
  is_silent d = false

  -- The part of the fingerprint that `vary` gives; `none` where it throws.
  abbrev pub vary_part : Option (Context → Option String) → Context → Option String
  vary_part none context = some ""
  vary_part (some f) context = elim (f context) [ none ↦ none | some s ↦ some (join "v:" s) ]

  abbrev pub shape_text : CachedRead Context Options → String → String → String
  shape_text r described vary =
      join r.def_name
        (join ":" (join r.operation (join ":" (c.hash (join described (join "|" vary))))))

  abbrev pub described_shape :
      CachedRead Context Options → Option String → Option String → Option (String × List String)
  described_shape r (some described) (some vary) =
      some (shape_text r described vary, c.sort (add_each r.tags []))
  described_shape r (some described) none = none
  described_shape r none vary = none

  unfoldable pub shape_of : CachedRead Context Options → Option (String × List String)
  unfolding excluded
  shape_of r =
      let own = c.definition_cache r.def_name in
      if r.in_transaction
      then none
      else if is_opted_out own || excluded r
      then none
      else if is_silent own && (not c.hooks_cached && c.has_opaque_hooks r.def_name r.operation)
      then none
      else described_shape r (c.fingerprint r.options) (vary_part c.vary r.context)

  abbrev pub max_size : Option ℕ → ℕ
  max_size none = 1048576
  max_size (some n) = n

  unfoldable pub fits : String → Bool
  fits encoded =
      nat_eq (max_size c.max_entry_size) 0 || leb (len encoded) (max_size c.max_entry_size)

abbrev pub drop_first : Dict ℕ → Dict ℕ
drop_first [] = []
drop_first ((k, t) ∷ m) = remove k ((k, t) ∷ m)

-- `rememberOversized`, with the time to try again.
unfoldable pub remember_oversized : String → ℕ → ℕ → Dict ℕ → Dict ℕ
remember_oversized shape ttl now m =
    let added = put shape (now + ttl) (remove shape m) in
    if ltb oversized_memory (length added) then drop_first added else added
