-- ===== src/Ormize/Includes.antt =====
-- `scopeIncludePlan` of packages/ormize/src/scope.ts: the read scopes of an eager-include plan.
use gqlize.Common.{String, Bool, false, Option, none, some, Result, ok, ◌>>=◌, if◌then◌else◌}
use gqlize.Js.Value.{Value, undefined, truthy}
use gqlize.Gate.Allow.{Error}
use gqlize.Gate.Where.{merge_scope_where}
use gqlize.Gate.Resolve.{ResolvedScope, unscoped, denied, scoped}

-- A plan: absent, or levels of relationships, each with its descriptor: the target, the filter, whether
-- the join is required, and the plan below.
mutual
  pub data Plan : Type 0 where
    absent no_level : Plan
    level : Level → Plan → Plan

  pub data Level : Type 0 where
    no_relation : Level
    relation : String → Descriptor → Level → Level

  pub data Descriptor : Type 0 where
    descriptor : String → Value → Option Bool → Plan → Descriptor

abbrev pub is_required : Option Bool → Bool
is_required (some b) = b
is_required none = false

-- The relationship as it is kept under a scope that denies no row outright; `inner` is the plan below.
unfoldable pub kept : String → String → Value → Option Bool → Plan → ResolvedScope → Level → Level
kept name target w required inner (scoped e) more =
    if truthy e.where_part
    then relation name
        (descriptor target (merge_scope_where w e.where_part) (some (is_required required)) inner)
        more
    else relation name (descriptor target w required inner) more
kept name target w required inner unscoped more =
    relation name (descriptor target w required inner) more
kept name target w required inner denied more = more

-- What the caller reads a scope by, and the filter that nothing satisfies, `undefined` where there
-- is none.
pub record Reader : Type 0 where
  pub read_scope_for : String → Result Error ResolvedScope
  pub match_nothing_for : String → Value

module _ (r : Reader) where
  -- A required relationship with a denied target stays, under the filter that nothing satisfies.
  unfoldable pub denied_relation : String → String → Value → Option Bool → Level → Level
  denied_relation name target w required more =
      let none_match = if is_required required then r.match_nothing_for target else undefined in
      if truthy none_match
      then relation name (descriptor target (merge_scope_where w none_match) required absent) more
      else more

  abbrev pub placed :
      String
      → String
      → Value
      → Option Bool
      → ResolvedScope
      → Result Error Plan
      → Result Error Level
      → Result Error Level
  placed name target w required denied inner more = do
    rest ← more
    ok (denied_relation name target w required rest)
  placed name target w required (scoped e) inner more = do
    below ← inner
    rest ← more
    ok (kept name target w required below (scoped e) rest)
  placed name target w required unscoped inner more = do
    below ← inner
    rest ← more
    ok (kept name target w required below unscoped rest)

  unfoldable mutual
    pub scope_include_plan : Plan → Result Error Plan
    scope_include_plan absent = ok absent
    scope_include_plan no_level = ok no_level
    scope_include_plan (level l more) = do
      mapped ← scope_level l
      rest ← scope_include_plan more
      ok (level mapped rest)

    pub scope_level : Level → Result Error Level
    scope_level no_relation = ok no_relation
    scope_level (relation name (descriptor target w required inner) more) = do
      resolved ← r.read_scope_for target
      placed name target w required resolved (scope_include_plan inner) (scope_level more)
