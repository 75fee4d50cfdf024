-- ===== src/Cross/Host.antt =====
-- What packages/ormize/src/cross-adapter.ts calls: `AdapterRoutingHost`, and the `OrmAdapter`s behind
-- it. An awaited call is a step on the world of all datastores, which can throw.
use gqlize.Common.{ℕ, String, Bool, Option, List, [], ◌∷◌, Dict, Result, ok, err}
use gqlize.Js.Value.{Value}
use gqlize.Gate.Resolve.{ScopeOperation}

pub data AssociationType : Type 0 where
  belongs_to has_many has_one belongs_to_many : AssociationType

-- `through` and `other_key` are those of a `belongsToMany`.
pub record Association : Type 0 where
  pub association_type : AssociationType
  pub source : String
  pub target : String
  pub foreign_key : String
  pub source_key : String
  pub target_key : String
  pub through : String
  pub other_key : String

-- The value that a filter asks for, or a list of values, any of which will do.
pub data Wanted : Type 0 where
  one : Value → Wanted
  any_of : List Value → Wanted

-- What `scopedWhere` answers: `false`, or a filter, which may be undefined.
pub data Scoped (Where : Type 0) : Type 0 where
  denied : Scoped Where
  filter : Option Where → Scoped Where

-- An options bag: what `getGraphQLArgs` holds, if it is a function, the bag read as a request, and
-- the members that the accessors look at, and the rest of it, such as a limit and an order. No bag
-- is a bag without them.
pub record Options (Request Where : Type 0) : Type 0 where
  pub graphql_context : Option Request
  pub as_request : Request
  pub transaction : Option ℕ
  pub where_filter : Option Where
  pub through_values : Dict Value
  pub rest : Value

-- What an adapter's `findAll` is told here.
pub record Query (Where : Type 0) : Type 0 where
  pub filter : Option Where
  pub handle : Option ℕ
  pub limit : Option ℕ
  pub with_deleted : Bool
  pub is_system : Bool
  pub rest : Value

-- Awaited calls, in order; the first to throw ends the chain with what was done so far.
module _ (World Fault : Type 0) where
  abbrev pub Act : Type 0 → Type 0
  Act A = World → World × Result Fault A

module _ {World Fault : Type 0} where
  abbrev pub pure : {A : Type 0} → A → Act World Fault A
  pure a w = (w, ok a)

  abbrev pub after :
      {A B : Type 0} → World × Result Fault A → (A → Act World Fault B) → World × Result Fault B
  after (w, ok a) f = f a w
  after (w, err e) f = (w, err e)

  infixl 5 ◌>>>◌
  abbrev pub ◌>>>◌ :
      {A B : Type 0} → Act World Fault A → (A → Act World Fault B) → Act World Fault B
  (m >>> f) w = after (m w) f

  -- A loop of awaited calls.
  unfoldable pub for_each :
      {A : Type 0} → (A → Act World Fault Unit) → List A → Act World Fault Unit
  for_each f [] = pure tt
  for_each f (x ∷ xs) = f x >>> λ _. for_each f xs

-- The host and its adapters, each call by the name of the model it is about.
pub record Host (Request Row Where World Fault : Type 0) : Type 0 where
  pub can_merge : String → Bool
  pub merge_filter_statement : String → String → Wanted → Option Where → Where
  pub value_of : String → Row → String → Value
  pub primary_key : String → String
  pub find_all : String → Query Where → Act World Fault (List Row)
  pub update : String → Row → Dict Value → Options Request Where → Act World Fault Unit
  pub create : String → Dict Value → Option ℕ → Act World Fault Unit
  pub delete : String → Option Where → Option ℕ → Act World Fault Unit
  pub options_for_adapter :
      String → String → Options Request Where → Act World Fault (Options Request Where)
  pub scope_denies : String → ScopeOperation → Request → Act World Fault Bool
  pub scoped_where :
      String
      → ScopeOperation
      → Request
      → Option Where
      → Options Request Where
      → Act World Fault (Scoped Where)
  pub scope_miss : String → ScopeOperation → Act World Fault Unit
  -- the error of a call of `filterMerger` on an adapter that has no `mergeFilterStatement`
  pub cannot_merge : String → Fault
  -- a bag of a transaction alone, read as a request
  pub bag_request : Option ℕ → Request
