-- ===== src/Snapshot/Reachability.antt =====
-- packages/gqlize/src/graphql/snapshot/reachability.ts. A type is known by its name, which is unique in
-- a schema, and a reference to a type is the name of its named type.
use gqlize.Common.{
  length, ℕ, zero, suc, String, Bool, true, false, ◌||◌, Option, none, some, List, [], ◌∷◌, ◌++◌,
  keep, contains, ◌==◌, if◌then◌else◌,
}

-- `readBinding(field)?.kind`
pub data Binding : Type 0 where
  node_field extend other_kind : Binding

-- A field of an object or an interface: its type, the types of its arguments, and its binding.
pub record Field : Type 0 where
  pub type : String
  pub args : List String
  pub binding : Option Binding

pub data NamedType : Type 0 where
  object_type interface_type : List String → List Field → NamedType
  union_type : List String → NamedType
  input_type : List String → NamedType
  enum_type : NamedType
  scalar_type : Bool → NamedType

-- `GraphQLSchema`: the types by name, in the order of the type map, and which are introspection's.
pub record Schema : Type 0 where
  pub type_names : List String
  pub type_of : String → NamedType
  pub is_introspection : String → Bool
  pub query : Option String
  pub mutation : Option String

abbrev pub has_binding : Binding → Option Binding → Bool
has_binding node_field (some node_field) = true
has_binding extend (some extend) = true
has_binding other_kind (some other_kind) = true
has_binding b o = false

abbrev pub fields_of : NamedType → List Field
fields_of (object_type is fs) = fs
fields_of (interface_type is fs) = fs
fields_of t = []

abbrev pub node_field_of : List Field → Option String
node_field_of [] = none
node_field_of (f ∷ fs) =
    let rest = node_field_of fs in if has_binding node_field f.binding then some f.type else rest

abbrev pub or_node : Schema → Option String → Option String
or_node s (some name) = some name
or_node s none = if contains s.type_names "Node" then some "Node" else none

unfoldable pub find_node_interface_name : Schema → Option String
find_node_interface_name s = elim s.query [
  | none ↦ or_node s none
  | some q ↦ or_node s (node_field_of (fields_of (s.type_of q)))
]

-- The types that a field leads to: none for one that the user supplied to `createSchema`.
abbrev pub field_references : List Field → List String
field_references [] = []
field_references (f ∷ fs) =
    let rest = field_references fs in
    if has_binding extend f.binding then rest else f.type ∷ (f.args ++ rest)

-- The types that `descend` visits, in order.
unfoldable pub references : NamedType → List String
references (object_type is fs) = is ++ field_references fs
references (interface_type is fs) = is ++ field_references fs
references (union_type ts) = ts
references (input_type ts) = ts
references enum_type = []
references (scalar_type specified) = []

abbrev pub is_specified : NamedType → Bool
is_specified (scalar_type specified) = specified
is_specified t = false

abbrev pub is_named : String → Option String → Bool
is_named n none = false
is_named n (some m) = n == m

-- The locals of the walk; the end of the stack comes first in `pending`.
pub record Walk : Type 0 where
  pub seen : List String
  pub pending : List String

-- The schema, with the names of the ledger's external types.
module _ (s : Schema) (external : List String) where
  unfoldable pub is_boundary : String → Bool
  is_boundary n =
      s.is_introspection n
      || (is_specified (s.type_of n)
          || (is_named n (find_node_interface_name s) || contains external n))

  -- `visit` of each type in order: the queue, and what is seen afterwards.
  unfoldable pub visit_all : List String → List String → List String × List String
  visit_all [] seen = ([], seen)
  visit_all (n ∷ ns) seen =
      let skipped = contains seen n || is_boundary n in
      let rest = visit_all ns (if skipped then seen else seen ++ n ∷ []) in
      if skipped then rest else (n ∷ rest.0, rest.1)

  -- The queue is pushed in reverse, so its first is popped first.
  unfoldable pub descend : String → List String → List String → Walk
  descend n rest seen =
      let visited = visit_all (references (s.type_of n)) seen in
      record { seen = visited.1; pending = visited.0 ++ rest }

  unfoldable pub add_root : Option String → Walk → Walk
  add_root none w = w
  add_root (some root) w =
      if contains w.seen root
      then w
      else record { seen = w.seen ++ root ∷ []; pending = root ∷ w.pending }

  unfoldable pub roots : Walk
  roots = add_root s.mutation (add_root s.query (record { seen = []; pending = [] }))

  -- The loop, which pops one type in each round.
  unfoldable pub walk : ℕ → List String → List String → Option (List String)
  walk fuel seen [] = some seen
  walk zero seen (n ∷ rest) = none
  walk (suc fuel) seen (n ∷ rest) =
      let next = descend n rest seen in walk fuel next.seen next.pending

  -- Each type of the schema is popped once at most.
  unfoldable pub collect_snapshot_types : Option (List String)
  collect_snapshot_types = elim (walk (length s.type_names) roots.seen roots.pending) [
    | none ↦ none
    | some seen ↦ some (keep (contains seen) s.type_names)
  ]
