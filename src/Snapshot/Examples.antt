-- ===== src/Snapshot/Examples.antt =====
-- The walk of packages/gqlize/src/graphql/snapshot/reachability.ts at a concrete schema.
use gqlize.Common.{
  String, true, false, none, some, List, [], ◌∷◌, All, contains, lookup, Dict, ◌≡◌, ◌↔◌, refl, ap,
  subst,
}
use gqlize.Snapshot.Reachability.{
  Field, node_field, extend, NamedType, object_type, interface_type, enum_type, scalar_type, Schema,
  references, find_node_interface_name, is_boundary, walk, roots, add_root, descend, visit_all,
  collect_snapshot_types,
}
use gqlize.Snapshot.Reached.{All-contains, IsReachable, IsClosed, collect_snapshot_types-exact}

abbrev plain : String → List String → Field
plain type args = record { type = type; args = args; binding = none }

-- `User` and `Task` refer to each other; `Stats` is only reached by a field that the user supplied.
abbrev types : Dict NamedType
types =
    (
      "Query",
      object_type [] (
          record { type = "Node"; args = "ID" ∷ []; binding = some node_field }
          ∷ plain "User" ("Order" ∷ [])
          ∷ record { type = "Stats"; args = []; binding = some extend }
          ∷ []),
    )
    ∷ ("Node", interface_type [] (plain "ID" [] ∷ []))
    ∷ ("User", object_type ("Node" ∷ []) (plain "Task" [] ∷ plain "String" [] ∷ []))
    ∷ ("Task", object_type ("Node" ∷ []) (plain "User" [] ∷ plain "Money" [] ∷ []))
    ∷ ("Order", enum_type)
    ∷ ("Stats", object_type [] [])
    ∷ ("Money", scalar_type false)
    ∷ ("ID", scalar_type true)
    ∷ ("String", scalar_type true)
    ∷ []

abbrev schema : Schema
schema = record {
  type_names =
      "Query" ∷ "Node" ∷ "User" ∷ "Task" ∷ "Order" ∷ "Stats" ∷ "Money" ∷ "ID" ∷ "String" ∷ [];
  type_of = λ n. elim (lookup n types) [ none ↦ enum_type | some t ↦ t ];
  is_introspection = λ n. false;
  query = some "Query";
  mutation = none;
}

from_some : {m n : String} → some m ≡ some n → m ≡ n
from_some {m = m} h = ap (λ o. elim o [ none ↦ m | some k ↦ k ]) h

schema-IsClosed : IsClosed schema ("Money" ∷ [])
unfolding lookup references
schema-IsClosed = record {
  has_query = λ n h. subst (λ m. contains schema.type_names m ≡ true) (from_some h) refl;
  has_mutation = λ n h. cc;
  has_references = λ n h.
      All-contains
        (λ k. All (λ m. contains schema.type_names m ≡ true) (references (schema.type_of k)))
        schema.type_names n every h;
}
  where
    every :
        All
          (λ k. All (λ m. contains schema.type_names m ≡ true) (references (schema.type_of k)))
          schema.type_names
    every = (
      (refl, (refl, (refl, (refl, tt)))),
      (
        (refl, tt),
        (
          (refl, (refl, (refl, tt))),
          ((refl, (refl, (refl, tt))), (tt, (tt, (tt, (tt, (tt, tt)))))),
        ),
      ),
    )

collect_snapshot_types-exact_example :
    (ts : List String) × ((collect_snapshot_types schema ("Money" ∷ []) ≡ some ts)
      × ((x : String)
          → (contains ts x ≡ true)
            ↔ ((contains schema.type_names x ≡ true) × IsReachable schema ("Money" ∷ []) x)))
collect_snapshot_types-exact_example =
    collect_snapshot_types-exact schema ("Money" ∷ []) schema-IsClosed

collect_snapshot_types_test :
    collect_snapshot_types schema ("Money" ∷ []) ≡ some ("Query" ∷ "User" ∷ "Task" ∷ "Order" ∷ [])
unfolding collect_snapshot_types walk roots add_root descend visit_all references lookup is_boundary
    find_node_interface_name
collect_snapshot_types_test = refl
