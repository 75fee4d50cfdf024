-- ===== src/Snapshot.antt =====
-- packages/gqlize/src/graphql/snapshot: which types of a schema a snapshot carries.
pub mod Reachability
mod Walk
pub mod Reached
mod Examples
