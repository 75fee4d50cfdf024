-- ===== src/Valkey.antt =====
-- packages/ormize-adapter-valkey/src: the filter semantics, the executors and the index plan.
pub mod Match
pub mod Transaction
pub mod Buffer
pub mod Sets
pub mod Overlay
pub mod Commit
pub mod Indexes
mod Kinds
pub mod Membership
pub mod Direct
pub mod Plan
pub mod Planner
mod Filters
pub mod Candidates
mod Conditions
mod Searches
mod Found
mod Steps
mod Asked
mod Added
mod Answers
pub mod Queried
mod Examples
mod QueryExamples
