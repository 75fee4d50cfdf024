-- ===== src/Gate.antt =====
-- packages/utilize/src/gate.ts: what a permission bag allows, and row-level scopes.
pub mod Allow
pub mod Allowed
pub mod Where
pub mod Normal
pub mod Merged
pub mod Resolve
pub mod Bind
pub mod Bound
mod Gathered
pub mod Composed
pub mod Resolved
mod Examples
mod BindExamples
