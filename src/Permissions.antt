-- ===== src/Permissions.antt =====
-- packages/utilize/src/permissions.ts: the compiler from a role's rules tree to a permission bag.
pub mod Gates
pub mod Scope
pub mod Bag
pub mod Decisions
mod Verdicts
pub mod Sugar
pub mod Meaning
pub mod Creates
mod Examples
