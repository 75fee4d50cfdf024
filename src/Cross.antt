-- ===== src/Cross.antt =====
-- packages/ormize/src/cross-adapter.ts: relationships whose two ends live on different adapters.
pub mod Host
pub mod Keys
pub mod Accessors
pub mod Edges
pub mod Store
pub mod Linked
pub mod Links
pub mod Linking
pub mod Replaced
pub mod Denied
pub mod Reached
mod Examples
