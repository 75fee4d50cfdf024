-- ===== src/Guards.antt =====
-- packages/utilize/src/guards.ts: the request guards of the graphql-free front ends.
pub mod Checks
pub mod Oracle
pub mod Output
mod Examples
