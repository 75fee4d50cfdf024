-- ===== src/Ormize.antt =====
-- packages/ormize/src: the transaction coordinator and the engine side of row-level scopes.
pub mod Transaction
pub mod Atomicity
pub mod Scope
pub mod Memo
pub mod Includes
pub mod Covered
mod Examples
mod ScopeExamples
