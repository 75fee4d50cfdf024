-- ===== src/ReadCache.antt =====
-- packages/ormize/src/read-cache: the in-process store behind the read cache.
pub mod Memory
mod Accounts
pub mod Limits
pub mod Recency
pub mod Cache
mod Oversized
pub mod Reads
mod Current
mod Examples
mod ReadExamples
