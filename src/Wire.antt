-- ===== src/Wire.antt =====
-- packages/gqlize/src/codecs: the cursors and the ids that a client holds.
pub mod Text
pub mod Decimals
pub mod Cursors
pub mod CursorTrips
pub mod Ids
pub mod Longest
pub mod IdTrips
mod Examples
