-- ===== src/Codec.antt =====
-- Results and rows as JSON texts.
pub mod Datum
pub mod Tags
pub mod RoundTrip
pub mod Rows
pub mod Stored
mod Examples
