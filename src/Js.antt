-- ===== src/Js.antt =====
-- The values of the program's language that filters, rules and results hold.
pub mod Value
pub mod Indexed
