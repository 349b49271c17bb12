-- ===== src/Text.antt =====
-- What the sources use of Go's `bytes` and `strconv`: white space, decimal numbers, case folding.
pub mod Space
pub mod Decimal
