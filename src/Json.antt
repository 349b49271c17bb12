-- ===== src/Json.antt =====
-- JSON syntax, as Go's `encoding/json` scans it.
pub mod Scanner
pub mod Compact
