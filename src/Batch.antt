-- ===== src/Batch.antt =====
-- handle.go: the byte scans that bound, silence and split a batch before it is decoded.
pub mod Length
pub mod Notifications
pub mod Split
pub mod Text
