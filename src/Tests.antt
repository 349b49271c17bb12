-- ===== src/Tests.antt =====
-- The theorems at concrete inputs: a small server, its requests, and the texts of messages.
pub mod Fixtures
pub mod Dispatch
pub mod Messages
pub mod Registry
pub mod Batches
pub mod Frames
pub mod Client
pub mod Http
pub mod Pool
pub mod Serve
pub mod Callers
pub mod Typed
pub mod Methods
pub mod Ws
