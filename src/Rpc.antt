-- ===== src/Rpc.antt =====
-- The dispatcher, package jsonrpc at the repository's root, with the wire types of structs/.
pub mod Types
pub mod Config
pub mod Typed
pub mod Methods
pub mod Errors
pub mod Call
pub mod Dispatch
pub mod Wire
pub mod Entries
pub mod Pool
pub mod Raw
