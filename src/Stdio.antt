-- ===== src/Stdio.antt =====
-- jsonrpcstdio: the two framings of messages on a byte stream, and the client and the server over it.
pub mod Stream
pub mod ContentLength
pub mod Ndjson
pub mod Client
pub mod Serve
