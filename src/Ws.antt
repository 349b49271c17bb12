-- ===== src/Ws.antt =====
-- jsonrpcws: the server of a WebSocket connection. The client of this package is not modelled.
pub mod Serve
