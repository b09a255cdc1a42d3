-- ===== src/Rpc.antt =====
-- sdk/js/src/rpc: the server and the client.
pub mod Server
pub mod Client
