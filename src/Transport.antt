-- ===== src/Transport.antt =====
-- sdk/js/src/transport: connections over stream sockets, and the listener that accepts them.
pub mod Connection
pub mod Listener
