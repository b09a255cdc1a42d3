-- ===== src/Protocol.antt =====
-- sdk/js/src/protocol: frames over a connection, and envelopes over frames.
pub mod Framing
pub mod EnvelopeCodec
