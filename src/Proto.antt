-- ===== src/Proto.antt =====
-- sdk/js/src/generated/proto.js: the enums and messages of the wire protocol.
pub mod MessageType
pub mod StatusCode
pub mod WireConstant
pub mod Runtime
pub mod Fields
pub mod Envelope
pub mod Ping
pub mod Pong
pub mod EchoRequest
pub mod EchoResponse
pub mod ServiceDescriptor
pub mod Messages
pub mod Longs
pub mod Objects
