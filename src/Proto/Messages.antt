-- ===== src/Proto/Messages.antt =====
-- sdk/js/src/generated/proto.js: the small messages together.
use ibridger.Common.{◌≢◌}
use ibridger.Common.Text.{Bytes}
use ibridger.Errors.{err, exhausted}
use ibridger.Proto.Runtime.{Runtime, IsRuntime}
use ibridger.Proto.Ping
use ibridger.Proto.Ping.{decode_ping-ne-exhausted}
use ibridger.Proto.Pong
use ibridger.Proto.Pong.{decode_pong-ne-exhausted}
use ibridger.Proto.ServiceDescriptor
use ibridger.Proto.ServiceDescriptor.{decode_descriptor-ne-exhausted}
use ibridger.Proto.EchoRequest
use ibridger.Proto.EchoRequest.{decode_echo_request-ne-exhausted}
use ibridger.Proto.EchoResponse
use ibridger.Proto.EchoResponse.{decode_echo_response-ne-exhausted}

-- Under the laws of protobufjs's Reader, the decoders of Ping, Pong, ServiceDescriptor,
-- EchoRequest and EchoResponse give a message or throw an error of the reader on any bytes: their
-- loops end within the rounds that the model allows.
pub decoders-ne-exhausted :
    (w : Runtime)
    → IsRuntime w
    → (b : Bytes)
    → (Ping.decode w b ≢ err exhausted)
      × (Pong.decode w b ≢ err exhausted)
      × (ServiceDescriptor.decode w b ≢ err exhausted)
      × (EchoRequest.decode w b ≢ err exhausted)
      × (EchoResponse.decode w b ≢ err exhausted)
decoders-ne-exhausted w laws b = (
  decode_ping-ne-exhausted w laws b,
  decode_pong-ne-exhausted w laws b,
  decode_descriptor-ne-exhausted w laws b,
  decode_echo_request-ne-exhausted w laws b,
  decode_echo_response-ne-exhausted w laws b,
)
