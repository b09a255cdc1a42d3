-- ===== src/Lib.antt =====
-- The JavaScript SDK of ibridger, a request and response protocol over local stream sockets.
--
-- A server (sdk/js/src/rpc/server.ts) and a client (sdk/js/src/rpc/client.ts) exchange envelopes
-- (sdk/js/src/generated/proto.js). A codec (sdk/js/src/protocol/envelope-codec.ts) turns an envelope
-- into a frame, a 4-byte length and a payload (sdk/js/src/protocol/framing.ts), and a connection
-- (sdk/js/src/transport/unix-socket.ts) buffers the bytes of the socket until a reader asks for them.
--
-- Files, each with its children:
--   Common                 lists, tests, texts and association lists that the rest shares
--   Errors                 TransportError, RpcError, TimeoutError and other thrown values
--   Transport.Connection   UnixSocketConnection: `on_data`, `on_close`, `on_error` are the handlers of
--                          its constructor, `recv`, `send`, `close`, `splice`, `drain_waiters` its
--                          methods; `step` is one event or call, and `run` a sequence of them
--   Protocol.Framing       FramedConnection: `send_frame` is sendFrame; `begin`, `on_header` and
--                          `resume` are the parts of recvFrame between its awaits; below it,
--                          Receiving is a reader of frames, Parsing the reference for it, and
--                          Overtaking two calls of recvFrame at once
--   Protocol.EnvelopeCodec EnvelopeCodec
--   Proto                  MessageType, StatusCode, WireConstant and Envelope of the generated code;
--                          Proto.Runtime is protobufjs, Proto.Fields the loop that all decoders share
--   Proto.Ping, Proto.Pong, Proto.ServiceDescriptor, Proto.EchoRequest, Proto.EchoResponse
--                          the other messages; Proto.Longs is what the code uses of the package long.
--                          Each message has a child Objects with verify, fromObject, toObject, toJSON
--                          and getTypeUrl; Proto.Objects is JavaScript's values and what they share
--   Rpc.Server             IBridgerServer: `register`, `dispatch`, and typedMethod;
--                          Rpc.Server.Builtin is the constructor and the built-in Ping service,
--                          Rpc.Server.Lifecycle its `start`, `stop` and `handle_connection`;
--                          Rpc.Server.Loop is dispatchLoop on a connection, cut at its awaits into
--                          the cases of `turn_at`; its Host is the registry and the clock at
--                          every moment, since `register` may run meanwhile
--   Transport.Listener     UnixSocketServer
--   Rpc.Client             IBridgerClient: `connect`, `disconnect`, and `call` cut at its two awaits
--                          into `start_call`, `after_send` and `after_recv`; Rpc.Client.Backoff is the
--                          loop of scheduleReconnect alone, Rpc.Client.Ping is `ping`, and
--                          Rpc.Client.Session has connections lost and found again beside the calls:
--                          `begin_connect`/`after_open`, `lose`, `schedule_reconnect`,
--                          `begin_attempt`/`after_attempt`, `call_on`/`check_reconnect`
--   System                 a client's call against a server's dispatch, through the encoded envelopes;
--                          System.Serving is a stream of requests through dispatchLoop on a connection
--   Examples               the service of sdk/js/examples/echo-server.ts and the call of
--                          sdk/js/examples/echo-client.ts
--   Tests                  runs and instances at concrete inputs
--
-- How the code is read. JavaScript strings are lists of UTF-16 code units and buffers lists of bytes.
-- A promise is a number; a state logs how each was settled, and the order of events is an argument of
-- `run`, so that every interleaving is covered. An own property of a message is `some`, an absent one
-- `none`, read as the prototype's value. Integers of the wire are bit patterns with their width stated
-- where it matters. The client's request counter is a double: it stays at 2^53. The delays
-- before reconnections are doubles too: a natural number below 2^1024, Infinity or NaN.
--
-- Fuel. `read_fields` takes fuel: one round more than there are bytes, since each round reads a
-- tag of at least one byte. So does the reference parser of frames, which takes four bytes a
-- round. `exhausted` is the result of a loop out of fuel.
--
-- Parameters. protobufjs's Reader and Writer (Proto.Runtime, with the documented laws in IsRuntime
-- and a runtime that meets them in Proto.Runtime.Plain), `long` and Number() on it (Proto.Longs),
-- the util of protobufjs and JavaScript's conversions (Proto.Objects.Util, its laws in
-- Proto.Objects.Laws, an instance in Proto.Objects.Plain), the handlers of services, the coding of
-- requests and responses, the clock, String's toUpperCase, and what the socket does.
--
-- Not modelled. The order of integer-like keys of a plain object, which JavaScript puts first; the
-- branches of the generated code for an environment without the package long; hooks that call the
-- client back at once; the output, signals and command lines of the examples; the C++ SDK.
pub mod Common
pub mod Errors
pub mod Transport
pub mod Protocol
pub mod Proto
pub mod Rpc
pub mod System
pub mod Examples
pub mod Tests
