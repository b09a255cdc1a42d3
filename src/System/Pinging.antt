-- ===== src/System/Pinging.antt =====
-- `ping` of sdk/js/src/rpc/client.ts against the built-in service of sdk/js/src/rpc/server.ts.
use ibridger.Common.{ℕ, ◌^◌, ◌<◌, ◌≡◌, ◌∙◌, ap, arith, Option, none, some, List}
use ibridger.Common.Text.{Text}
use ibridger.Errors.{ok}
use ibridger.Proto.Runtime.{Runtime, IsRuntime, IsText}
use ibridger.Proto.Longs.{Longs, IsLongs}
use ibridger.Proto.Envelope.{Envelope}
use ibridger.Proto.Envelope.RoundTrip.{IsEncodable}
use ibridger.Proto.Ping
use ibridger.Proto.Pong
use ibridger.Proto.Pong.{Pong}
use ibridger.Rpc.Server.{ServiceDefinition, Services, dispatch}
use ibridger.Rpc.Server.Builtin.{
  ping_handler, ping_handler_lem, pong_at, new_services, register_all, NoPing, find_ping,
  ping_server_id,
}
use ibridger.Rpc.Client.{Running, receiving, request_envelope}
use ibridger.Rpc.Client.Ping.{ping_call}
use ibridger.System.{exchange, exchange_lem}

-- A server with the built-in services and more.
abbrev pub with_builtins : Runtime → Longs → List (Text × ServiceDefinition) → Services
with_builtins w l more = register_all more (new_services w l none)

-- A `ping` without metadata, at its await of the response.
abbrev pub pinging : Runtime → Option ℕ → ℕ → ℕ → Running Pong
pinging w timeout timeout_ms id = record {
  call = ping_call w timeout none;
  id = id;
  timeout_ms = timeout_ms;
  await = receiving;
}

abbrev pub ping_request : Runtime → Longs → ℕ → Envelope
ping_request w l id = request_envelope l (ping_call w none none) id (Ping.encode w Ping.empty)

-- A `ping` without metadata to a server that was made with the built-in services, and on which
-- services of other names were registered since, resolves over an undisturbed connection with the
-- server's id and the time at which its handler ran. The connection carries both envelopes, the
-- server's id is a Unicode text, and the call's id and the time are below 2^53.
pub ping_lem :
    (w : Runtime)
    → IsRuntime w
    → (l : Longs) → IsLongs l
    → (more : List (Text × ServiceDefinition)) → NoPing more
    → (timeout : Option ℕ) (timeout_ms id now : ℕ) → id < 2 ^ 53
    → now < 2 ^ 53
    → IsText w ping_server_id
    → IsEncodable w (ping_request w l id)
    → IsEncodable w (dispatch (with_builtins w l more) now (ping_request w l id))
    → exchange w l
        (with_builtins w l more)
        now
        (pinging w timeout timeout_ms id)
        (Ping.encode w Ping.empty)
      ≡ ok (record { server_id = some ping_server_id; timestamp_ms = some now })
ping_lem w laws l exact more others timeout timeout_ms id now fresh soon named hq hr =
    let e : l.from_number now ≡ now = exact.from_number_exact now soon in
    let read : Ping.decode w (Ping.encode w Ping.empty) ≡ ok Ping.empty =
      Ping.read_back w laws Ping.empty (record { client_id = tt }) in
    (exchange_lem w laws l exact (with_builtins w l more) now (pinging w timeout timeout_ms id)
        (Ping.encode w Ping.empty) fresh hq (tt, tt) hr).0
      (ping_handler w l) (find_ping w l more others)
    ∙ rw (ping_handler_lem w l now (Ping.encode w Ping.empty) Ping.empty read) (
        Pong.read_back w laws (pong_at w l now)
          (record { server_id = named; timestamp_ms = omega (arith, e) }))
    ∙ ap (λ (t : ℕ). ok (record { server_id = some ping_server_id; timestamp_ms = some t })) e
