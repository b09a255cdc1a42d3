-- ===== src/Tests/Messages.antt =====
-- The small messages of sdk/js/src/generated/proto.js and the built-in Ping at concrete inputs.
use ibridger.Common.{◌+◌, ◌≡◌, ◌≢◌, refl, arith, none, some, List, [], ◌∷◌, ◌++◌, length}
use ibridger.Common.Text.{Text, codes, text_dec}
use ibridger.Common.Assoc
use ibridger.Errors.{ok, err, exhausted}
use ibridger.Proto.Fields.{at, read_fields}
use ibridger.Proto.Runtime.Plain.{
  plain_runtime, plain_runtime-IsRuntime, all_ascii, write, write_bytes,
}
use ibridger.Proto.Envelope.RoundTrip.{IsEncodable}
use ibridger.Proto.Ping
use ibridger.Proto.Ping.{Ping, decode-encode_ping}
use ibridger.Proto.Pong
use ibridger.Proto.Pong.{Pong, decode-encode_pong}
use ibridger.Proto.ServiceDescriptor
use ibridger.Proto.ServiceDescriptor.{ServiceDescriptor, decode-encode_descriptor}
use ibridger.Proto.EchoRequest
use ibridger.Proto.EchoResponse
use ibridger.Proto.Messages.{decoders-ne-exhausted}
use ibridger.Rpc.Server.{typed_method, register, set_methods, dispatch, answer, ServiceDefinition}
use ibridger.Rpc.Server.Builtin.{new_services, register_all, register_builtin_ping, ping_handler}
use ibridger.System.{exchange}
use ibridger.System.Pinging.{ping_lem, pinging, ping_request, with_builtins}
use ibridger.Tests.Clients.{longs, longs-IsLongs, echo}

abbrev from_cli : Ping
from_cli = record { client_id = some (codes "cli") }

decode-encode_ping_example :
    (Ping.decode plain_runtime (Ping.encode plain_runtime from_cli) ≡ ok from_cli)
    × (Ping.decode_delimited plain_runtime
          (at 4 (Ping.encode_delimited plain_runtime from_cli ++ 7 ∷ []))
        ≡ ok (from_cli, at (4 + length (Ping.encode_delimited plain_runtime from_cli)) (7 ∷ [])))
unfolding Ping.encode write write_bytes all_ascii
decode-encode_ping_example =
    decode-encode_ping plain_runtime plain_runtime-IsRuntime from_cli (7 ∷ []) 4
      (record { client_id = (refl, omega arith) }) (omega arith)

abbrev pub answered : Pong
answered = record { server_id = some (codes "srv"); timestamp_ms = some 300 }

decode-encode_pong_example :
    (Pong.decode plain_runtime (Pong.encode plain_runtime answered) ≡ ok answered)
    × (Pong.decode_delimited plain_runtime
          (at 0 (Pong.encode_delimited plain_runtime answered ++ []))
        ≡ ok (answered, at (0 + length (Pong.encode_delimited plain_runtime answered)) []))
unfolding Pong.encode write write_bytes all_ascii
decode-encode_pong_example =
    decode-encode_pong plain_runtime plain_runtime-IsRuntime answered [] 0
      (record { server_id = (refl, omega arith); timestamp_ms = omega arith }) (omega arith)

abbrev pub described : ServiceDescriptor
described = record { name = some (codes "Echo"); methods = codes "a" ∷ codes "b" ∷ [] }

decode-encode_descriptor_example :
    (ServiceDescriptor.decode plain_runtime (ServiceDescriptor.encode plain_runtime described)
      ≡ ok described)
    × (ServiceDescriptor.decode_delimited plain_runtime
          (at 0 (ServiceDescriptor.encode_delimited plain_runtime described ++ []))
        ≡ ok (
          described,
          at (0 + length (ServiceDescriptor.encode_delimited plain_runtime described)) [],
        ))
unfolding ServiceDescriptor.encode ServiceDescriptor.encode_methods write write_bytes all_ascii
decode-encode_descriptor_example =
    decode-encode_descriptor plain_runtime plain_runtime-IsRuntime described [] 0
      (record {
        name = (refl, omega arith);
        methods = ((refl, omega arith), ((refl, omega arith), tt));
      })
      (omega arith)

-- A tag of field 1 with its text cut off.
decoders-ne-exhausted_example :
    (Ping.decode plain_runtime (10 ∷ 5 ∷ []) ≢ err exhausted)
    × (Pong.decode plain_runtime (10 ∷ 5 ∷ []) ≢ err exhausted)
    × (ServiceDescriptor.decode plain_runtime (10 ∷ 5 ∷ []) ≢ err exhausted)
    × (EchoRequest.decode plain_runtime (10 ∷ 5 ∷ []) ≢ err exhausted)
    × (EchoResponse.decode plain_runtime (10 ∷ 5 ∷ []) ≢ err exhausted)
decoders-ne-exhausted_example =
    decoders-ne-exhausted plain_runtime plain_runtime-IsRuntime (10 ∷ 5 ∷ [])

abbrev echoes : List (Text × ServiceDefinition)
echoes = (codes "Echo", (codes "echo", echo) ∷ []) ∷ []

ping_request-IsEncodable : IsEncodable plain_runtime (ping_request plain_runtime longs 1)
unfolding all_ascii Ping.encode
ping_request-IsEncodable = record {
  type = omega arith;
  request_id = omega arith;
  service_name = (refl, omega arith);
  method_name = (refl, omega arith);
  payload = omega arith;
  status = tt;
  error_message = tt;
  metadata = tt;
}

pong_response-IsEncodable :
    IsEncodable plain_runtime (
      dispatch (with_builtins plain_runtime longs echoes) 1700 (ping_request plain_runtime longs 1))
unfolding read_fields dispatch answer Assoc.get Assoc.set text_dec all_ascii new_services
    register_all register_builtin_ping register set_methods ping_handler typed_method Ping.encode
    Pong.encode Ping.decode Ping.decode_from write write_bytes
pong_response-IsEncodable = record {
  type = omega arith;
  request_id = omega arith;
  service_name = tt;
  method_name = tt;
  payload = omega arith;
  status = omega arith;
  error_message = tt;
  metadata = tt;
}

ping_lem_example :
    exchange plain_runtime longs
      (with_builtins plain_runtime longs echoes)
      1700
      (pinging plain_runtime none 30000 1)
      (Ping.encode plain_runtime Ping.empty)
    ≡ ok (record { server_id = some (codes "ibridger-server"); timestamp_ms = some 1700 })
unfolding all_ascii
ping_lem_example =
    ping_lem plain_runtime plain_runtime-IsRuntime longs longs-IsLongs echoes ((λ e. cc), tt) none
      30000 1 1700 (omega arith) (omega arith) (refl, omega arith) ping_request-IsEncodable
      pong_response-IsEncodable
