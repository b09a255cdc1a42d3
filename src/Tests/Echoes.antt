-- ===== src/Tests/Echoes.antt =====
-- sdk/js/examples/echo-client.ts against sdk/js/examples/echo-server.ts at a concrete message.
use ibridger.Common.{◌-◌, ◌≡◌, refl, arith, some, map, ◌&&◌, leb, if◌then◌else◌}
use ibridger.Common.Text.{Text, codes, text_dec}
use ibridger.Common.Assoc
use ibridger.Errors.{ok}
use ibridger.Proto.Envelope.RoundTrip.{IsEncodable}
use ibridger.Proto.EchoRequest
use ibridger.Proto.EchoResponse
use ibridger.Proto.Fields.{read_fields, taken}
use ibridger.Proto.Runtime.Plain.{
  plain_runtime, plain_runtime-IsRuntime, all_ascii, write, write_bytes, read, read_bytes,
}
use ibridger.Rpc.Server.{typed_method, register, set_methods, dispatch, answer}
use ibridger.Rpc.Server.Builtin.{new_services, register_builtin_ping}
use ibridger.Examples.{echo_server, echo_handler, echo_response}
use ibridger.System.{exchange}
use ibridger.System.Echoing.{echoing, echo_payload, echo_envelope, echo_lem}
use ibridger.Tests.Clients.{longs, longs-IsLongs}

-- `toUpperCase` on texts of ASCII.
abbrev upper : Text → Text
upper t = map (λ c. if leb 97 c && leb c 122 then c - 32 else c) t

abbrev hi : Text
hi = codes "hi"

echo_request-IsEncodable : IsEncodable plain_runtime (echo_envelope plain_runtime longs hi 1)
unfolding all_ascii EchoRequest.encode write write_bytes
echo_request-IsEncodable = record {
  type = omega arith;
  request_id = omega arith;
  service_name = (refl, omega arith);
  method_name = (refl, omega arith);
  payload = omega arith;
  status = tt;
  error_message = tt;
  metadata = tt;
}

echo_response-IsEncodable :
    IsEncodable plain_runtime (
      dispatch
        (echo_server plain_runtime longs upper)
        1700
        (echo_envelope plain_runtime longs hi 1))
unfolding read_fields dispatch answer Assoc.get Assoc.set text_dec all_ascii new_services
    register_builtin_ping register set_methods echo_server echo_handler echo_response typed_method
    EchoRequest.encode EchoResponse.encode EchoRequest.decode EchoRequest.decode_from
    EchoRequest.echo_request_field write write_bytes taken read read_bytes
echo_response-IsEncodable = record {
  type = omega arith;
  request_id = omega arith;
  service_name = tt;
  method_name = tt;
  payload = omega arith;
  status = omega arith;
  error_message = tt;
  metadata = tt;
}

echo_lem_example :
    exchange plain_runtime longs
      (echo_server plain_runtime longs upper)
      1700
      (echoing plain_runtime hi 30000 1)
      (echo_payload plain_runtime hi)
    ≡ ok (record { message = some (codes "HI"); timestamp_ms = some 1700 })
unfolding all_ascii
echo_lem_example =
    echo_lem plain_runtime plain_runtime-IsRuntime longs longs-IsLongs upper hi 30000 1 1700
      (omega arith) (omega arith) (refl, omega arith) (refl, omega arith) echo_request-IsEncodable
      echo_response-IsEncodable
