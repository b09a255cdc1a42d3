-- ===== src/Examples.antt =====
-- sdk/js/examples/echo-server.ts and sdk/js/examples/echo-client.ts: the Echo service and the call of
-- it. `String.prototype.toUpperCase` is a parameter.
use ibridger.Common.{ℕ, none, some, [], ◌∷◌}
use ibridger.Common.Text.{Text, codes}
use ibridger.Errors.{ok}
use ibridger.Proto.Runtime.{Runtime}
use ibridger.Proto.Longs.{Longs}
use ibridger.Proto.EchoRequest
use ibridger.Proto.EchoRequest.{EchoRequest}
use ibridger.Proto.EchoResponse
use ibridger.Proto.EchoResponse.{EchoResponse}
use ibridger.Rpc.Server.{
  MethodHandler, ServiceDefinition, Services, ProtoType, typed_method, register,
}
use ibridger.Rpc.Server.Builtin.{new_services}
use ibridger.Rpc.Client.{Call}

abbrev pub echo_service_name : Text
echo_service_name = codes "EchoService"

abbrev pub echo_method_name : Text
echo_method_name = codes "Echo"

module _ (w : Runtime) where
  -- `EchoRequest` and `EchoResponse` as `ProtoType`s.
  abbrev echo_request_type : ProtoType EchoRequest
  echo_request_type = record {
    encode = λ m. ok (EchoRequest.encode w m);
    decode = EchoRequest.decode w;
  }

  abbrev echo_response_type : ProtoType EchoResponse
  echo_response_type = record {
    encode = λ m. ok (EchoResponse.encode w m);
    decode = EchoResponse.decode w;
  }

  -- `EchoRequest.create({ message })`
  abbrev pub echo_request : Text → EchoRequest
  echo_request message = record { message = some message }

  -- The arguments of the client's `call`.
  abbrev pub echo_call : Text → Call EchoResponse
  echo_call message = record {
    service = echo_service_name;
    method = echo_method_name;
    encoded = echo_request_type.encode (echo_request message);
    decode = echo_response_type.decode;
    timeout = none;
    metadata = none;
  }

  module _ (l : Longs) (to_upper : Text → Text) where
    -- What the handler resolves with.
    unfoldable pub echo_response : ℕ → EchoRequest → EchoResponse
    echo_response now req = record {
      message = some (to_upper (EchoRequest.message_of req));
      timestamp_ms = some (l.from_number now);
    }

    unfoldable pub echo_handler : MethodHandler
    unfolding typed_method echo_response
    echo_handler =
        typed_method echo_request_type echo_response_type (λ now req. ok (echo_response now req))

    -- The methods that the server registers.
    abbrev pub echo_methods : ServiceDefinition
    echo_methods = (echo_method_name, echo_handler) ∷ []

    -- `server`, after its `register`.
    unfoldable pub echo_server : Services
    echo_server = register echo_service_name echo_methods (new_services w l none)
