-- ===== src/System/Echoing.antt =====
-- sdk/js/examples/echo-client.ts against sdk/js/examples/echo-server.ts.
use ibridger.Common.{ℕ, ◌^◌, ◌<◌, ◌≡◌, refl, ◌∙◌, ap, arith, none, some}
use ibridger.Common.Text.{Text, Bytes, text_dec}
use ibridger.Errors.{ok}
use ibridger.Proto.Runtime.{Runtime, IsRuntime, IsText}
use ibridger.Proto.Longs.{Longs, IsLongs}
use ibridger.Proto.Envelope.{Envelope}
use ibridger.Proto.Envelope.RoundTrip.{IsEncodable}
use ibridger.Proto.EchoRequest
use ibridger.Proto.EchoResponse
use ibridger.Proto.EchoResponse.{EchoResponse}
use ibridger.Rpc.Server.{dispatch, typed_method}
use ibridger.Rpc.Server.Builtin.{new_services}
use ibridger.Rpc.Server.Registry.{find_handler, find_handler-register}
use ibridger.Rpc.Client.{Running, receiving, request_envelope}
use ibridger.Examples.{
  echo_request, echo_call, echo_response, echo_handler, echo_methods, echo_server,
  echo_service_name, echo_method_name,
}
use ibridger.System.{exchange, exchange_lem}

-- The client's call at its await of the response.
abbrev pub echoing : Runtime → Text → ℕ → ℕ → Running EchoResponse
echoing w text timeout_ms id = record {
  call = echo_call w text;
  id = id;
  timeout_ms = timeout_ms;
  await = receiving;
}

abbrev pub echo_payload : Runtime → Text → Bytes
echo_payload w text = EchoRequest.encode w (echo_request w text)

abbrev pub echo_envelope : Runtime → Longs → Text → ℕ → Envelope
echo_envelope w l text id = request_envelope l (echo_call w text) id (echo_payload w text)

module _ (w : Runtime) (l : Longs) (to_upper : Text → Text) where
  find_echo :
      find_handler (echo_server w l to_upper) echo_service_name echo_method_name
      ≡ some (echo_handler w l to_upper)
  unfolding echo_server text_dec
  find_echo =
      find_handler-register echo_service_name (echo_methods w l to_upper) (new_services w l none)
        echo_service_name echo_method_name

  echo_handler_lem :
      IsRuntime w
      → (now : ℕ) (text : Text) → IsText w text
      → echo_handler w l to_upper now (echo_payload w text)
        ≡ ok (EchoResponse.encode w (echo_response w l to_upper now (echo_request w text)))
  unfolding echo_handler typed_method
  echo_handler_lem laws now text h =
      rw (EchoRequest.read_back w laws (echo_request w text) (record { message = h })) refl

-- The example client's call of the example server resolves, over an undisturbed connection that
-- carries both envelopes, with the message in upper case and the time at which the handler ran.
-- Both texts are Unicode texts, and the call's id and the time are below 2^53.
pub echo_lem :
    (w : Runtime)
    → IsRuntime w
    → (l : Longs) → IsLongs l
    → (to_upper : Text → Text) (text : Text) (timeout_ms id now : ℕ) → id < 2 ^ 53
    → now < 2 ^ 53
    → IsText w text
    → IsText w (to_upper text)
    → IsEncodable w (echo_envelope w l text id)
    → IsEncodable w (dispatch (echo_server w l to_upper) now (echo_envelope w l text id))
    → exchange w l
        (echo_server w l to_upper)
        now
        (echoing w text timeout_ms id)
        (echo_payload w text)
      ≡ ok (record { message = some (to_upper text); timestamp_ms = some now })
unfolding echo_response
echo_lem w laws l exact to_upper text timeout_ms id now fresh soon ht hu hq hr =
    let e : l.from_number now ≡ now = exact.from_number_exact now soon in
    (exchange_lem w laws l exact (echo_server w l to_upper) now (echoing w text timeout_ms id)
        (echo_payload w text) fresh hq (tt, tt) hr).0
      (echo_handler w l to_upper) (find_echo w l to_upper)
    ∙ rw (echo_handler_lem w l to_upper laws now text ht) (
        EchoResponse.read_back w laws (echo_response w l to_upper now (echo_request w text))
          (record { message = hu; timestamp_ms = omega (arith, e) }))
    ∙ ap (λ (t : ℕ). ok (record { message = some (to_upper text); timestamp_ms = some t })) e
