-- ===== src/Rpc/Server.antt =====
-- sdk/js/src/rpc/server.ts: `typedMethod` and the registry and dispatch of
-- `IBridgerServer`. A handler is given the time at which it runs, in milliseconds.
pub mod Registry
pub mod Dispatch
pub mod Builtin
pub mod Loop
pub mod Lifecycle
use ibridger.Common.{
  ℕ, Bool, true, false, Option, none, some, List, [], ◌∷◌, ◌++◌, get_or_else, if◌then◌else◌,
}
use ibridger.Common.Text.{Text, Bytes, codes}
use ibridger.Common.Assoc.{get, set}
use ibridger.Errors.{Thrown, message, Result, ok, err, ◌>>=◌}
use ibridger.Proto.MessageType
use ibridger.Proto.StatusCode
use ibridger.Proto.Envelope.{
  Envelope, empty, request_id_of, service_name_of, method_name_of, payload_of,
}

-- `MethodHandler`: the payload goes in, and the promise resolves or rejects.
abbrev pub MethodHandler : Type 0
MethodHandler = ℕ → Bytes → Result Bytes

-- `ServiceDefinition`, by `Object.entries`.
abbrev pub ServiceDefinition : Type 0
ServiceDefinition = List (Text × MethodHandler)

-- `services`
abbrev pub Services : Type 0
Services = List (Text × List (Text × MethodHandler))

-- `ProtoType<T>`: both functions may throw.
pub record ProtoType (T : Type 0) : Type 0 where
  pub encode : T → Result Bytes
  pub decode : Bytes → Result T

unfoldable pub typed_method :
    {Req Resp : Type 0} → ProtoType Req → ProtoType Resp → (ℕ → Req → Result Resp) → MethodHandler
typed_method req_type resp_type handler now payload = do
  req ← req_type.decode payload
  resp ← handler now req
  resp_type.encode resp

-- The loop of `register` over the methods.
unfoldable pub set_methods :
    List (Text × MethodHandler) → List (Text × MethodHandler) → List (Text × MethodHandler)
set_methods [] existing = existing
set_methods ((method, handler) ∷ methods) existing =
    set_methods methods (set method handler existing)

unfoldable pub register : Text → ServiceDefinition → Services → Services
unfolding set_methods
register service_name methods services =
    set service_name (set_methods methods (get_or_else (get service_name services) [])) services

unfoldable pub error_envelope : Envelope → ℕ → Text → Envelope
error_envelope request status text = record empty {
  type = some MessageType.error;
  status = some status;
  request_id = some (request_id_of request);
  error_message = some text;
}

abbrev pub or_default : Text → Text → Text
or_default [] default = default
or_default (c ∷ text) default = c ∷ text

-- The `try` around the handler.
unfoldable pub answer : Envelope → Result Bytes → Envelope
unfolding error_envelope
answer request (ok payload) = record empty {
  type = some MessageType.response;
  status = some StatusCode.ok;
  request_id = some (request_id_of request);
  payload = some payload;
}
answer request (err e) =
    error_envelope request StatusCode.internal
      (or_default (message e) (codes "Internal server error"))

unfoldable pub dispatch : Services → ℕ → Envelope → Envelope
unfolding answer error_envelope
dispatch services now request = elim (get (service_name_of request) services) [
  | none ↦
      error_envelope request StatusCode.not_found
        (codes "Service not found: " ++ service_name_of request)
  | some service ↦ elim (get (method_name_of request) service) [
    | none ↦ error_envelope request StatusCode.not_found (
        codes "Method not found: "
        ++ (service_name_of request ++ (codes "/" ++ method_name_of request)))
    | some handler ↦ answer request (handler now (payload_of request))
  ]
]
