-- ===== src/Tests/Servers.antt =====
-- sdk/js/src/rpc/server.ts at concrete inputs.
use ibridger.Common.{
  ℕ, ◌≡◌, ◌↔◌, refl, ite, false, true, Option, none, some, List, [], ◌∷◌, ◌++◌, map, inl,
}
use ibridger.Common.Text.{Text, codes, text_dec}
use ibridger.Errors.{Result, ok, err, plain}
use ibridger.Proto.Envelope.{Envelope, empty, status_of}
use ibridger.Rpc.Server.{MethodHandler, Services, ServiceDefinition, register, dispatch}
use ibridger.Rpc.Server.Registry.{find_handler, last_entry, find_handler-register}
use ibridger.Rpc.Server.Dispatch.{Conforms, dispatch-Conforms, dispatch_status}

abbrev echo : MethodHandler
echo now payload = ok payload

abbrev broken : MethodHandler
broken now payload = err (plain [])

abbrev methods : ServiceDefinition
methods = (codes "echo", echo) ∷ (codes "broken", broken) ∷ []

abbrev services : Services
services = (codes "Echo", methods) ∷ []

abbrev asking : Text → Text → Envelope
asking service method = record empty {
  request_id = some 7;
  service_name = some service;
  method_name = some method;
  payload = some (1 ∷ 2 ∷ []);
}

abbrev echo_request : Envelope
echo_request = asking (codes "Echo") (codes "echo")

replies :
    (status_of (dispatch services 0 echo_request) ≡ 0)
    × (status_of (dispatch services 0 (asking (codes "Echo") (codes "none"))) ≡ 2)
    × (status_of (dispatch services 0 (asking (codes "None") (codes "echo"))) ≡ 2)
    × ((dispatch services 0 (asking (codes "Echo") (codes "broken"))).error_message
        ≡ some (codes "Internal server error"))
unfolding dispatch ibridger.Common.Assoc.get text_dec ibridger.Errors.message
replies = (refl, refl, refl, refl)

dispatch-Conforms_example : Conforms echo_request (dispatch services 0 echo_request)
dispatch-Conforms_example = dispatch-Conforms services 0 echo_request

dispatch_status_example :
    ((status_of (dispatch services 0 echo_request) ≡ 2)
      ↔ (find_handler services (codes "Echo") (codes "echo") ≡ none))
    × (((status_of (dispatch services 0 echo_request) ≡ 0)
          × ((dispatch services 0 echo_request).payload ≡ some (1 ∷ 2 ∷ [])))
        ↔ ((h : MethodHandler) × (find_handler services (codes "Echo") (codes "echo") ≡ some h)
            × (h 0 (1 ∷ 2 ∷ []) ≡ ok (1 ∷ 2 ∷ []))))
dispatch_status_example = dispatch_status services 0 echo_request (1 ∷ 2 ∷ [])

find_handler-register_example :
    find_handler
      (register (codes "Echo") ((codes "echo", broken) ∷ []) services)
      (codes "Echo")
      (codes "echo")
    ≡ ite
        (text_dec (codes "Echo") (codes "Echo"))
        (last_entry
          (codes "echo")
          ((codes "echo", broken) ∷ [])
          (find_handler services (codes "Echo") (codes "echo")))
        (find_handler services (codes "Echo") (codes "echo"))
find_handler-register_example =
    find_handler-register (codes "Echo") ((codes "echo", broken) ∷ []) services (codes "Echo")
      (codes "echo")
