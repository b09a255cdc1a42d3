-- ===== src/Rpc/Server/Registry.antt =====
-- Which handler a method has after calls of `register`.
use ibridger.Common.{◌≡◌, refl, Option, some, List, [], ◌∷◌, get_or_else, ite, if_pos, if_neg}
use ibridger.Common.Text.{Text, text_dec}
use ibridger.Common.Assoc.{get, set, get-set}
use ibridger.Rpc.Server.{MethodHandler, Services, ServiceDefinition, set_methods, register}

-- The handler that `dispatch` finds.
unfoldable pub find_handler : Services → Text → Text → Option MethodHandler
find_handler services service method = get method (get_or_else (get service services) [])

-- The last entry with a key.
abbrev pub last_entry : Text → ServiceDefinition → Option MethodHandler → Option MethodHandler
last_entry key [] found = found
last_entry key ((j, h) ∷ methods) found =
    last_entry key methods (ite (text_dec j key) (some h) found)

get-set_methods :
    (key : Text) (methods existing : List (Text × MethodHandler))
    → get key (set_methods methods existing) ≡ last_entry key methods (get key existing)
unfolding set_methods
get-set_methods key [] existing = refl
get-set_methods key ((j, h) ∷ methods) existing =
    rw (get-set_methods key methods (set j h existing), get-set j key h existing)

-- After `register(name, methods)` a method of service `name` has the handler of its last entry in
-- `methods`, and without one the handler that it had; the methods of every other service are as
-- they were.
pub find_handler-register :
    (name : Text) (methods : ServiceDefinition) (services : Services) (service method : Text)
    → find_handler (register name methods services) service method
      ≡ ite
          (text_dec name service)
          (last_entry method methods (find_handler services service method))
          (find_handler services service method)
unfolding find_handler register
find_handler-register name methods services service method = elim (text_dec name service) [
  | yes e ↦
      rw (get-set name service, if_pos _ e)
        (rw (if_pos _ e, e)
          (get-set_methods method methods (get_or_else (get service services) [])))
  | no ne ↦ rw (get-set name service, if_neg _ ne) (rw (if_neg _ ne) refl)
]
