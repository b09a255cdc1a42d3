-- ===== src/Rpc/Server/Builtin.antt =====
-- sdk/js/src/rpc/server.ts: the constructor of `IBridgerServer` and the built-in Ping service.
use ibridger.Common.{
  ℕ, ◌≡◌, ◌≢◌, refl, ◌∙◌, Bool, true, Option, none, some, List, [], ◌∷◌, All, if_neg, if◌then◌else◌,
  get_or_else,
}
use ibridger.Common.Text.{Text, Bytes, codes, text_dec}
use ibridger.Errors.{ok}
use ibridger.Proto.Runtime.{Runtime}
use ibridger.Proto.Longs.{Longs}
use ibridger.Proto.Ping
use ibridger.Proto.Ping.{Ping}
use ibridger.Proto.Pong
use ibridger.Proto.Pong.{Pong}
use ibridger.Rpc.Server.{
  MethodHandler, ServiceDefinition, Services, ProtoType, typed_method, register,
}
use ibridger.Rpc.Server.Registry.{find_handler, find_handler-register}

abbrev pub ping_service_name : Text
ping_service_name = codes "ibridger.Ping"

abbrev pub ping_method_name : Text
ping_method_name = codes "Ping"

abbrev pub ping_server_id : Text
ping_server_id = codes "ibridger-server"

module _ (w : Runtime) (l : Longs) where
  -- `ibridger.Ping` and `ibridger.Pong` as `ProtoType`s.
  abbrev pub ping_type : ProtoType Ping
  ping_type = record { encode = λ m. ok (Ping.encode w m); decode = Ping.decode w }

  abbrev pub pong_type : ProtoType Pong
  pong_type = record { encode = λ m. ok (Pong.encode w m); decode = Pong.decode w }

  -- What the handler of the Ping method gives at a time.
  abbrev pub pong_at : ℕ → Pong
  pong_at now = record { server_id = some ping_server_id; timestamp_ms = some (l.from_number now) }

  unfoldable pub ping_handler : MethodHandler
  unfolding typed_method
  ping_handler = typed_method ping_type pong_type (λ now req. ok (pong_at now))

  unfoldable pub register_builtin_ping : Services → Services
  register_builtin_ping services =
      register ping_service_name ((ping_method_name, ping_handler) ∷ []) services

  -- `services` of `new IBridgerServer(config)`; `registerBuiltins` may be left out.
  unfoldable pub new_services : Option Bool → Services
  unfolding register_builtin_ping
  new_services register_builtins =
      if get_or_else register_builtins true then register_builtin_ping [] else []

-- Calls of `register` in turn.
unfoldable pub register_all : List (Text × ServiceDefinition) → Services → Services
register_all [] services = services
register_all ((name, methods) ∷ more) services = register_all more (register name methods services)

-- No service of the list is the built-in one.
abbrev pub NoPing : List (Text × ServiceDefinition) → Type 0
NoPing = All (λ s. s.0 ≢ ping_service_name)

find_ping-register_all :
    (more : List (Text × ServiceDefinition)) (services : Services)
    → NoPing more
    → find_handler (register_all more services) ping_service_name ping_method_name
      ≡ find_handler services ping_service_name ping_method_name
unfolding register_all
find_ping-register_all [] services h = refl
find_ping-register_all ((name, methods) ∷ more) services (h, hs) =
    find_ping-register_all more (register name methods services) hs
    ∙ find_handler-register name methods services ping_service_name ping_method_name
    ∙ if_neg (text_dec name ping_service_name) h _ _

-- A server that was made with the built-in services still has their handler after other services
-- were registered.
pub find_ping :
    (w : Runtime) (l : Longs) (more : List (Text × ServiceDefinition))
    → NoPing more
    → find_handler (register_all more (new_services w l none)) ping_service_name ping_method_name
      ≡ some (ping_handler w l)
unfolding text_dec
find_ping w l more h =
    find_ping-register_all more (new_services w l none) h
    ∙ (unfold new_services register_builtin_ping in
        find_handler-register ping_service_name ((ping_method_name, ping_handler w l) ∷ []) []
          ping_service_name ping_method_name)

-- The handler ignores the content of a Ping that it can read.
pub ping_handler_lem :
    (w : Runtime) (l : Longs) (now : ℕ) (payload : Bytes) (m : Ping)
    → Ping.decode w payload ≡ ok m
    → ping_handler w l now payload ≡ ok (Pong.encode w (pong_at w l now))
unfolding ping_handler typed_method
ping_handler_lem w l now payload m e = rw e refl
