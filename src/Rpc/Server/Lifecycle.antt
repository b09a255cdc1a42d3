-- ===== src/Rpc/Server/Lifecycle.antt =====
-- sdk/js/src/rpc/server.ts: `start`, `stop` and `handleConnection` of `IBridgerServer`, each cut at
-- its `await`. Connections and listeners are numbered in the order of their making.
pub mod Tracking
use ibridger.Common.{
  ℕ, suc, zero, Bool, true, false, Option, none, some, List, [], ◌∷◌, ◌++◌, length, if◌then◌else◌,
}
use ibridger.Common.Text.{codes}
use ibridger.Common.Sets.{has, add, delete}
use ibridger.Errors.{Thrown, plain, Result, ok, err}
use ibridger.Transport.Listener.{Listener, new_listener, listen, on_listening, close, on_closed}

-- `listeners` holds every `UnixSocketServer` made, `starting` and `stopping` the listeners at whose
-- promises calls of `start` and `stop` stand. `started` logs how calls of `start` ended, `accepted`
-- the connections given to `handleConnection`, and `closed` the calls of `conn.close()`.
pub record Server : Type 0 where
  pub is_running : Bool
  pub socket_server : Option ℕ
  pub active : List ℕ
  pub listeners : List Listener
  pub starting : List ℕ
  pub stopping : List ℕ
  pub started : List (Result (Unit {0}))
  pub accepted : List ℕ
  pub closed : List ℕ

unfoldable pub new_server : Server
new_server = record {
  is_running = false;
  socket_server = none;
  active = [];
  listeners = [];
  starting = [];
  stopping = [];
  started = [];
  accepted = [];
  closed = [];
}

abbrev modify {ℓ} : {A : Type ℓ} → ℕ → (A → A) → List A → List A
modify n f [] = []
modify zero f (x ∷ xs) = f x ∷ xs
modify (suc n) f (x ∷ xs) = x ∷ modify n f xs

-- `start`, up to its `await`.
unfoldable pub start : Server → Server
unfolding listen
start s =
    if s.is_running
    then record s { started = s.started ++ err (plain (codes "Server is already running")) ∷ [] }
    else record s {
      socket_server = some (length s.listeners);
      listeners = s.listeners ++ listen new_listener ∷ [];
      starting = s.starting ++ length s.listeners ∷ [];
    }

-- The end of `await this.socketServer.listen(…)`.
unfoldable pub after_listen : ℕ → Result (Unit {0}) → Server → Server
unfolding on_listening
after_listen n (ok _) s = record s {
  is_running = true;
  listeners = modify n on_listening s.listeners;
  starting = delete n s.starting;
  started = s.started ++ ok tt ∷ [];
}
after_listen n (err e) s = record s {
  starting = delete n s.starting;
  started = s.started ++ err e ∷ [];
}

abbrev pub close_listener : Option ℕ → Server → Server
close_listener none s = s
close_listener (some n) s = record s {
  listeners = modify n close s.listeners;
  stopping = s.stopping ++ n ∷ [];
}

-- `stop`, up to its `await`.
unfoldable pub stop : Server → Server
unfolding close
stop s =
    if s.is_running
    then close_listener s.socket_server
        (record s { is_running = false; closed = s.closed ++ s.active; active = [] })
    else s

-- The end of `await this.socketServer.close()`.
unfoldable pub after_close : ℕ → Server → Server
unfolding on_closed
after_close n s = record s {
  socket_server = none;
  listeners = modify n on_closed s.listeners;
  stopping = delete n s.stopping;
}

-- `handleConnection`, up to the end of the dispatch loop.
unfoldable pub handle_connection : ℕ → Server → Server
unfolding add
handle_connection conn s = record s {
  active = add conn s.active;
  accepted = s.accepted ++ conn ∷ [];
}

-- The `finally` behind the dispatch loop.
unfoldable pub after_loop : ℕ → Server → Server
unfolding delete
after_loop conn s = record s { active = delete conn s.active; closed = s.closed ++ conn ∷ [] }

-- Calls of the methods, and what the listener, the dispatch loops and the promises do.
pub data Event : Type 0 where
  starts stops : Event
  listens : ℕ → Result (Unit {0}) → Event
  closes accepts ends : ℕ → Event

unfoldable pub step : Server → Event → Server
unfolding start stop after_listen after_close handle_connection after_loop
step s starts = start s
step s stops = stop s
step s (listens n r) = if has n s.starting then after_listen n r s else s
step s (closes n) = if has n s.stopping then after_close n s else s
step s (accepts conn) = handle_connection conn s
step s (ends conn) = after_loop conn s

unfoldable pub run : Server → List Event → Server
unfolding step
run s [] = s
run s (e ∷ es) = run (step s e) es
