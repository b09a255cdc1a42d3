-- ===== src/Tests/Lifecycles.antt =====
-- The life cycle of sdk/js/src/rpc/server.ts at concrete runs.
use ibridger.Common.{◌≡◌, refl, true, false, none, List, [], ◌∷◌, All}
use ibridger.Common.Sets.{has, delete}
use ibridger.Errors.{ok}
use ibridger.Transport.Listener.{listen, on_listening, close, on_closed}
use ibridger.Rpc.Server.Lifecycle.{
  Event, starts, stops, listens, closes, accepts, ends, new_server, run, step, start, stop,
  after_listen, after_close, handle_connection, after_loop,
}
use ibridger.Rpc.Server.Lifecycle.Tracking.{Tracked, run-Tracked, stop_lem}

-- Two connections of a started server, of which one has ended.
abbrev session : List Event
session = starts ∷ listens 0 (ok tt) ∷ accepts 0 ∷ accepts 1 ∷ ends 0 ∷ []

run-Tracked_example : Tracked (run new_server session)
run-Tracked_example = run-Tracked session

stop_lem_example :
    ((stop (run new_server session)).is_running ≡ false)
    × ((stop (run new_server session)).active ≡ [])
    × All
        (λ x. has x (stop (run new_server session)).closed ≡ true)
        (run new_server session).accepted
unfolding run step new_server start after_listen has handle_connection after_loop
stop_lem_example = stop_lem session refl

-- A call of `start` while a call of `stop` awaits its listener, and another `stop` afterwards.
abbrev restart : List Event
restart = starts ∷ listens 0 (ok tt) ∷ stops ∷ starts ∷ listens 1 (ok tt) ∷ closes 0 ∷ stops ∷ []

restart_leaves_listener :
    ((run new_server restart).is_running ≡ false)
    × ((run new_server restart).socket_server ≡ none)
    × ((run new_server restart).listeners
        ≡ record { server = true; is_listening = false; unlinks = 2 }
          ∷ record { server = true; is_listening = true; unlinks = 1 }
          ∷ [])
unfolding run step new_server start stop after_listen after_close has delete listen on_listening
    close on_closed
restart_leaves_listener = (refl, refl, refl)
