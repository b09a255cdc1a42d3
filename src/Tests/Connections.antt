-- ===== src/Tests/Connections.antt =====
-- sdk/js/src/transport and sdk/js/src/protocol/framing.ts at concrete inputs.
use ibridger.Common.{
  ℕ, ◌+◌, ◌≡◌, ◌≤◌, ◌<◌, refl, arith, none, some, true, List, [], ◌∷◌, ◌++◌, length, concat,
}
use ibridger.Common.Text.{codes}
use ibridger.Errors.{ok, err, transport}
use ibridger.Transport.Connection.{
  Connection, Event, init, run, step, chunk, closes, fails, asks, NodeError,
}
use ibridger.Transport.Connection.Stream.{delivered, received, delivered-run}
use ibridger.Transport.Connection.Promises.{IsSound, run-IsSound}
use ibridger.Transport.Connection.Closing.{
  IsLost, closing, failing, event_of, step-end, rejections, run-IsLost, run-disconnects, reason,
}
use ibridger.Proto.WireConstant.{max_frame_size}
use ibridger.Protocol.Framing.{send_frame, too_large}
use ibridger.Protocol.Framing.Sending.{frame_bytes, send_frame_lem, IsUndisturbed}

-- Two reads over three chunks, a third that the end cuts off.
abbrev mixed : List Event
mixed = asks 3 ∷ chunk (1 ∷ 2 ∷ []) ∷ chunk (3 ∷ 4 ∷ 5 ∷ []) ∷ asks 1 ∷ asks 2 ∷ closes ∷ []

mixed-delivered :
    (delivered (run init mixed).settled ≡ 1 ∷ 2 ∷ 3 ∷ 4 ∷ []) × ((run init mixed).buffer ≡ 5 ∷ [])
unfolding init run
mixed-delivered = (refl, refl)

delivered-run_example :
    delivered (run init mixed).settled ++ (run init mixed).buffer ≡ received mixed
delivered-run_example = delivered-run mixed

run-IsSound_example : IsSound (run init mixed)
run-IsSound_example = run-IsSound mixed

abbrev broken : NodeError
broken = record { text = codes "read ECONNRESET"; code = some (codes "ECONNRESET") }

-- A connection with a waiter and the hook set.
abbrev waiting : Connection
waiting = record {
  buffer = 9 ∷ [];
  connected = true;
  waiters = record { need = 4; promise = 0 } ∷ [];
  hook = true;
  disconnects = 0;
  destroyed = ibridger.Common.false;
  written = [];
  next_promise = 1;
  settled = [];
}

step-end_example : step waiting (event_of (failing broken)) ≡ record waiting {
  connected = ibridger.Common.false;
  waiters = [];
  settled = rejections (reason (failing broken)) waiting.waiters;
  disconnects = 1;
}
step-end_example = step-end (failing broken) waiting

run-IsLost_example : IsLost [] (run (step waiting closes) (asks 4 ∷ chunk (7 ∷ []) ∷ []))
run-IsLost_example = run-IsLost closing waiting (asks 4 ∷ chunk (7 ∷ []) ∷ [])

-- An 'error' and the 'close' that follows it call the hook twice.
run-disconnects_example : (run waiting (fails broken ∷ closes ∷ [])).disconnects ≡ 2
run-disconnects_example = run-disconnects (fails broken ∷ closes ∷ []) waiting refl

undisturbed : IsUndisturbed (104 ∷ 105 ∷ []) (chunk (1 ∷ []) ∷ []) init
unfolding init run
undisturbed = record { connected = refl; alive = refl; alone = refl }

send_frame_lem_example :
    (2 ≤ max_frame_size
      → ((send_frame (104 ∷ 105 ∷ []) none (chunk (1 ∷ []) ∷ []) none init).1 ≡ ok tt)
        × (concat (send_frame (104 ∷ 105 ∷ []) none (chunk (1 ∷ []) ∷ []) none init).0.written
            ≡ concat init.written ++ frame_bytes (104 ∷ 105 ∷ [])))
    × (max_frame_size < 2
        → send_frame (104 ∷ 105 ∷ []) none (chunk (1 ∷ []) ∷ []) none init
          ≡ (init, err (transport (too_large (codes "Frame too large: ") 2) (codes "EMSGSIZE"))))
send_frame_lem_example = send_frame_lem (104 ∷ 105 ∷ []) (chunk (1 ∷ []) ∷ []) init undisturbed
