-- ===== src/Tests/Framings.antt =====
-- sdk/js/src/protocol/framing.ts at a stream that is cut inside headers and bodies.
use ibridger.Common.{◌+◌, ◌*◌, ◌^◌, ◌≡◌, refl, arith, List, [], ◌∷◌}
use ibridger.Common.Text.{Bytes}
use ibridger.Errors.{err}
use ibridger.Transport.Connection.{init, on_data}
use ibridger.Protocol.Framing.{write_u32be, begin, resume, on_header, finished}
use ibridger.Protocol.Framing.Pending.{IsIdle}
use ibridger.Protocol.Framing.Sending.{frame_bytes}
use ibridger.Protocol.Framing.Overtaking.{overtaken}
use ibridger.Protocol.Framing.Receiving.{refusal, Event, arrives, turns, stream, run, new_receiver}
use ibridger.Protocol.Framing.Receiving.Complete.{IsComplete, some_turns, run-IsComplete}
use ibridger.Protocol.Framing.Receiving.Wire.{run-wire}

-- A frame of two bytes, an empty frame, and the start of a third.
abbrev chunks : List Event
chunks =
    turns
    ∷ arrives (0 ∷ 0 ∷ [])
    ∷ arrives (0 ∷ 2 ∷ 7 ∷ [])
    ∷ turns
    ∷ arrives (8 ∷ 0 ∷ 0 ∷ 0 ∷ 0 ∷ 0 ∷ [])
    ∷ []

run-IsComplete_example : IsComplete (stream chunks) (run (run new_receiver chunks) (some_turns 36))
run-IsComplete_example = run-IsComplete chunks 36 (omega arith)

abbrev whole : List Event
whole =
    arrives (0 ∷ 0 ∷ 0 ∷ [])
    ∷ turns
    ∷ arrives (2 ∷ 7 ∷ 8 ∷ 0 ∷ 0 ∷ [])
    ∷ turns
    ∷ arrives (0 ∷ 0 ∷ [])
    ∷ []

run-wire_example : (run (run new_receiver whole) (some_turns 33)).frames ≡ (7 ∷ 8 ∷ []) ∷ [] ∷ []
unfolding write_u32be
run-wire_example = run-wire ((7 ∷ 8 ∷ []) ∷ [] ∷ []) whole 33 (omega arith) refl (omega arith)

-- A response of six bytes, as an envelope with a type begins, for the first of two calls.
abbrev late : Bytes
late = frame_bytes (8 ∷ 1 ∷ 16 ∷ 1 ∷ 34 ∷ 0 ∷ [])

init-IsIdle : IsIdle init
unfolding init
init-IsIdle = record { connected = refl; waiters = refl; fresh = tt }

overtaken_example :
    (resume (begin init).0 (on_data late (begin (begin init).1).1)
      ≡ on_header (write_u32be 6) (on_data late (begin (begin init).1).1))
    × (resume (begin (begin init).1).0 (on_data late (begin (begin init).1).1) ≡ (
      finished (err (refusal (8 * 2 ^ 24 + 1 * 2 ^ 16 + 16 * 2 ^ 8 + 1))),
      on_data late (begin (begin init).1).1,
    ))
unfolding init
overtaken_example = overtaken init 8 1 16 1 (34 ∷ 0 ∷ []) init-IsIdle refl (omega arith)
