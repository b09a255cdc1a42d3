-- ===== src/Rpc/Server/Loop.antt =====
-- sdk/js/src/rpc/server.ts: `dispatchLoop` at work on a connection, cut at the awaits of the codec's
-- `recv`, of `dispatch`, and of the two writes of the codec's `send`.
pub mod Standing
pub mod Taking
pub mod Keeping
pub mod Serving
pub mod Served
pub mod Answering
pub mod Moving
pub mod Ending
pub mod Breaking
use ibridger.Common.{ℕ, ◌≤◌, true, Option, none, List, [], ◌∷◌, ◌++◌, ltb, if◌then◌else◌, length}
use ibridger.Common.Text.{Bytes}
use ibridger.Errors.{Result, ok, err}
use ibridger.Proto.Runtime.{Runtime}
use ibridger.Proto.WireConstant.{max_frame_size}
use ibridger.Proto.Envelope.{Envelope, encode}
use ibridger.Transport.Connection
use ibridger.Transport.Connection.{Connection, NodeError, init, send, close}
use ibridger.Protocol.Framing.{Phase, header, body, finished, begin, resume, write_u32be, send_rest}
use ibridger.Protocol.EnvelopeCodec.{on_frame}
use ibridger.Rpc.Server.{Services, dispatch}

-- Where the loop stands: at its test, in `codec.recv`, in `dispatch`, or at the write of a header,
-- with the payload that follows it, or of a payload; each write with what it will end with.
pub data Doing : Type 0 where
  testing : Doing
  receiving : Phase → Doing
  handling : Envelope → Doing
  heading : Bytes → Result (Unit {0}) → Doing
  sending : Result (Unit {0}) → Doing
  ended : Doing

-- What `dispatch` meets at each moment of a run: what `register` has left in the registry, and the
-- time that a handler reads.
pub record Host : Type 0 where
  pub registry : ℕ → Services
  pub clock : ℕ → ℕ

abbrev pub dispatch_at : Host → ℕ → Envelope → Envelope
dispatch_at host moment request = dispatch (host.registry moment) (host.clock moment) request

-- `handled` logs the requests given to `dispatch`, each with the moment at which that was.
pub record Loop : Type 0 where
  pub doing : Doing
  pub connection : Connection
  pub handled : List (ℕ × Envelope)

-- The socket and others on the connection, and the loop.
pub data Event : Type 0 where
  happens : Connection.Event → Event
  turns : ℕ → Option NodeError → Event

-- The loop on a connection that was just accepted.
unfoldable pub new_loop : Loop
new_loop = record { doing = testing; connection = init; handled = [] }

-- The end of the loop, and the `finally` of `handleConnection`, which closes the connection.
unfoldable pub end_loop : Loop → Loop
end_loop s = record s { doing = ended; connection = close s.connection }

abbrev pub on_request : Result Envelope → Loop → Loop
on_request (ok request) s = record s { doing = handling request }
on_request (err e) s = end_loop s

-- The end of a write of the codec's `send`.
abbrev pub on_sent : Result (Unit {0}) → Loop → Loop
on_sent (ok _) s = record s { doing = testing }
on_sent (err e) s = end_loop s

abbrev pub sent_header : Bytes → Connection × Result (Unit {0}) → Loop → Loop
sent_header bytes (c, result) s = record s { doing = heading bytes result; connection = c }

abbrev pub sent_body : Connection × Result (Unit {0}) → Loop → Loop
sent_body (c, result) s = record s { doing = sending result; connection = c }

-- `codec.send(response)` up to its first `await`, given the encoded response.
unfoldable pub begin_send : Bytes → Option NodeError → Loop → Loop
begin_send bytes fault s =
    if ltb max_frame_size (length bytes)
    then end_loop s
    else sent_header bytes (send (write_u32be (length bytes)) fault s.connection) s

-- From the first write to the second.
abbrev pub after_header : Bytes → Result (Unit {0}) → Option NodeError → Loop → Loop
after_header bytes (ok _) fault s = sent_body (send_rest bytes fault s.connection) s
after_header bytes (err e) fault s = end_loop s

module _ (w : Runtime) where
  -- The codec's `recv` goes on, or ends and the `try` around it.
  unfoldable pub after_recv : Phase × Connection → Loop → Loop
  unfolding end_loop
  after_recv (finished r, c) s = on_request (on_frame w r) (record s { connection = c })
  after_recv (header p, c) s = record s { doing = receiving (header p); connection = c }
  after_recv (body p n, c) s = record s { doing = receiving (body p n); connection = c }

  unfoldable pub test_loop : Loop → Loop
  unfolding after_recv begin
  test_loop s = if s.connection.connected then after_recv (begin s.connection) s else end_loop s

  module _ (host : Host) where
    -- The end of `dispatch`, which was called at a moment.
    unfoldable pub respond : Envelope → ℕ → Option NodeError → Loop → Loop
    unfolding begin_send
    respond request moment fault s =
        begin_send (encode w (dispatch_at host moment request)) fault
          (record s { handled = s.handled ++ (moment, request) ∷ [] })

    abbrev pub turn_at : Doing → ℕ → Option NodeError → Loop → Loop
    turn_at testing moment fault s = test_loop s
    turn_at (receiving ph) moment fault s = after_recv (resume ph s.connection) s
    turn_at (handling request) moment fault s = respond request moment fault s
    turn_at (heading bytes result) moment fault s = after_header bytes result fault s
    turn_at (sending result) moment fault s = on_sent result s
    turn_at ended moment fault s = s

    -- The next step of the loop, where it can make one: with the moment of the `dispatch` that it
    -- ends, and what a write that it makes ends with.
    unfoldable pub turn : ℕ → Option NodeError → Loop → Loop
    unfolding test_loop after_recv respond begin_send end_loop
    turn moment fault s = turn_at s.doing moment fault s

    unfoldable pub step : Loop → Event → Loop
    unfolding turn
    step s (happens e) = record s { connection = Connection.step s.connection e }
    step s (turns moment fault) = turn moment fault s

    unfoldable pub run : Loop → List Event → Loop
    unfolding step
    run s [] = s
    run s (e ∷ es) = run (step s e) es
