-- ===== src/Rpc/Server/Loop/Ending.antt =====
-- What becomes of a serving loop whose connection is lost.
use ibridger.Common.{
  ℕ, ◌-◌, ◌==◌, suc, ◌+◌, ◌≤◌, ◌≡◌, refl, ap, subst, sym, arith, Option, some, List, [], ◌∷◌, ◌++◌,
  if-intro, false, ltb, length, inl, inr,
}
use ibridger.Common.Text.{Bytes, codes}
use ibridger.Errors.{Thrown, Result, Result-cases, ok, err, transport}
use ibridger.Proto.Runtime.{Runtime}
use ibridger.Proto.WireConstant.{max_frame_size}
use ibridger.Proto.Envelope.{Envelope, encode}
use ibridger.Transport.Connection.{Connection, NodeError, init, send, Outcome, resolved, rejected}
use ibridger.Transport.Connection.Promises.{OnceInAll}
use ibridger.Transport.Connection.Closing.{
  End, event_of, IsLost, end-IsLost, step-IsLost, run-IsLost_from,
}
use ibridger.Protocol.Framing.{
  Phase, header, body, finished, resume, on_header, write_u32be, send_rest, outcome_of, read_u32be,
}
use ibridger.Protocol.Framing.Asking.{idle-outcome}
use ibridger.Protocol.EnvelopeCodec.{on_frame}
use ibridger.Rpc.Server.Loop.Moving.{AskedBy, IsSound, turn-Turns, step-IsSound, run-IsSound_from}
use ibridger.Rpc.Server.Loop.{
  Host, dispatch_at, Doing, testing, receiving, handling, heading, sending, ended, Loop, Event,
  happens, turns, new_loop, end_loop, on_request, sent_body, begin_send, after_recv, test_loop,
  respond, turn_at, turn, step, run,
}

-- How many turns a loop on a lost connection can still make.
abbrev pub left : Doing → ℕ
left (receiving (header p)) = 4
left (receiving ph) = 3
left (handling m) = 2
left (heading b (ok _)) = 3
left (heading b (err e)) = 1
left (sending (ok _)) = 2
left (sending (err e)) = 1
left testing = 1
left ended = 0

-- The turns among the events.
abbrev pub turn_count : List Event → ℕ
turn_count [] = 0
turn_count (turns now fault ∷ es) = suc (turn_count es)
turn_count (happens x ∷ es) = turn_count es

pub left_zero : (d : Doing) → left d ≤ 0 → d ≡ ended
left_zero ended h = refl
left_zero testing h = absurd (omega arith)
left_zero (receiving (header p)) h = absurd (omega arith)
left_zero (receiving (body p n)) h = absurd (omega arith)
left_zero (receiving (finished r)) h = absurd (omega arith)
left_zero (handling m) h = absurd (omega arith)
left_zero (heading b (ok _)) h = absurd (omega arith)
left_zero (heading b (err x)) h = absurd (omega arith)
left_zero (sending (ok _)) h = absurd (omega arith)
left_zero (sending (err x)) h = absurd (omega arith)

left-le : (d : Doing) → left d ≤ 4
left-le ended = omega arith
left-le testing = omega arith
left-le (receiving (header p)) = omega arith
left-le (receiving (body p n)) = omega arith
left-le (receiving (finished r)) = omega arith
left-le (handling m) = omega arith
left-le (heading b (ok _)) = omega arith
left-le (heading b (err x)) = omega arith
left-le (sending (ok _)) = omega arith
left-le (sending (err x)) = omega arith

left_end : (n : ℕ) (t : Loop) → 1 ≤ n → left (end_loop t).doing + 1 ≤ n
unfolding end_loop
left_end n t h = omega arith

-- A write to a lost connection is refused.
send-lost :
    (bytes : Bytes) (fault : Option NodeError) (c : Connection)
    → c.connected ≡ false
    → (e : Thrown) × (send bytes fault c ≡ (c, err e))
unfolding send
send-lost bytes fault c h = (transport (codes "Not connected") (codes "ENOTCONN"), ground arith)

module _ (w : Runtime) (host : Host) (written : List Bytes) where
  on_request-left :
      (n : ℕ) (r : Result Envelope) (t : Loop) → 3 ≤ n → left (on_request r t).doing + 1 ≤ n
  on_request-left n (ok m) t h = h
  on_request-left n (err e) t h = left_end n t (omega arith)

  -- What the header leads to: the end of `recvFrame`, or its second promise.
  on_header-left :
      (bytes : Bytes) (s : Loop)
      → left (after_recv w (on_header bytes s.connection) s).doing + 1 ≤ 4
  unfolding on_header after_recv
  on_header-left bytes s = elim (Result-cases (read_u32be bytes)) [
    | inl (n, e) ↦
        rw (e, on_header)
          (if-intro Below (ltb max_frame_size n) _ _ (λ _. on_request-left 4 _ _ (omega arith))
            (λ _.
              if-intro Below (n == 0) _ _
                (λ _. on_request-left 4 (on_frame w (ok [])) _ (omega arith)) (λ _. omega arith)))
    | inr (t, e) ↦ rw (e, on_header) (on_request-left 4 (on_frame w (err t)) _ (omega arith))
  ]
    where
      Below : Phase × Connection → Type 0
      Below q = left (after_recv w q s).doing + 1 ≤ 4

  -- A call of `recvFrame` at its first promise, settled.
  header-left :
      (p : ℕ) (o : Outcome) (s : Loop)
      → outcome_of p s.connection.settled ≡ some o
      → left (after_recv w (resume (header p) s.connection) s).doing + 1 ≤ 4
  unfolding after_recv resume
  header-left p (rejected e) s q = rw q (on_request-left 4 (on_frame w (err e)) _ (omega arith))
  header-left p (resolved bytes) s q = rw q (on_header-left bytes s)

  body-left :
      (p n : ℕ) (o : Outcome) (s : Loop)
      → outcome_of p s.connection.settled ≡ some o
      → left (after_recv w (resume (body p n) s.connection) s).doing + 1 ≤ 3
  unfolding after_recv resume
  body-left p n (rejected e) s q = rw q (on_request-left 3 (on_frame w (err e)) _ (omega arith))
  body-left p n (resolved bytes) s q =
      rw q (on_request-left 3 (on_frame w (ok bytes)) _ (omega arith))

  -- A turn of a loop that has not ended, on a lost connection.
  turn-left :
      (d : Doing) (now : ℕ) (fault : Option NodeError) (s : Loop)
      → IsLost written s.connection
      → ((p : ℕ) → OnceInAll p s.connection)
      → AskedBy d s.connection.next_promise
      → s.doing ≡ d
      → left (turn_at w host d now fault s).doing ≤ left d - 1
  unfolding test_loop respond begin_send send_rest
  turn-left testing now fault s l once a e = rw l.disconnected (unfold end_loop in omega arith)
  turn-left (receiving (header p)) now fault s l once a e =
      let (o, q) = idle-outcome p s.connection (once p) l.idle a in
      omega (arith, header-left p o s q)
  turn-left (receiving (body p n)) now fault s l once a e =
      let (o, q) = idle-outcome p s.connection (once p) l.idle a in
      omega (arith, body-left p n o s q)
  turn-left (receiving (finished r)) now fault s l once a e =
      unfold after_recv resume in
      omega (
        arith,
        on_request-left 3 (on_frame w r) (record s { connection = s.connection }) (omega arith),
      )
  turn-left (handling m) now fault s l once a e =
      let bytes = encode w (dispatch_at host now m) in
      let (x, q) = send-lost (write_u32be (length bytes)) fault s.connection l.disconnected in
      if-intro (λ (t : Loop). left t.doing ≤ 1) (ltb max_frame_size (length bytes)) _ _
        (λ _.
          omega
            (arith, left_end 2 (record s { handled = s.handled ++ (now, m) ∷ [] }) (omega arith)))
        (λ _. rw q (omega arith))
  turn-left (heading bytes (ok _)) now fault s l once a e =
      let (x, q) = send-lost bytes fault s.connection l.disconnected in
      if-intro (λ (r : Connection × Result (Unit {0})). left (sent_body r s).doing ≤ 2)
        (ltb 0 (length bytes)) _ _ (λ _. rw q (omega arith)) (λ _. omega arith)
  turn-left (heading bytes (err x)) now fault s l once a e =
      omega (arith, left_end 1 s (omega arith))
  turn-left (sending (ok _)) now fault s l once a e = omega arith
  turn-left (sending (err x)) now fault s l once a e = omega (arith, left_end 1 s (omega arith))
  turn-left ended now fault s l once a e = omega (arith, ap left e)

  IsLost-run :
      (es : List Event) (s : Loop)
      → IsSound s
      → IsLost written s.connection
      → left s.doing ≤ turn_count es
      → ((run w host s es).doing ≡ ended) × IsLost written (run w host s es).connection
  unfolding run
  IsLost-run [] s v l h = (left_zero s.doing h, l)
  IsLost-run (happens x ∷ es) s v l h =
      IsLost-run es (step w host s (happens x)) (step-IsSound w host (happens x) s v)
        (unfold step in step-IsLost s.connection x l) (unfold step in h)
  IsLost-run (turns now fault ∷ es) s v l h =
      let ((moves, f), a) = turn-Turns w host s.doing now fault s v.asked refl in
      IsLost-run es (step w host s (turns now fault)) (step-IsSound w host (turns now fault) s v)
        (unfold step turn in subst (IsLost written) (sym f) (run-IsLost_from moves s.connection l))
        (unfold step turn in omega (arith, turn-left s.doing now fault s l v.once v.asked refl))

start-IsSound : IsSound new_loop
unfolding new_loop init
start-IsSound = record { once = λ p. ground arith; asked = tt }

-- A 'close' or 'error' event of the socket at any point of any run, with failed writes and others
-- on the connection, ends `dispatchLoop`: after four turns, whatever happens between them, the
-- loop has ended, and nothing has been written to the connection since the event.
pub run-ends :
    (w : Runtime) (host : Host) (before : List Event) (end : End) (after : List Event)
    → 4 ≤ turn_count after
    → ((run w host (step w host (run w host new_loop before) (happens (event_of end))) after).doing
        ≡ ended)
      × IsLost
          (run w host new_loop before).connection.written
          (run w host
            (step w host (run w host new_loop before) (happens (event_of end)))
            after).connection
run-ends w host before end after h =
    let s = run w host new_loop before in
    let sound = run-IsSound_from w host before new_loop start-IsSound in
    IsLost-run w host s.connection.written after (step w host s (happens (event_of end)))
      (step-IsSound w host (happens (event_of end)) s sound)
      (unfold step in end-IsLost end s.connection refl)
      (unfold step in omega (arith, left-le s.doing))
