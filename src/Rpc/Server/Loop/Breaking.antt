-- ===== src/Rpc/Server/Loop/Breaking.antt =====
-- What becomes of a serving loop whose write fails.
use ibridger.Common.{
  ℕ, ◌≤◌, ◌<◌, ◌≡◌, refl, arith, false, if-intro, Option, some, List, [], ◌∷◌, ◌++◌, ltb, length,
  append-nil, sym, ap, subst, ◌∙◌,
}
use ibridger.Common.Text.{Bytes}
use ibridger.Errors.{Result, ok, err}
use ibridger.Proto.Runtime.{Runtime}
use ibridger.Proto.WireConstant.{max_frame_size}
use ibridger.Proto.Envelope.{Envelope, encode}
use ibridger.Transport.Connection
use ibridger.Transport.Connection.Closing.{step-connected}
use ibridger.Transport.Connection.{
  Connection, NodeError, init, send, close, Outcome, resolved, rejected, asks, sends, shuts, chunk,
  closes, fails, hooks,
}
use ibridger.Protocol.Framing.{send_rest}
use ibridger.Rpc.Server.Loop.{
  Host, dispatch_at, Doing, testing, receiving, handling, heading, sending, ended, Loop, Event,
  happens, turns, end_loop, sent_header, sent_body, begin_send, respond, turn_at, turn, step, run,
}
use ibridger.Rpc.Server.Loop.Ending.{left, left_zero, turn_count}

-- The loop is about to break, or has, and then its connection is closed.
abbrev Breaks : Doing → Connection → Type 0
Breaks ended c = c.connected ≡ false
Breaks (heading b (err e)) c = Unit {0}
Breaks (sending (err e)) c = Unit {0}
Breaks _ c = ⊥

Breaks-happens :
    (d : Doing) (c : Connection) (x : Connection.Event)
    → Breaks d c
    → Breaks d (Connection.step c x)
Breaks-happens ended c x h = step-connected c x h
Breaks-happens (heading b (err e)) c x h = tt
Breaks-happens (sending (err e)) c x h = tt
Breaks-happens testing c x h = elim h [ ]
Breaks-happens (receiving ph) c x h = elim h [ ]
Breaks-happens (handling m) c x h = elim h [ ]
Breaks-happens (heading b (ok _)) c x h = elim h [ ]
Breaks-happens (sending (ok _)) c x h = elim h [ ]

-- The loop writes at its next turn.
abbrev pub Writes : Doing → Type 0
Writes (handling m) = Unit {0}
Writes (heading b (ok _)) = 0 < length b
Writes _ = ⊥

-- The request whose response that write belongs to, if it is handled at that turn.
abbrev pub answered : ℕ → Doing → List (ℕ × Envelope)
answered moment (handling m) = (moment, m) ∷ []
answered moment _ = []

module _ (w : Runtime) (host : Host) where
  -- The state after a turn at which a write failed, or of a turn that ends the loop.
  abbrev Broken : List (ℕ × Envelope) → ℕ → Loop → Type 0
  Broken handled n t = Breaks t.doing t.connection × (t.handled ≡ handled) × (left t.doing ≤ n)

  turn-Breaks :
      (d : Doing) (moment : ℕ) (fault : Option NodeError) (s : Loop)
      → Breaks d s.connection
      → s.doing ≡ d
      → Broken s.handled 0 (turn_at w host d moment fault s)
  unfolding end_loop close
  turn-Breaks ended moment fault s h e =
      (subst (λ (d : Doing). Breaks d s.connection) (sym e) h, refl, omega (arith, ap left e))
  turn-Breaks (heading b (err x)) moment fault s h e = (refl, refl, omega arith)
  turn-Breaks (sending (err x)) moment fault s h e = (refl, refl, omega arith)
  turn-Breaks testing moment fault s h e = elim h [ ]
  turn-Breaks (receiving ph) moment fault s h e = elim h [ ]
  turn-Breaks (handling m) moment fault s h e = elim h [ ]
  turn-Breaks (heading b (ok _)) moment fault s h e = elim h [ ]
  turn-Breaks (sending (ok _)) moment fault s h e = elim h [ ]

  Breaks-run :
      (es : List Event) (s : Loop) (handled : List (ℕ × Envelope))
      → Broken handled (turn_count es) s
      → ((run w host s es).doing ≡ ended)
        × ((run w host s es).handled ≡ handled)
        × ((run w host s es).connection.connected ≡ false)
  unfolding run step turn
  Breaks-run [] s handled (h, e, n) =
      let is_ended : s.doing ≡ ended = left_zero s.doing n in
      (is_ended, e, subst (λ (d : Doing). Breaks d s.connection) is_ended h)
  Breaks-run (happens x ∷ es) s handled (h, e, n) =
      Breaks-run es (step w host s (happens x)) handled
        (Breaks-happens s.doing s.connection x h, e, n)
  Breaks-run (turns moment fault ∷ es) s handled (h, e, n) =
      let (h', e', n') = turn-Breaks s.doing moment fault s h refl in
      Breaks-run es (step w host s (turns moment fault)) handled (h', e' ∙ e, omega (arith, n'))

  -- The write of a header, or the test of the size before it.
  begin_send-Broken :
      (bytes : Bytes) (fault : NodeError) (s : Loop)
      → Broken s.handled 1 (begin_send bytes (some fault) s)
  unfolding begin_send end_loop close send
  begin_send-Broken bytes fault s =
      if-intro (Broken s.handled 1) (ltb max_frame_size (length bytes)) _ _
        (λ _. (refl, refl, omega arith))
        (λ _.
          if-intro
            (λ (q : Connection × Result (Unit {0})). Broken s.handled 1 (sent_header bytes q s))
            s.connection.connected _ _ (λ _. (tt, refl, omega arith))
            (λ _. (tt, refl, omega arith)))

  -- The write of a payload that is not empty.
  send_rest-Broken :
      (bytes : Bytes) (fault : NodeError) (s : Loop)
      → 0 < length bytes
      → Broken s.handled 1 (sent_body (send_rest bytes (some fault) s.connection) s)
  unfolding send_rest send
  send_rest-Broken bytes fault s h =
      if-intro OfWrite (ltb 0 (length bytes)) _ _
        (λ _.
          if-intro OfWrite s.connection.connected _ _ (λ _. (tt, refl, omega arith))
            (λ _. (tt, refl, omega arith)))
        (λ (e : ltb 0 (length bytes) ≡ false). absurd (ground (arith, e, h)))
    where
      OfWrite : Connection × Result (Unit {0}) → Type 0
      OfWrite q = Broken s.handled 1 (sent_body q s)

  failing-Broken :
      (d : Doing) (moment : ℕ) (fault : NodeError) (s : Loop)
      → Writes d
      → Broken (s.handled ++ answered moment d) 1 (turn_at w host d moment (some fault) s)
  unfolding respond
  failing-Broken (handling m) moment fault s h =
      begin_send-Broken (encode w (dispatch_at host moment m)) fault
        (record s { handled = s.handled ++ (moment, m) ∷ [] })
  failing-Broken (heading b (ok _)) moment fault s h =
      let (b', e, l) = send_rest-Broken b fault s h in (b', e ∙ sym (append-nil s.handled), l)
  failing-Broken testing moment fault s h = elim h [ ]
  failing-Broken (receiving ph) moment fault s h = elim h [ ]
  failing-Broken (heading b (err e)) moment fault s h = elim h [ ]
  failing-Broken (sending r) moment fault s h = elim h [ ]
  failing-Broken ended moment fault s h = elim h [ ]

-- When `dispatchLoop` writes the header of a response, or its payload, and that write fails, then
-- whatever happens afterwards, as soon as the loop has had one more turn, it has ended, its
-- connection is closed, and no request has been handled since but the one that the failed response
-- answers. A response that is too large to write ends it in the same way.
pub run-breaks :
    (w : Runtime) (host : Host) (s : Loop) (moment : ℕ) (fault : NodeError) (es : List Event)
    → Writes s.doing
    → 1 ≤ turn_count es
    → let t = run w host (step w host s (turns moment (some fault))) es in
      (t.doing ≡ ended)
      × (t.handled ≡ s.handled ++ answered moment s.doing)
      × (t.connection.connected ≡ false)
run-breaks w host s moment fault es h n =
    let (b, e, l) = failing-Broken w host s.doing moment fault s h in
    Breaks-run w host es (step w host s (turns moment (some fault)))
      (s.handled ++ answered moment s.doing) (unfold step turn in (b, e, omega arith))
