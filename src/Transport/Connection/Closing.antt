-- ===== src/Transport/Connection/Closing.antt =====
-- What the end of a connection does to its waiters, its later calls and its hook.
use ibridger.Common.{
  ℕ, suc, ◌+◌, ◌≡◌, refl, ◌∙◌, append-nil, append_assoc, arith, true, false, List, [], ◌∷◌, ◌++◌,
  if◌then◌else◌,
}
use ibridger.Common.Text.{Bytes}
use ibridger.Errors.{Thrown}
use ibridger.Transport.Connection.{
  Waiter, Settlement, rejected, closed_error, transport_of, NodeError, Connection, splice,
  drain_loop, drain_waiters, on_data, reject_all, fail_with, on_close, on_error, recv, send, close,
  Event, chunk, closes, fails, asks, sends, shuts, hooks, step, run,
}

-- The settlements that reject the waiters, in their order.
abbrev pub rejections : Thrown → List Waiter → List Settlement
rejections e [] = []
rejections e (w ∷ ws) =
    record { promise = w.promise; need = w.need; outcome = rejected e } ∷ rejections e ws

reject_all-rejections :
    (e : Thrown) (ws : List Waiter) (c : Connection)
    → reject_all e ws c ≡ record c { settled = c.settled ++ rejections e ws }
unfolding reject_all
reject_all-rejections e [] c = simp append-nil
reject_all-rejections e (w ∷ ws) c = reject_all-rejections e ws _ ∙ simp append_assoc

-- The end of a socket: 'close', or 'error' with its error.
pub data End : Type 0 where
  closing : End
  failing : NodeError → End

abbrev pub event_of : End → Event
event_of closing = closes
event_of (failing e) = fails e

abbrev pub reason : End → Thrown
reason closing = closed_error
reason (failing e) = transport_of e

-- A 'close' or 'error' event rejects every waiter, in order, with that event's own error; it
-- leaves no waiter, keeps the buffer and all earlier settlements, marks the connection as lost and
-- calls the hook once if it is set.
pub step-end :
    (end : End) (c : Connection)
    → step c (event_of end) ≡ record c {
      connected = false;
      waiters = [];
      settled = c.settled ++ rejections (reason end) c.waiters;
      disconnects = if c.hook then suc c.disconnects else c.disconnects;
    }
unfolding step on_close on_error fail_with
step-end closing c =
    rw (reject_all-rejections closed_error c.waiters (record c { connected = false }))
step-end (failing e) c =
    rw (reject_all-rejections (transport_of e) c.waiters (record c { connected = false }))

-- A connection that has ended: nothing waits.
pub record IsLost (written : List Bytes) (c : Connection) : Type 0 where
  pub disconnected : c.connected ≡ false
  pub idle : c.waiters ≡ []
  pub kept : c.written ≡ written

drain_none : (c : Connection) → c.waiters ≡ [] → drain_waiters c ≡ record c { waiters = [] }
unfolding drain_waiters
drain_none c h = rw h

pub end-IsLost :
    {w : List Bytes} (end : End) (c : Connection) → c.written ≡ w → IsLost w (step c (event_of end))
end-IsLost end c h = rw (step-end end c) (record { disconnected = refl; idle = refl; kept = h })

pub step-IsLost : {w : List Bytes} (c : Connection) (e : Event) → IsLost w c → IsLost w (step c e)
unfolding step
step-IsLost c (chunk bytes) l =
    unfold on_data in
    rw (drain_none (record c { buffer = c.buffer ++ bytes }) l.idle)
      (record { disconnected = l.disconnected; idle = refl; kept = l.kept })
step-IsLost c closes l = end-IsLost closing c l.kept
step-IsLost c (fails e) l = end-IsLost (failing e) c l.kept
step-IsLost c (asks n) l = unfold recv in ground arith
step-IsLost c (sends bytes fault) l = unfold send in ground arith
step-IsLost c shuts l = unfold close in ground arith
step-IsLost c hooks l = ground arith

pub run-IsLost_from :
    {w : List Bytes} (es : List Event) (c : Connection) → IsLost w c → IsLost w (run c es)
unfolding run
run-IsLost_from [] c l = l
run-IsLost_from (e ∷ es) c l = run-IsLost_from es (step c e) (step-IsLost c e l)

-- After a 'close' or 'error' event the connection stays lost whatever follows: it is not
-- connected, no call of `recv` is left waiting, and nothing more is written to the socket.
pub run-IsLost :
    (end : End) (c : Connection) (es : List Event)
    → IsLost c.written (run (step c (event_of end)) es)
run-IsLost end c es = run-IsLost_from es _ (end-IsLost end c refl)

abbrev pub ends : List Event → ℕ
ends [] = 0
ends (closes ∷ es) = suc (ends es)
ends (fails e ∷ es) = suc (ends es)
ends (chunk bytes ∷ es) = ends es
ends (asks n ∷ es) = ends es
ends (sends bytes fault ∷ es) = ends es
ends (shuts ∷ es) = ends es
ends (hooks ∷ es) = ends es

drain_loop-hook :
    (ws : List Waiter) (c : Connection)
    → ((drain_loop ws c).hook ≡ c.hook) × ((drain_loop ws c).disconnects ≡ c.disconnects)
unfolding drain_loop
drain_loop-hook [] c = (refl, refl)
drain_loop-hook (w ∷ ws) c = ground (arith, drain_loop-hook ws (splice w.promise w.need c))

drain_loop-connected :
    (ws : List Waiter) (c : Connection) → (drain_loop ws c).connected ≡ c.connected
unfolding drain_loop
drain_loop-connected [] c = refl
drain_loop-connected (w ∷ ws) c =
    ground (arith, drain_loop-connected ws (splice w.promise w.need c))

-- A closed connection stays closed.
pub step-connected :
    (c : Connection) (e : Event) → c.connected ≡ false → (step c e).connected ≡ false
unfolding step
step-connected c (chunk bytes) h =
    unfold on_data drain_waiters in
    ground (arith, drain_loop-connected c.waiters (record c { buffer = c.buffer ++ bytes }))
step-connected c closes h = (end-IsLost closing c refl).disconnected
step-connected c (fails e) h = (end-IsLost (failing e) c refl).disconnected
step-connected c (asks n) h = unfold recv in ground arith
step-connected c (sends bytes fault) h = unfold send in ground arith
step-connected c shuts h = unfold close in refl
step-connected c hooks h = h

end-disconnects :
    (end : End) (c : Connection)
    → c.hook ≡ true
    → ((step c (event_of end)).hook ≡ true)
      × ((step c (event_of end)).disconnects ≡ c.disconnects + 1)
end-disconnects end c h = rw (step-end end c) (ground arith)

step-disconnects :
    (c : Connection) (e : Event)
    → c.hook ≡ true
    → ((step c e).hook ≡ true) × ((step c e).disconnects ≡ c.disconnects + ends (e ∷ []))
unfolding step
step-disconnects c (chunk bytes) h =
    unfold on_data drain_waiters in
    ground (arith, drain_loop-hook c.waiters (record c { buffer = c.buffer ++ bytes }))
step-disconnects c closes h = end-disconnects closing c h
step-disconnects c (fails e) h = end-disconnects (failing e) c h
step-disconnects c (asks n) h = unfold recv in ground arith
step-disconnects c (sends bytes fault) h = unfold send in ground arith
step-disconnects c shuts h = unfold close in ground arith
step-disconnects c hooks h = ground arith

ends-cons : (e : Event) (es : List Event) → ends (e ∷ es) ≡ ends (e ∷ []) + ends es
ends-cons closes es = omega arith
ends-cons (fails e) es = omega arith
ends-cons _ es = omega arith

-- With `onDisconnect` set, it is called once for every 'close' and every 'error' event of a run,
-- so twice where an 'error' is followed by its 'close', and also after `close` was called.
pub run-disconnects :
    (es : List Event) (c : Connection)
    → c.hook ≡ true
    → (run c es).disconnects ≡ c.disconnects + ends es
unfolding run
run-disconnects [] c h = omega arith
run-disconnects (e ∷ es) c h = omega (
  arith,
  step-disconnects c e h,
  run-disconnects es (step c e) (step-disconnects c e h).0,
  ends-cons e es,
)
