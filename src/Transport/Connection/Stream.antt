-- ===== src/Transport/Connection/Stream.antt =====
-- The bytes that a connection hands out, against the bytes that the socket delivered.
use ibridger.Common.{
  ℕ, suc, ◌≡◌, refl, sym, ap, ◌∙◌, arith, List, [], ◌∷◌, ◌++◌, append_assoc, append-nil, take,
  take-append-drop,
}
use ibridger.Common.Text.{Bytes}
use ibridger.Errors.{Thrown}
use ibridger.Transport.Connection.{
  Waiter, Settlement, Outcome, resolved, rejected, closed_error, Connection, init, settle, splice,
  drain_loop, drain_waiters, on_data, reject_all, fail_with, on_close, on_error, recv, send, close,
  Event, chunk, closes, fails, asks, sends, shuts, hooks, step, run,
}

-- What one settlement hands out.
abbrev pub payload_of : Outcome → Bytes
payload_of (resolved bytes) = bytes
payload_of (rejected e) = []

-- What the calls of `recv` have handed out, in the order of their settlement.
abbrev pub delivered : List Settlement → Bytes
delivered [] = []
delivered (s ∷ ss) = payload_of s.outcome ++ delivered ss

-- What the socket's 'data' events have brought.
abbrev pub received : List Event → Bytes
received [] = []
received (chunk bytes ∷ es) = bytes ++ received es
received (closes ∷ es) = received es
received (fails e ∷ es) = received es
received (asks n ∷ es) = received es
received (sends bytes fault ∷ es) = received es
received (shuts ∷ es) = received es
received (hooks ∷ es) = received es

pub delivered-append :
    (ss ts : List Settlement) → delivered (ss ++ ts) ≡ delivered ss ++ delivered ts
delivered-append [] ts = refl
delivered-append (s ∷ ss) ts =
    rw (delivered-append ss ts, append_assoc (payload_of s.outcome) (delivered ss) (delivered ts))

-- What has come out and what is still inside.
abbrev flow : Connection → Bytes
flow c = delivered c.settled ++ c.buffer

flow-splice : (p n : ℕ) (c : Connection) → flow (splice p n c) ≡ flow c
unfolding splice
flow-splice p n c = rw (
  delivered-append c.settled
      (record { promise = p; need = n; outcome = resolved (take n c.buffer) } ∷ []),
  append-nil,
  append_assoc,
  take-append-drop n c.buffer,
)

flow-drain_loop : (ws : List Waiter) (c : Connection) → flow (drain_loop ws c) ≡ flow c
unfolding drain_loop
flow-drain_loop [] c = refl
flow-drain_loop (w ∷ ws) c =
    ground (arith, flow-drain_loop ws (splice w.promise w.need c), flow-splice w.promise w.need c)

flow-on_data : (bytes : Bytes) (c : Connection) → flow (on_data bytes c) ≡ flow c ++ bytes
unfolding on_data drain_waiters
flow-on_data bytes c =
    flow-drain_loop c.waiters (record c { buffer = c.buffer ++ bytes })
    ∙ sym (append_assoc (delivered c.settled) c.buffer bytes)

flow-rejected : (p n : ℕ) (e : Thrown) (c : Connection) → flow (settle p n (rejected e) c) ≡ flow c
flow-rejected p n e c =
    ap (λ (ss : Bytes). ss ++ c.buffer)
      (delivered-append c.settled (record { promise = p; need = n; outcome = rejected e } ∷ [])
        ∙ append-nil (delivered c.settled))

flow-reject_all :
    (e : Thrown) (ws : List Waiter) (c : Connection) → flow (reject_all e ws c) ≡ flow c
unfolding reject_all
flow-reject_all e [] c = refl
flow-reject_all e (w ∷ ws) c = flow-reject_all e ws _ ∙ flow-rejected w.promise w.need e c

flow-fail_with : (e : Thrown) (c : Connection) → flow (fail_with e c) ≡ flow c
unfolding fail_with
flow-fail_with e c = flow-reject_all e c.waiters _

flow-recv : (n : ℕ) (c : Connection) → flow (recv n c) ≡ flow c
unfolding recv
flow-recv n c =
    let c' = record c { next_promise = suc c.next_promise } in
    ground (arith, flow-splice c.next_promise n c', flow-rejected c.next_promise n closed_error c')

flow-step : (c : Connection) (e : Event) → flow (step c e) ≡ flow c ++ received (e ∷ [])
unfolding step
flow-step c (chunk bytes) = rw append-nil (flow-on_data bytes c)
flow-step c closes = unfold on_close in rw append-nil (flow-fail_with _ c)
flow-step c (fails e) = unfold on_error in rw append-nil (flow-fail_with _ c)
flow-step c (asks n) = rw append-nil (flow-recv n c)
flow-step c (sends bytes fault) = unfold send in rw append-nil (ground arith)
flow-step c shuts = unfold close in rw append-nil refl
flow-step c hooks = rw append-nil refl

received-cons : (e : Event) (es : List Event) → received (e ∷ es) ≡ received (e ∷ []) ++ received es
received-cons (chunk bytes) es = rw append-nil
received-cons _ es = refl

flow-run : (es : List Event) (c : Connection) → flow (run c es) ≡ flow c ++ received es
unfolding run
flow-run [] c = sym (append-nil (flow c))
flow-run (e ∷ es) c =
    flow-run es (step c e)
    ∙ rw
        (flow-step c e, received-cons e es, append_assoc (flow c) (received (e ∷ [])) (received es))

-- After any run of events from a new connection, the bytes that the calls of `recv` were given, in
-- the order of their settlement, followed by what is still buffered, are the bytes that the
-- socket's 'data' events brought: none is lost, made up or moved.
pub delivered-run :
    (es : List Event) → delivered (run init es).settled ++ (run init es).buffer ≡ received es
unfolding init
delivered-run es = flow-run es init
