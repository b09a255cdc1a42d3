-- ===== src/Transport/Connection/Promises.antt =====
-- sdk/js/src/transport/unix-socket.ts: the promises that `recv` gives.
use ibridger.Common.{
  ℕ, suc, false, ◌+◌, ◌≤◌, ◌<◌, ◌≡◌, refl, arith, List, [], ◌∷◌, ◌++◌, ltb, ◌==◌, if◌then◌else◌,
  length, take, drop, length-take, length-drop, All, All-append,
}
use ibridger.Common.Text.{Bytes}
use ibridger.Errors.{Thrown}
use ibridger.Transport.Connection.{
  Waiter, Settlement, Outcome, resolved, rejected, closed_error, transport_of, Connection, init,
  settle, splice, drain_loop, drain_waiters, on_data, reject_all, fail_with, on_close, on_error,
  recv, send, close, Event, chunk, closes, fails, asks, sends, shuts, hooks, step, run,
}

abbrev FirstNeedsMore : ℕ → List Waiter → Type 0
FirstNeedsMore n [] = Unit {0}
FirstNeedsMore n (w ∷ ws) = n < w.need

-- The buffer is too short for the first waiter, if there is one.
abbrev pub Starved : Connection → Type 0
Starved c = FirstNeedsMore (length c.buffer) c.waiters

drain_loop-Starved : (ws : List Waiter) (c : Connection) → Starved (drain_loop ws c)
unfolding drain_loop
drain_loop-Starved [] c = tt
drain_loop-Starved (w ∷ ws) c = ground (arith, drain_loop-Starved ws (splice w.promise w.need c))

fail_with-Starved : (e : Thrown) (c : Connection) → Starved (fail_with e c)
unfolding fail_with
fail_with-Starved e c = tt

FirstNeedsMore-drop :
    (n : ℕ) (bytes : Bytes) (ws : List Waiter)
    → FirstNeedsMore (length bytes) ws
    → FirstNeedsMore (length (drop n bytes)) ws
FirstNeedsMore-drop n bytes [] h = tt
FirstNeedsMore-drop n bytes (w ∷ ws) h = omega (arith, length-drop n bytes)

FirstNeedsMore-append :
    (n : ℕ) (w : Waiter) (ws : List Waiter)
    → n < w.need
    → FirstNeedsMore n ws
    → FirstNeedsMore n (ws ++ w ∷ [])
FirstNeedsMore-append n w [] lt h = lt
FirstNeedsMore-append n w (v ∷ ws) lt h = h

recv-Starved : (n : ℕ) (c : Connection) → Starved c → Starved (recv n c)
unfolding recv
recv-Starved n c h = ground (
  arith,
  FirstNeedsMore-drop n c.buffer c.waiters h,
  FirstNeedsMore-append (length c.buffer) (record { need = n; promise = c.next_promise }) c.waiters,
)

-- Every event leaves the first waiter short of bytes: none waits that could be served.
pub step-Starved : (c : Connection) (e : Event) → Starved c → Starved (step c e)
unfolding step
step-Starved c (chunk bytes) h = unfold on_data drain_waiters in drain_loop-Starved c.waiters _
step-Starved c closes h = unfold on_close in fail_with-Starved closed_error c
step-Starved c (fails e) h = unfold on_error in fail_with-Starved (transport_of e) c
step-Starved c (asks n) h = recv-Starved n c h
step-Starved c (sends bytes fault) h = unfold send in ground arith
step-Starved c shuts h = unfold close in h
step-Starved c hooks h = h

abbrev Fits : ℕ → Outcome → Type 0
Fits need (resolved bytes) = length bytes ≡ need
Fits need (rejected e) = Unit {0}

-- A resolved promise got as many bytes as its call asked for.
abbrev pub IsExact : Settlement → Type 0
IsExact s = Fits s.need s.outcome

splice-IsExact :
    (p n : ℕ) (c : Connection)
    → n ≤ length c.buffer
    → All IsExact c.settled
    → All IsExact (splice p n c).settled
unfolding splice
splice-IsExact p n c le h =
    All-append IsExact c.settled _ h (omega (arith, length-take n c.buffer), tt)

drain_loop-IsExact :
    (ws : List Waiter) (c : Connection)
    → All IsExact c.settled
    → All IsExact (drain_loop ws c).settled
unfolding drain_loop
drain_loop-IsExact [] c h = h
drain_loop-IsExact (w ∷ ws) c h =
    ground
      (arith, drain_loop-IsExact ws (splice w.promise w.need c), splice-IsExact w.promise w.need c)

reject_all-IsExact :
    (e : Thrown) (ws : List Waiter) (c : Connection)
    → All IsExact c.settled
    → All IsExact (reject_all e ws c).settled
unfolding reject_all
reject_all-IsExact e [] c h = h
reject_all-IsExact e (w ∷ ws) c h =
    reject_all-IsExact e ws _ (All-append IsExact c.settled _ h (tt, tt))

recv-IsExact : (n : ℕ) (c : Connection) → All IsExact c.settled → All IsExact (recv n c).settled
unfolding recv
recv-IsExact n c h = ground (
  arith,
  splice-IsExact c.next_promise n (record c { next_promise = suc c.next_promise }),
  All-append IsExact c.settled
      (record { promise = c.next_promise; need = n; outcome = rejected closed_error } ∷ []) h
      (tt, tt),
)

pub step-IsExact :
    (c : Connection) (e : Event) → All IsExact c.settled → All IsExact (step c e).settled
unfolding step
step-IsExact c (chunk bytes) h = unfold on_data drain_waiters in drain_loop-IsExact c.waiters _ h
step-IsExact c closes h = unfold on_close fail_with in reject_all-IsExact _ c.waiters _ h
step-IsExact c (fails e) h = unfold on_error fail_with in reject_all-IsExact _ c.waiters _ h
step-IsExact c (asks n) h = recv-IsExact n c h
step-IsExact c (sends bytes fault) h = unfold send in ground arith
step-IsExact c shuts h = unfold close in h
step-IsExact c hooks h = h

module _ (p : ℕ) where
  -- How often the promise waits, and how often it has been settled.
  abbrev pub pending : List Waiter → ℕ
  pending [] = 0
  pending (w ∷ ws) = (if w.promise == p then 1 else 0) + pending ws

  abbrev pub settlements : List Settlement → ℕ
  settlements [] = 0
  settlements (s ∷ ss) = (if s.promise == p then 1 else 0) + settlements ss

  settlements-append :
      (ss ts : List Settlement) → settlements (ss ++ ts) ≡ settlements ss + settlements ts
  settlements-append [] ts = omega arith
  settlements-append (s ∷ ss) ts = omega (arith, settlements-append ss ts)

  pending-append : (ws vs : List Waiter) → pending (ws ++ vs) ≡ pending ws + pending vs
  pending-append [] vs = omega arith
  pending-append (w ∷ ws) vs = omega (arith, pending-append ws vs)

  -- A promise that has been made waits or is settled, and once in all.
  abbrev pub OnceInAll : Connection → Type 0
  OnceInAll c = pending c.waiters + settlements c.settled ≡ (if ltb p c.next_promise then 1 else 0)

  pub drain_loop-settlements :
      (ws : List Waiter) (c : Connection)
      → (pending (drain_loop ws c).waiters + settlements (drain_loop ws c).settled
          ≡ pending ws + settlements c.settled)
        × ((drain_loop ws c).next_promise ≡ c.next_promise)
  unfolding drain_loop
  drain_loop-settlements [] c = (refl, refl)
  drain_loop-settlements (w ∷ ws) c = ground (
    arith,
    drain_loop-settlements ws (splice w.promise w.need c),
    settlements-append c.settled (
        record { promise = w.promise; need = w.need; outcome = resolved (take w.need c.buffer) }
        ∷ []),
  )

  pub reject_all-settlements :
      (e : Thrown) (ws : List Waiter) (c : Connection)
      → (settlements (reject_all e ws c).settled ≡ pending ws + settlements c.settled)
        × ((reject_all e ws c).next_promise ≡ c.next_promise)
  unfolding reject_all
  reject_all-settlements e [] c = omega arith
  reject_all-settlements e (w ∷ ws) c =
      let s : Settlement = record { promise = w.promise; need = w.need; outcome = rejected e } in
      omega (
        arith,
        reject_all-settlements e ws (settle w.promise w.need (rejected e) c),
        settlements-append c.settled (s ∷ []),
      )

  fail_with-OnceInAll : (e : Thrown) (c : Connection) → OnceInAll c → OnceInAll (fail_with e c)
  unfolding fail_with
  fail_with-OnceInAll e c h =
      ground (arith, reject_all-settlements e c.waiters (record c { connected = false }))

  recv-OnceInAll : (n : ℕ) (c : Connection) → OnceInAll c → OnceInAll (recv n c)
  unfolding recv
  recv-OnceInAll n c h = ground (
    arith,
    settlements-append c.settled
        (record { promise = c.next_promise; need = n; outcome = resolved (take n c.buffer) } ∷ []),
    settlements-append c.settled
        (record { promise = c.next_promise; need = n; outcome = rejected closed_error } ∷ []),
    pending-append c.waiters (record { need = n; promise = c.next_promise } ∷ []),
  )

  pub step-OnceInAll : (c : Connection) (e : Event) → OnceInAll c → OnceInAll (step c e)
  unfolding step
  step-OnceInAll c (chunk bytes) h =
      unfold on_data drain_waiters in
      ground (arith, drain_loop-settlements c.waiters (record c { buffer = c.buffer ++ bytes }))
  step-OnceInAll c closes h = unfold on_close in fail_with-OnceInAll _ c h
  step-OnceInAll c (fails e) h = unfold on_error in fail_with-OnceInAll _ c h
  step-OnceInAll c (asks n) h = recv-OnceInAll n c h
  step-OnceInAll c (sends bytes fault) h = unfold send in ground arith
  step-OnceInAll c shuts h = unfold close in h
  step-OnceInAll c hooks h = h

-- What holds of a connection whatever its history.
pub record IsSound (c : Connection) : Type 0 where
  pub starved : Starved c
  pub exact : All IsExact c.settled
  pub once : (p : ℕ) → OnceInAll p c

run-IsSound_from : (es : List Event) (c : Connection) → IsSound c → IsSound (run c es)
unfolding run
run-IsSound_from [] c v = v
run-IsSound_from (e ∷ es) c v = run-IsSound_from es (step c e) (record {
  starved = step-Starved c e v.starved;
  exact = step-IsExact c e v.exact;
  once = λ p. step-OnceInAll p c e (v.once p);
})

-- After any run of events from a new connection, the first waiter needs more bytes than are
-- buffered, every promise that was resolved got exactly as many bytes as its call asked for, and
-- each call of `recv` made so far has its promise either waiting or settled, and just once.
pub run-IsSound : (es : List Event) → IsSound (run init es)
unfolding init
run-IsSound es =
    run-IsSound_from es init (record { starved = tt; exact = tt; once = λ p. ground arith })
