-- ===== src/Rpc/Server/Lifecycle/Tracking.antt =====
-- sdk/js/src/rpc/server.ts: what becomes of the connections given to `handleConnection`.
use ibridger.Common.{
  ℕ, ◌≡◌, ◌≢◌, refl, subst, arith, Bool, true, false, List, [], ◌∷◌, ◌++◌, if◌then◌else◌,
  Bool-cases, inl, inr, Option-cases, All, All,
}
use ibridger.Common.Sets.{has, has-append, has-add, has-delete}
use ibridger.Errors.{Result, ok, err}
use ibridger.Rpc.Server.Lifecycle.{
  Server, Event, starts, stops, listens, closes, accepts, ends, new_server, start, stop,
  after_listen, after_close, handle_connection, after_loop, step, run,
}

pub record Tracked (s : Server) : Type 0 where
  pub held :
      (x : ℕ) → has x s.accepted ≡ true → (if has x s.active then true else has x s.closed) ≡ true
  pub known : (x : ℕ) → has x s.active ≡ true → has x s.accepted ≡ true

-- An operation that leaves the connections alone.
abbrev Same : Server → Server → Type 0
Same s t = (t.accepted ≡ s.accepted) × (t.active ≡ s.active) × (t.closed ≡ s.closed)

Same-Tracked : (s t : Server) → Same s t → Tracked s → Tracked t
Same-Tracked s t (a, b, c) h = record {
  held = λ x k. rw (b, c) (h.held x (rw (← a) k));
  known = λ x k. rw a (h.known x (rw (← b) k));
}

start-Same : (s : Server) → Same s (start s)
unfolding start
start-Same s = ground arith

after_listen-Same : (n : ℕ) (r : Result (Unit {0})) (s : Server) → Same s (after_listen n r s)
unfolding after_listen
after_listen-Same n (ok _) s = (refl, refl, refl)
after_listen-Same n (err e) s = (refl, refl, refl)

after_close-Same : (n : ℕ) (s : Server) → Same s (after_close n s)
unfolding after_close
after_close-Same n s = (refl, refl, refl)

handle_connection-Tracked : (conn : ℕ) (s : Server) → Tracked s → Tracked (handle_connection conn s)
unfolding handle_connection has
handle_connection-Tracked conn s h = record {
  held =
      λ x k. grind (arith, h.held x, has-append x s.accepted (conn ∷ []), has-add x conn s.active);
  known =
      λ x k. grind (arith, h.known x, has-append x s.accepted (conn ∷ []), has-add x conn s.active);
}

after_loop-Tracked : (conn : ℕ) (s : Server) → Tracked s → Tracked (after_loop conn s)
unfolding after_loop has
after_loop-Tracked conn s h = record {
  held =
      λ x k. grind (arith, h.held x, has-append x s.closed (conn ∷ []), has-delete x conn s.active);
  known = λ x k. grind (arith, h.known x, has-delete x conn s.active);
}

has-nil : (x : ℕ) → has x [] ≢ true
unfolding has
has-nil x e = cc

held_nil : (x : ℕ) (b : Bool) → b ≡ true → (if has x [] then true else b) ≡ true
unfolding has
held_nil x b e = e

-- What `stop` does to the connections of a running server.
stop-closed :
    (s : Server)
    → s.is_running ≡ true
    → ((stop s).closed ≡ s.closed ++ s.active)
      × ((stop s).active ≡ [])
      × ((stop s).accepted ≡ s.accepted)
      × ((stop s).is_running ≡ false)
unfolding stop
stop-closed s h = elim (Option-cases s.socket_server) [
  | inl e ↦ rw (h, e) (refl, refl, refl, refl)
  | inr (n, e) ↦ rw (h, e) (refl, refl, refl, refl)
]

closed-accepted :
    (s : Server) (x : ℕ)
    → Tracked s
    → s.is_running ≡ true
    → has x s.accepted ≡ true
    → has x (stop s).closed ≡ true
closed-accepted s x t h k =
    rw ((stop-closed s h).0) (grind (arith, t.held x k, has-append x s.closed s.active))

stop-Tracked : (s : Server) → Tracked s → Tracked (stop s)
stop-Tracked s t = elim (Bool-cases s.is_running) [
  | inl h ↦
      let e = stop-closed s h in
      record {
        held = λ x k. rw e.1 (held_nil x _ (closed-accepted s x t h (rw (← e.2) k)));
        known = λ x k. absurd (has-nil x (subst (λ a. has x a ≡ true) e.1 k));
      }
  | inr h ↦ Same-Tracked s (stop s) (unfold stop in rw h (refl, refl, refl)) t
]

step-Tracked : (s : Server) (e : Event) → Tracked s → Tracked (step s e)
unfolding step
step-Tracked s starts t = Same-Tracked s _ (start-Same s) t
step-Tracked s stops t = stop-Tracked s t
step-Tracked s (listens n r) t = elim (Bool-cases (has n s.starting)) [
  | inl e ↦ rw e (Same-Tracked s _ (after_listen-Same n r s) t)
  | inr e ↦ rw e t
]
step-Tracked s (closes n) t = elim (Bool-cases (has n s.stopping)) [
  | inl e ↦ rw e (Same-Tracked s _ (after_close-Same n s) t)
  | inr e ↦ rw e t
]
step-Tracked s (accepts conn) t = handle_connection-Tracked conn s t
step-Tracked s (ends conn) t = after_loop-Tracked conn s t

run-Tracked_from : (s : Server) (es : List Event) → Tracked s → Tracked (run s es)
unfolding run
run-Tracked_from s [] t = t
run-Tracked_from s (e ∷ es) t = run-Tracked_from (step s e) es (step-Tracked s e t)

-- After any run of calls of `start` and `stop`, of connections accepted and dispatch loops ended,
-- and of ends of the awaited promises, on a new server, every connection given to
-- `handleConnection` is in `activeConnections` or was closed, and only such connections are in
-- `activeConnections`.
pub run-Tracked : (es : List Event) → Tracked (run new_server es)
unfolding new_server
run-Tracked es =
    run-Tracked_from new_server es (record { held = λ x k. absurd (has-nil x k); known = λ x k. k })

All-has : (P : ℕ → Type 0) (xs : List ℕ) → ((x : ℕ) → has x xs ≡ true → P x) → All P xs
unfolding has
All-has P [] h = tt
All-has P (x ∷ xs) h = (h x (ground arith), All-has P xs (λ y k. h y (ground (arith, k))))

-- `stop` on a running server, after any run, leaves it not running and without active connections,
-- and every connection that was ever accepted has been closed.
pub stop_lem :
    (es : List Event)
    → (run new_server es).is_running ≡ true
    → ((stop (run new_server es)).is_running ≡ false)
      × ((stop (run new_server es)).active ≡ [])
      × All (λ x. has x (stop (run new_server es)).closed ≡ true) (run new_server es).accepted
stop_lem es h =
    let s = run new_server es in
    let e = stop-closed s h in
    (e.3, e.1, All-has _ s.accepted (λ x k. closed-accepted s x (run-Tracked es) h k))
