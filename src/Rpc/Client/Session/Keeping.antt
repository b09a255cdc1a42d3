-- ===== src/Rpc/Client/Session/Keeping.antt =====
-- sdk/js/src/rpc/client.ts: what the loops of `scheduleReconnect` and the hooks leave alone.
use ibridger.Common.{
  ℕ, suc, ◌+◌, ◌≡◌, refl, if-intro, Bool, true, false, Option, none, some, List, length,
}
use ibridger.Errors.{Result, ok, err}
use ibridger.Proto.Longs.{Longs, IsLongs}
use ibridger.Rpc.Client.{on_disconnect}
use ibridger.Rpc.Client.Calls.{IsSerial, codec-IsSerial}
use ibridger.Rpc.Client.Backoff.{ReconnectOptions, has_more}
use ibridger.Rpc.Client.Session.{
  Hook, returns, throws, Loop, sleeping, opening, Session, Picked, nothing, picked, pick,
  attempt_from, schedule_reconnect, reschedule, after_hook, lose, begin_attempt, after_attempt,
  woken, reopened, on_wake, on_reopen,
}

module _ {T : Type 0} where
  -- `made` calls and `begun` calls of `connect` so far.
  pub record Serves (made begun : ℕ) (s : Session T) : Type 0 where
    pub started : ℕ
    pub serial : IsSerial started s.client
    pub total : started + length s.waiting ≡ made
    pub opened : s.connecting + length s.connect_results ≡ begun

  -- An operation that leaves calls and connections alone.
  abbrev pub Same : Session T → Session T → Type 0
  Same s t =
      (t.client ≡ s.client)
      × (t.waiting ≡ s.waiting)
      × (t.connecting ≡ s.connecting)
      × (t.connect_results ≡ s.connect_results)

  pub Same-Serves : (n m : ℕ) (s t : Session T) → Same s t → Serves n m s → Serves n m t
  Same-Serves n m s t (a, b, c, d) v = record {
    started = v.started;
    serial = rw a v.serial;
    total = rw b v.total;
    opened = rw (c, d) v.opened;
  }

  attempt_from-Same : (o : ReconnectOptions) (k : ℕ) (s : Session T) → Same s (attempt_from o k s)
  unfolding attempt_from
  attempt_from-Same o k s =
      if-intro (Same s) (has_more o.max_attempts k) _ _ (λ _. (refl, refl, refl, refl))
        (λ _. (refl, refl, refl, refl))

  reschedule-Same :
      (options : Option ReconnectOptions) (s : Session T) → Same s (reschedule options s)
  unfolding schedule_reconnect
  reschedule-Same none s = (refl, refl, refl, refl)
  reschedule-Same (some o) s =
      if-intro (Same s) s.reconnecting _ _ (λ _. (refl, refl, refl, refl))
        (λ _. attempt_from-Same o 0 (record s { reconnecting = true }))

  after_hook-Same :
      (options : Option ReconnectOptions) (hook : Hook) (s : Session T)
      → Same s (after_hook options hook s)
  after_hook-Same options throws s = (refl, refl, refl, refl)
  after_hook-Same options returns s = reschedule-Same options s

  begin_attempt-Same :
      (o : ReconnectOptions) (k : ℕ) (codec : Option ℕ) (s : Session T)
      → Same s (begin_attempt o k codec s)
  unfolding begin_attempt
  begin_attempt-Same o k none s = (refl, refl, refl, refl)
  begin_attempt-Same o k (some old) s = attempt_from-Same o (suc k) s

  pub woken-Same :
      (options : Option ReconnectOptions) (n : ℕ) (s : Session T) → Same s (on_wake options n s)
  woken-Same none n s = (refl, refl, refl, refl)
  woken-Same (some o) n s = by_pick (pick n s.loops)
    where
      by_pick : (p : Picked Loop) → Same s (woken o p s)
      by_pick nothing = (refl, refl, refl, refl)
      by_pick (picked (sleeping k d) rest) =
          begin_attempt-Same o k s.client.codec (record s { loops = rest })
      by_pick (picked (opening k) rest) = (refl, refl, refl, refl)

  module _ (l : Longs) (laws : IsLongs l) where
    -- The codec does not matter.
    pub codec-Serves :
        (n m : ℕ) (o : Option ℕ) (s : Session T)
        → Serves n m s
        → Serves n m (record s { client = record s.client { codec = o } })
    codec-Serves n m o s v = record {
      started = v.started;
      serial = codec-IsSerial l laws v.started o s.client v.serial;
      total = v.total;
      opened = v.opened;
    }

    -- Nor do the loops and what the hooks count.
    other-Serves :
        (n m x y : ℕ) (b : Bool) (loops : List Loop) (s : Session T)
        → Serves n m s
        → Serves n m
            (record s { reconnecting = b; loops = loops; on_disconnects = x; on_reconnects = y })
    other-Serves n m x y b loops s v = record {
      started = v.started;
      serial = v.serial;
      total = v.total;
      opened = v.opened;
    }

    after_attempt-Serves :
        (n m : ℕ) (o : ReconnectOptions) (k : ℕ) (opened : Result ℕ) (hook : Hook) (s : Session T)
        → Serves n m s
        → Serves n m (after_attempt o k opened hook s)
    unfolding after_attempt
    after_attempt-Serves n m o k (err e) hook s v =
        Same-Serves n m s _ (attempt_from-Same o (suc k) s) v
    after_attempt-Serves n m o k (ok conn) returns s v =
        other-Serves n m _ _ _ _ _ (codec-Serves n m (some conn) s v)
    after_attempt-Serves n m o k (ok conn) throws s v =
        Same-Serves n m _ _ (attempt_from-Same o (suc k) _) (
          other-Serves n m s.on_disconnects (suc s.on_reconnects) false s.loops _
            (codec-Serves n m (some conn) s v))

    reopened-Serves :
        (n m : ℕ) (o : ReconnectOptions) (opened : Result ℕ) (hook : Hook) (p : Picked Loop)
        (s : Session T)
        → Serves n m s
        → Serves n m (reopened o opened hook p s)
    reopened-Serves n m o opened hook nothing s v = v
    reopened-Serves n m o opened hook (picked (sleeping k d) rest) s v = v
    reopened-Serves n m o opened hook (picked (opening k) rest) s v =
        after_attempt-Serves n m o k opened hook _ (other-Serves n m _ _ _ rest s v)

    pub on_reopen-Serves :
        (n m : ℕ) (options : Option ReconnectOptions) (i : ℕ) (opened : Result ℕ) (hook : Hook)
        (s : Session T)
        → Serves n m s
        → Serves n m (on_reopen options i opened hook s)
    on_reopen-Serves n m none i opened hook s v = v
    on_reopen-Serves n m (some o) i opened hook s v =
        reopened-Serves n m o opened hook (pick i s.loops) s v

    pub lose-Serves :
        (n m : ℕ) (options : Option ReconnectOptions) (hook : Hook) (s : Session T)
        → Serves n m s
        → Serves n m (lose options hook s)
    unfolding lose on_disconnect
    lose-Serves n m options hook s v = Same-Serves n m _ _ (after_hook-Same options hook _) (
        other-Serves n m (suc s.on_disconnects) s.on_reconnects s.reconnecting s.loops _
          (codec-Serves n m none s v))
