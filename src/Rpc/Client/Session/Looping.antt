-- ===== src/Rpc/Client/Session/Looping.antt =====
-- sdk/js/src/rpc/client.ts: the loops of `scheduleReconnect` beside the rest of a client.
use ibridger.Common.{
  ℕ, zero, suc, ◌≤◌, ◌≡◌, refl, arith, if-intro, true, Option, none, some, List, [], ◌∷◌, length,
  length-append, All, All-append,
}
use ibridger.Errors.{Result, ok, err}
use ibridger.Proto.Longs.{Longs}
use ibridger.Rpc.Client.{Call}
use ibridger.Rpc.Client.Backoff.{ReconnectOptions, delay_of, has_more}
use ibridger.Rpc.Client.Session.{
  Hook, returns, throws, Loop, sleeping, opening, Session, Picked, nothing, picked, pick, keep,
  begin_connect, opened_at, after_open, attempt_from, schedule_reconnect, reschedule, after_hook,
  lose, begin_attempt, after_attempt, woken, reopened, on_wake, on_reopen, call_on, check_reconnect,
  polled, Event, connects, opens, disconnects, loses, calls, polls, wakes, reopens, sends, receives,
  step, run,
}

-- What holds of a picked item and of the others.
abbrev PickedAll {ℓ κ} : {A : Type ℓ} → (A → Type κ) → Picked A → Type κ
PickedAll P nothing = Unit
PickedAll P (picked x rest) = P x × All P rest

keep-PickedAll {ℓ κ} :
    {A : Type ℓ} (P : A → Type κ) (x : A) (p : Picked A)
    → P x
    → PickedAll P p
    → PickedAll P (keep x p)
keep-PickedAll P x nothing h hs = tt
keep-PickedAll P x (picked y rest) h (hy, hs) = (hy, (h, hs))

pick-PickedAll {ℓ κ} :
    {A : Type ℓ} (P : A → Type κ) (n : ℕ) (xs : List A) → All P xs → PickedAll P (pick n xs)
pick-PickedAll P n [] h = tt
pick-PickedAll P zero (x ∷ xs) h = h
pick-PickedAll P (suc n) (x ∷ xs) (h, hs) =
    keep-PickedAll P x (pick n xs) h (pick-PickedAll P n xs hs)

-- A loop is at an attempt that it may make, and sleeps for as long as that attempt asks.
abbrev Allowed : Option ReconnectOptions → Loop → Type 0
Allowed none loop = ⊥
Allowed (some o) (sleeping attempt delay) =
    (has_more o.max_attempts attempt ≡ true) × (delay ≡ delay_of o attempt)
Allowed (some o) (opening attempt) = has_more o.max_attempts attempt ≡ true

module _ {T : Type 0} where
  pub record Works (options : Option ReconnectOptions) (s : Session T) : Type 0 where
    pub working : s.reconnecting ≡ true → 1 ≤ length s.loops
    pub within : All (Allowed options) s.loops

  attempt_from-Works :
      (o : ReconnectOptions) (k : ℕ) (s : Session T)
      → All (Allowed (some o)) s.loops
      → Works (some o) (attempt_from o k s)
  unfolding attempt_from
  attempt_from-Works o k s h =
      if-intro (Works (some o)) (has_more o.max_attempts k) _ _
        (λ more. record {
          working = λ _. omega (arith, length-append s.loops (sleeping k (delay_of o k) ∷ []));
          within = All-append (Allowed (some o)) s.loops _ h ((more, refl), tt);
        })
        (λ _. record { working = λ e. absurd cc; within = h })

  reschedule-Works :
      (options : Option ReconnectOptions) (s : Session T)
      → Works options s
      → Works options (reschedule options s)
  unfolding schedule_reconnect
  reschedule-Works none s v = v
  reschedule-Works (some o) s v =
      if-intro (Works (some o)) s.reconnecting _ _ (λ _. v)
        (λ _. attempt_from-Works o 0 (record s { reconnecting = true }) v.within)

  after_hook-Works :
      (options : Option ReconnectOptions) (hook : Hook) (s : Session T)
      → Works options s
      → Works options (after_hook options hook s)
  after_hook-Works options throws s v = v
  after_hook-Works options returns s v = reschedule-Works options s v

  begin_attempt-Works :
      (o : ReconnectOptions) (k : ℕ) (codec : Option ℕ) (s : Session T)
      → has_more o.max_attempts k ≡ true
      → All (Allowed (some o)) s.loops
      → Works (some o) (begin_attempt o k codec s)
  unfolding begin_attempt
  begin_attempt-Works o k none s more h = record {
    working = λ _. omega (arith, length-append s.loops (opening k ∷ []));
    within = All-append (Allowed (some o)) s.loops _ h (more, tt);
  }
  begin_attempt-Works o k (some old) s more h = attempt_from-Works o (suc k) s h

  after_attempt-Works :
      (o : ReconnectOptions) (k : ℕ) (opened : Result ℕ) (hook : Hook) (s : Session T)
      → All (Allowed (some o)) s.loops
      → Works (some o) (after_attempt o k opened hook s)
  unfolding after_attempt
  after_attempt-Works o k (err e) hook s h = attempt_from-Works o (suc k) s h
  after_attempt-Works o k (ok conn) returns s h = record { working = λ e. absurd cc; within = h }
  after_attempt-Works o k (ok conn) throws s h = attempt_from-Works o (suc k) _ h

  woken-Works :
      (o : ReconnectOptions) (p : Picked Loop) (s : Session T)
      → Works (some o) s
      → PickedAll (Allowed (some o)) p
      → Works (some o) (woken o p s)
  woken-Works o nothing s v h = v
  woken-Works o (picked (sleeping k d) rest) s v (h, hs) =
      begin_attempt-Works o k s.client.codec _ h.0 hs
  woken-Works o (picked (opening k) rest) s v h = v

  reopened-Works :
      (o : ReconnectOptions) (opened : Result ℕ) (hook : Hook) (p : Picked Loop) (s : Session T)
      → Works (some o) s
      → PickedAll (Allowed (some o)) p
      → Works (some o) (reopened o opened hook p s)
  reopened-Works o opened hook nothing s v h = v
  reopened-Works o opened hook (picked (sleeping k d) rest) s v h = v
  reopened-Works o opened hook (picked (opening k) rest) s v (h, hs) =
      after_attempt-Works o k opened hook _ hs

  on_wake-Works :
      (options : Option ReconnectOptions) (n : ℕ) (s : Session T)
      → Works options s
      → Works options (on_wake options n s)
  on_wake-Works none n s v = v
  on_wake-Works (some o) n s v =
      woken-Works o (pick n s.loops) s v (pick-PickedAll (Allowed (some o)) n s.loops v.within)

  on_reopen-Works :
      (options : Option ReconnectOptions) (n : ℕ) (opened : Result ℕ) (hook : Hook) (s : Session T)
      → Works options s
      → Works options (on_reopen options n opened hook s)
  on_reopen-Works none n opened hook s v = v
  on_reopen-Works (some o) n opened hook s v =
      reopened-Works o opened hook (pick n s.loops) s v
        (pick-PickedAll (Allowed (some o)) n s.loops v.within)

  begin_connect-Works :
      (options : Option ReconnectOptions) (codec : Option ℕ) (s : Session T)
      → Works options s
      → Works options (begin_connect codec s)
  unfolding begin_connect
  begin_connect-Works options none s v = record { working = v.working; within = v.within }
  begin_connect-Works options (some old) s v = record { working = v.working; within = v.within }

  opened_at-Works :
      (options : Option ReconnectOptions) (k : ℕ) (opened : Result ℕ) (s : Session T)
      → Works options s
      → Works options (opened_at k opened s)
  opened_at-Works options zero opened s v = v
  opened_at-Works options (suc k) (ok conn) s v = record { working = v.working; within = v.within }
  opened_at-Works options (suc k) (err e) s v = record { working = v.working; within = v.within }

  call_on-Works :
      (l : Longs) (options : Option ReconnectOptions) (call : Call T) (codec : Option ℕ)
      (s : Session T)
      → Works options s
      → Works options (call_on l options call codec s)
  unfolding call_on
  call_on-Works l none call none s v = record { working = v.working; within = v.within }
  call_on-Works l (some o) call none s v = record { working = v.working; within = v.within }
  call_on-Works l none call (some conn) s v = record { working = v.working; within = v.within }
  call_on-Works l (some o) call (some conn) s v = record { working = v.working; within = v.within }

  check_reconnect-Works :
      (l : Longs) (options : Option ReconnectOptions) (call : Call T) (rest : List (Call T))
      (codec : Option ℕ) (s : Session T)
      → Works options s
      → Works options (check_reconnect l call rest codec s)
  unfolding check_reconnect
  check_reconnect-Works l options call rest (some conn) s v = record {
    working = v.working;
    within = v.within;
  }
  check_reconnect-Works l options call rest none s v =
      if-intro (Works options) s.reconnecting _ _ (λ _. v)
        (λ _. record { working = v.working; within = v.within })

  polled-Works :
      (l : Longs) (options : Option ReconnectOptions) (p : Picked (Call T)) (s : Session T)
      → Works options s
      → Works options (polled l p s)
  polled-Works l options nothing s v = v
  polled-Works l options (picked call rest) s v =
      check_reconnect-Works l options call rest s.client.codec s v

  step-Works :
      (l : Longs) (options : Option ReconnectOptions) (s : Session T) (e : Event T)
      → Works options s
      → Works options (step l options s e)
  unfolding step lose after_open
  step-Works l options s connects v = begin_connect-Works options s.client.codec s v
  step-Works l options s (opens opened) v = opened_at-Works options s.connecting opened s v
  step-Works l options s disconnects v = record { working = v.working; within = v.within }
  step-Works l options s (loses hook) v =
      after_hook-Works options hook _ (record { working = v.working; within = v.within })
  step-Works l options s (calls call) v = call_on-Works l options call s.client.codec s v
  step-Works l options s (polls i) v = polled-Works l options (pick i s.waiting) s v
  step-Works l options s (wakes i) v = on_wake-Works options i s v
  step-Works l options s (reopens i opened hook) v = on_reopen-Works options i opened hook s v
  step-Works l options s (sends sent) v = record { working = v.working; within = v.within }
  step-Works l options s (receives race) v = record { working = v.working; within = v.within }

  pub run-Works :
      (l : Longs) (options : Option ReconnectOptions) (s : Session T) (es : List (Event T))
      → Works options s
      → Works options (run l options s es)
  unfolding run
  run-Works l options s [] v = v
  run-Works l options s (e ∷ es) v =
      run-Works l options (step l options s e) es (step-Works l options s e v)
