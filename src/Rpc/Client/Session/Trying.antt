-- ===== src/Rpc/Client/Session/Trying.antt =====
-- sdk/js/src/rpc/client.ts: the loop of `scheduleReconnect` at work, with polls of waiting calls.
use ibridger.Common.{
  ℕ, zero, suc, Bool, if◌then◌else◌, ◌+◌, ◌<◌, ◌≤◌, ◌≡◌, refl, ◌∙◌, ap, arith, true, false,
  Bool-cases, inl, inr, Option, none, some, List, [], ◌∷◌, length,
}
use ibridger.Common.Text.{codes}
use ibridger.Errors.{Thrown, plain, ok, err}
use ibridger.Proto.Longs.{Longs}
use ibridger.Rpc.Client.{Call, log, start_call, on_disconnect}
use ibridger.Rpc.Client.Backoff.{ReconnectOptions, delay_of, has_more}
use ibridger.Rpc.Client.Session.{
  returns, sleeping, opening, Picked, nothing, picked, pick, polled, Session, attempt_from,
  schedule_reconnect, lose, begin_attempt, after_attempt, call_on, check_reconnect, Event, loses,
  calls, polls, wakes, reopens, step, run,
}

-- No loop, no waiting call and no call under way.
pub record IsCalm {T : Type 0} (s : Session T) : Type 0 where
  pub reconnecting : s.reconnecting ≡ false
  pub loops : s.loops ≡ []
  pub waiting : s.waiting ≡ []
  pub call_in_flight : s.client.call_in_flight ≡ false

-- The interval of the first waiting call comes round so many times before the rest.
abbrev pub polling : {T : Type 0} → ℕ → List (Event T) → List (Event T)
polling zero es = es
polling (suc n) es = polls 0 ∷ polling n es

-- A failed attempt: the polls during its `sleep`, the error of its `connect`, and the polls at the
-- `await` in that.
pub record Failure : Type 0 where
  pub asleep : ℕ
  pub error : Thrown
  pub opening : ℕ

-- The attempts of the loop that fail, before the rest.
abbrev pub failing : {T : Type 0} → List Failure → List (Event T) → List (Event T)
failing [] es = es
failing (f ∷ fs) es =
    polling f.asleep (wakes 0 ∷ polling f.opening (reopens 0 (err f.error) returns ∷ failing fs es))

-- An attempt that succeeds, with the polls during its `sleep` and at its `await`, and a poll.
abbrev pub succeeding : {T : Type 0} → ℕ → ℕ → ℕ → List (Event T)
succeeding p q conn = polling p (wakes 0 ∷ polling q (reopens 0 (ok conn) returns ∷ polls 0 ∷ []))

-- Fewer attempts than the limit.
pub has_more-le : (m : Option ℕ) (j k : ℕ) → j ≤ k → has_more m k ≡ true → has_more m j ≡ true
has_more-le none j k h e = refl
has_more-le (some n) j k h e = ground arith

if-then : {A : Type 0} (b : Bool) (x y : A) → b ≡ true → (if b then x else y) ≡ x
if-then b x y e = rw e refl

-- The hook of the application has been called once more.
abbrev pub lost : {T : Type 0} → Session T → Session T
lost s = record s { on_disconnects = suc s.on_disconnects }

module _ {T : Type 0} (l : Longs) (o : ReconnectOptions) where
  -- Without a connection, with these calls waiting, at the test of the loop for this attempt.
  abbrev pub trying : ℕ → List (Call T) → Session T → Session T
  trying k waiting s = attempt_from o k (record s {
    client = record s.client { codec = none };
    reconnecting = true;
    loops = [];
    waiting = waiting;
  })

  -- In the `sleep` of this attempt, and at the `await` in its `connect`.
  abbrev asleep_at : ℕ → List (Call T) → Session T → Session T
  asleep_at k waiting s = record s {
    client = record s.client { codec = none };
    reconnecting = true;
    loops = sleeping k (delay_of o k) ∷ [];
    waiting = waiting;
  }

  abbrev opening_at : ℕ → List (Call T) → Session T → Session T
  opening_at k waiting s = record s {
    client = record s.client { codec = none };
    reconnecting = true;
    loops = opening k ∷ [];
    waiting = waiting;
  }

  trying-asleep :
      (k : ℕ) (waiting : List (Call T)) (s : Session T)
      → has_more o.max_attempts k ≡ true
      → trying k waiting s ≡ asleep_at k waiting s
  unfolding attempt_from
  trying-asleep k waiting s more = rw more refl

  woken-opening :
      (k : ℕ) (waiting : List (Call T)) (s : Session T) (es : List (Event T))
      → run l (some o) (asleep_at k waiting s) (wakes 0 ∷ es)
        ≡ run l (some o) (opening_at k waiting s) es
  unfolding run step begin_attempt
  woken-opening k waiting s es = refl

  -- While the client has no codec and is reconnecting, a poll leaves everything as it is.
  polled-stays :
      (p : Picked (Call T)) (codec : Option ℕ) (t : Session T)
      → t.client.codec ≡ codec
      → codec ≡ none
      → t.reconnecting ≡ true
      → polled l p t ≡ t
  unfolding check_reconnect
  polled-stays nothing codec t c e r = refl
  polled-stays (picked call rest) codec t c e r =
      ap (λ (o : Option ℕ). check_reconnect l call rest o t) (c ∙ e) ∙ if-then t.reconnecting t _ r

  polling-stays :
      (n : ℕ) (t : Session T) (es : List (Event T))
      → t.client.codec ≡ none
      → t.reconnecting ≡ true
      → run l (some o) t (polling n es) ≡ run l (some o) t es
  unfolding run step
  polling-stays zero t es c r = refl
  polling-stays (suc n) t es c r =
      ap (λ (u : Session T). run l (some o) u (polling n es))
        (polled-stays (pick 0 t.waiting) t.client.codec t refl c r)
      ∙ polling-stays n t es c r

  -- From the test of the loop to the end of the `await` in an attempt, with polls meanwhile.
  trying-opening :
      (k p q : ℕ) (waiting : List (Call T)) (s : Session T) (es : List (Event T))
      → has_more o.max_attempts k ≡ true
      → run l (some o) (trying k waiting s) (polling p (wakes 0 ∷ polling q es))
        ≡ run l (some o) (opening_at k waiting s) es
  trying-opening k p q waiting s es more =
      ap (λ (t : Session T). run l (some o) t (polling p (wakes 0 ∷ polling q es)))
        (trying-asleep k waiting s more)
      ∙ polling-stays p (asleep_at k waiting s) (wakes 0 ∷ polling q es) refl refl
      ∙ woken-opening k waiting s (polling q es)
      ∙ polling-stays q (opening_at k waiting s) es refl refl

  pub trying-lose :
      (s : Session T) → IsCalm s → step l (some o) s (loses returns) ≡ trying 0 [] (lost s)
  unfolding step lose schedule_reconnect on_disconnect
  trying-lose s h = rw (h.reconnecting, h.loops, h.waiting) refl

  pub trying-call :
      (k : ℕ) (call : Call T) (s : Session T)
      → step l (some o) (trying k [] s) (calls call) ≡ trying k (call ∷ []) s
  unfolding step attempt_from call_on
  trying-call k call s = elim (Bool-cases (has_more o.max_attempts k)) [
    | inl more ↦ rw more refl
    | inr done ↦ rw done refl
  ]

  trying-fail :
      (k : ℕ) (waiting : List (Call T)) (f : Failure) (es : List (Event T)) (s : Session T)
      → has_more o.max_attempts k ≡ true
      → run l (some o) (trying k waiting s) (failing (f ∷ []) es)
        ≡ run l (some o) (trying (suc k) waiting s) es
  unfolding run step attempt_from after_attempt
  trying-fail k waiting f es s more =
      trying-opening k f.asleep f.opening waiting s (reopens 0 (err f.error) returns ∷ es) more

  pub trying-connect :
      (k p q : ℕ) (call : Call T) (conn : ℕ) (s : Session T)
      → has_more o.max_attempts k ≡ true
      → (run l (some o) (trying k (call ∷ []) s) (succeeding p q conn)).client
        ≡ start_call l call (record s.client { codec = some conn })
  unfolding run step after_attempt check_reconnect
  trying-connect k p q call conn s more =
      ap (λ (t : Session T). t.client)
        (trying-opening k p q (call ∷ []) s (reopens 0 (ok conn) returns ∷ polls 0 ∷ []) more)

  pub trying-end :
      (k : ℕ) (call : Call T) (s : Session T)
      → has_more o.max_attempts k ≡ false
      → (run l (some o) (trying k (call ∷ []) s) (polls 0 ∷ [])).client
        ≡ log
            (err (plain (codes "Connection lost and reconnect attempts exhausted")))
            (record s.client { codec = none })
  unfolding run step attempt_from check_reconnect
  trying-end k call s done = rw done refl

  pub trying-failing :
      (failures : List Failure) (k : ℕ) (waiting : List (Call T)) (es : List (Event T))
      (s : Session T)
      → ((j : ℕ) → j < k + length failures → has_more o.max_attempts j ≡ true)
      → run l (some o) (trying k waiting s) (failing failures es)
        ≡ run l (some o) (trying (k + length failures) waiting s) es
  trying-failing [] k waiting es s h =
      ap (λ n. run l (some o) (trying n waiting s) es) (omega arith)
  trying-failing (f ∷ failures) k waiting es s h =
      trying-fail k waiting f (failing failures es) s (h k (omega arith))
      ∙ trying-failing failures (suc k) waiting es s (λ j a. h j (omega arith))
      ∙ ap (λ n. run l (some o) (trying n waiting s) es) (omega arith)
