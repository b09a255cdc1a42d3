-- ===== src/Rpc/Client/Session.antt =====
-- sdk/js/src/rpc/client.ts: a client whose `connect`, `scheduleReconnect` and `waitForReconnect` run
-- beside its calls. Any number of them may stand at an `await` at once.
pub mod Looping
pub mod Keeping
pub mod Counting
pub mod Trying
pub mod Waiting
use ibridger.Common.{
  ℕ, zero, suc, Bool, true, false, Option, none, some, List, [], ◌∷◌, ◌++◌, if◌then◌else◌,
}
use ibridger.Common.Text.{codes}
use ibridger.Errors.{plain, Result, ok, err}
use ibridger.Proto.Longs.{Longs}
use ibridger.Rpc.Client.{
  Call, Race, Client, new_client, log, disconnect, on_disconnect, start_call, on_send, on_recv,
}
use ibridger.Rpc.Client.Backoff.{ReconnectOptions, Number, delay_of, has_more}

-- What a hook of the application does: it returns, as an absent one does, or it throws.
pub data Hook : Type 0 where
  returns : Hook
  throws : Hook

-- A loop of `scheduleReconnect` sleeps before an attempt, given to `sleep` as such a number, or is at the
-- `await` of the attempt's `connect`.
pub data Loop : Type 0 where
  sleeping : ℕ → Number → Loop
  opening : ℕ → Loop

-- `waiting` are the calls in `waitForReconnect`, and `connecting` is the number of the
-- application's own `connect` calls at their `await`. The rest logs the ends of those and counts
-- the places where the hooks are called.
pub record Session (T : Type 0) : Type 0 where
  pub client : Client T
  pub reconnecting : Bool
  pub loops : List Loop
  pub waiting : List (Call T)
  pub connecting : ℕ
  pub connect_results : List (Result (Unit {0}))
  pub on_disconnects : ℕ
  pub on_reconnects : ℕ

-- The number of a loop or of a waiting call says which of them moves.
pub data Event (T : Type 0) : Type 0 where
  connects : Event T
  opens : Result ℕ → Event T
  disconnects : Event T
  loses : Hook → Event T
  calls : Call T → Event T
  polls : ℕ → Event T
  wakes : ℕ → Event T
  reopens : ℕ → Result ℕ → Hook → Event T
  sends : Result (Unit {0}) → Event T
  receives : Race → Event T

-- The item at a place, and the others.
pub data Picked {ℓ} (A : Type ℓ) : Type ℓ where
  nothing : Picked A
  picked : A → List A → Picked A

abbrev keep {ℓ} : {A : Type ℓ} → A → Picked A → Picked A
keep x nothing = nothing
keep x (picked y rest) = picked y (x ∷ rest)

abbrev pub pick {ℓ} : {A : Type ℓ} → ℕ → List A → Picked A
pick n [] = nothing
pick zero (x ∷ xs) = picked x xs
pick (suc n) (x ∷ xs) = keep x (pick n xs)

module _ {T : Type 0} where
  unfoldable pub new_session : Option ℕ → Session T
  new_session default_timeout = record {
    client = new_client default_timeout;
    reconnecting = false;
    loops = [];
    waiting = [];
    connecting = 0;
    connect_results = [];
    on_disconnects = 0;
    on_reconnects = 0;
  }

  abbrev pub with_codec : ℕ → Session T → Session T
  with_codec conn s = record s { client = record s.client { codec = some conn } }

  -- `connect` of the application, up to its `await`.
  unfoldable pub begin_connect : Option ℕ → Session T → Session T
  begin_connect none s = record s { connecting = suc s.connecting }
  begin_connect (some old) s = record s {
    connect_results = s.connect_results ++ err (plain (codes "Already connected")) ∷ [];
  }

  -- The rest of `connect`: the codec is set whatever it is by now.
  abbrev opened_on : Result ℕ → Session T → Session T
  opened_on (ok conn) s = record (with_codec conn s) {
    connect_results = s.connect_results ++ ok tt ∷ [];
  }
  opened_on (err e) s = record s { connect_results = s.connect_results ++ err e ∷ [] }

  abbrev pub opened_at : ℕ → Result ℕ → Session T → Session T
  opened_at zero opened s = s
  opened_at (suc n) opened s = opened_on opened (record s { connecting = n })

  unfoldable pub after_open : Result ℕ → Session T → Session T
  after_open opened s = opened_at s.connecting opened s

  -- The test of the `for` loop: a further attempt, or the end.
  unfoldable pub attempt_from : ReconnectOptions → ℕ → Session T → Session T
  attempt_from o attempt s =
      if has_more o.max_attempts attempt
      then record s { loops = s.loops ++ sleeping attempt (delay_of o attempt) ∷ [] }
      else record s { reconnecting = false }

  unfoldable pub schedule_reconnect : ReconnectOptions → Session T → Session T
  unfolding attempt_from
  schedule_reconnect o s =
      if s.reconnecting then s else attempt_from o 0 (record s { reconnecting = true })

  abbrev pub reschedule : Option ReconnectOptions → Session T → Session T
  reschedule none s = s
  reschedule (some o) s = schedule_reconnect o s

  -- `if (this.reconnectOpts) this.scheduleReconnect()`, which an exception of the hook skips.
  abbrev pub after_hook : Option ReconnectOptions → Hook → Session T → Session T
  after_hook options throws s = s
  after_hook options returns s = reschedule options s

  -- The hook that `connect` sets on a connection, when that connection is lost.
  unfoldable pub lose : Option ReconnectOptions → Hook → Session T → Session T
  unfolding schedule_reconnect
  lose options hook s =
      after_hook options hook
        (record s { client = on_disconnect s.client; on_disconnects = suc s.on_disconnects })

  -- The `try` of an attempt, up to the `await` in its `connect`, whose guard may throw.
  unfoldable pub begin_attempt : ReconnectOptions → ℕ → Option ℕ → Session T → Session T
  unfolding attempt_from
  begin_attempt o attempt none s = record s { loops = s.loops ++ opening attempt ∷ [] }
  begin_attempt o attempt (some old) s = attempt_from o (suc attempt) s

  -- The `catch` takes the hook's exception for a failed attempt.
  abbrev after_reconnect : ReconnectOptions → ℕ → Hook → Session T → Session T
  after_reconnect o attempt returns s = s
  after_reconnect o attempt throws s = attempt_from o (suc attempt) s

  unfoldable pub after_attempt : ReconnectOptions → ℕ → Result ℕ → Hook → Session T → Session T
  unfolding attempt_from
  after_attempt o attempt (err e) hook s = attempt_from o (suc attempt) s
  after_attempt o attempt (ok conn) hook s =
      after_reconnect o attempt hook
        (record (with_codec conn s) { reconnecting = false; on_reconnects = suc s.on_reconnects })

  -- The end of the `sleep` of a loop.
  abbrev pub woken : ReconnectOptions → Picked Loop → Session T → Session T
  woken o nothing s = s
  woken o (picked (sleeping attempt delay) rest) s =
      begin_attempt o attempt s.client.codec (record s { loops = rest })
  woken o (picked (opening attempt) rest) s = s

  -- The end of the `await` in a loop's `connect`.
  abbrev pub reopened : ReconnectOptions → Result ℕ → Hook → Picked Loop → Session T → Session T
  reopened o opened hook nothing s = s
  reopened o opened hook (picked (sleeping attempt delay) rest) s = s
  reopened o opened hook (picked (opening attempt) rest) s =
      after_attempt o attempt opened hook (record s { loops = rest })

  abbrev pub on_wake : Option ReconnectOptions → ℕ → Session T → Session T
  on_wake none n s = s
  on_wake (some o) n s = woken o (pick n s.loops) s

  abbrev pub on_reopen : Option ReconnectOptions → ℕ → Result ℕ → Hook → Session T → Session T
  on_reopen none n opened hook s = s
  on_reopen (some o) n opened hook s = reopened o opened hook (pick n s.loops) s

  -- `call`: without a codec but with options it waits.
  unfoldable pub call_on :
      Longs → Option ReconnectOptions → Call T → Option ℕ → Session T → Session T
  call_on l (some o) call none s = record s { waiting = s.waiting ++ call ∷ [] }
  call_on l none call none s = record s { client = start_call l call s.client }
  call_on l options call (some conn) s = record s { client = start_call l call s.client }

  -- One turn of the interval of `waitForReconnect`; `rest` are the other waiting calls.
  unfoldable pub check_reconnect : Longs → Call T → List (Call T) → Option ℕ → Session T → Session T
  check_reconnect l call rest (some conn) s = record s {
    client = start_call l call s.client;
    waiting = rest;
  }
  check_reconnect l call rest none s = if s.reconnecting then s else record s {
    client = log (err (plain (codes "Connection lost and reconnect attempts exhausted"))) s.client;
    waiting = rest;
  }

  abbrev pub polled : Longs → Picked (Call T) → Session T → Session T
  polled l nothing s = s
  polled l (picked call rest) s = check_reconnect l call rest s.client.codec s

  unfoldable pub step : Longs → Option ReconnectOptions → Session T → Event T → Session T
  unfolding begin_connect after_open lose begin_attempt after_attempt call_on check_reconnect
  step l options s connects = begin_connect s.client.codec s
  step l options s (opens opened) = after_open opened s
  step l options s disconnects = record s { client = disconnect s.client }
  step l options s (loses hook) = lose options hook s
  step l options s (calls call) = call_on l options call s.client.codec s
  step l options s (polls n) = polled l (pick n s.waiting) s
  step l options s (wakes n) = on_wake options n s
  step l options s (reopens n opened hook) = on_reopen options n opened hook s
  step l options s (sends sent) = record s { client = on_send sent s.client.running s.client }
  step l options s (receives race) = record s { client = on_recv l race s.client.running s.client }

  unfoldable pub run : Longs → Option ReconnectOptions → Session T → List (Event T) → Session T
  unfolding step
  run l options s [] = s
  run l options s (e ∷ es) = run l options (step l options s e) es
