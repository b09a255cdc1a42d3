-- ===== src/Rpc/Client/Session/Counting.antt =====
-- sdk/js/src/rpc/client.ts: no call is lost while it waits for a connection.
use ibridger.Common.{
  ℕ, zero, suc, ◌≡◌, refl, arith, if-intro, Option, none, some, List, [], ◌∷◌, length, length_snoc,
}
use ibridger.Errors.{plain, Result, ok, err}
use ibridger.Proto.Longs.{Longs, IsLongs}
use ibridger.Rpc.Client.{new_client, run as run_client, disconnect, Call, Client, start_call}
use ibridger.Rpc.Client.Calls.{
  IsSerial, log-IsSerial, start_on-IsSerial, codec-IsSerial, sends-IsSerial, receives-IsSerial,
  run-IsSerial,
}
use ibridger.Rpc.Client.Backoff.{ReconnectOptions}
use ibridger.Common.Text.{codes}
use ibridger.Rpc.Client.Session.Keeping.{
  Serves, codec-Serves, lose-Serves, on_reopen-Serves, Same-Serves, woken-Same,
}
use ibridger.Rpc.Client.Session.Looping.{Works, run-Works}
use ibridger.Rpc.Client.Session.{
  Session, new_session, Picked, nothing, picked, pick, keep, begin_connect, opened_on, opened_at,
  after_open, call_on, check_reconnect, polled, Event, connects, opens, disconnects, loses, calls,
  polls, wakes, reopens, sends, receives, step, run,
}

abbrev Measures {ℓ} : {A : Type ℓ} → ℕ → Picked A → Type 0
Measures n nothing = Unit {0}
Measures n (picked x rest) = n ≡ suc (length rest)

keep-Measures {ℓ} :
    {A : Type ℓ} (n : ℕ) (x : A) (p : Picked A) → Measures n p → Measures (suc n) (keep x p)
keep-Measures n x nothing h = tt
keep-Measures n x (picked y rest) h = omega (arith, h)

pick-Measures {ℓ} : {A : Type ℓ} (n : ℕ) (xs : List A) → Measures (length xs) (pick n xs)
pick-Measures n [] = tt
pick-Measures zero (x ∷ xs) = refl
pick-Measures (suc n) (x ∷ xs) = keep-Measures (length xs) x (pick n xs) (pick-Measures n xs)

module _ {T : Type 0} where
  module _ (l : Longs) (laws : IsLongs l) where
    begin_connect-Serves :
        (n m : ℕ) (codec : Option ℕ) (s : Session T)
        → Serves n m s
        → Serves n (suc m) (begin_connect codec s)
    unfolding begin_connect
    begin_connect-Serves n m none s v = record {
      started = v.started;
      serial = v.serial;
      total = v.total;
      opened = omega (arith, v.opened);
    }
    begin_connect-Serves n m (some old) s v = record {
      started = v.started;
      serial = v.serial;
      total = v.total;
      opened = omega (
        arith,
        v.opened,
        length_snoc s.connect_results (err (plain (codes "Already connected"))),
      );
    }

    opened_on-Serves :
        (n m k : ℕ) (opened : Result ℕ) (s : Session T)
        → s.connecting ≡ suc k
        → Serves n m s
        → Serves n m (opened_on opened (record s { connecting = k }))
    opened_on-Serves n m k (ok conn) s e v = record {
      started = v.started;
      serial = codec-IsSerial l laws v.started (some conn) s.client v.serial;
      total = v.total;
      opened = omega (arith, e, v.opened, length_snoc s.connect_results (ok tt));
    }
    opened_on-Serves n m k (err x) s e v = record {
      started = v.started;
      serial = v.serial;
      total = v.total;
      opened = omega (arith, e, v.opened, length_snoc s.connect_results (err x));
    }

    opened_at-Serves :
        (n m k : ℕ) (opened : Result ℕ) (s : Session T)
        → s.connecting ≡ k
        → Serves n m s
        → Serves n m (opened_at k opened s)
    opened_at-Serves n m zero opened s e v = v
    opened_at-Serves n m (suc k) opened s e v = opened_on-Serves n m k opened s e v

    -- A call that gets past the wait.
    start-Serves :
        (n m : ℕ) (call : Call T) (waiting : List (Call T)) (s : Session T)
        → length s.waiting ≡ length waiting
        → Serves n m s
        → Serves (suc n) m (record s { client = start_call l call s.client; waiting = waiting })
    unfolding start_call
    start-Serves n m call waiting s e v = record {
      started = suc v.started;
      serial = start_on-IsSerial l laws v.started call s.client.codec s.client v.serial;
      total = omega (arith, v.total, e);
      opened = v.opened;
    }

    call_on-Serves :
        (n m : ℕ) (options : Option ReconnectOptions) (call : Call T) (codec : Option ℕ)
        (s : Session T)
        → Serves n m s
        → Serves (suc n) m (call_on l options call codec s)
    unfolding call_on
    call_on-Serves n m none call none s v = start-Serves n m call s.waiting s refl v
    call_on-Serves n m none call (some conn) s v = start-Serves n m call s.waiting s refl v
    call_on-Serves n m (some o) call (some conn) s v = start-Serves n m call s.waiting s refl v
    call_on-Serves n m (some o) call none s v = record {
      started = v.started;
      serial = v.serial;
      total = ground (arith, v.total, length_snoc s.waiting call);
      opened = v.opened;
    }

    check_reconnect-Serves :
        (n m : ℕ) (call : Call T) (rest : List (Call T)) (codec : Option ℕ) (s : Session T)
        → length s.waiting ≡ suc (length rest)
        → Serves n m s
        → Serves n m (check_reconnect l call rest codec s)
    unfolding check_reconnect start_call
    check_reconnect-Serves n m call rest (some conn) s e v = record {
      started = suc v.started;
      serial = start_on-IsSerial l laws v.started call s.client.codec s.client v.serial;
      total = omega (arith, v.total, e);
      opened = v.opened;
    }
    check_reconnect-Serves n m call rest none s e v =
        if-intro (Serves n m) s.reconnecting _ _ (λ _. v)
          (λ _. record {
            started = suc v.started;
            serial = log-IsSerial l laws v.started _ s.client v.serial;
            total = omega (arith, v.total, e);
            opened = v.opened;
          })

    polled-Serves :
        (n m : ℕ) (p : Picked (Call T)) (s : Session T)
        → Measures (length s.waiting) p
        → Serves n m s
        → Serves n m (polled l p s)
    polled-Serves n m nothing s e v = v
    polled-Serves n m (picked call rest) s e v =
        check_reconnect-Serves n m call rest s.client.codec s e v

    -- A step of the client alone.
    client-Serves :
        (n m : ℕ) (c : Client T) (s : Session T)
        → ((k : ℕ) → IsSerial k s.client → IsSerial k c)
        → Serves n m s
        → Serves n m (record s { client = c })
    client-Serves n m c s f v = record {
      started = v.started;
      serial = f v.started v.serial;
      total = v.total;
      opened = v.opened;
    }

  -- The number of calls, and of calls of `connect`, after an event.
  abbrev pub made : Event T → ℕ → ℕ
  made e n = elim e [ calls call ↦ suc n | _ ↦ n ]

  abbrev pub begun : Event T → ℕ → ℕ
  begun e n = elim e [ connects ↦ suc n | _ ↦ n ]

  abbrev pub count : (Event T → ℕ → ℕ) → List (Event T) → ℕ → ℕ
  count f [] n = n
  count f (e ∷ es) n = count f es (f e n)

  module _ (l : Longs) (laws : IsLongs l) (options : Option ReconnectOptions) where
    step-Serves :
        (n m : ℕ) (s : Session T) (e : Event T)
        → Serves n m s
        → Serves (made e n) (begun e m) (step l options s e)
    unfolding step
    step-Serves n m s connects v = begin_connect-Serves l laws n m s.client.codec s v
    step-Serves n m s (opens opened) v =
        unfold after_open in opened_at-Serves l laws n m s.connecting opened s refl v
    step-Serves n m s disconnects v = unfold disconnect in codec-Serves l laws n m none s v
    step-Serves n m s (loses hook) v = lose-Serves l laws n m options hook s v
    step-Serves n m s (calls call) v = call_on-Serves l laws n m options call s.client.codec s v
    step-Serves n m s (polls i) v =
        polled-Serves l laws n m (pick i s.waiting) s (pick-Measures i s.waiting) v
    step-Serves n m s (wakes i) v = Same-Serves n m s _ (woken-Same options i s) v
    step-Serves n m s (reopens i opened hook) v =
        on_reopen-Serves l laws n m options i opened hook s v
    step-Serves n m s (sends sent) v =
        client-Serves l laws n m _ s
          (λ k. sends-IsSerial l laws k sent s.client.running s.client refl) v
    step-Serves n m s (receives race) v =
        client-Serves l laws n m _ s
          (λ k. receives-IsSerial l laws k race s.client.running s.client refl) v

    run-Serves :
        (n m : ℕ) (s : Session T) (es : List (Event T))
        → Serves n m s
        → Serves (count made es n) (count begun es m) (run l options s es)
    unfolding run
    run-Serves n m s [] v = v
    run-Serves n m s (e ∷ es) v =
        run-Serves (made e n) (begun e m) (step l options s e) es (step-Serves n m s e v)

-- After any run of a new client, in which calls, waits for a connection, calls of `connect`,
-- losses of connections and loops of `scheduleReconnect` interleave and hooks may throw: every
-- call made waits, is under way or has ended just once, calls go one at a time and their requests
-- are numbered 1, 2, 3 and so on, across all connections, while the next id is below 2^53; every
-- call of `connect` is under way or has ended just once; `reconnecting` is only set while some
-- loop is at work; and each loop is at an attempt within `maxAttempts` and sleeps for that
-- attempt's delay.
pub run-IsSteady :
    {T : Type 0} (l : Longs)
    → IsLongs l
    → (options : Option ReconnectOptions) (default_timeout : Option ℕ) (es : List (Event T))
    → Serves (count made es 0) (count begun es 0) (run l options (new_session default_timeout) es)
      × Works options (run l options (new_session default_timeout) es)
unfolding new_session new_client run_client
run-IsSteady l laws options default_timeout es = (
  run-Serves l laws options 0 0 _ es (record {
    started = 0;
    serial = run-IsSerial l laws default_timeout [];
    total = omega arith;
    opened = omega arith;
  }),
  run-Works l options _ es (record { working = λ e. absurd cc; within = tt }),
)
