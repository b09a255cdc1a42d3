-- ===== src/Rpc/Client/Calls.antt =====
-- What holds of a client whatever its callers and the network do.
use native.Mathlib.Nat.{zero-add}
use ibridger.Common.{
  ℕ, suc, ◌+◌, ◌^◌, ◌≤◌, ◌<◌, ◌≡◌, refl, ap, ◌∙◌, if-intro, subst, arith, Bool, true, false, Option,
  none, some, List, [], ◌∷◌, ◌++◌, length, length-append,
}
use ibridger.Common.Text.{Bytes}
use ibridger.Errors.{Result, ok, err}
use ibridger.Proto.Envelope.{Envelope, request_id_of}
use ibridger.Proto.Longs.{Longs, IsLongs}
use ibridger.Rpc.Client.{
  Call, Await, sending, receiving, Running, Client, new_client, log, request_envelope, launch,
  launch_encoded, start_on, connect_on, receive_on, send_at, recv_at, on_send, on_recv, finish_call,
  Race, after_send, after_recv, Event, connects, disconnects, loses, calls, sends, receives, step,
  run,
}

-- The requests' ids count up from `n`.
abbrev pub Numbered : ℕ → List (ℕ × Envelope) → Type 0
Numbered n [] = Unit {0}
Numbered n ((conn, m) ∷ ms) = (request_id_of m ≡ n) × Numbered (suc n) ms

Numbered-append :
    (n : ℕ) (ms : List (ℕ × Envelope)) (conn : ℕ) (m : Envelope)
    → Numbered n ms
    → request_id_of m ≡ n + length ms
    → Numbered n (ms ++ (conn, m) ∷ [])
Numbered-append n [] conn m h e = (omega arith, tt)
Numbered-append n ((c, k) ∷ ms) conn m (h, hs) e =
    (h, Numbered-append (suc n) ms conn m hs (omega arith))

module _ {T : Type 0} where
  -- How many calls are under way.
  abbrev pub under_way : Option (Running T) → ℕ
  under_way none = 0
  under_way (some r) = 1

  abbrev Matches : Bool → Option (Running T) → Type 0
  Matches flag none = flag ≡ false
  Matches flag (some r) = flag ≡ true

  -- `calls` is the number of calls made so far.
  pub record IsSerial (calls : ℕ) (c : Client T) : Type 0 where
    pub flagged : Matches c.call_in_flight c.running
    pub ended : length c.results + under_way c.running ≡ calls
    pub bounded : c.next_request_id ≤ length c.sent + 1
    pub numbered :
        c.next_request_id < 2 ^ 53 → Numbered 1 c.sent × (c.next_request_id ≡ length c.sent + 1)

  abbrev pub call_count : List (Event T) → ℕ
  call_count [] = 0
  call_count (calls call ∷ es) = suc (call_count es)
  call_count (connects opened ∷ es) = call_count es
  call_count (disconnects ∷ es) = call_count es
  call_count (loses ∷ es) = call_count es
  call_count (sends sent ∷ es) = call_count es
  call_count (receives race ∷ es) = call_count es

  module _ (l : Longs) (laws : IsLongs l) where
    pub log-IsSerial :
        (n : ℕ) (r : Result T) (c : Client T) → IsSerial n c → IsSerial (suc n) (log r c)
    log-IsSerial n r c v = record {
      flagged = v.flagged;
      ended = omega (arith, length-append c.results (r ∷ []), v.ended);
      bounded = v.bounded;
      numbered = v.numbered;
    }

    idle : (flag : Bool) (o : Option (Running T)) → Matches flag o → flag ≡ false → o ≡ none
    idle flag none m e = refl
    idle flag (some r) m e = cc

    launch-IsSerial :
        (n : ℕ) (call : Call T) (conn : ℕ) (payload : Bytes) (c : Client T)
        → c.call_in_flight ≡ false
        → IsSerial n c
        → IsSerial (suc n) (launch l call conn payload c)
    unfolding launch
    launch-IsSerial n call conn payload c free v = record {
      flagged = refl;
      ended = omega (arith, v.ended, ap under_way (idle c.call_in_flight c.running v.flagged free));
      bounded = ground (arith, v.bounded, length-append c.sent (envelope ∷ []));
      numbered = λ h.
          let below : c.next_request_id < 2 ^ 53 = ground (arith, h) in
          let (ids, e) = v.numbered below in
          (
            Numbered-append 1 c.sent conn _ ids
                (laws.from_number_exact c.next_request_id below ∙ omega (arith, e)),
            ground (arith, e, length-append c.sent (envelope ∷ [])),
          );
    }
      where
        envelope : ℕ × Envelope
        envelope = (conn, request_envelope l call c.next_request_id payload)

    launch_encoded-IsSerial :
        (n : ℕ) (call : Call T) (conn : ℕ) (r : Result Bytes) (c : Client T)
        → c.call_in_flight ≡ false
        → IsSerial n c
        → IsSerial (suc n) (launch_encoded l call conn r c)
    unfolding launch_encoded
    launch_encoded-IsSerial n call conn (ok payload) c free v =
        launch-IsSerial n call conn payload c free v
    launch_encoded-IsSerial n call conn (err e) c free v = log-IsSerial n (err e) c v

    pub start_on-IsSerial :
        (n : ℕ) (call : Call T) (o : Option ℕ) (c : Client T)
        → IsSerial n c
        → IsSerial (suc n) (start_on l call o c)
    unfolding start_on
    start_on-IsSerial n call none c v = log-IsSerial n _ c v
    start_on-IsSerial n call (some conn) c v =
        if-intro (IsSerial (suc n)) c.call_in_flight _ _ (λ busy. log-IsSerial n _ c v)
          (λ free. launch_encoded-IsSerial n call conn call.encoded c free v)

    finish_call-IsSerial :
        (n : ℕ) (r : Result T) (k : Running T) (c : Client T)
        → c.running ≡ some k
        → IsSerial n c
        → IsSerial n (finish_call r c)
    unfolding finish_call
    finish_call-IsSerial n r k c e v = record {
      flagged = refl;
      ended = omega (arith, length-append c.results (r ∷ []), rw e at v.ended);
      bounded = v.bounded;
      numbered = v.numbered;
    }

    -- The codec does not matter.
    pub codec-IsSerial :
        (n : ℕ) (o : Option ℕ) (c : Client T) → IsSerial n c → IsSerial n (record c { codec = o })
    codec-IsSerial n o c v = record {
      flagged = v.flagged;
      ended = v.ended;
      bounded = v.bounded;
      numbered = v.numbered;
    }

    connect_on-IsSerial :
        (n : ℕ) (o : Option ℕ) (opened : Result ℕ) (c : Client T)
        → IsSerial n c
        → IsSerial n (connect_on o opened c).0
    unfolding connect_on
    connect_on-IsSerial n (some old) opened c v = v
    connect_on-IsSerial n none (ok conn) c v = codec-IsSerial n (some conn) c v
    connect_on-IsSerial n none (err e) c v = v

    receive_on-IsSerial :
        (n : ℕ) (k : Running T) (o : Option ℕ) (c : Client T)
        → c.running ≡ some k
        → IsSerial n c
        → IsSerial n (receive_on k o c)
    unfolding receive_on
    receive_on-IsSerial n k none c q v = finish_call-IsSerial n _ k c q v
    receive_on-IsSerial n k (some conn) c q v = record {
      flagged = subst (λ (o : Option (Running T)). Matches c.call_in_flight o) q v.flagged;
      ended = omega (arith, v.ended, ap under_way q);
      bounded = v.bounded;
      numbered = v.numbered;
    }

    after_send-IsSerial :
        (n : ℕ) (k : Running T) (sent : Result (Unit {0})) (c : Client T)
        → c.running ≡ some k
        → IsSerial n c
        → IsSerial n (after_send k sent c)
    unfolding after_send
    after_send-IsSerial n k (err e) c q v = finish_call-IsSerial n _ k c q v
    after_send-IsSerial n k (ok t) c q v = receive_on-IsSerial n k c.codec c q v

    after_recv-IsSerial :
        (n : ℕ) (k : Running T) (race : Race) (c : Client T)
        → c.running ≡ some k
        → IsSerial n c
        → IsSerial n (after_recv l k race c)
    unfolding after_recv
    after_recv-IsSerial n k race c q v = finish_call-IsSerial n _ k c q v

    abbrev made : Event T → ℕ → ℕ
    made (calls call) n = suc n
    made (connects opened) n = n
    made disconnects n = n
    made loses n = n
    made (sends sent) n = n
    made (receives race) n = n

    pub sends-IsSerial :
        (n : ℕ) (sent : Result (Unit {0})) (o : Option (Running T)) (c : Client T)
        → c.running ≡ o
        → IsSerial n c
        → IsSerial n (on_send sent o c)
    sends-IsSerial n sent none c q v = v
    sends-IsSerial n sent (some k) c q v = by_await k.await
      where
        by_await : (a : Await) → IsSerial n (send_at a k sent c)
        by_await sending = after_send-IsSerial n k sent c q v
        by_await receiving = v

    pub receives-IsSerial :
        (n : ℕ) (race : Race) (o : Option (Running T)) (c : Client T)
        → c.running ≡ o
        → IsSerial n c
        → IsSerial n (on_recv l race o c)
    receives-IsSerial n race none c q v = v
    receives-IsSerial n race (some k) c q v = by_await k.await
      where
        by_await : (a : Await) → IsSerial n (recv_at a l k race c)
        by_await sending = v
        by_await receiving = after_recv-IsSerial n k race c q v

    step-IsSerial :
        (n : ℕ) (e : Event T) (c : Client T) → IsSerial n c → IsSerial (made e n) (step l c e)
    unfolding step
    step-IsSerial n (connects opened) c v = connect_on-IsSerial n c.codec opened c v
    step-IsSerial n disconnects c v = codec-IsSerial n none c v
    step-IsSerial n loses c v = codec-IsSerial n none c v
    step-IsSerial n (calls call) c v = start_on-IsSerial n call c.codec c v
    step-IsSerial n (sends sent) c v = sends-IsSerial n sent c.running c refl v
    step-IsSerial n (receives race) c v = receives-IsSerial n race c.running c refl v

    run-IsSerial_from :
        (n k : ℕ) (es : List (Event T)) (c : Client T)
        → k ≡ call_count es + n
        → IsSerial n c
        → IsSerial k (run l c es)
    unfolding run
    run-IsSerial_from n k [] c e v = rw (e, zero-add) v
    run-IsSerial_from n k (x ∷ es) c e v =
        run-IsSerial_from (made x n) k es (step l c x) (count x e) (step-IsSerial n x c v)
      where
        count : (x : Event T) → k ≡ call_count (x ∷ es) + n → k ≡ call_count es + made x n
        count (calls call) e = omega arith
        count (connects opened) e = e
        count disconnects e = e
        count loses e = e
        count (sends sent) e = e
        count (receives race) e = e

-- After any run of events on a new client, `callInFlight` is set exactly while one call is under
-- way, every call made has ended just once but for that one, and, as long as the next id is below
-- 2^53, the requests sent carry the ids 1, 2, 3 and so on in order, without gap or repetition, and
-- without beginning again on a new connection.
pub run-IsSerial :
    {T : Type 0} (l : Longs)
    → IsLongs l
    → (default_timeout : Option ℕ) (es : List (Event T))
    → IsSerial (call_count es) (run l (new_client default_timeout) es)
unfolding new_client
run-IsSerial l laws default_timeout es =
    run-IsSerial_from l laws 0 (call_count es) es _ (omega arith) (record {
      flagged = refl;
      ended = omega arith;
      bounded = omega arith;
      numbered = λ h. (tt, omega arith);
    })
