-- ===== src/Rpc/Client.antt =====
-- sdk/js/src/rpc/client.ts: `IBridgerClient`. `call` stands at one of its two awaits while a call is
-- in flight; the environment's moves and the callers' are the events of one run.
pub mod Calls
pub mod Response
pub mod Backoff
pub mod Ping
pub mod Session
use ibridger.Common.{
  ℕ, suc, ◌+◌, ◌*◌, ◌^◌, ◌<◌, ◌≡◌, Bool, true, false, not, Option, none, some, List, [], ◌∷◌, ◌++◌,
  ltb, ◌==◌, if◌then◌else◌, get_or_else,
}
use ibridger.Common.Text.{Text, Bytes, codes, decimal, decimal_int32}
use ibridger.Errors.{Thrown, plain, rpc, timeout, Result, ok, err}
use ibridger.Proto.WireConstant.{default_timeout_ms}
use ibridger.Proto.Longs.{Longs}
use ibridger.Proto.MessageType
use ibridger.Proto.Envelope.{
  Envelope, empty, request_id_of, status_of, error_message_of, payload_of,
}

-- `n + 1` on a double: from 2^53 on the sum is rounded back to `n`.
abbrev pub next_number : ℕ → ℕ
next_number n = if ltb n (2 ^ 53) then suc n else n

-- The arguments of `call`. `encoded` is what `reqType.encode(request).finish()` gives, and `decode`
-- is `respType.decode`.
pub record Call (T : Type 0) : Type 0 where
  pub service : Text
  pub method : Text
  pub encoded : Result Bytes
  pub decode : Bytes → Result T
  pub timeout : Option ℕ
  pub metadata : Option (List (Text × Text))

-- The await at which a call stands: that of `codec.send`, or that of the raced `codec.recv`.
pub data Await : Type 0 where
  sending : Await
  receiving : Await

-- The local variables of a running call.
pub record Running (T : Type 0) : Type 0 where
  pub call : Call T
  pub id : ℕ
  pub timeout_ms : ℕ
  pub await : Await

-- `codec` is the number of the connection that the codec wraps. `running` is the call that has got
-- past the guards, and `sent` and `results` log the envelopes handed to `codec.send`, each with its
-- connection, and the ends of all calls.
pub record Client (T : Type 0) : Type 0 where
  pub codec : Option ℕ
  pub next_request_id : ℕ
  pub call_in_flight : Bool
  pub default_timeout : Option ℕ
  pub running : Option (Running T)
  pub sent : List (ℕ × Envelope)
  pub results : List (Result T)

abbrev pub or_text : Text → Text → Text
or_text [] text = text
or_text (x ∷ xs) text = x ∷ xs

-- `withTimeout`: the promise settles first, or the timer fires first.
pub data Race : Type 0 where
  settled : Result Envelope → Race
  expired : Race

unfoldable pub with_timeout : ℕ → Race → Result Envelope
with_timeout ms (settled r) = r
with_timeout ms expired = err (timeout ms)

-- What can happen to a client. The awaited promises settle only while a call stands at them.
pub data Event (T : Type 0) : Type 0 where
  connects : Result ℕ → Event T
  disconnects : Event T
  loses : Event T
  calls : Call T → Event T
  sends : Result (Unit {0}) → Event T
  receives : Race → Event T

module _ {T : Type 0} where
  unfoldable pub new_client : Option ℕ → Client T
  new_client default_timeout = record {
    codec = none;
    next_request_id = 1;
    call_in_flight = false;
    default_timeout = default_timeout;
    running = none;
    sent = [];
    results = [];
  }

  -- `connect`, given what `UnixSocketConnection.connect` gives: a connection, or its error.
  unfoldable pub connect_on : Option ℕ → Result ℕ → Client T → Client T × Result (Unit {0})
  connect_on (some old) opened c = (c, err (plain (codes "Already connected")))
  connect_on none (ok conn) c = (record c { codec = some conn }, ok tt)
  connect_on none (err e) c = (c, err e)

  unfoldable pub connect : Result ℕ → Client T → Client T × Result (Unit {0})
  unfolding connect_on
  connect opened c = connect_on c.codec opened c

  -- `disconnect`. An `EnvelopeCodec` has no `close`, so `codecAsCloseable` is null and the
  -- connection stays open: only the reference goes.
  unfoldable pub disconnect : Client T → Client T
  disconnect c = record c { codec = none }

  unfoldable pub is_connected : Client T → Bool
  is_connected c = elim c.codec [ none ↦ false | some conn ↦ true ]

  -- The hook that `connect` sets on a connection, whichever connection the client has by now.
  unfoldable pub on_disconnect : Client T → Client T
  on_disconnect c = record c { codec = none }

  abbrev pub log : Result T → Client T → Client T
  log r c = record c { results = c.results ++ r ∷ [] }

  abbrev pub request_envelope : Longs → Call T → ℕ → Bytes → Envelope
  request_envelope l call id payload = record empty {
    type = some MessageType.request;
    request_id = some (l.from_number id);
    service_name = some call.service;
    method_name = some call.method;
    payload = some payload;
    metadata = get_or_else call.metadata [];
  }

  abbrev pub timeout_of : Call T → Client T → ℕ
  timeout_of call c = get_or_else call.timeout (get_or_else c.default_timeout default_timeout_ms)

  -- `call` behind its guards, with the payload encoded, up to its first `await`.
  unfoldable pub launch : Longs → Call T → ℕ → Bytes → Client T → Client T
  launch l call conn payload c =
      let id = c.next_request_id in
      record c {
        next_request_id = next_number id;
        call_in_flight = true;
        running =
            some (record { call = call; id = id; timeout_ms = timeout_of call c; await = sending });
        sent = c.sent ++ (conn, request_envelope l call id payload) ∷ [];
      }

  unfoldable pub launch_encoded : Longs → Call T → ℕ → Result Bytes → Client T → Client T
  unfolding launch
  launch_encoded l call conn (ok payload) c = launch l call conn payload c
  launch_encoded l call conn (err e) c = log (err e) c

  -- The guards of `call`, after the wait for a reconnection where there is one.
  unfoldable pub start_on : Longs → Call T → Option ℕ → Client T → Client T
  unfolding launch_encoded
  start_on l call none c = log (err (plain (codes "Not connected"))) c
  start_on l call (some conn) c =
      if c.call_in_flight
      then log (err (plain (codes "A call is already in flight. method: " ++ call.method))) c
      else launch_encoded l call conn call.encoded c

  unfoldable pub start_call : Longs → Call T → Client T → Client T
  unfolding start_on
  start_call l call c = start_on l call c.codec c

  -- The `finally` of `call`, and the end of its promise.
  unfoldable pub finish_call : Result T → Client T → Client T
  finish_call r c = log r (record c { call_in_flight = false; running = none })

  -- The checks on the response.
  unfoldable pub check_response : Longs → Running T → Envelope → Result T
  check_response l r response =
      if not (l.to_number (request_id_of response) == r.id)
      then err (
          plain (
            codes "Protocol error: expected request_id "
            ++ (decimal r.id
                ++ (codes ", got " ++ decimal (l.to_number (request_id_of response))))))
      else (if not (status_of response == 0)
          then err (
              rpc (status_of response) (
                or_text (error_message_of response)
                  (codes "RPC failed with status " ++ decimal_int32 (status_of response))))
          else r.call.decode (payload_of response))

  abbrev checked : Longs → Running T → Result Envelope → Result T
  checked l r (ok response) = check_response l r response
  checked l r (err e) = err e

  -- `this.codec.recv()`
  unfoldable pub receive_on : Running T → Option ℕ → Client T → Client T
  unfolding finish_call
  receive_on r none c =
      finish_call (err (plain (codes "Cannot read properties of null (reading 'recv')"))) c
  receive_on r (some conn) c = record c { running = some (record r { await = receiving }) }

  -- The end of `await this.codec.send(envelope)`; `this.codec` is read again for `recv`.
  unfoldable pub after_send : Running T → Result (Unit {0}) → Client T → Client T
  unfolding receive_on
  after_send r (err e) c = finish_call (err e) c
  after_send r (ok _) c = receive_on r c.codec c

  -- The end of the raced `recv`.
  unfoldable pub after_recv : Longs → Running T → Race → Client T → Client T
  unfolding finish_call with_timeout check_response
  after_recv l r race c = finish_call (checked l r (with_timeout r.timeout_ms race)) c

  abbrev pub send_at : Await → Running T → Result (Unit {0}) → Client T → Client T
  send_at sending r sent c = after_send r sent c
  send_at receiving r sent c = c

  abbrev pub recv_at : Await → Longs → Running T → Race → Client T → Client T
  recv_at sending l r race c = c
  recv_at receiving l r race c = after_recv l r race c

  abbrev pub on_send : Result (Unit {0}) → Option (Running T) → Client T → Client T
  on_send sent none c = c
  on_send sent (some r) c = send_at r.await r sent c

  abbrev pub on_recv : Longs → Race → Option (Running T) → Client T → Client T
  on_recv l race none c = c
  on_recv l race (some r) c = recv_at r.await l r race c

  unfoldable pub step : Longs → Client T → Event T → Client T
  unfolding connect disconnect on_disconnect start_call after_send after_recv
  step l c (connects opened) = (connect opened c).0
  step l c disconnects = disconnect c
  step l c loses = on_disconnect c
  step l c (calls call) = start_call l call c
  step l c (sends sent) = on_send sent c.running c
  step l c (receives race) = on_recv l race c.running c

  unfoldable pub run : Longs → Client T → List (Event T) → Client T
  unfolding step
  run l c [] = c
  run l c (e ∷ es) = run l (step l c e) es
