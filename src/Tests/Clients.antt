-- ===== src/Tests/Clients.antt =====
-- sdk/js/src/rpc/client.ts at concrete inputs, alone and against a server.
use ibridger.Common.{
  ℕ, ◌≤◌, ◌≡◌, ◌≢◌, ◌↔◌, refl, arith, false, none, some, List, [], ◌∷◌, length, replicate,
}
use ibridger.Common.Text.{Text, Bytes, codes, text_dec}
use ibridger.Common.Assoc
use ibridger.Errors.{Result, ok, err, rpc, plain, timeout}
use ibridger.Proto.Envelope.{Envelope, empty, status_of}
use ibridger.Proto.Envelope.RoundTrip.{IsEncodable}
use ibridger.Proto.Runtime.Plain.{plain_runtime, plain_runtime-IsRuntime, all_ascii}
use ibridger.Rpc.Server.{MethodHandler, Services, dispatch}
use ibridger.Rpc.Server.Registry.{find_handler}
use ibridger.Proto.Longs.{Longs, IsLongs}
use ibridger.Rpc.Client.{
  Call, Running, receiving, new_client, run, Event, calls, connects, sends, receives, settled,
  expired, check_response, request_envelope,
}
use ibridger.Rpc.Client.Calls.{IsSerial, run-IsSerial}
use ibridger.Rpc.Client.Response.{check_response_lem}
use ibridger.Rpc.Client.Backoff.{
  ReconnectOptions, fails, connects as succeeds, exhausted, BacksOff, double_range,
  schedule_reconnect, schedule_reconnect-BacksOff, schedule_reconnect_limit,
}
use ibridger.System.{exchange, seen, exchange_lem}

abbrev pub longs : Longs
longs = record { from_number = λ n. n; to_number = λ n. n }

pub longs-IsLongs : IsLongs longs
longs-IsLongs = record { from_number_exact = λ n h. refl; to_number_exact = λ n h. refl }

abbrev echo_call : Call Bytes
echo_call = record {
  service = codes "Echo";
  method = codes "echo";
  encoded = ok (1 ∷ 2 ∷ []);
  decode = λ b. ok b;
  timeout = some 250;
  metadata = none;
}

abbrev running : Running Bytes
running = record { call = echo_call; id = 1; timeout_ms = 250; await = receiving }

abbrev reply : Envelope
reply = record empty {
  type = some 1;
  request_id = some 1;
  status = some 0;
  payload = some (9 ∷ []);
}

-- A call that is answered, one that is refused while the next runs, and one that times out.
abbrev history : List (Event Bytes)
history =
    connects (ok 0)
    ∷ calls echo_call
    ∷ sends (ok tt)
    ∷ receives (settled (ok reply))
    ∷ calls echo_call
    ∷ calls echo_call
    ∷ sends (ok tt)
    ∷ receives expired
    ∷ []

history_results :
    (run longs (new_client none) history).results
    ≡ ok (9 ∷ [])
      ∷ err (plain (codes "A call is already in flight. method: echo"))
      ∷ err (timeout 250)
      ∷ []
unfolding run new_client
history_results = refl

run-IsSerial_example : IsSerial 3 (run longs (new_client none) history)
run-IsSerial_example = run-IsSerial longs longs-IsLongs none history

check_response_lem_example :
    ((check_response longs running reply ≡ ok (9 ∷ [])) ↔ (
      ◌≡◌ {A = ℕ} 1 1
      × (status_of reply ≡ 0)
      × (◌≡◌ {A = Result Bytes} (ok (9 ∷ [])) (ok (9 ∷ [])))))
    × (◌≡◌ {A = ℕ} 1 1
        → status_of reply ≢ 0
        → (text : Text) × (check_response longs running reply ≡ err (rpc (status_of reply) text)))
    × (◌≢◌ {A = ℕ} 1 1 → (text : Text) × (check_response longs running reply ≡ err (plain text)))
check_response_lem_example = check_response_lem longs running reply (9 ∷ [])

abbrev three_tries : ReconnectOptions
three_tries = record { max_attempts = some 3; base_delay_ms = some 200; max_delay_ms = some 500 }

schedule_reconnect-BacksOff_example :
    BacksOff 500 200 (schedule_reconnect three_tries (fails ∷ fails ∷ succeeds ∷ [])).delays
schedule_reconnect-BacksOff_example =
    schedule_reconnect-BacksOff three_tries (fails ∷ fails ∷ succeeds ∷ []) (omega arith)
      (unfold double_range in omega arith)

schedule_reconnect_limit_example :
    (length (schedule_reconnect three_tries (fails ∷ fails ∷ [])).delays ≤ 3)
    × ((schedule_reconnect three_tries (replicate 3 fails)).end ≡ exhausted)
    × ((schedule_reconnect three_tries (replicate 3 fails)).reconnecting ≡ false)
schedule_reconnect_limit_example = schedule_reconnect_limit three_tries 3 (fails ∷ fails ∷ []) refl

-- A server that sends the payload back.
abbrev pub echo : MethodHandler
echo now payload = ok payload

abbrev pub services : Services
services = (codes "Echo", (codes "echo", echo) ∷ []) ∷ []

abbrev pub request : Envelope
request = request_envelope longs echo_call 1 (1 ∷ 2 ∷ [])

pub request-IsEncodable : IsEncodable plain_runtime request
unfolding all_ascii
request-IsEncodable = record {
  type = omega arith;
  request_id = omega arith;
  service_name = (refl, omega arith);
  method_name = (refl, omega arith);
  payload = omega arith;
  status = tt;
  error_message = tt;
  metadata = tt;
}

response-IsEncodable : IsEncodable plain_runtime (dispatch services 0 request)
unfolding dispatch Assoc.get text_dec all_ascii
response-IsEncodable = record {
  type = omega arith;
  request_id = omega arith;
  service_name = tt;
  method_name = tt;
  payload = omega arith;
  status = omega arith;
  error_message = tt;
  metadata = tt;
}

exchange_lem_example :
    ((h : MethodHandler)
      → find_handler services (codes "Echo") (codes "echo") ≡ some h
      → exchange plain_runtime longs services 0 running (1 ∷ 2 ∷ [])
        ≡ seen echo_call (h 0 (1 ∷ 2 ∷ [])))
    × (find_handler services (codes "Echo") (codes "echo") ≡ none
        → (text : Text) × (exchange plain_runtime longs services 0 running (1 ∷ 2 ∷ [])
            ≡ err (rpc 2 text)))
exchange_lem_example =
    exchange_lem plain_runtime plain_runtime-IsRuntime longs longs-IsLongs services 0 running
      (1 ∷ 2 ∷ []) (omega arith) request-IsEncodable (tt, tt) response-IsEncodable
