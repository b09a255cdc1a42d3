-- ===== src/Tests/Sessions.antt =====
-- sdk/js/src/rpc/client.ts: lost connections at concrete inputs.
use ibridger.Common.{◌≡◌, refl, none, some, List, [], ◌∷◌, ◌++◌}
use ibridger.Common.Text.{Bytes, codes}
use ibridger.Errors.{Thrown, plain, transport, ok, err}
use ibridger.Rpc.Client.{Call, request_envelope, new_client, on_disconnect}
use ibridger.Rpc.Client.Backoff.{ReconnectOptions}
use ibridger.Rpc.Client.Session.{
  returns, throws, Session, new_session, with_codec, Event, connects, opens, loses, calls, polls,
  wakes, reopens, run,
}
use ibridger.Rpc.Client.Session.Keeping.{Serves}
use ibridger.Rpc.Client.Session.Looping.{Works}
use ibridger.Rpc.Client.Session.Counting.{run-IsSteady}
use ibridger.Rpc.Client.Session.Trying.{IsCalm, Failure, failing, succeeding}
use ibridger.Rpc.Client.Session.Waiting.{call-waits}
use ibridger.Tests.Clients.{longs, longs-IsLongs}

abbrev call : Call Bytes
call = record {
  service = codes "Echo";
  method = codes "echo";
  encoded = ok (1 ∷ 2 ∷ []);
  decode = λ b. ok b;
  timeout = some 250;
  metadata = none;
}

abbrev two_tries : ReconnectOptions
two_tries = record { max_attempts = some 2; base_delay_ms = none; max_delay_ms = none }

abbrev refused : Thrown
refused = transport (codes "connect ECONNREFUSED") (codes "ECONNREFUSED")

-- Two overlapping calls of `connect`, a loss, and a loop whose success is undone by its hook.
abbrev history : List (Event Bytes)
history =
    connects
    ∷ connects
    ∷ opens (ok 0)
    ∷ opens (ok 1)
    ∷ connects
    ∷ loses returns
    ∷ calls call
    ∷ wakes 0
    ∷ reopens 0 (ok 2) throws
    ∷ polls 0
    ∷ []

-- The second connection replaced the first, and the loop goes on though it has connected.
history_end :
    (run longs (some two_tries) (new_session none) history).connect_results
    ≡ ok tt ∷ ok tt ∷ err (plain (codes "Already connected")) ∷ []
unfolding run new_session new_client on_disconnect
history_end = refl

run-IsSteady_example :
    Serves 1 3 (run longs (some two_tries) (new_session none) history)
    × Works (some two_tries) (run longs (some two_tries) (new_session none) history)
run-IsSteady_example = run-IsSteady longs longs-IsLongs (some two_tries) none history

abbrev connected : Session Bytes
connected = with_codec 0 (new_session none)

connected-IsCalm : IsCalm connected
unfolding new_session new_client
connected-IsCalm = record {
  reconnecting = refl;
  loops = refl;
  waiting = refl;
  call_in_flight = refl;
}

-- With the first delay of 200 milliseconds, polls come every 50.
abbrev early : Failure
early = record { asleep = 0; error = refused; opening = 0 }

abbrev late : Failure
late = record { asleep = 4; error = refused; opening = 1 }

abbrev three_tries : ReconnectOptions
three_tries = record { max_attempts = some 3; base_delay_ms = none; max_delay_ms = none }

call-waits_example :
    (run longs (some three_tries) connected (
      loses returns
      ∷ failing (early ∷ []) (calls call ∷ failing (late ∷ []) (succeeding 15 2 7)))).client.sent
    ≡ connected.client.sent
      ++ (7, request_envelope longs call connected.client.next_request_id (1 ∷ 2 ∷ [])) ∷ []
call-waits_example =
    call-waits longs three_tries connected call (1 ∷ 2 ∷ []) (early ∷ []) (late ∷ []) 15 2 7
      connected-IsCalm refl refl
