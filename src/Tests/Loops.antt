-- ===== src/Tests/Loops.antt =====
-- `dispatchLoop` of sdk/js/src/rpc/server.ts at concrete streams.
use ibridger.Common.{
  ℕ, zero, suc, ◌≤◌, false, ◌++◌, ◌+◌, ◌*◌, ◌≡◌, refl, arith, none, some, List, [], ◌∷◌, map,
  length, concat, replicate, length-replicate, append-nil,
}
use ibridger.Common.Text.{codes, text_dec}
use ibridger.Common.Assoc
use ibridger.Proto.WireConstant.{max_frame_size}
use ibridger.Proto.Envelope.RoundTrip.{IsEncodable}
use ibridger.Errors.{ok}
use ibridger.Proto.Envelope.{Envelope, empty, encode, decode}
use ibridger.Proto.Runtime.Plain.{
  plain_runtime, plain_runtime-IsRuntime, all_ascii, write, write_bytes,
}
use ibridger.Transport.Connection
use ibridger.Transport.Connection.Closing.{closing, IsLost}
use ibridger.Protocol.Framing.Receiving
use ibridger.Protocol.Framing.Receiving.{new_receiver}
use ibridger.Protocol.Framing.Receiving.Complete.{some_turns}
use ibridger.Protocol.Framing.Receiving.Wire.{wire}
use ibridger.Rpc.Server.{dispatch, Services}
use ibridger.Rpc.Server.Loop.{
  Host, dispatch_at, Loop, Event, happens, turns, ended, handling, new_loop, run, step,
}
use ibridger.Rpc.Server.Loop.Standing.{stream, requests_of, decoded}
use ibridger.Rpc.Server.Loop.Serving.{Fit}
use ibridger.Protocol.Framing.{read_u32be}
use ibridger.Protocol.Framing.Parsing.{frames_of}
use ibridger.Proto.Fields.{read_fields}
use ibridger.Rpc.Server.Loop.Answering.{turns_at, run-IsServed}
use ibridger.Rpc.Server.Loop.Served.{IsServed}
use ibridger.Rpc.Server.Loop.Ending.{run-ends}
use ibridger.Rpc.Server.Loop.Breaking.{run-breaks}
use ibridger.System.Serving.{encoded, IsCarried, serve-wire}
use ibridger.Tests.Clients.{services, request, request-IsEncodable}

-- The services are registered after the first moment.
abbrev registered : ℕ → Services
registered zero = []
registered (suc moment) = services

abbrev host : Host
host = record { registry = registered; clock = λ moment. 1000 + moment }

response-IsEncodable : (moment : ℕ) → IsEncodable plain_runtime (dispatch_at host moment request)
unfolding dispatch Assoc.get text_dec all_ascii
response-IsEncodable zero = record {
  type = omega arith;
  request_id = omega arith;
  service_name = tt;
  method_name = tt;
  payload = omega arith;
  status = omega arith;
  error_message = (refl, omega arith);
  metadata = tt;
}
response-IsEncodable (suc moment) = record {
  type = omega arith;
  request_id = omega arith;
  service_name = tt;
  method_name = tt;
  payload = omega arith;
  status = omega arith;
  error_message = tt;
  metadata = tt;
}

response_fits :
    (moment : ℕ) → length (encode plain_runtime (dispatch_at host moment request)) ≤ max_frame_size
unfolding dispatch Assoc.get text_dec encode write write_bytes
response_fits zero = omega arith
response_fits (suc moment) = omega arith

request-IsCarried : IsCarried plain_runtime host request
unfolding encode write write_bytes
request-IsCarried = record {
  request = request-IsEncodable;
  metadata = (tt, tt);
  request_fits = omega arith;
  response = response-IsEncodable;
  response_fits = response_fits;
}

abbrev asked : List Envelope
asked = request ∷ request ∷ []

abbrev arrival : List Event
arrival = turns 5 none ∷ happens (Connection.chunk (wire (encoded plain_runtime asked))) ∷ []

abbrev nows : List ℕ
nows = 0 ∷ 0 ∷ 0 ∷ 0 ∷ replicate (6 * length (stream arrival) + 6) 7

abbrev served : Loop
served = run plain_runtime host (run plain_runtime host new_loop arrival) (turns_at nows)

abbrev reading : List Receiving.Event
reading = Receiving.arrives (concat served.connection.written) ∷ []

serve-wire_example :
    (requests_of served.handled ≡ asked)
    × (map
          (decode plain_runtime)
          (Receiving.run
            (Receiving.run new_receiver reading)
            (some_turns (3 * length (Receiving.stream reading) + 3))).frames
        ≡ map (λ (now, m). ok (dispatch_at host now m)) served.handled)
serve-wire_example =
    serve-wire plain_runtime plain_runtime-IsRuntime host asked arrival nows reading
      (3 * length (Receiving.stream reading) + 3) (request-IsCarried, (request-IsCarried, tt))
      (tt, (tt, tt)) (append-nil (wire (encoded plain_runtime asked)))
      (omega (arith, length-replicate {A = ℕ} (6 * length (stream arrival) + 6) 7))
      (append-nil (concat served.connection.written)) (omega arith)

-- A header that arrives in two parts, with another header behind it.
abbrev cut : List Event
cut =
    happens (Connection.chunk (0 ∷ 0 ∷ []))
    ∷ turns 5 none
    ∷ happens (Connection.chunk (0 ∷ 0 ∷ 255 ∷ 255 ∷ 255 ∷ 255 ∷ []))
    ∷ []

abbrev later : List ℕ
later = replicate 54 7

-- An empty frame is a request for a service without a name; the frame behind it is too large.
empty_fits :
    (moment : ℕ) → length (encode plain_runtime (dispatch_at host moment empty)) ≤ max_frame_size
unfolding dispatch Assoc.get text_dec encode write write_bytes
empty_fits zero = omega arith
empty_fits (suc moment) = omega arith

cut-Fit : Fit plain_runtime host (decoded plain_runtime (frames_of (stream cut)).frames)
unfolding frames_of read_u32be decode read_fields
cut-Fit = (empty_fits, tt)

run-IsServed_example :
    IsServed plain_runtime host
      (stream cut)
      (run plain_runtime host (run plain_runtime host new_loop cut) (turns_at later))
run-IsServed_example =
    run-IsServed plain_runtime host cut later (tt, (tt, (tt, tt))) cut-Fit (omega arith)

abbrev after_loss : List Event
after_loss =
    turns 5 none
    ∷ happens (Connection.chunk (0 ∷ 0 ∷ []))
    ∷ turns 6 none
    ∷ turns 7 (some (record { text = codes "write EPIPE"; code = some (codes "EPIPE") }))
    ∷ turns 8 none
    ∷ []

run-ends_example :
    ((run plain_runtime host
        (step plain_runtime host
          (run plain_runtime host new_loop arrival)
          (happens Connection.closes))
        after_loss).doing
      ≡ ended)
    × IsLost
        (run plain_runtime host new_loop arrival).connection.written
        (run plain_runtime host
          (step plain_runtime host
            (run plain_runtime host new_loop arrival)
            (happens Connection.closes))
          after_loss).connection
run-ends_example = run-ends plain_runtime host arrival closing after_loss (omega arith)

-- A request is in `dispatch`, and the write of its response will fail.
abbrev handling_one : Loop
handling_one = record { doing = handling request; connection = Connection.init; handled = [] }

abbrev epipe : Connection.NodeError
epipe = record { text = codes "write EPIPE"; code = some (codes "EPIPE") }

abbrev afterwards : List Event
afterwards =
    happens (Connection.chunk (wire (encoded plain_runtime asked)))
    ∷ turns 9 none
    ∷ turns 10 none
    ∷ []

run-breaks_example :
    let t =
      run plain_runtime host
        (step plain_runtime host handling_one (turns 8 (some epipe)))
        afterwards in
    (t.doing ≡ ended) × (t.handled ≡ [] ++ (8, request) ∷ []) × (t.connection.connected ≡ false)
run-breaks_example = run-breaks plain_runtime host handling_one 8 epipe afterwards tt (omega arith)
