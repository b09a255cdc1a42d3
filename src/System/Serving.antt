-- ===== src/System/Serving.antt =====
-- A stream of requests through sdk/js/src/rpc/server.ts's `dispatchLoop`, and the responses through
-- the reader at the other end.
use ibridger.Common.{
  ℕ, ◌+◌, ◌*◌, ◌≤◌, ◌≡◌, refl, ◌∙◌, sym, ap, subst, List, [], ◌∷◌, map, length, concat, All,
}
use ibridger.Common.Text.{Bytes}
use ibridger.Errors.{ok}
use ibridger.Proto.Runtime.{Runtime, IsRuntime}
use ibridger.Proto.WireConstant.{max_frame_size}
use ibridger.Proto.Envelope.{Envelope, encode, decode}
use ibridger.Proto.Envelope.RoundTrip.{IsEncodable, IsMap, decode-encode}
use ibridger.Protocol.Framing.Parsing.{Parsed, frames_of}
use ibridger.Protocol.Framing.Receiving.{new_receiver}
use ibridger.Protocol.Framing.Receiving
use ibridger.Protocol.Framing.Receiving.Complete.{some_turns}
use ibridger.Protocol.Framing.Receiving.Wire.{wire, run-wire, frames_of-wire}
use ibridger.Rpc.Server.Dispatch.{dispatch-Conforms}
use ibridger.Rpc.Server.Loop.{Host, dispatch_at, Loop, Event, new_loop, run}
use ibridger.Rpc.Server.Loop.Standing.{IsQuiet, stream, requests_of, responses, decoded}
use ibridger.Rpc.Server.Loop.Serving.{Fit}
use ibridger.Rpc.Server.Loop.Answering.{turns_at, run-IsServed}
use ibridger.Rpc.Server.Loop.Served.{IsServed}

-- The requests as frames.
abbrev pub encoded : Runtime → List Envelope → List Bytes
encoded w ms = map (encode w) ms

-- A request that the wire can carry, in one frame, as well as any response to it.
pub record IsCarried (w : Runtime) (host : Host) (m : Envelope) : Type 0 where
  pub request : IsEncodable w m
  pub metadata : IsMap m.metadata
  pub request_fits : length (encode w m) ≤ max_frame_size
  pub response : (now : ℕ) → IsEncodable w (dispatch_at host now m)
  pub response_fits : (now : ℕ) → length (encode w (dispatch_at host now m)) ≤ max_frame_size

module _ (w : Runtime) (laws : IsRuntime w) (host : Host) where
  abbrev Carried : List Envelope → Type 0
  Carried = All (IsCarried w host)

  decoded-encoded : (ms : List Envelope) → Carried ms → decoded w (encoded w ms) ≡ ms
  decoded-encoded [] h = refl
  decoded-encoded (m ∷ ms) (h, hs) =
      rw (decode-encode w laws m h.request h.metadata, decoded) (ap (◌∷◌ m) (decoded-encoded ms hs))

  requests-fit :
      (ms : List Envelope) → Carried ms → All (λ f. length f ≤ max_frame_size) (encoded w ms)
  requests-fit [] h = tt
  requests-fit (m ∷ ms) (h, hs) = (h.request_fits, requests-fit ms hs)

  Carried-Fit : (ms : List Envelope) → Carried ms → Fit w host ms
  Carried-Fit [] h = tt
  Carried-Fit (m ∷ ms) (h, hs) = (h.response_fits, Carried-Fit ms hs)

  responses-fit :
      (hs : List (ℕ × Envelope))
      → Carried (requests_of hs)
      → All (λ f. length f ≤ max_frame_size) (responses w host hs)
  responses-fit [] h = tt
  responses-fit ((now, m) ∷ hs) (c, cs) = (c.response_fits now, responses-fit hs cs)

  decode-responses :
      (hs : List (ℕ × Envelope))
      → Carried (requests_of hs)
      → map (decode w) (responses w host hs) ≡ map (λ (now, m). ok (dispatch_at host now m)) hs
  decode-responses [] h = refl
  decode-responses ((now, m) ∷ hs) (c, cs) =
      rw
        (decode-encode w laws (dispatch_at host now m) (c.response now)
          (rw (dispatch-Conforms (host.registry now) (host.clock now) m).no_metadata (tt, tt)))
        (ap (◌∷◌ (ok (dispatch_at host now m))) (decode-responses hs cs))

-- Under the laws of protobufjs's Reader and Writer, requests that a socket brings as frames, cut
-- into any chunks, are handled by `dispatchLoop` once each and in order; and a reader that calls
-- `recvFrame` again and again on a connection that brings the bytes which the loop has written,
-- cut into any chunks, gets frames that decode to the responses of `dispatch` to those requests,
-- in order. Both ends have had turns enough and no write fails; the requests, and the responses to
-- them at any moment, fit the wire format and a frame, and the requests' metadata has every key
-- once and none `__proto__`.
pub serve-wire :
    (w : Runtime)
    → IsRuntime w
    → (host : Host) (ms : List Envelope) (es : List Event) (nows : List ℕ)
      (cs : List Receiving.Event) (k : ℕ)
    → All (IsCarried w host) ms
    → All IsQuiet es
    → stream es ≡ wire (encoded w ms)
    → 6 * length (stream es) + 6 ≤ length nows
    → Receiving.stream cs
      ≡ concat (run w host (run w host new_loop es) (turns_at nows)).connection.written
    → 3 * length (Receiving.stream cs) + 3 ≤ k
    → (requests_of (run w host (run w host new_loop es) (turns_at nows)).handled ≡ ms)
      × (map (decode w) (Receiving.run (Receiving.run new_receiver cs) (some_turns k)).frames
          ≡ map
              (λ (now, m). ok (dispatch_at host now m))
              (run w host (run w host new_loop es) (turns_at nows)).handled)
serve-wire w laws host ms es nows cs k h quiet e enough read enough' = (
  all,
  ap (map (decode w)) (
        run-wire (responses w host s.handled) cs k (responses-fit w laws host s.handled carried)
          (read ∙ served.written) enough')
      ∙ decode-responses w laws host s.handled carried,
)
  where
    s : Loop
    s = run w host (run w host new_loop es) (turns_at nows)

    parsed : decoded w (frames_of (stream es)).frames ≡ ms
    parsed =
        ap (λ (b : Bytes). decoded w (frames_of b).frames) e
        ∙ ap (λ (p : Parsed). decoded w p.frames)
            (frames_of-wire (encoded w ms) (requests-fit w laws host ms h))
        ∙ decoded-encoded w laws host ms h

    served : IsServed w host (stream es) s
    served =
        run-IsServed w host es nows quiet
          (subst (Fit w host) (sym parsed) (Carried-Fit w laws host ms h)) enough

    all : requests_of s.handled ≡ ms
    all = served.requests ∙ parsed

    carried : All (IsCarried w host) (requests_of s.handled)
    carried = subst (All (IsCarried w host)) (sym all) h
