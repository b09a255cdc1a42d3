-- ===== src/System.antt =====
-- The client of sdk/js/src/rpc/client.ts against the server of sdk/js/src/rpc/server.ts, with the
-- envelopes of sdk/js/src/generated/proto.js between them.
pub mod Pinging
pub mod Echoing
pub mod Serving
use ibridger.Common.{
  ℕ, ◌^◌, ◌<◌, ◌≡◌, ◌≢◌, refl, ◌∙◌, ap, arith, Option, none, some, [], ◌∷◌, get_or_else, inl, inr,
}
use ibridger.Common.Text.{Text, Bytes, codes}
use ibridger.Errors.{Thrown, message, rpc, Result, ok, err, ◌>>=◌, Result-cases}
use ibridger.Proto.Runtime.{Runtime, IsRuntime}
use ibridger.Proto.Envelope.{Envelope, encode, decode, request_id_of, status_of}
use ibridger.Proto.Envelope.RoundTrip.{IsEncodable, IsMap, decode-encode}
use ibridger.Rpc.Server.{MethodHandler, Services, or_default, answer, error_envelope, dispatch}
use ibridger.Rpc.Server.Registry.{find_handler}
use ibridger.Rpc.Server.Dispatch.{dispatch-Conforms, dispatch_cases}
use ibridger.Proto.Longs.{Longs, IsLongs}
use ibridger.Rpc.Client.{Call, Running, or_text, check_response, request_envelope}
use ibridger.Rpc.Client.Response.{succeeded, failed}

module _ {T : Type 0} (w : Runtime) (l : Longs) where
  -- One call over an undisturbed connection: the request's frame, the response's frame, the checks.
  abbrev pub exchange : Services → ℕ → Running T → Bytes → Result T
  exchange services now r payload = do
    request ← decode w (encode w (request_envelope l r.call r.id payload))
    response ← decode w (encode w (dispatch services now request))
    check_response l r response

-- What a call with this handler's result comes to.
abbrev pub seen : {T : Type 0} → Call T → Result Bytes → Result T
seen call (ok payload) = call.decode payload
seen call (err e) = err (rpc 4 (or_default (message e) (codes "Internal server error")))

module _ {T : Type 0} (w : Runtime) (laws : IsRuntime w) (l : Longs) (exact : IsLongs l)
    (services : Services) (now : ℕ) (r : Running T) (payload : Bytes) where
  abbrev request : Envelope
  request = request_envelope l r.call r.id payload

  carried :
      IsEncodable w request
      → IsMap request.metadata
      → IsEncodable w (dispatch services now request)
      → exchange w l services now r payload ≡ check_response l r (dispatch services now request)
  carried h m h' =
      rw
        (
          decode-encode w laws request h m,
          decode-encode w laws (dispatch services now request) h'
              (rw (dispatch-Conforms services now request).no_metadata (tt, tt)),
        )
        refl

  mirrored : r.id < 2 ^ 53 → l.to_number (request_id_of (dispatch services now request)) ≡ r.id
  mirrored fresh =
      ap (λ (o : Option ℕ). l.to_number (get_or_else o 0))
        (dispatch-Conforms services now request).mirrors
      ∙ ap l.to_number (exact.from_number_exact r.id fresh)
      ∙ exact.to_number_exact r.id fresh

  nonempty :
      (m x : Text)
      → or_text (or_default m (codes "Internal server error")) x
        ≡ or_default m (codes "Internal server error")
  nonempty [] x = refl
  nonempty (c ∷ m) x = refl

  resolved :
      (b : Bytes)
      → r.id < 2 ^ 53
      → dispatch services now request ≡ answer request (ok b)
      → check_response l r (dispatch services now request) ≡ r.call.decode b
  resolved b fresh e =
      succeeded l r _ (mirrored fresh) (rw e (unfold answer in refl))
      ∙ ap r.call.decode (rw e (unfold answer in refl))

  rejected :
      (t : Thrown)
      → r.id < 2 ^ 53
      → dispatch services now request ≡ answer request (err t)
      → check_response l r (dispatch services now request)
        ≡ err (rpc 4 (or_default (message t) (codes "Internal server error")))
  rejected t fresh e =
      let four : status_of (dispatch services now request) ≡ 4 =
        rw e (unfold answer error_envelope in refl) in
      failed l r _ (mirrored fresh) (λ z. absurd (omega (arith, four, z)))
      ∙ rw e (
          unfold answer error_envelope in ap (λ (x : Text). err (rpc 4 x)) (nonempty (message t) _))

  refused :
      l.to_number (request_id_of (dispatch services now request)) ≡ r.id
      → status_of (dispatch services now request) ≢ 0
      → (text : Text) × (check_response l r (dispatch services now request)
          ≡ err (rpc (status_of (dispatch services now request)) text))
  refused e ne = (_, failed l r (dispatch services now request) e ne)

  handled :
      (g : MethodHandler)
      → r.id < 2 ^ 53
      → dispatch services now request ≡ answer request (g now payload)
      → check_response l r (dispatch services now request) ≡ seen r.call (g now payload)
  handled g fresh d = elim (Result-cases (g now payload)) [
    | inl (b, e) ↦ rw (e, seen) (resolved b fresh (d ∙ ap (answer request) e))
    | inr (t, e) ↦ rw (e, seen) (rejected t fresh (d ∙ ap (answer request) e))
  ]

  -- Over an undisturbed connection that carries both envelopes, with a request id below 2^53, a
  -- call that the server has a handler for comes to what the handler gives: it resolves or rejects
  -- as the decoding of the payload that the handler resolves with, and rejects with an RpcError of
  -- status INTERNAL and the handler's message (or 'Internal server error') where the handler
  -- rejects. Without a handler it rejects with an RpcError of status NOT_FOUND.
  pub exchange_lem :
      r.id < 2 ^ 53
      → IsEncodable w request
      → IsMap request.metadata
      → IsEncodable w (dispatch services now request)
      → ((h : MethodHandler)
          → find_handler services r.call.service r.call.method ≡ some h
          → exchange w l services now r payload ≡ seen r.call (h now payload))
        × (find_handler services r.call.service r.call.method ≡ none
            → (text : Text) × (exchange w l services now r payload ≡ err (rpc 2 text)))
  exchange_lem fresh h m h' = (
    λ g f. carried h m h' ∙ elim (dispatch_cases services now request) [
      | inl (lost, s) ↦ absurd (cc (f, lost))
      | inr (k, found, d) ↦ handled g fresh (d ∙ same g k f found)
    ],
    λ f. elim (dispatch_cases services now request) [
      | inl (lost, s) ↦
          let (x, q) = refused (mirrored fresh) (λ z. absurd (omega (arith, s, z))) in
          (x, carried h m h' ∙ q ∙ ap (λ (n : ℕ). err (rpc n x)) s)
      | inr (k, found, d) ↦ absurd (cc (f, found))
    ],
  )
    where
      same :
          (g k : MethodHandler)
          → find_handler services r.call.service r.call.method ≡ some g
          → find_handler services r.call.service r.call.method ≡ some k
          → answer request (k now payload) ≡ answer request (g now payload)
      same g k f found =
          let e : k ≡ g = cc (f, found) in
          ap (λ (h : MethodHandler). answer request (h now payload)) e
