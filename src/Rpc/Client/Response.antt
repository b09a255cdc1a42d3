-- ===== src/Rpc/Client/Response.antt =====
-- Which responses a call accepts.
use ibridger.Common.{
  ℕ, ◌==◌, ◌≡◌, ◌≢◌, ◌↔◌, refl, sym, ◌∙◌, ℕ_discrete, arith, true, false, not, ◌++◌, if◌then◌else◌,
}
use ibridger.Common.Text.{Text, codes, decimal, decimal_int32}
use ibridger.Errors.{plain, rpc, ok, err}
use ibridger.Proto.Envelope.{Envelope, request_id_of, status_of, payload_of, error_message_of}
use ibridger.Proto.Longs.{Longs}
use ibridger.Rpc.Client.{Running, check_response, or_text}

module _ {T : Type 0} (l : Longs) (r : Running T) (response : Envelope) where
  other_id :
      l.to_number (request_id_of response) ≢ r.id
      → check_response l r response
        ≡ err (
            plain (
              codes "Protocol error: expected request_id "
              ++ (decimal r.id
                  ++ (codes ", got " ++ decimal (l.to_number (request_id_of response))))))
  unfolding check_response
  other_id ne = rw (differs (l.to_number (request_id_of response)) r.id ne) refl
    where
      differs : (a b : ℕ) → a ≢ b → (a == b) ≡ false
      differs a b h = ground arith

  same_id :
      l.to_number (request_id_of response) ≡ r.id
      → check_response l r response ≡ (
          if not (status_of response == 0)
          then err (
              rpc (status_of response) (
                or_text
                  (error_message_of response)
                  (codes "RPC failed with status " ++ decimal_int32 (status_of response))))
          else r.call.decode (payload_of response))
  unfolding check_response
  same_id e = rw (equals (l.to_number (request_id_of response)) r.id e) refl
    where
      equals : (a b : ℕ) → a ≡ b → (a == b) ≡ true
      equals a b h = ground arith

  pub failed :
      l.to_number (request_id_of response) ≡ r.id
      → status_of response ≢ 0
      → check_response l r response
        ≡ err (
            rpc (status_of response) (
              or_text
                (error_message_of response)
                (codes "RPC failed with status " ++ decimal_int32 (status_of response))))
  failed e ne = same_id e ∙ rw (differs (status_of response) ne) refl
    where
      differs : (a : ℕ) → a ≢ 0 → (a == 0) ≡ false
      differs a h = ground arith

  pub succeeded :
      l.to_number (request_id_of response) ≡ r.id
      → status_of response ≡ 0
      → check_response l r response ≡ r.call.decode (payload_of response)
  succeeded e z = same_id e ∙ rw (equals (status_of response) z) refl
    where
      equals : (a : ℕ) → a ≡ 0 → (a == 0) ≡ true
      equals a h = ground arith

-- A call resolves with `t` exactly when the response has the call's id and status OK and its
-- payload decodes to `t`. With the call's id and another status it rejects with an RpcError of
-- that status, and with another id with a plain error.
pub check_response_lem :
    {T : Type 0} (l : Longs) (r : Running T) (response : Envelope) (t : T)
    → ((check_response l r response ≡ ok t) ↔ (
        (l.to_number (request_id_of response) ≡ r.id)
        × (status_of response ≡ 0)
        × (r.call.decode (payload_of response) ≡ ok t)))
      × (l.to_number (request_id_of response) ≡ r.id
          → status_of response ≢ 0
          → (text : Text) × (check_response l r response ≡ err (rpc (status_of response) text)))
      × (l.to_number (request_id_of response) ≢ r.id
          → (text : Text) × (check_response l r response ≡ err (plain text)))
check_response_lem l r response t = (
  (to, λ h. succeeded l r response h.0 h.1 ∙ h.2),
  λ e ne. (_, failed l r response e ne),
  λ ne. (_, other_id l r response ne),
)
  where
    to :
        check_response l r response ≡ ok t
        → (l.to_number (request_id_of response) ≡ r.id)
          × (status_of response ≡ 0)
          × (r.call.decode (payload_of response) ≡ ok t)
    to h = elim (ℕ_discrete (l.to_number (request_id_of response)) r.id) [
      | no ne ↦ absurd (cc (other_id l r response ne, h))
      | yes e ↦ elim (ℕ_discrete (status_of response) 0) [
        | no ne ↦ absurd (cc (failed l r response e ne, h))
        | yes z ↦ (e, z, sym (succeeded l r response e z) ∙ h)
      ]
    ]
