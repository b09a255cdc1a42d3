-- ===== src/Rpc/Server/Dispatch.antt =====
-- What `dispatch` answers, for every request and every registry.
use ibridger.Common.{
  ℕ, ◌≡◌, ◌≢◌, ◌↔◌, ◌⊎◌, inl, inr, refl, ◌∙◌, arith, Option, none, some, List, [], ◌∷◌,
}
use ibridger.Common.Text.{Text, Bytes, codes}
use ibridger.Common.Assoc.{get}
use ibridger.Errors.{Thrown, message, Result, ok, err, Result-cases}
use ibridger.Proto.MessageType
use ibridger.Proto.StatusCode
use ibridger.Proto.Envelope.{
  Envelope, type_of, status_of, request_id_of, service_name_of, method_name_of, payload_of,
  error_message_of,
}
use ibridger.Rpc.Server.{MethodHandler, Services, or_default, error_envelope, answer, dispatch}
use ibridger.Rpc.Server.Registry.{find_handler}

-- The contract of the wire protocol for a response. `status` is left out of the wire's three errors.
pub record Conforms (request response : Envelope) : Type 0 where
  pub mirrors : response.request_id ≡ some (request_id_of request)
  pub kind :
      ((type_of response ≡ MessageType.response) × (status_of response ≡ StatusCode.ok))
      ⊎ ((type_of response ≡ MessageType.error)
          × ((status_of response ≡ StatusCode.not_found)
              ⊎ (status_of response ≡ StatusCode.internal))
          × (error_message_of response ≢ [])
          × (response.payload ≡ none))
  pub no_metadata : response.metadata ≡ []
  pub unnamed : (response.service_name ≡ none) × (response.method_name ≡ none)

or_default-ne-nil : (text : Text) → or_default text (codes "Internal server error") ≢ []
or_default-ne-nil [] e = cc
or_default-ne-nil (c ∷ text) e = cc

answer-Conforms : (request : Envelope) (r : Result Bytes) → Conforms request (answer request r)
unfolding answer error_envelope
answer-Conforms request (ok payload) = record {
  mirrors = refl;
  kind = inl (refl, refl);
  no_metadata = refl;
  unnamed = (refl, refl);
}
answer-Conforms request (err e) = record {
  mirrors = refl;
  kind = inr (refl, inr refl, or_default-ne-nil (message e), refl);
  no_metadata = refl;
  unnamed = (refl, refl);
}

not_found-Conforms :
    (request : Envelope) (c : ℕ) (text : Text)
    → Conforms request (error_envelope request StatusCode.not_found (c ∷ text))
unfolding error_envelope
not_found-Conforms request c text = record {
  mirrors = refl;
  kind = inr (refl, inl refl, (λ e. cc), refl);
  no_metadata = refl;
  unnamed = (refl, refl);
}

-- For every registry and request, the response repeats the request's id and is either a RESPONSE
-- with status OK, or an ERROR with status NOT_FOUND or INTERNAL, a message that is not empty and
-- no payload; it has no metadata and no names.
pub dispatch-Conforms :
    (services : Services) (now : ℕ) (request : Envelope)
    → Conforms request (dispatch services now request)
unfolding dispatch
dispatch-Conforms services now request = by_service (get (service_name_of request) services) refl
  where
    by_method :
        (service : List (Text × MethodHandler)) (h : Option MethodHandler)
        → get (service_name_of request) services ≡ some service
        → get (method_name_of request) service ≡ h
        → Conforms request (dispatch services now request)
    by_method service none e f = rw (e, f, dispatch) (not_found-Conforms request _ _)
    by_method service (some handler) e f =
        rw (e, f, dispatch) (answer-Conforms request (handler now (payload_of request)))

    by_service :
        (s : Option (List (Text × MethodHandler)))
        → get (service_name_of request) services ≡ s
        → Conforms request (dispatch services now request)
    by_service none e = rw (e, dispatch) (not_found-Conforms request _ _)
    by_service (some service) e = by_method service _ e refl

-- Either no handler is found and the status is NOT_FOUND, or the found handler's result is answered.
pub dispatch_cases :
    (services : Services) (now : ℕ) (request : Envelope)
    → ((find_handler services (service_name_of request) (method_name_of request) ≡ none)
        × (status_of (dispatch services now request) ≡ StatusCode.not_found))
      ⊎ ((h : MethodHandler) × (find_handler services
              (service_name_of request)
              (method_name_of request)
            ≡ some h)
          × (dispatch services now request ≡ answer request (h now (payload_of request))))
unfolding dispatch find_handler error_envelope
dispatch_cases services now request = by_service (get (service_name_of request) services) refl
  where
    Goal : Type 0
    Goal =
        ((find_handler services (service_name_of request) (method_name_of request) ≡ none)
          × (status_of (dispatch services now request) ≡ StatusCode.not_found))
        ⊎ ((h : MethodHandler) × (find_handler services (service_name_of request)
                (method_name_of request)
              ≡ some h)
            × (dispatch services now request ≡ answer request (h now (payload_of request))))

    by_method :
        (service : List (Text × MethodHandler)) (h : Option MethodHandler)
        → get (service_name_of request) services ≡ some service
        → get (method_name_of request) service ≡ h
        → Goal
    by_method service none e f = inl (rw (e, find_handler) f, rw (e, f, dispatch) refl)
    by_method service (some handler) e f =
        inr (handler, rw (e, find_handler) f, rw (e, f, dispatch) refl)

    by_service :
        (s : Option (List (Text × MethodHandler)))
        → get (service_name_of request) services ≡ s
        → Goal
    by_service none e = inl (rw (e, find_handler) (unfold get in refl), rw (e, dispatch) refl)
    by_service (some service) e = by_method service _ e refl

-- The status tells what happened: NOT_FOUND exactly when the registry has no such method of such a
-- service, and OK with a given payload exactly when the registry has a handler and it resolved
-- with that payload.
pub dispatch_status :
    (services : Services) (now : ℕ) (request : Envelope) (bytes : Bytes)
    → ((status_of (dispatch services now request) ≡ StatusCode.not_found)
        ↔ (find_handler services (service_name_of request) (method_name_of request) ≡ none))
      × (((status_of (dispatch services now request) ≡ StatusCode.ok)
            × ((dispatch services now request).payload ≡ some bytes))
          ↔ ((h : MethodHandler) × (find_handler services
                  (service_name_of request)
                  (method_name_of request)
                ≡ some h)
              × (h now (payload_of request) ≡ ok bytes)))
dispatch_status services now request bytes = elim (dispatch_cases services now request) [
  | inl (f, s) ↦
      ((λ _. f, λ _. s), (λ x. absurd (omega (arith, s, x.0)), λ x. absurd (cc (f, x.1))))
  | inr (h, f, d) ↦ elim (Result-cases (h now (payload_of request))) [
    | inl (b, e) ↦ (
      (λ n. absurd (omega (arith, ok_status h b d e, n)), λ n. absurd (cc (f, n))),
      (
        λ x. (h, f, cc (e, ok_payload h b d e, x.1)),
        λ x. (ok_status h b d e, ok_payload h b d e ∙ cc (e, x.2, f, x.1)),
      ),
    )
    | inr (t, e) ↦ (
      (λ n. absurd (omega (arith, err_status h t d e, n)), λ n. absurd (cc (f, n))),
      (λ x. absurd (omega (arith, err_status h t d e, x.0)), λ x. absurd (cc (e, x.2, f, x.1))),
    )
  ]
]
  where
    ok_status :
        (h : MethodHandler) (b : Bytes)
        → dispatch services now request ≡ answer request (h now (payload_of request))
        → h now (payload_of request) ≡ ok b
        → status_of (dispatch services now request) ≡ 0
    ok_status h b d e = rw (d, e) (unfold answer in refl)

    ok_payload :
        (h : MethodHandler) (b : Bytes)
        → dispatch services now request ≡ answer request (h now (payload_of request))
        → h now (payload_of request) ≡ ok b
        → (dispatch services now request).payload ≡ some b
    ok_payload h b d e = rw (d, e) (unfold answer in refl)

    err_status :
        (h : MethodHandler) (t : Thrown)
        → dispatch services now request ≡ answer request (h now (payload_of request))
        → h now (payload_of request) ≡ err t
        → status_of (dispatch services now request) ≡ 4
    err_status h t d e = rw (d, e) (unfold answer error_envelope in refl)
