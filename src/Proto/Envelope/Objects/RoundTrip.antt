-- ===== src/Proto/Envelope/Objects/RoundTrip.antt =====
-- `Envelope.fromObject` and `Envelope.verify` against `Envelope.toObject`.
use ibridger.Common.{◌^◌, ◌<◌, ◌≡◌, ◌≢◌, refl, arith, none, some, true, false, ◌||◌, [], All}
use ibridger.Common.Text.{Text, codes, text_dec}
use ibridger.Errors.{ok}
use ibridger.Proto.Fields.Values.{OptionAll}
use ibridger.Proto.Objects.{
  check, shown, blank, end, text, Options, as_text, Util, value, field, find, put_all, readable,
  not_null, is_object_type, long_value, is_long_like,
}
use ibridger.Proto.Objects.Finding.{
  or_else, found, find-put_all, Solid, has_text, shown-Solid, blank-Solid, filled, convert-shown,
  check-shown, check-shown_if,
}
use ibridger.Proto.Objects.Laws.{
  IsUtil, LongFits, LongFits-zero, long_from-long_value, long_value-solid, is_long_like-long_value,
}
use ibridger.Proto.Envelope.{Envelope}
use ibridger.Proto.Envelope.RoundTrip.{IsMap}
use ibridger.Proto.Envelope.Objects.{
  type_names, status_names, assignments, verify, from_object, to_object, enum_value, payload_value,
  blank_payload, is_enum, is_payload,
}
use ibridger.Proto.Envelope.Objects.Parts.{
  Named-type, Named-status, read_enum-shown, read_payload-shown, blank_payload-eq,
  is_payload-payload_value, payload_value-solid, enum_value-solid, is_enum-enum_value,
}
use ibridger.Proto.Envelope.Objects.Metadata.{
  shown_metadata-Solid, read_metadata-shown, verify_metadata-shown,
}

-- The message with the defaults that the options put in the place of absent fields.
abbrev pub with_defaults : Options → Envelope → Envelope
with_defaults o m = record {
  type = filled o.defaults 0 m.type;
  request_id = filled o.defaults 0 m.request_id;
  service_name = filled o.defaults [] m.service_name;
  method_name = filled o.defaults [] m.method_name;
  payload = filled o.defaults [] m.payload;
  status = filled o.defaults 0 m.status;
  error_message = filled o.defaults [] m.error_message;
  metadata = m.metadata;
}

-- The values that `toObject` carries over with these options.
pub record IsConvertible (o : Options) (m : Envelope) : Type 0 where
  pub type : OptionAll (λ v. v < 2 ^ 32) m.type
  pub request_id : OptionAll (LongFits o) m.request_id
  pub status : OptionAll (λ v. v < 2 ^ 32) m.status
  pub metadata : IsMap m.metadata

module _ (u : Util) (laws : IsUtil u) (o : Options) (m : Envelope) where
  blank_payload-solid : not_null (blank_payload o) ≡ some (blank_payload o)
  blank_payload-solid = rw (blank_payload-eq u laws o) (payload_value-solid u laws o [])

  solid : All (λ f. Solid f.1) (assignments u o m)
  unfolding not_null
  solid = (
    blank-Solid (o.objects || o.defaults) _ refl,
    (
      blank-Solid o.defaults _ (enum_value-solid o type_names 0),
      (
        blank-Solid o.defaults _ (long_value-solid u o true 0),
        (
          blank-Solid o.defaults _ refl,
          (
            blank-Solid o.defaults _ refl,
            (
              blank-Solid o.defaults _ blank_payload-solid,
              (
                blank-Solid o.defaults _ (enum_value-solid o status_names 0),
                (
                  blank-Solid o.defaults _ refl,
                  (
                    shown-Solid (enum_value o type_names) m.type (enum_value-solid o type_names),
                    (
                      shown-Solid (long_value u o true) m.request_id (long_value-solid u o true),
                      (
                        shown-Solid text m.service_name (λ x. refl),
                        (
                          shown-Solid text m.method_name (λ x. refl),
                          (
                            shown-Solid (payload_value u o) m.payload
                                (payload_value-solid u laws o),
                            (
                              shown-Solid (enum_value o status_names) m.status
                                  (enum_value-solid o status_names),
                              (
                                shown-Solid text m.error_message (λ x. refl),
                                (shown_metadata-Solid m.metadata, tt),
                              ),
                            ),
                          ),
                        ),
                      ),
                    ),
                  ),
                ),
              ),
            ),
          ),
        ),
      ),
    ),
  )

  find_field :
      (key : Text) → find key (put_all (assignments u o m) end) ≡ found key (assignments u o m) none
  unfolding find
  find_field key = find-put_all key (assignments u o m) end solid

  -- Under the documented laws of `$util`, `Envelope.fromObject` of what `Envelope.toObject` makes,
  -- with any options, is the envelope again, with the defaults in its absent fields where the
  -- options ask for defaults. Its metadata has every key once and none `__proto__`, its enums fit
  -- 32 bits and its id 64, or 53 where Longs are shown as numbers.
  pub from_object-to_object_envelope :
      IsConvertible o m → from_object u (value (to_object u o m)) ≡ ok (with_defaults o m)
  unfolding from_object to_object field readable text_dec
  from_object-to_object_envelope h =
      rw
        (
          find_field (codes "requestId"),
          convert-shown u.long_from (long_value u o true) (LongFits o) o.defaults 0 m.request_id
              (λ x h. long_from-long_value u laws o true x h) (LongFits-zero o) h.request_id,
          find_field (codes "serviceName"),
          convert-shown u.to_text text (λ x. Unit {0}) o.defaults [] m.service_name
              (λ x h. laws.to_text-text x) tt (has_text m.service_name),
          find_field (codes "methodName"),
          convert-shown u.to_text text (λ x. Unit {0}) o.defaults [] m.method_name
              (λ x h. laws.to_text-text x) tt (has_text m.method_name),
          find_field (codes "payload"),
          read_payload-shown u laws o o.defaults m.payload,
          find_field (codes "errorMessage"),
          convert-shown u.to_text text (λ x. Unit {0}) o.defaults [] m.error_message
              (λ x h. laws.to_text-text x) tt (has_text m.error_message),
          find_field (codes "metadata"),
          read_metadata-shown u laws (o.objects || o.defaults) m.metadata h.metadata,
          find_field (codes "type"),
          read_enum-shown o type_names Named-type o.defaults m.type h.type,
          find_field (codes "status"),
          read_enum-shown o status_names Named-status o.defaults m.status h.status,
        )
        refl

  check-payload :
      check
        (is_payload u)
        (codes "payload: buffer expected")
        (or_else
          (shown (payload_value u o) m.payload)
          (or_else (blank o.defaults (blank_payload o)) none))
        none
      ≡ none
  check-payload = rw (blank_payload-eq u laws o) (
      check-shown (is_payload u) (payload_value u o) o.defaults [] m.payload
        (codes "payload: buffer expected") none (is_payload-payload_value u laws o))

  -- Values that `verify` accepts, with options that keep enums and Longs recognisable to it.
  pub record IsVerifiable : Type 0 where
    pub type : OptionAll (λ v. v < 4) m.type
    pub status : OptionAll (λ v. v < 6) m.status
    pub metadata : IsMap m.metadata
    pub enums : o.enums ≡ false
    pub longs : o.longs ≢ as_text

  -- Under the documented laws of `$util`, `Envelope.verify` accepts what `Envelope.toObject` makes
  -- of an envelope whose type and status are values of their enums and whose metadata has every
  -- key once and none `__proto__`, with options that show enums as numbers and Longs not as texts.
  pub verify-to_object_envelope : IsVerifiable → verify u (to_object u o m) ≡ none
  unfolding verify to_object field is_object_type text_dec
  verify-to_object_envelope h =
      rw
        (
          find_field (codes "metadata"),
          verify_metadata-shown u laws (o.objects || o.defaults) m.metadata h.metadata,
          find_field (codes "errorMessage"),
          check-shown u.is_string text o.defaults [] m.error_message
              (codes "errorMessage: string expected") none laws.is_string-text,
          find_field (codes "status"),
          check-shown_if (is_enum status_names) (enum_value o status_names) (λ v. v < 6) o.defaults
              0 m.status (codes "status: enum value expected") none
              (λ x lt. is_enum-enum_value o status_names h.enums x lt (omega arith)) (omega arith)
              h.status,
          find_field (codes "payload"),
          check-payload,
          find_field (codes "methodName"),
          check-shown u.is_string text o.defaults [] m.method_name
              (codes "methodName: string expected") none laws.is_string-text,
          find_field (codes "serviceName"),
          check-shown u.is_string text o.defaults [] m.service_name
              (codes "serviceName: string expected") none laws.is_string-text,
          find_field (codes "requestId"),
          check-shown (is_long_like u) (long_value u o true) o.defaults 0 m.request_id
              (codes "requestId: integer|Long expected") none
              (is_long_like-long_value u laws o true h.longs),
          find_field (codes "type"),
          check-shown_if (is_enum type_names) (enum_value o type_names) (λ v. v < 4) o.defaults 0
              m.type (codes "type: enum value expected") none
              (λ x lt. is_enum-enum_value o type_names h.enums x lt (omega arith)) (omega arith)
              h.type,
        )
        refl
