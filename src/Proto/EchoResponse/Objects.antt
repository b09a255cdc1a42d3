-- ===== src/Proto/EchoResponse/Objects.antt =====
-- sdk/js/src/generated/proto.js: `verify`, `fromObject`, `toObject`, `toJSON` and `getTypeUrl` of
-- `ibridger.examples.EchoResponse`.
use ibridger.Common.{◌≡◌, ◌≢◌, refl, Option, none, some, false, List, All, [], ◌∷◌, if◌then◌else◌}
use ibridger.Common.Text.{Text, codes, text_dec}
use ibridger.Errors.{Result, ok, ◌>>=◌}
use ibridger.Proto.Fields.Values.{OptionAll}
use ibridger.Proto.Objects.{
  Value, end, text, object, Options, Util, Source, instance_of, value, is_object_type, field, find,
  put_all, readable, convert, check, shown, blank, type_url, long_value, is_long_like, not_null,
  as_text,
}
use ibridger.Proto.Objects.Finding.{
  found, find-put_all, Solid, has_text, shown-Solid, blank-Solid, filled, convert-shown,
  check-shown,
}
use ibridger.Proto.Objects.Laws.{
  IsUtil, LongFits, LongFits-zero, long_from-long_value, long_value-solid, is_long_like-long_value,
}
use ibridger.Proto.EchoResponse.{EchoResponse}

-- `EchoResponse.getTypeUrl(prefix)`
unfoldable pub get_type_url : Option Text → Text
get_type_url prefix = type_url (codes "ibridger.examples.EchoResponse") prefix

module _ (u : Util) where
  -- `EchoResponse.verify(message)`
  unfoldable pub verify : Value → Option Text
  unfolding is_object_type field check is_long_like
  verify v =
      if is_object_type v
      then check u.is_string (codes "message: string expected") (field (codes "message") v) (
          check (is_long_like u) (codes "timestampMs: integer|Long expected")
            (field (codes "timestampMs") v) none)
      else some (codes "object expected")

  -- `EchoResponse.fromObject(object)`
  unfoldable pub from_object : Source EchoResponse → Result EchoResponse
  unfolding readable field convert
  from_object (instance_of m) = ok m
  from_object (value v) = do
    _ ← readable (codes "message") v
    message ← convert u.to_text (field (codes "message") v)
    timestamp_ms ← convert u.long_from (field (codes "timestampMs") v)
    ok (record { message = message; timestamp_ms = timestamp_ms })

  -- The assignments of `toObject`: defaults, then what the message has.
  abbrev pub assignments : Options → EchoResponse → List (Text × Option Value)
  assignments o m =
      (codes "message", blank o.defaults (text []))
      ∷ (codes "timestampMs", blank o.defaults ((long_value u o false) 0))
      ∷ (codes "message", shown text m.message)
      ∷ (codes "timestampMs", shown (long_value u o false) m.timestamp_ms)
      ∷ []

  -- `EchoResponse.toObject(message, options)`
  unfoldable pub to_object : Options → EchoResponse → Value
  unfolding shown blank long_value
  to_object o m = object (put_all (assignments o m) end)

  -- `message.toJSON()`, with protobufjs's `toJSONOptions`
  unfoldable pub to_json : EchoResponse → Value
  unfolding to_object
  to_json m = to_object u.json_options m

-- The message with the defaults that the options put in the place of absent fields.
abbrev pub with_defaults : Options → EchoResponse → EchoResponse
with_defaults o m = record {
  message = filled o.defaults [] m.message;
  timestamp_ms = filled o.defaults 0 m.timestamp_ms;
}

module _ (u : Util) (laws : IsUtil u) (o : Options) (m : EchoResponse)
    (fits : OptionAll (LongFits o) m.timestamp_ms) where
  solid : All (λ f. Solid f.1) (assignments u o m)
  unfolding not_null
  solid = (
    blank-Solid o.defaults _ refl,
    (
      blank-Solid o.defaults _ (long_value-solid u o false 0),
      (
        shown-Solid text m.message (λ x. refl),
        (shown-Solid (long_value u o false) m.timestamp_ms (long_value-solid u o false), tt),
      ),
    ),
  )

  find_field :
      (key : Text) → find key (put_all (assignments u o m) end) ≡ found key (assignments u o m) none
  unfolding find
  find_field key = find-put_all key (assignments u o m) end solid

  pub from_object-to_object_echo_response :
      from_object u (value (to_object u o m)) ≡ ok (with_defaults o m)
  unfolding from_object to_object field readable text_dec
  from_object-to_object_echo_response =
      rw
        (
          find_field (codes "message"),
          convert-shown u.to_text text (λ x. Unit {0}) o.defaults [] m.message
              (λ x h. laws.to_text-text x) tt (has_text m.message),
          find_field (codes "timestampMs"),
          convert-shown u.long_from (long_value u o false) (LongFits o) o.defaults 0 m.timestamp_ms
              (λ x h. long_from-long_value u laws o false x h) (LongFits-zero o) fits,
        )
        refl

  pub verify-to_object_echo_response : o.longs ≢ as_text → verify u (to_object u o m) ≡ none
  unfolding verify to_object field is_object_type text_dec
  verify-to_object_echo_response ne =
      rw
        (
          find_field (codes "message"),
          find_field (codes "timestampMs"),
          check-shown (is_long_like u) (long_value u o false) o.defaults 0 m.timestamp_ms
              (codes "timestampMs: integer|Long expected") none
              (is_long_like-long_value u laws o false ne),
          check-shown u.is_string text o.defaults [] m.message (codes "message: string expected")
              none laws.is_string-text,
        )
        refl
