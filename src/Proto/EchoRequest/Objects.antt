-- ===== src/Proto/EchoRequest/Objects.antt =====
-- sdk/js/src/generated/proto.js: `verify`, `fromObject`, `toObject`, `toJSON` and `getTypeUrl` of
-- `ibridger.examples.EchoRequest`.
use ibridger.Common.{◌≡◌, refl, Option, none, some, List, All, [], ◌∷◌, if◌then◌else◌}
use ibridger.Common.Text.{Text, codes, text_dec}
use ibridger.Errors.{Result, ok, ◌>>=◌}
use ibridger.Proto.Objects.{
  Value, end, text, object, Options, Util, Source, instance_of, value, is_object_type, field, find,
  put_all, readable, convert, check, shown, blank, type_url, is_long_like, not_null,
}
use ibridger.Proto.Objects.Finding.{
  found, find-put_all, Solid, has_text, shown-Solid, blank-Solid, filled, convert-shown,
  check-shown,
}
use ibridger.Proto.Objects.Laws.{IsUtil}
use ibridger.Proto.EchoRequest.{EchoRequest}

-- `EchoRequest.getTypeUrl(prefix)`
unfoldable pub get_type_url : Option Text → Text
get_type_url prefix = type_url (codes "ibridger.examples.EchoRequest") prefix

module _ (u : Util) where
  -- `EchoRequest.verify(message)`
  unfoldable pub verify : Value → Option Text
  unfolding is_object_type field check is_long_like
  verify v =
      if is_object_type v
      then check u.is_string (codes "message: string expected") (field (codes "message") v) none
      else some (codes "object expected")

  -- `EchoRequest.fromObject(object)`
  unfoldable pub from_object : Source EchoRequest → Result EchoRequest
  unfolding readable field convert
  from_object (instance_of m) = ok m
  from_object (value v) = do
    _ ← readable (codes "message") v
    message ← convert u.to_text (field (codes "message") v)
    ok (record { message = message })

  -- The assignments of `toObject`: defaults, then what the message has.
  abbrev pub assignments : Options → EchoRequest → List (Text × Option Value)
  assignments o m =
      (codes "message", blank o.defaults (text [])) ∷ (codes "message", shown text m.message) ∷ []

  -- `EchoRequest.toObject(message, options)`
  unfoldable pub to_object : Options → EchoRequest → Value
  unfolding shown blank
  to_object o m = object (put_all (assignments o m) end)

  -- `message.toJSON()`, with protobufjs's `toJSONOptions`
  unfoldable pub to_json : EchoRequest → Value
  unfolding to_object
  to_json m = to_object u.json_options m

-- The message with the defaults that the options put in the place of absent fields.
abbrev pub with_defaults : Options → EchoRequest → EchoRequest
with_defaults o m = record { message = filled o.defaults [] m.message }

module _ (u : Util) (laws : IsUtil u) (o : Options) (m : EchoRequest) where
  solid : All (λ f. Solid f.1) (assignments u o m)
  unfolding not_null
  solid = (blank-Solid o.defaults _ refl, (shown-Solid text m.message (λ x. refl), tt))

  find_field :
      (key : Text) → find key (put_all (assignments u o m) end) ≡ found key (assignments u o m) none
  unfolding find
  find_field key = find-put_all key (assignments u o m) end solid

  pub from_object-to_object_echo_request :
      from_object u (value (to_object u o m)) ≡ ok (with_defaults o m)
  unfolding from_object to_object field readable text_dec
  from_object-to_object_echo_request =
      rw
        (
          find_field (codes "message"),
          convert-shown u.to_text text (λ x. Unit {0}) o.defaults [] m.message
              (λ x h. laws.to_text-text x) tt (has_text m.message),
        )
        refl

  pub verify-to_object_echo_request : verify u (to_object u o m) ≡ none
  unfolding verify to_object field is_object_type text_dec
  verify-to_object_echo_request =
      rw
        (
          find_field (codes "message"),
          check-shown u.is_string text o.defaults [] m.message (codes "message: string expected")
              none laws.is_string-text,
        )
        refl
