-- ===== src/Proto/Envelope/Objects.antt =====
-- sdk/js/src/generated/proto.js: `verify`, `fromObject`, `toObject`, `toJSON` and `getTypeUrl` of
-- `ibridger.Envelope`.
pub mod Parts
pub mod Metadata
pub mod RoundTrip
use ibridger.Common.{
  ℕ, zero, suc, ◌+◌, ◌/◌, ◌%◌, ◌^◌, Option, none, some, Bool, true, false, ◌&&◌, ◌||◌, List, [],
  ◌∷◌, ltb, if◌then◌else◌, ite, length, get_or_else,
}
use ibridger.Common.Text.{Text, Bytes, codes, text_dec, decimal}
use ibridger.Errors.{plain, Result, ok, err, ◌>>=◌}
use ibridger.Proto.Objects.{
  Number, whole, Value, undefined, null, boolean, number, text, long, bytes, array, object, Items,
  nil, cons, Properties, end, property, Options, BytesOption, as_buffer, as_array, as_base64, Util,
  Source, instance_of, value, is_object_type, field, find, assign, put_all, readable, convert,
  check, shown, blank, type_url, truthy, int32_number, int32_bits, is_long_like, long_value, low_of,
  high_of,
}
use ibridger.Proto.Objects.Laws.{byte_items}
use ibridger.Proto.Envelope.{Envelope, set_property}

-- `Envelope.getTypeUrl(prefix)`
unfoldable pub get_type_url : Option Text → Text
get_type_url prefix = type_url (codes "ibridger.Envelope") prefix

-- The names of the enums' values, in order.
abbrev pub type_names : List Text
type_names = codes "REQUEST" ∷ codes "RESPONSE" ∷ codes "EVENT" ∷ codes "ERROR" ∷ []

abbrev pub status_names : List Text
status_names =
    codes "OK"
    ∷ codes "UNKNOWN_ERROR"
    ∷ codes "NOT_FOUND"
    ∷ codes "INVALID_ARGUMENT"
    ∷ codes "INTERNAL"
    ∷ codes "TIMEOUT"
    ∷ []

-- `case 0: case 1: …`
unfoldable pub is_enum : List Text → Value → Bool
is_enum names (number (whole n)) = ltb n (length names)
is_enum names _ = false

-- The value with a name, counted from `n`.
unfoldable pub value_named : ℕ → Text → List Text → Option ℕ
value_named n t [] = none
value_named n t (name ∷ names) = ite (text_dec name t) (some n) (value_named (suc n) t names)

-- The `switch` of `fromObject`: a name or a number; anything else leaves the field alone.
unfoldable pub read_enum : List Text → Option Value → Option ℕ
unfolding value_named int32_bits
read_enum names (some (text t)) = value_named 0 t names
read_enum names (some (number n)) = some (int32_bits n)
read_enum names _ = none

-- `MessageType[v]` and `StatusCode[v]`
unfoldable pub name_of : ℕ → List Text → Option Text
name_of n [] = none
name_of zero (name ∷ names) = some name
name_of (suc k) (name ∷ names) = name_of k names

-- `options.enums === String ? … : message.type`
unfoldable pub enum_value : Options → List Text → ℕ → Value
unfolding name_of int32_number
enum_value o names b =
    if o.enums
    then elim (name_of b names) [ some name ↦ text name | none ↦ number (int32_number b) ]
    else number (int32_number b)

-- `typeof v.length === "number"`
unfoldable pub has_length : Value → Bool
unfolding find
has_length (text t) = true
has_length (bytes b) = true
has_length (array vs) = true
has_length (object ps) = elim (find (codes "length") ps) [ some (number n) ↦ true | _ ↦ false ]
has_length _ = false

-- A payload as `options.bytes` wants it.
unfoldable pub payload_value : Util → Options → Bytes → Value
payload_value u o b = elim o.bytes [
  | as_buffer ↦ bytes b
  | as_array ↦ array (byte_items b)
  | as_base64 ↦ text (u.base64_encode b)
]

-- The default payload.
unfoldable pub blank_payload : Options → Value
blank_payload o = elim o.bytes [ as_buffer ↦ bytes [] | as_array ↦ array nil | as_base64 ↦ text [] ]

-- A text is base64, and a value without a `length` leaves the field alone.
unfoldable pub read_payload : Util → Option Value → Result (Option Bytes)
read_payload u none = ok none
read_payload u (some (text t)) = do b ← u.base64_decode t; ok (some b)
read_payload u (some v) = ok (u.bytes_of v)

item_entries : ℕ → Items → List (Text × Value)
unfolding decimal
item_entries i nil = []
item_entries i (cons v vs) = (decimal i, v) ∷ item_entries (suc i) vs

-- `Object.keys(v)`, each with its value.
unfoldable pub property_entries : Properties → List (Text × Value)
property_entries end = []
property_entries (property k v ps) = (k, v) ∷ property_entries ps

unfoldable pub entries : Value → List (Text × Value)
unfolding item_entries property_entries low_of high_of
entries (object ps) = property_entries ps
entries (array vs) = item_entries 0 vs
entries (bytes b) = item_entries 0 (byte_items b)
entries (long unsigned n) =
    (codes "low", low_of (long unsigned n))
    ∷ (codes "high", high_of (long unsigned n))
    ∷ (codes "unsigned", boolean unsigned)
    ∷ []
entries _ = []

-- The loop over the keys of `object.metadata`, into a new object.
unfoldable pub read_entries :
    (Value → Result Text) → List (Text × Value) → List (Text × Text) → Result (List (Text × Text))
unfolding set_property
read_entries f [] m = ok m
read_entries f ((key, v) ∷ es) m = do t ← f v; read_entries f es (set_property key t m)

unfoldable pub metadata_entries : (Value → Result Text) → Value → Result (List (Text × Text))
unfolding read_entries entries is_object_type
metadata_entries f v =
    if is_object_type v
    then read_entries f (entries v) []
    else err (plain (codes ".ibridger.Envelope.metadata: object expected"))

-- `if (object.metadata) …`
unfoldable pub read_metadata : (Value → Result Text) → Option Value → Result (List (Text × Text))
unfolding metadata_entries truthy
read_metadata f none = ok []
read_metadata f (some v) = if truthy v then metadata_entries f v else ok []

-- `object.metadata[key] = …` for every key, where `__proto__` is no key.
unfoldable pub metadata_properties : List (Text × Text) → Properties → Properties
unfolding assign
metadata_properties [] ps = ps
metadata_properties ((key, t) ∷ m) ps =
    metadata_properties m (ite (text_dec key (codes "__proto__")) ps (assign key (text t) ps))

-- `if (message.metadata && Object.keys(message.metadata).length) …`
unfoldable pub shown_metadata : List (Text × Text) → Option Value
unfolding metadata_properties
shown_metadata [] = none
shown_metadata (e ∷ m) = some (object (metadata_properties (e ∷ m) end))

all_texts : (Value → Bool) → List (Text × Value) → Bool
all_texts test [] = true
all_texts test ((key, v) ∷ es) = test v && all_texts test es

unfoldable pub verify_metadata : Util → Option Value → Option Text
unfolding all_texts entries
verify_metadata u none = none
verify_metadata u (some v) =
    if u.is_object v
    then (if all_texts u.is_string (entries v)
        then none
        else some (codes "metadata: string{k:string} expected"))
    else some (codes "metadata: object expected")

module _ (u : Util) where
  abbrev pub is_payload : Value → Bool
  is_payload v = (truthy v && has_length v) || u.is_string v

  -- `Envelope.verify(message)`
  unfoldable pub verify : Value → Option Text
  unfolding is_object_type field check is_enum is_long_like has_length verify_metadata
  verify v =
      if is_object_type v
      then check (is_enum type_names) (codes "type: enum value expected") (field (codes "type") v) (
          check (is_long_like u) (codes "requestId: integer|Long expected")
            (field (codes "requestId") v)
            (check u.is_string (codes "serviceName: string expected")
              (field (codes "serviceName") v)
              (check u.is_string (codes "methodName: string expected")
                (field (codes "methodName") v)
                (check is_payload (codes "payload: buffer expected") (field (codes "payload") v) (
                  check (is_enum status_names) (codes "status: enum value expected")
                    (field (codes "status") v)
                    (check u.is_string (codes "errorMessage: string expected")
                      (field (codes "errorMessage") v)
                      (verify_metadata u (field (codes "metadata") v))))))))
      else some (codes "object expected")

  -- `Envelope.fromObject(object)`
  unfoldable pub from_object : Source Envelope → Result Envelope
  unfolding readable field convert read_enum read_payload read_metadata
  from_object (instance_of m) = ok m
  from_object (value v) = do
    _ ← readable (codes "type") v
    request_id ← convert u.long_from (field (codes "requestId") v)
    service_name ← convert u.to_text (field (codes "serviceName") v)
    method_name ← convert u.to_text (field (codes "methodName") v)
    payload ← read_payload u (field (codes "payload") v)
    error_message ← convert u.to_text (field (codes "errorMessage") v)
    metadata ← read_metadata u.to_text (field (codes "metadata") v)
    ok (record {
      type = read_enum type_names (field (codes "type") v);
      request_id = request_id;
      service_name = service_name;
      method_name = method_name;
      payload = payload;
      status = read_enum status_names (field (codes "status") v);
      error_message = error_message;
      metadata = metadata;
    })

  -- The assignments of `toObject`: defaults, then what the message has.
  abbrev pub assignments : Options → Envelope → List (Text × Option Value)
  assignments o m =
      (codes "metadata", blank (o.objects || o.defaults) (object end))
      ∷ (codes "type", blank o.defaults (enum_value o type_names 0))
      ∷ (codes "requestId", blank o.defaults (long_value u o true 0))
      ∷ (codes "serviceName", blank o.defaults (text []))
      ∷ (codes "methodName", blank o.defaults (text []))
      ∷ (codes "payload", blank o.defaults (blank_payload o))
      ∷ (codes "status", blank o.defaults (enum_value o status_names 0))
      ∷ (codes "errorMessage", blank o.defaults (text []))
      ∷ (codes "type", shown (enum_value o type_names) m.type)
      ∷ (codes "requestId", shown (long_value u o true) m.request_id)
      ∷ (codes "serviceName", shown text m.service_name)
      ∷ (codes "methodName", shown text m.method_name)
      ∷ (codes "payload", shown (payload_value u o) m.payload)
      ∷ (codes "status", shown (enum_value o status_names) m.status)
      ∷ (codes "errorMessage", shown text m.error_message)
      ∷ (codes "metadata", shown_metadata m.metadata)
      ∷ []

  -- `Envelope.toObject(message, options)`
  unfoldable pub to_object : Options → Envelope → Value
  unfolding shown blank put_all enum_value long_value payload_value shown_metadata
  to_object o m = object (put_all (assignments o m) end)

  -- `message.toJSON()`, with protobufjs's `toJSONOptions`
  unfoldable pub to_json : Envelope → Value
  unfolding to_object
  to_json m = to_object u.json_options m
