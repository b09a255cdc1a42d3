-- ===== src/Proto/Envelope.antt =====
-- sdk/js/src/generated/proto.js: `ibridger.Envelope`. A field that is no own property of the object
-- is `none`; its value is then the prototype's.
pub mod Parts
pub mod RoundTrip
pub mod Decoding
pub mod Objects
use ibridger.Common.{
  ℕ, ◌+◌, ◌/◌, ◌%◌, Option, none, some, List, [], ◌∷◌, ◌++◌, ◌==◌, if◌then◌else◌, ite, length,
  get_or_else,
}
use ibridger.Common.Text.{Text, Bytes, codes, text_dec}
use ibridger.Common.Assoc
use ibridger.Errors.{Result, ok, err, ◌>>=◌}
use ibridger.Proto.Runtime.{Runtime}
use ibridger.Proto.Fields.{
  Reader, at, reader_of, take_with, own, delimited, read_fields, rounds, decode_message,
}

-- `type` and `status` are int32, `request_id` is an unsigned Long. The constructor makes `metadata`
-- an own property, so it is always there; a plain object is the list of its properties.
pub record Envelope : Type 0 where
  pub type : Option ℕ
  pub request_id : Option ℕ
  pub service_name : Option Text
  pub method_name : Option Text
  pub payload : Option Bytes
  pub status : Option ℕ
  pub error_message : Option Text
  pub metadata : List (Text × Text)

-- `new Envelope()`. `Envelope.create(properties)` sets the properties that are given besides.
abbrev pub empty : Envelope
empty = record {
  type = none;
  request_id = none;
  service_name = none;
  method_name = none;
  payload = none;
  status = none;
  error_message = none;
  metadata = [];
}

-- Reading a field finds the prototype's value where there is no own one.
abbrev pub type_of : Envelope → ℕ
type_of m = get_or_else m.type 0

abbrev pub request_id_of : Envelope → ℕ
request_id_of m = get_or_else m.request_id 0

abbrev pub service_name_of : Envelope → Text
service_name_of m = get_or_else m.service_name []

abbrev pub method_name_of : Envelope → Text
method_name_of m = get_or_else m.method_name []

abbrev pub payload_of : Envelope → Bytes
payload_of m = get_or_else m.payload []

abbrev pub status_of : Envelope → ℕ
status_of m = get_or_else m.status 0

abbrev pub error_message_of : Envelope → Text
error_message_of m = get_or_else m.error_message []

-- `object[key] = value` for a text: an assignment to `__proto__` has no effect.
unfoldable pub set_property : Text → Text → List (Text × Text) → List (Text × Text)
unfolding Assoc.set
set_property key value m = ite (text_dec key (codes "__proto__")) m (Assoc.set key value m)

module _ (w : Runtime) where
  -- The loop over `Object.keys(message.metadata)`.
  unfoldable pub encode_metadata : List (Text × Text) → Bytes
  encode_metadata [] = []
  encode_metadata ((key, value) ∷ m) =
      w.uint32 66
      ++ (delimited w (w.uint32 10 ++ (w.string key ++ (w.uint32 18 ++ w.string value)))
          ++ encode_metadata m)

  -- `Envelope.encode(message).finish()`
  unfoldable pub encode : Envelope → Bytes
  unfolding encode_metadata
  encode m =
      own m.type (λ v. w.uint32 8 ++ w.int32 v)
      ++ (own m.request_id (λ v. w.uint32 16 ++ w.uint64 v)
          ++ (own m.service_name (λ v. w.uint32 26 ++ w.string v)
              ++ (own m.method_name (λ v. w.uint32 34 ++ w.string v)
                  ++ (own m.payload (λ v. w.uint32 42 ++ w.bytes v)
                      ++ (own m.status (λ v. w.uint32 48 ++ w.int32 v)
                          ++ (own m.error_message (λ v. w.uint32 58 ++ w.string v)
                              ++ encode_metadata m.metadata))))))

  -- The inner `switch`, on the variables `key` and `value`.
  unfoldable pub entry_field : ℕ → Text × Text → Reader → Result ((Text × Text) × Reader)
  entry_field tag (key, value) r =
      if tag / 8 == 1
      then (do (v, r') ← take_with w.read_string r; ok ((v, value), r'))
      else (if tag / 8 == 2
          then (do (v, r') ← take_with w.read_string r; ok ((key, v), r'))
          else (do (_, r') ← take_with (w.skip_type (tag % 8)) r; ok ((key, value), r')))

  -- `case 8`
  unfoldable pub metadata_field : Envelope → Reader → Result (Envelope × Reader)
  metadata_field m r = do
    (n, r1) ← take_with w.read_uint32 r
    ((key, value), r2) ← read_fields w entry_field (rounds w r1) (n + r1.pos) ([], []) r1
    ok (record m { metadata = set_property key value m.metadata }, r2)

  -- The outer `switch`.
  unfoldable pub envelope_field : ℕ → Envelope → Reader → Result (Envelope × Reader)
  envelope_field tag m r =
      if tag / 8 == 1
      then (do (v, r') ← take_with w.read_int32 r; ok (record m { type = some v }, r'))
      else (if tag / 8 == 2
          then (do (v, r') ← take_with w.read_uint64 r; ok (record m { request_id = some v }, r'))
          else (if tag / 8 == 3
              then (do
                (v, r') ← take_with w.read_string r
                ok (record m { service_name = some v }, r'))
              else (if tag / 8 == 4
                  then (do
                    (v, r') ← take_with w.read_string r
                    ok (record m { method_name = some v }, r'))
                  else (if tag / 8 == 5
                      then (do
                        (v, r') ← take_with w.read_bytes r
                        ok (record m { payload = some v }, r'))
                      else (if tag / 8 == 6
                          then (do
                            (v, r') ← take_with w.read_int32 r
                            ok (record m { status = some v }, r'))
                          else (if tag / 8 == 7
                              then (do
                                (v, r') ← take_with w.read_string r
                                ok (record m { error_message = some v }, r'))
                              else (if tag / 8 == 8 then metadata_field m r else (do
                                (_, r') ← take_with (w.skip_type (tag % 8)) r
                                ok (m, r')))))))))

  -- `Envelope.decode(reader, length)`, with `length` undefined for a whole buffer.
  unfoldable pub decode_from : Reader → Option ℕ → Result (Envelope × Reader)
  decode_from r limit = decode_message w envelope_field empty r limit

  -- `Envelope.decode(buffer)`
  unfoldable pub decode : Bytes → Result Envelope
  unfolding decode_from
  decode b = do (m, _) ← decode_from (reader_of b) none; ok m

  -- `Envelope.encodeDelimited(message)` with a new writer. `ldelim` closes the whole of what it
  -- wrote.
  unfoldable pub encode_delimited : Envelope → Bytes
  unfolding encode
  encode_delimited m = delimited w (encode m)

  -- `Envelope.decodeDelimited(reader)`
  unfoldable pub decode_delimited : Reader → Result (Envelope × Reader)
  unfolding decode_from
  decode_delimited r = do (n, r1) ← take_with w.read_uint32 r; decode_from r1 (some n)
