-- ===== src/Proto/EchoResponse.antt =====
-- sdk/js/src/generated/proto.js: `ibridger.examples.EchoResponse`. A field that is no own
-- property of the object is `none`.
-- A signed Long is given by its 64 bits.
pub mod Objects
use ibridger.Common.{
  ℕ, ◌+◌, ◌/◌, ◌%◌, ◌^◌, ◌<◌, ◌≡◌, ◌≢◌, ◌==◌, refl, subst, arith, Option, none, some, ◌++◌, length,
  if◌then◌else◌, get_or_else, [],
}
use ibridger.Common.Text.{Text, Bytes}
use ibridger.Errors.{exhausted, Result, ok, err, ◌>>=◌}
use ibridger.Proto.Runtime.{Runtime, IsRuntime, IsText}
use ibridger.Proto.Fields.{Reader, at, reader_of, take_with, own, delimited, decode_message}
use ibridger.Proto.Fields.Takes.{Takes, Takes-append, Takes-own}
use ibridger.Proto.Fields.Ends.{Ends, if-Ends}
use ibridger.Proto.Fields.Whole.{
  set_with-Ends, decode_message-Takes, decode_delimited-Takes, decode_message-ne-exhausted,
}
use ibridger.Proto.Fields.Values.{OptionAll, over, over-none}

pub record EchoResponse : Type 0 where
  pub message : Option Text
  pub timestamp_ms : Option ℕ

-- `new EchoResponse()`
abbrev pub empty : EchoResponse
empty = record { message = none; timestamp_ms = none }

abbrev pub message_of : EchoResponse → Text
message_of m = get_or_else m.message []

abbrev pub timestamp_ms_of : EchoResponse → ℕ
timestamp_ms_of m = get_or_else m.timestamp_ms 0

module _ (w : Runtime) where
  -- `EchoResponse.encode(message).finish()`
  unfoldable pub encode : EchoResponse → Bytes
  encode m =
      own m.message (λ v. w.uint32 10 ++ w.string v)
      ++ own m.timestamp_ms (λ v. w.uint32 16 ++ w.int64 v)

  -- The `switch`.
  unfoldable pub echo_response_field : ℕ → EchoResponse → Reader → Result (EchoResponse × Reader)
  echo_response_field tag m r =
      if tag / 8 == 1
      then (do (v, r') ← take_with w.read_string r; ok (record m { message = some v }, r'))
      else (if tag / 8 == 2
          then (do (v, r') ← take_with w.read_int64 r; ok (record m { timestamp_ms = some v }, r'))
          else (do (_, r') ← take_with (w.skip_type (tag % 8)) r; ok (m, r')))

  -- `EchoResponse.decode(reader, length)`
  unfoldable pub decode_from : Reader → Option ℕ → Result (EchoResponse × Reader)
  decode_from r limit = decode_message w echo_response_field empty r limit

  -- `EchoResponse.decode(buffer)`
  unfoldable pub decode : Bytes → Result EchoResponse
  unfolding decode_from
  decode b = do (m, _) ← decode_from (reader_of b) none; ok m

  -- `EchoResponse.encodeDelimited(message)`
  unfoldable pub encode_delimited : EchoResponse → Bytes
  unfolding encode
  encode_delimited m = delimited w (encode m)

  -- `EchoResponse.decodeDelimited(reader)`
  unfoldable pub decode_delimited : Reader → Result (EchoResponse × Reader)
  unfolding decode_from
  decode_delimited r = do (n, r1) ← take_with w.read_uint32 r; decode_from r1 (some n)

-- The values that the wire format can carry.
pub record IsEncodable (w : Runtime) (m : EchoResponse) : Type 0 where
  pub message : OptionAll (IsText w) m.message
  pub timestamp_ms : OptionAll (λ v. v < 2 ^ 64) m.timestamp_ms

module _ (w : Runtime) (laws : IsRuntime w) where
  Takes-message :
      (t : Option Text) (m : EchoResponse)
      → OptionAll (IsText w) t
      → Takes w laws
          (echo_response_field w)
          (own t (λ v. w.uint32 10 ++ w.string v))
          m
          (record m { message = over t m.message })
  unfolding echo_response_field
  Takes-message t m h =
      Takes-own w laws (echo_response_field w) 10 w.string w.read_string (IsText w)
        (λ x. record m { message = over x m.message }) t (omega arith) laws.read_string-string
        (λ r. refl) h

  Takes-timestamp_ms :
      (t : Option ℕ) (m : EchoResponse)
      → OptionAll (λ v. v < 2 ^ 64) t
      → Takes w laws
          (echo_response_field w)
          (own t (λ v. w.uint32 16 ++ w.int64 v))
          m
          (record m { timestamp_ms = over t m.timestamp_ms })
  unfolding echo_response_field
  Takes-timestamp_ms t m h =
      Takes-own w laws (echo_response_field w) 16 w.int64 w.read_int64 (λ v. v < 2 ^ 64)
        (λ x. record m { timestamp_ms = over x m.timestamp_ms }) t (omega arith)
        laws.read_int64-int64 (λ r. refl) h

  Takes-encode :
      (m : EchoResponse)
      → IsEncodable w m
      → Takes w laws (echo_response_field w) (encode w m) empty m
  unfolding encode
  Takes-encode m h =
      let e : (record { message = over m.message none; timestamp_ms = over m.timestamp_ms none })
          ≡ m =
        λ i. record {
          message = over-none m.message i;
          timestamp_ms = over-none m.timestamp_ms i;
        } in
      subst (Takes w laws (echo_response_field w) (encode w m) empty) e (
        Takes-append w laws _ (Takes-message m.message empty h.message)
          (Takes-timestamp_ms m.timestamp_ms _ h.timestamp_ms))

  echo_response_field-Ends :
      (tag : ℕ) (m : EchoResponse) (r : Reader)
      → Ends (length r.rest) (echo_response_field w tag m r)
  unfolding echo_response_field
  echo_response_field-Ends tag m r =
      if-Ends (length r.rest) (tag / 8 == 1) _ _
        (set_with-Ends w.read_string r (λ v. record m { message = some v }) laws.read_string-le)
        (if-Ends (length r.rest) (tag / 8 == 2) _ _
          (set_with-Ends w.read_int64 r (λ v. record m { timestamp_ms = some v })
            laws.read_int64-le)
          (set_with-Ends (w.skip_type (tag % 8)) r (λ v. m)
            (λ b rest a. laws.skip_type-le (tag % 8) b rest)))

  pub read_back : (m : EchoResponse) → IsEncodable w m → decode w (encode w m) ≡ ok m
  unfolding decode decode_from
  read_back m h =
      rw
        (decode_message-Takes w laws (echo_response_field w) (encode w m) empty m
          (Takes-encode m h))
        refl

  pub decode-encode_echo_response :
      (m : EchoResponse) (tail : Bytes) (p : ℕ)
      → IsEncodable w m
      → length (encode w m) < 2 ^ 32
      → (decode w (encode w m) ≡ ok m)
        × (decode_delimited w (at p (encode_delimited w m ++ tail))
            ≡ ok (m, at (p + length (encode_delimited w m)) tail))
  unfolding decode_from decode_delimited encode_delimited
  decode-encode_echo_response m tail p h lt = (
    read_back m h,
    decode_delimited-Takes w laws (echo_response_field w) (encode w m) tail p empty m
        (Takes-encode m h) lt,
  )

  pub decode_echo_response-ne-exhausted : (b : Bytes) → decode w b ≢ err exhausted
  unfolding decode decode_from
  decode_echo_response-ne-exhausted b =
      decode_message-ne-exhausted w laws (echo_response_field w) empty b echo_response_field-Ends
