-- ===== src/Proto/EchoRequest.antt =====
-- sdk/js/src/generated/proto.js: `ibridger.examples.EchoRequest`. A field that is no own
-- property of the object is `none`.
pub mod Objects
use ibridger.Common.{
  ℕ, ◌+◌, ◌/◌, ◌%◌, ◌^◌, ◌<◌, ◌≡◌, ◌≢◌, ◌==◌, refl, subst, arith, Option, none, some, ◌++◌, length,
  if◌then◌else◌, get_or_else, [],
}
use ibridger.Common.Text.{Text, Bytes}
use ibridger.Errors.{exhausted, Result, ok, err, ◌>>=◌}
use ibridger.Proto.Runtime.{Runtime, IsRuntime, IsText}
use ibridger.Proto.Fields.{Reader, at, reader_of, take_with, own, delimited, decode_message}
use ibridger.Proto.Fields.Takes.{Takes, Takes-own}
use ibridger.Proto.Fields.Ends.{Ends, if-Ends}
use ibridger.Proto.Fields.Whole.{
  set_with-Ends, decode_message-Takes, decode_delimited-Takes, decode_message-ne-exhausted,
}
use ibridger.Proto.Fields.Values.{OptionAll, over, over-none}

pub record EchoRequest : Type 0 where
  pub message : Option Text

-- `new EchoRequest()`
abbrev pub empty : EchoRequest
empty = record { message = none }

abbrev pub message_of : EchoRequest → Text
message_of m = get_or_else m.message []

module _ (w : Runtime) where
  -- `EchoRequest.encode(message).finish()`
  unfoldable pub encode : EchoRequest → Bytes
  encode m = own m.message (λ v. w.uint32 10 ++ w.string v)

  -- The `switch`.
  unfoldable pub echo_request_field : ℕ → EchoRequest → Reader → Result (EchoRequest × Reader)
  echo_request_field tag m r =
      if tag / 8 == 1
      then (do (v, r') ← take_with w.read_string r; ok (record m { message = some v }, r'))
      else (do (_, r') ← take_with (w.skip_type (tag % 8)) r; ok (m, r'))

  -- `EchoRequest.decode(reader, length)`
  unfoldable pub decode_from : Reader → Option ℕ → Result (EchoRequest × Reader)
  decode_from r limit = decode_message w echo_request_field empty r limit

  -- `EchoRequest.decode(buffer)`
  unfoldable pub decode : Bytes → Result EchoRequest
  unfolding decode_from
  decode b = do (m, _) ← decode_from (reader_of b) none; ok m

  -- `EchoRequest.encodeDelimited(message)`
  unfoldable pub encode_delimited : EchoRequest → Bytes
  unfolding encode
  encode_delimited m = delimited w (encode m)

  -- `EchoRequest.decodeDelimited(reader)`
  unfoldable pub decode_delimited : Reader → Result (EchoRequest × Reader)
  unfolding decode_from
  decode_delimited r = do (n, r1) ← take_with w.read_uint32 r; decode_from r1 (some n)

-- The values that the wire format can carry.
pub record IsEncodable (w : Runtime) (m : EchoRequest) : Type 0 where
  pub message : OptionAll (IsText w) m.message

module _ (w : Runtime) (laws : IsRuntime w) where
  Takes-message :
      (t : Option Text) (m : EchoRequest)
      → OptionAll (IsText w) t
      → Takes w laws
          (echo_request_field w)
          (own t (λ v. w.uint32 10 ++ w.string v))
          m
          (record m { message = over t m.message })
  unfolding echo_request_field
  Takes-message t m h =
      Takes-own w laws (echo_request_field w) 10 w.string w.read_string (IsText w)
        (λ x. record m { message = over x m.message }) t (omega arith) laws.read_string-string
        (λ r. refl) h

  Takes-encode :
      (m : EchoRequest) → IsEncodable w m → Takes w laws (echo_request_field w) (encode w m) empty m
  unfolding encode
  Takes-encode m h =
      let e : (record { message = over m.message none }) ≡ m =
        λ i. record { message = over-none m.message i } in
      subst (Takes w laws (echo_request_field w) (encode w m) empty) e
        (Takes-message m.message empty h.message)

  echo_request_field-Ends :
      (tag : ℕ) (m : EchoRequest) (r : Reader) → Ends (length r.rest) (echo_request_field w tag m r)
  unfolding echo_request_field
  echo_request_field-Ends tag m r =
      if-Ends (length r.rest) (tag / 8 == 1) _ _
        (set_with-Ends w.read_string r (λ v. record m { message = some v }) laws.read_string-le)
        (set_with-Ends (w.skip_type (tag % 8)) r (λ v. m)
          (λ b rest a. laws.skip_type-le (tag % 8) b rest))

  pub read_back : (m : EchoRequest) → IsEncodable w m → decode w (encode w m) ≡ ok m
  unfolding decode decode_from
  read_back m h =
      rw
        (decode_message-Takes w laws (echo_request_field w) (encode w m) empty m (Takes-encode m h))
        refl

  pub decode-encode_echo_request :
      (m : EchoRequest) (tail : Bytes) (p : ℕ)
      → IsEncodable w m
      → length (encode w m) < 2 ^ 32
      → (decode w (encode w m) ≡ ok m)
        × (decode_delimited w (at p (encode_delimited w m ++ tail))
            ≡ ok (m, at (p + length (encode_delimited w m)) tail))
  unfolding decode_from decode_delimited encode_delimited
  decode-encode_echo_request m tail p h lt = (
    read_back m h,
    decode_delimited-Takes w laws (echo_request_field w) (encode w m) tail p empty m
        (Takes-encode m h) lt,
  )

  pub decode_echo_request-ne-exhausted : (b : Bytes) → decode w b ≢ err exhausted
  unfolding decode decode_from
  decode_echo_request-ne-exhausted b =
      decode_message-ne-exhausted w laws (echo_request_field w) empty b echo_request_field-Ends
