-- ===== src/Proto/Ping.antt =====
-- sdk/js/src/generated/proto.js: `ibridger.Ping`. A field that is no own
-- property of the object is `none`.
pub mod Objects
use ibridger.Common.{
  ℕ, ◌+◌, ◌/◌, ◌%◌, ◌^◌, ◌<◌, ◌≡◌, ◌≢◌, ◌==◌, refl, subst, arith, Option, none, some, ◌++◌, length,
  if◌then◌else◌, get_or_else, [],
}
use ibridger.Common.Text.{Text, Bytes}
use ibridger.Errors.{exhausted, Result, ok, err, ◌>>=◌}
use ibridger.Proto.Runtime.{Runtime, IsRuntime, IsText}
use ibridger.Proto.Fields.{Reader, at, reader_of, take_with, own, delimited, decode_message}
use ibridger.Proto.Fields.Takes.{Takes, Takes-own}
use ibridger.Proto.Fields.Ends.{Ends, if-Ends}
use ibridger.Proto.Fields.Whole.{
  set_with-Ends, decode_message-Takes, decode_delimited-Takes, decode_message-ne-exhausted,
}
use ibridger.Proto.Fields.Values.{OptionAll, over, over-none}

pub record Ping : Type 0 where
  pub client_id : Option Text

-- `new Ping()`
abbrev pub empty : Ping
empty = record { client_id = none }

abbrev pub client_id_of : Ping → Text
client_id_of m = get_or_else m.client_id []

module _ (w : Runtime) where
  -- `Ping.encode(message).finish()`
  unfoldable pub encode : Ping → Bytes
  encode m = own m.client_id (λ v. w.uint32 10 ++ w.string v)

  -- The `switch`.
  unfoldable pub ping_field : ℕ → Ping → Reader → Result (Ping × Reader)
  ping_field tag m r =
      if tag / 8 == 1
      then (do (v, r') ← take_with w.read_string r; ok (record m { client_id = some v }, r'))
      else (do (_, r') ← take_with (w.skip_type (tag % 8)) r; ok (m, r'))

  -- `Ping.decode(reader, length)`
  unfoldable pub decode_from : Reader → Option ℕ → Result (Ping × Reader)
  decode_from r limit = decode_message w ping_field empty r limit

  -- `Ping.decode(buffer)`
  unfoldable pub decode : Bytes → Result Ping
  unfolding decode_from
  decode b = do (m, _) ← decode_from (reader_of b) none; ok m

  -- `Ping.encodeDelimited(message)`
  unfoldable pub encode_delimited : Ping → Bytes
  unfolding encode
  encode_delimited m = delimited w (encode m)

  -- `Ping.decodeDelimited(reader)`
  unfoldable pub decode_delimited : Reader → Result (Ping × Reader)
  unfolding decode_from
  decode_delimited r = do (n, r1) ← take_with w.read_uint32 r; decode_from r1 (some n)

-- The values that the wire format can carry.
pub record IsEncodable (w : Runtime) (m : Ping) : Type 0 where
  pub client_id : OptionAll (IsText w) m.client_id

module _ (w : Runtime) (laws : IsRuntime w) where
  Takes-client_id :
      (t : Option Text) (m : Ping)
      → OptionAll (IsText w) t
      → Takes w laws
          (ping_field w)
          (own t (λ v. w.uint32 10 ++ w.string v))
          m
          (record m { client_id = over t m.client_id })
  unfolding ping_field
  Takes-client_id t m h =
      Takes-own w laws (ping_field w) 10 w.string w.read_string (IsText w)
        (λ x. record m { client_id = over x m.client_id }) t (omega arith) laws.read_string-string
        (λ r. refl) h

  Takes-encode : (m : Ping) → IsEncodable w m → Takes w laws (ping_field w) (encode w m) empty m
  unfolding encode
  Takes-encode m h =
      let e : (record { client_id = over m.client_id none }) ≡ m =
        λ i. record { client_id = over-none m.client_id i } in
      subst (Takes w laws (ping_field w) (encode w m) empty) e
        (Takes-client_id m.client_id empty h.client_id)

  ping_field-Ends : (tag : ℕ) (m : Ping) (r : Reader) → Ends (length r.rest) (ping_field w tag m r)
  unfolding ping_field
  ping_field-Ends tag m r =
      if-Ends (length r.rest) (tag / 8 == 1) _ _
        (set_with-Ends w.read_string r (λ v. record m { client_id = some v }) laws.read_string-le)
        (set_with-Ends (w.skip_type (tag % 8)) r (λ v. m)
          (λ b rest a. laws.skip_type-le (tag % 8) b rest))

  pub read_back : (m : Ping) → IsEncodable w m → decode w (encode w m) ≡ ok m
  unfolding decode decode_from
  read_back m h =
      rw (decode_message-Takes w laws (ping_field w) (encode w m) empty m (Takes-encode m h)) refl

  -- Under the laws of protobufjs's Reader and Writer, `Ping.decode` gives back a Ping that
  -- `Ping.encode` wrote, and `decodeDelimited` does so for `encodeDelimited` at any place of a
  -- reader and leaves what follows. The values fit the wire format, and the encoding is shorter
  -- than 2^32 bytes.
  pub decode-encode_ping :
      (m : Ping) (tail : Bytes) (p : ℕ)
      → IsEncodable w m
      → length (encode w m) < 2 ^ 32
      → (decode w (encode w m) ≡ ok m)
        × (decode_delimited w (at p (encode_delimited w m ++ tail))
            ≡ ok (m, at (p + length (encode_delimited w m)) tail))
  unfolding decode_from decode_delimited encode_delimited
  decode-encode_ping m tail p h lt = (
    read_back m h,
    decode_delimited-Takes w laws (ping_field w) (encode w m) tail p empty m (Takes-encode m h) lt,
  )

  pub decode_ping-ne-exhausted : (b : Bytes) → decode w b ≢ err exhausted
  unfolding decode decode_from
  decode_ping-ne-exhausted b =
      decode_message-ne-exhausted w laws (ping_field w) empty b ping_field-Ends
