-- ===== src/Proto/Pong.antt =====
-- sdk/js/src/generated/proto.js: `ibridger.Pong`. A field that is no own
-- property of the object is `none`.
-- A signed Long is given by its 64 bits.
pub mod Objects
use ibridger.Common.{
  ℕ, ◌+◌, ◌/◌, ◌%◌, ◌^◌, ◌<◌, ◌≡◌, ◌≢◌, ◌==◌, refl, subst, arith, Option, none, some, ◌++◌, length,
  if◌then◌else◌, get_or_else, [],
}
use ibridger.Common.Text.{Text, Bytes}
use ibridger.Errors.{exhausted, Result, ok, err, ◌>>=◌}
use ibridger.Proto.Runtime.{Runtime, IsRuntime, IsText}
use ibridger.Proto.Fields.{Reader, at, reader_of, take_with, own, delimited, decode_message}
use ibridger.Proto.Fields.Takes.{Takes, Takes-append, Takes-own}
use ibridger.Proto.Fields.Ends.{Ends, if-Ends}
use ibridger.Proto.Fields.Whole.{
  set_with-Ends, decode_message-Takes, decode_delimited-Takes, decode_message-ne-exhausted,
}
use ibridger.Proto.Fields.Values.{OptionAll, over, over-none}

pub record Pong : Type 0 where
  pub server_id : Option Text
  pub timestamp_ms : Option ℕ

-- `new Pong()`
abbrev pub empty : Pong
empty = record { server_id = none; timestamp_ms = none }

abbrev pub server_id_of : Pong → Text
server_id_of m = get_or_else m.server_id []

abbrev pub timestamp_ms_of : Pong → ℕ
timestamp_ms_of m = get_or_else m.timestamp_ms 0

module _ (w : Runtime) where
  -- `Pong.encode(message).finish()`
  unfoldable pub encode : Pong → Bytes
  encode m =
      own m.server_id (λ v. w.uint32 10 ++ w.string v)
      ++ own m.timestamp_ms (λ v. w.uint32 16 ++ w.int64 v)

  -- The `switch`.
  unfoldable pub pong_field : ℕ → Pong → Reader → Result (Pong × Reader)
  pong_field tag m r =
      if tag / 8 == 1
      then (do (v, r') ← take_with w.read_string r; ok (record m { server_id = some v }, r'))
      else (if tag / 8 == 2
          then (do (v, r') ← take_with w.read_int64 r; ok (record m { timestamp_ms = some v }, r'))
          else (do (_, r') ← take_with (w.skip_type (tag % 8)) r; ok (m, r')))

  -- `Pong.decode(reader, length)`
  unfoldable pub decode_from : Reader → Option ℕ → Result (Pong × Reader)
  decode_from r limit = decode_message w pong_field empty r limit

  -- `Pong.decode(buffer)`
  unfoldable pub decode : Bytes → Result Pong
  unfolding decode_from
  decode b = do (m, _) ← decode_from (reader_of b) none; ok m

  -- `Pong.encodeDelimited(message)`
  unfoldable pub encode_delimited : Pong → Bytes
  unfolding encode
  encode_delimited m = delimited w (encode m)

  -- `Pong.decodeDelimited(reader)`
  unfoldable pub decode_delimited : Reader → Result (Pong × Reader)
  unfolding decode_from
  decode_delimited r = do (n, r1) ← take_with w.read_uint32 r; decode_from r1 (some n)

-- The values that the wire format can carry.
pub record IsEncodable (w : Runtime) (m : Pong) : Type 0 where
  pub server_id : OptionAll (IsText w) m.server_id
  pub timestamp_ms : OptionAll (λ v. v < 2 ^ 64) m.timestamp_ms

module _ (w : Runtime) (laws : IsRuntime w) where
  Takes-server_id :
      (t : Option Text) (m : Pong)
      → OptionAll (IsText w) t
      → Takes w laws
          (pong_field w)
          (own t (λ v. w.uint32 10 ++ w.string v))
          m
          (record m { server_id = over t m.server_id })
  unfolding pong_field
  Takes-server_id t m h =
      Takes-own w laws (pong_field w) 10 w.string w.read_string (IsText w)
        (λ x. record m { server_id = over x m.server_id }) t (omega arith) laws.read_string-string
        (λ r. refl) h

  Takes-timestamp_ms :
      (t : Option ℕ) (m : Pong)
      → OptionAll (λ v. v < 2 ^ 64) t
      → Takes w laws
          (pong_field w)
          (own t (λ v. w.uint32 16 ++ w.int64 v))
          m
          (record m { timestamp_ms = over t m.timestamp_ms })
  unfolding pong_field
  Takes-timestamp_ms t m h =
      Takes-own w laws (pong_field w) 16 w.int64 w.read_int64 (λ v. v < 2 ^ 64)
        (λ x. record m { timestamp_ms = over x m.timestamp_ms }) t (omega arith)
        laws.read_int64-int64 (λ r. refl) h

  Takes-encode : (m : Pong) → IsEncodable w m → Takes w laws (pong_field w) (encode w m) empty m
  unfolding encode
  Takes-encode m h =
      let e : (record {
        server_id = over m.server_id none;
        timestamp_ms = over m.timestamp_ms none;
      })
          ≡ m =
        λ i. record {
          server_id = over-none m.server_id i;
          timestamp_ms = over-none m.timestamp_ms i;
        } in
      subst (Takes w laws (pong_field w) (encode w m) empty) e (
        Takes-append w laws _ (Takes-server_id m.server_id empty h.server_id)
          (Takes-timestamp_ms m.timestamp_ms _ h.timestamp_ms))

  pong_field-Ends : (tag : ℕ) (m : Pong) (r : Reader) → Ends (length r.rest) (pong_field w tag m r)
  unfolding pong_field
  pong_field-Ends tag m r =
      if-Ends (length r.rest) (tag / 8 == 1) _ _
        (set_with-Ends w.read_string r (λ v. record m { server_id = some v }) laws.read_string-le)
        (if-Ends (length r.rest) (tag / 8 == 2) _ _
          (set_with-Ends w.read_int64 r (λ v. record m { timestamp_ms = some v })
            laws.read_int64-le)
          (set_with-Ends (w.skip_type (tag % 8)) r (λ v. m)
            (λ b rest a. laws.skip_type-le (tag % 8) b rest)))

  pub read_back : (m : Pong) → IsEncodable w m → decode w (encode w m) ≡ ok m
  unfolding decode decode_from
  read_back m h =
      rw (decode_message-Takes w laws (pong_field w) (encode w m) empty m (Takes-encode m h)) refl

  -- Under the laws of protobufjs's Reader and Writer, `Pong.decode` gives back a Pong that
  -- `Pong.encode` wrote, and `decodeDelimited` does so for `encodeDelimited` at any place of a
  -- reader and leaves what follows. The values fit the wire format, and the encoding is shorter
  -- than 2^32 bytes.
  pub decode-encode_pong :
      (m : Pong) (tail : Bytes) (p : ℕ)
      → IsEncodable w m
      → length (encode w m) < 2 ^ 32
      → (decode w (encode w m) ≡ ok m)
        × (decode_delimited w (at p (encode_delimited w m ++ tail))
            ≡ ok (m, at (p + length (encode_delimited w m)) tail))
  unfolding decode_from decode_delimited encode_delimited
  decode-encode_pong m tail p h lt = (
    read_back m h,
    decode_delimited-Takes w laws (pong_field w) (encode w m) tail p empty m (Takes-encode m h) lt,
  )

  pub decode_pong-ne-exhausted : (b : Bytes) → decode w b ≢ err exhausted
  unfolding decode decode_from
  decode_pong-ne-exhausted b =
      decode_message-ne-exhausted w laws (pong_field w) empty b pong_field-Ends
