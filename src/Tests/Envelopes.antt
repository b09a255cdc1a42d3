-- ===== src/Tests/Envelopes.antt =====
-- sdk/js/src/generated/proto.js at concrete inputs, over the plain runtime.
use ibridger.Common.{◌≡◌, ◌≢◌, refl, arith, none, some, [], ◌∷◌, ◌++◌}
use ibridger.Common.Text.{codes}
use ibridger.Errors.{ok, err, exhausted}
use ibridger.Proto.Runtime.Plain.{
  plain_runtime, plain_runtime-IsRuntime, all_ascii, write, write_bytes,
}
use ibridger.Proto.Envelope.{Envelope, empty, encode, decode}
use ibridger.Proto.Envelope.RoundTrip.{
  IsEncodable, IsMap, IsUnknown, UnknownField, unknown_bytes, decode-encode, decode-append,
  decode-unknown,
}
use ibridger.Proto.Envelope.Decoding.{decode-ne-exhausted}

abbrev pub greeting : Envelope
greeting = record {
  type = some 0;
  request_id = some 1;
  service_name = some (codes "Echo");
  method_name = none;
  payload = some (1 ∷ 200 ∷ []);
  status = none;
  error_message = none;
  metadata = (codes "a", codes "b") ∷ [];
}

greeting-IsEncodable : IsEncodable plain_runtime greeting
unfolding all_ascii
greeting-IsEncodable = record {
  type = omega arith;
  request_id = omega arith;
  service_name = (refl, omega arith);
  method_name = tt;
  payload = omega arith;
  status = tt;
  error_message = tt;
  metadata = (((refl, omega arith), (refl, omega arith)), tt);
}

pub greeting-IsMap : IsMap greeting.metadata
greeting-IsMap = ((tt, tt), ((λ e. cc), tt))

decode-encode_example : decode plain_runtime (encode plain_runtime greeting) ≡ ok greeting
decode-encode_example =
    decode-encode plain_runtime plain_runtime-IsRuntime greeting greeting-IsEncodable greeting-IsMap

abbrev status_only : Envelope
status_only = record empty { status = some 4 }

status_only-IsEncodable : IsEncodable plain_runtime status_only
status_only-IsEncodable = record {
  type = tt;
  request_id = tt;
  service_name = tt;
  method_name = tt;
  payload = tt;
  status = omega arith;
  error_message = tt;
  metadata = tt;
}

decode-append_example :
    decode plain_runtime (encode plain_runtime greeting ++ encode plain_runtime status_only)
    ≡ ok (record greeting { status = some 4 })
decode-append_example =
    decode-append plain_runtime plain_runtime-IsRuntime greeting status_only greeting-IsEncodable
      status_only-IsEncodable greeting-IsMap

abbrev novelty : UnknownField
novelty = record { number = 9; content = 7 ∷ [] }

novelty-IsUnknown : IsUnknown novelty
novelty-IsUnknown = record { beyond = omega arith; fits = omega arith; buffer = omega arith }

decode-unknown_example :
    decode plain_runtime (
      unknown_bytes plain_runtime (novelty ∷ [])
      ++ (encode plain_runtime greeting ++ unknown_bytes plain_runtime []))
    ≡ ok greeting
decode-unknown_example =
    decode-unknown plain_runtime plain_runtime-IsRuntime greeting (novelty ∷ []) []
      greeting-IsEncodable greeting-IsMap (novelty-IsUnknown, tt) tt

-- A tag with nothing behind it.
decode-ne-exhausted_example : decode plain_runtime (10 ∷ []) ≢ err exhausted
decode-ne-exhausted_example = decode-ne-exhausted plain_runtime plain_runtime-IsRuntime (10 ∷ [])

-- The encoding byte by byte, as protobufjs writes it.
encode_test :
    encode plain_runtime greeting
    ≡ 8 ∷ 0 ∷ 16 ∷ 1 ∷ 26 ∷ 4 ∷ b'E' ∷ b'c' ∷ b'h' ∷ b'o' ∷ 42 ∷ 2 ∷ 1 ∷ 200 ∷ 66 ∷ 6 ∷ 10 ∷ 1
      ∷ b'a' ∷ 18 ∷ 1 ∷ b'b' ∷ []
unfolding encode write write_bytes
encode_test = refl
