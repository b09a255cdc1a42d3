-- ===== src/Proto/Envelope/Decoding.antt =====
-- `Envelope.decode` on any bytes, well formed or not.
use ibridger.Common.{ℕ, ◌+◌, ◌/◌, ◌%◌, ◌≢◌, arith, some, length, ◌==◌, []}
use ibridger.Common.Text.{Bytes, Text}
use ibridger.Errors.{exhausted, err}
use ibridger.Proto.Runtime.{Runtime, IsRuntime}
use ibridger.Proto.Fields.{Reader, read_fields, take_with, rounds}
use ibridger.Proto.Fields.Ends.{Ends, if-Ends, Ends-mono, taken-Ends, bind-Ends, read_fields-Ends}
use ibridger.Proto.Fields.Whole.{set_with-Ends, decode_message-ne-exhausted}
use ibridger.Proto.Envelope.{
  Envelope, empty, entry_field, metadata_field, envelope_field, decode, decode_from,
}

module _ (w : Runtime) (laws : IsRuntime w) where
  entry_field-Ends :
      (tag : ℕ) (e : Text × Text) (r : Reader) → Ends (length r.rest) (entry_field w tag e r)
  unfolding entry_field
  entry_field-Ends tag (key, value) r =
      if-Ends (length r.rest) (tag / 8 == 1) _ _
        (set_with-Ends w.read_string r (λ v. (v, value)) laws.read_string-le)
        (if-Ends (length r.rest) (tag / 8 == 2) _ _
          (set_with-Ends w.read_string r (λ v. (key, v)) laws.read_string-le)
          (set_with-Ends (w.skip_type (tag % 8)) r (λ v. (key, value))
            (λ b rest a. laws.skip_type-le (tag % 8) b rest)))

  metadata_field-Ends : (m : Envelope) (r : Reader) → Ends (length r.rest) (metadata_field w m r)
  unfolding metadata_field
  metadata_field-Ends m r =
      bind-Ends (length r.rest) (take_with w.read_uint32 r) _
        (taken-Ends w.read_uint32 (length r.rest) r
          (λ b rest a e. omega (arith, laws.read_uint32-lt b rest a e)) (omega arith))
        (λ n r1 le. Ends-mono (length r1.rest) (length r.rest) _ le (
          bind-Ends (length r1.rest)
            (read_fields w (entry_field w) (rounds w r1) (n + r1.pos) ([], []) r1) _
            (read_fields-Ends w laws (entry_field w) entry_field-Ends (rounds w r1) (n + r1.pos)
              ([], []) r1 (omega arith))
            (λ e r2 h. h)))

  envelope_field-Ends :
      (tag : ℕ) (m : Envelope) (r : Reader) → Ends (length r.rest) (envelope_field w tag m r)
  unfolding envelope_field
  envelope_field-Ends tag m r =
      let n = length r.rest in
      if-Ends n (tag / 8 == 1) _ _
        (set_with-Ends w.read_int32 r (λ v. record m { type = some v }) laws.read_int32-le)
        (if-Ends n (tag / 8 == 2) _ _
          (set_with-Ends w.read_uint64 r (λ v. record m { request_id = some v })
            laws.read_uint64-le)
          (if-Ends n (tag / 8 == 3) _ _
            (set_with-Ends w.read_string r (λ v. record m { service_name = some v })
              laws.read_string-le)
            (if-Ends n (tag / 8 == 4) _ _
              (set_with-Ends w.read_string r (λ v. record m { method_name = some v })
                laws.read_string-le)
              (if-Ends n (tag / 8 == 5) _ _
                (set_with-Ends w.read_bytes r (λ v. record m { payload = some v })
                  laws.read_bytes-le)
                (if-Ends n (tag / 8 == 6) _ _
                  (set_with-Ends w.read_int32 r (λ v. record m { status = some v })
                    laws.read_int32-le)
                  (if-Ends n (tag / 8 == 7) _ _
                    (set_with-Ends w.read_string r (λ v. record m { error_message = some v })
                      laws.read_string-le)
                    (if-Ends n (tag / 8 == 8) _ _ (metadata_field-Ends m r) (
                      set_with-Ends (w.skip_type (tag % 8)) r (λ v. m)
                        (λ b rest a. laws.skip_type-le (tag % 8) b rest)))))))))

-- Under the laws of protobufjs's Reader, `decode` on any bytes gives a message or throws an error
-- of the reader: its loops over fields and over a metadata entry end within the rounds that the
-- model allows.
pub decode-ne-exhausted : (w : Runtime) → IsRuntime w → (b : Bytes) → decode w b ≢ err exhausted
unfolding decode decode_from
decode-ne-exhausted w laws b =
    decode_message-ne-exhausted w laws (envelope_field w) empty b (envelope_field-Ends w laws)
