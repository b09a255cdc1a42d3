-- ===== src/Proto/Envelope/Parts.antt =====
-- How `Envelope.decode` reads each part of what `Envelope.encode` writes.
use ibridger.Common.{
  ℕ, suc, ◌+◌, ◌^◌, ◌<◌, ◌≡◌, refl, ap, arith, Option, List, [], ◌∷◌, ◌++◌, append_assoc, length,
  length-append, All,
}
use ibridger.Common.Text.{Text, Bytes}
use ibridger.Errors.{ok}
use ibridger.Proto.Runtime.{Runtime, IsRuntime, IsText, IsBuffer}
use ibridger.Proto.Fields.{at, own, delimited}
use ibridger.Proto.Fields.Takes.{
  Takes, Takes-nil, Takes-append, Takes-field, Takes-own, Takes-all, taken-got,
}
use ibridger.Proto.Fields.Values.{over, OptionAll}
use ibridger.Proto.Envelope.{
  Envelope, encode_metadata, entry_field, envelope_field, metadata_field, set_property,
}

-- The entries are assigned one after the other.
abbrev pub set_all : List (Text × Text) → List (Text × Text) → List (Text × Text)
set_all [] acc = acc
set_all ((key, value) ∷ m) acc = set_all m (set_property key value acc)

module _ (w : Runtime) (laws : IsRuntime w) where
  abbrev EnvelopeTakes : Bytes → Envelope → Envelope → Type 0
  EnvelopeTakes = Takes w laws (envelope_field w)

  pub Takes-type :
      (t : Option ℕ) (m : Envelope)
      → OptionAll (λ v. v < 2 ^ 32) t
      → EnvelopeTakes (own t (λ v. w.uint32 8 ++ w.int32 v)) m (record m { type = over t m.type })
  unfolding envelope_field
  Takes-type t m h =
      Takes-own w laws (envelope_field w) 8 w.int32 w.read_int32 (λ v. v < 2 ^ 32)
        (λ x. record m { type = over x m.type }) t (omega arith) laws.read_int32-int32 (λ r. refl) h

  pub Takes-request_id :
      (t : Option ℕ) (m : Envelope)
      → OptionAll (λ v. v < 2 ^ 64) t
      → EnvelopeTakes
          (own t (λ v. w.uint32 16 ++ w.uint64 v))
          m
          (record m { request_id = over t m.request_id })
  unfolding envelope_field
  Takes-request_id t m h =
      Takes-own w laws (envelope_field w) 16 w.uint64 w.read_uint64 (λ v. v < 2 ^ 64)
        (λ x. record m { request_id = over x m.request_id }) t (omega arith) laws.read_uint64-uint64
        (λ r. refl) h

  pub Takes-service_name :
      (t : Option Text) (m : Envelope)
      → OptionAll (IsText w) t
      → EnvelopeTakes
          (own t (λ v. w.uint32 26 ++ w.string v))
          m
          (record m { service_name = over t m.service_name })
  unfolding envelope_field
  Takes-service_name t m h =
      Takes-own w laws (envelope_field w) 26 w.string w.read_string (IsText w)
        (λ x. record m { service_name = over x m.service_name }) t (omega arith)
        laws.read_string-string (λ r. refl) h

  pub Takes-method_name :
      (t : Option Text) (m : Envelope)
      → OptionAll (IsText w) t
      → EnvelopeTakes
          (own t (λ v. w.uint32 34 ++ w.string v))
          m
          (record m { method_name = over t m.method_name })
  unfolding envelope_field
  Takes-method_name t m h =
      Takes-own w laws (envelope_field w) 34 w.string w.read_string (IsText w)
        (λ x. record m { method_name = over x m.method_name }) t (omega arith)
        laws.read_string-string (λ r. refl) h

  pub Takes-payload :
      (t : Option Bytes) (m : Envelope)
      → OptionAll IsBuffer t
      → EnvelopeTakes
          (own t (λ v. w.uint32 42 ++ w.bytes v))
          m
          (record m { payload = over t m.payload })
  unfolding envelope_field
  Takes-payload t m h =
      Takes-own w laws (envelope_field w) 42 w.bytes w.read_bytes IsBuffer
        (λ x. record m { payload = over x m.payload }) t (omega arith) laws.read_bytes-bytes
        (λ r. refl) h

  pub Takes-status :
      (t : Option ℕ) (m : Envelope)
      → OptionAll (λ v. v < 2 ^ 32) t
      → EnvelopeTakes
          (own t (λ v. w.uint32 48 ++ w.int32 v))
          m
          (record m { status = over t m.status })
  unfolding envelope_field
  Takes-status t m h =
      Takes-own w laws (envelope_field w) 48 w.int32 w.read_int32 (λ v. v < 2 ^ 32)
        (λ x. record m { status = over x m.status }) t (omega arith) laws.read_int32-int32
        (λ r. refl) h

  pub Takes-error_message :
      (t : Option Text) (m : Envelope)
      → OptionAll (IsText w) t
      → EnvelopeTakes
          (own t (λ v. w.uint32 58 ++ w.string v))
          m
          (record m { error_message = over t m.error_message })
  unfolding envelope_field
  Takes-error_message t m h =
      Takes-own w laws (envelope_field w) 58 w.string w.read_string (IsText w)
        (λ x. record m { error_message = over x m.error_message }) t (omega arith)
        laws.read_string-string (λ r. refl) h

  entry_bytes : Text → Text → Bytes
  entry_bytes key value = w.uint32 10 ++ (w.string key ++ (w.uint32 18 ++ w.string value))

  Takes-entry :
      (key value : Text)
      → IsText w key
      → IsText w value
      → Takes w laws (entry_field w) (entry_bytes key value) ([], []) (key, value)
  unfolding entry_field entry_bytes
  Takes-entry key value hk hv =
      rw (← append_assoc (w.uint32 10) (w.string key) (w.uint32 18 ++ w.string value)) (
        Takes-append w laws _
          (Takes-field w laws _ 10 (w.string key) {m' = (key, [])} (omega arith) (λ p tail.
            rw (taken-got p (w.string key) tail key _ (laws.read_string-string key tail hk)) refl))
          (Takes-field w laws _ 18 (w.string value) (omega arith) (λ p tail.
            rw (taken-got p (w.string value) tail value _ (laws.read_string-string value tail hv))
              refl)))

  length-entry_bytes :
      (key value : Text) → IsText w key → IsText w value → length (entry_bytes key value) < 2 ^ 32
  unfolding entry_bytes
  length-entry_bytes key value hk hv = omega (
    arith,
    length-append (w.uint32 10) (w.string key ++ (w.uint32 18 ++ w.string value)),
    length-append (w.string key) (w.uint32 18 ++ w.string value),
    length-append (w.uint32 18) (w.string value),
    laws.length-uint32 10 (omega arith),
    laws.length-uint32 18 (omega arith),
    laws.length-string key,
    laws.length-string value,
  )

  -- One entry of the map, behind its tag.
  metadata_field-entry :
      (key value : Text) (m : Envelope) (p : ℕ) (tail : Bytes)
      → IsText w key
      → IsText w value
      → metadata_field w m (at p (delimited w (entry_bytes key value) ++ tail))
        ≡ ok (
          record m { metadata = set_property key value m.metadata },
          at (p + length (delimited w (entry_bytes key value))) tail,
        )
  unfolding metadata_field
  metadata_field-entry key value m p tail hk hv =
      let content = entry_bytes key value in
      let n = length content in
      let q = p + length (w.uint32 n) in
      rw
        (
          append_assoc (w.uint32 n) content tail,
          taken-got p (w.uint32 n) (content ++ tail) n _
              (laws.read_uint32-uint32 n (content ++ tail) (length-entry_bytes key value hk hv)),
          Takes-all w laws (entry_field w) {m' = (key, value)} tail q (n + q)
              (suc (length (content ++ tail))) (Takes-entry key value hk hv) (omega arith)
              (omega (arith, length-append content tail)),
        )
        (ap (λ (k : ℕ). ok (record m { metadata = set_property key value m.metadata }, at k tail))
          (omega (arith, length-append (w.uint32 n) content)))

  Takes-metadata_entry :
      (key value : Text) (m : Envelope)
      → IsText w key
      → IsText w value
      → EnvelopeTakes
          (w.uint32 66 ++ delimited w (entry_bytes key value))
          m
          (record m { metadata = set_property key value m.metadata })
  unfolding envelope_field
  Takes-metadata_entry key value m hk hv =
      Takes-field w laws _ 66 (delimited w (entry_bytes key value)) (omega arith)
        (λ p tail. metadata_field-entry key value m p tail hk hv)

  -- The map's entries, in order.
  pub Takes-metadata :
      (md : List (Text × Text)) (m : Envelope)
      → All (λ e. IsText w e.0 × IsText w e.1) md
      → EnvelopeTakes (encode_metadata w md) m (record m { metadata = set_all md m.metadata })
  unfolding encode_metadata entry_bytes
  Takes-metadata [] m h = Takes-nil w laws _ m
  Takes-metadata ((key, value) ∷ md) m ((hk, hv), h) =
      rw (← append_assoc (w.uint32 66) (delimited w (entry_bytes key value)) (encode_metadata w md))
        (Takes-append w laws _ (Takes-metadata_entry key value m hk hv)
          (Takes-metadata md (record m { metadata = set_property key value m.metadata }) h))
