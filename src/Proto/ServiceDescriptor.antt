-- ===== src/Proto/ServiceDescriptor.antt =====
-- sdk/js/src/generated/proto.js: `ibridger.ServiceDescriptor`.
-- The constructor makes `methods` an own property; it is a list of texts.
pub mod Objects
use ibridger.Common.{
  ℕ, ◌+◌, ◌/◌, ◌%◌, ◌^◌, ◌<◌, ◌≡◌, ◌≢◌, ◌==◌, refl, subst, arith, Option, none, some, ◌++◌, length,
  List, ◌∷◌, append_assoc, append-nil, All, if◌then◌else◌, get_or_else, [],
}
use ibridger.Common.Text.{Text, Bytes}
use ibridger.Errors.{exhausted, Result, ok, err, ◌>>=◌}
use ibridger.Proto.Runtime.{Runtime, IsRuntime, IsText}
use ibridger.Proto.Fields.{Reader, at, reader_of, take_with, own, delimited, decode_message}
use ibridger.Proto.Fields.Takes.{Takes, Takes-nil, Takes-append, Takes-own, Takes-field, taken-got}
use ibridger.Proto.Fields.Ends.{Ends, if-Ends}
use ibridger.Proto.Fields.Whole.{
  set_with-Ends, decode_message-Takes, decode_delimited-Takes, decode_message-ne-exhausted,
}
use ibridger.Proto.Fields.Values.{OptionAll, over, over-none}

pub record ServiceDescriptor : Type 0 where
  pub name : Option Text
  pub methods : List Text

-- `new ServiceDescriptor()`
abbrev pub empty : ServiceDescriptor
empty = record { name = none; methods = [] }

abbrev pub name_of : ServiceDescriptor → Text
name_of m = get_or_else m.name []

module _ (w : Runtime) where
  -- The loop over `message.methods`.
  unfoldable pub encode_methods : List Text → Bytes
  encode_methods [] = []
  encode_methods (x ∷ xs) = w.uint32 18 ++ (w.string x ++ encode_methods xs)

  -- `ServiceDescriptor.encode(message).finish()`
  unfoldable pub encode : ServiceDescriptor → Bytes
  unfolding encode_methods
  encode m = own m.name (λ v. w.uint32 10 ++ w.string v) ++ encode_methods m.methods

  -- The `switch`.
  unfoldable pub descriptor_field :
      ℕ → ServiceDescriptor → Reader → Result (ServiceDescriptor × Reader)
  descriptor_field tag m r =
      if tag / 8 == 1
      then (do (v, r') ← take_with w.read_string r; ok (record m { name = some v }, r'))
      else if tag / 8 == 2
      then (do
        (v, r') ← take_with w.read_string r
        ok (record m { methods = m.methods ++ (v ∷ []) }, r'))
      else (do (_, r') ← take_with (w.skip_type (tag % 8)) r; ok (m, r'))

  -- `ServiceDescriptor.decode(reader, length)`
  unfoldable pub decode_from : Reader → Option ℕ → Result (ServiceDescriptor × Reader)
  decode_from r limit = decode_message w descriptor_field empty r limit

  -- `ServiceDescriptor.decode(buffer)`
  unfoldable pub decode : Bytes → Result ServiceDescriptor
  unfolding decode_from
  decode b = do (m, _) ← decode_from (reader_of b) none; ok m

  -- `ServiceDescriptor.encodeDelimited(message)`
  unfoldable pub encode_delimited : ServiceDescriptor → Bytes
  unfolding encode
  encode_delimited m = delimited w (encode m)

  -- `ServiceDescriptor.decodeDelimited(reader)`
  unfoldable pub decode_delimited : Reader → Result (ServiceDescriptor × Reader)
  unfolding decode_from
  decode_delimited r = do (n, r1) ← take_with w.read_uint32 r; decode_from r1 (some n)

-- The values that the wire format can carry.
pub record IsEncodable (w : Runtime) (m : ServiceDescriptor) : Type 0 where
  pub name : OptionAll (IsText w) m.name
  pub methods : All (IsText w) m.methods

module _ (w : Runtime) (laws : IsRuntime w) where
  Takes-name :
      (t : Option Text) (m : ServiceDescriptor)
      → OptionAll (IsText w) t
      → Takes w laws
          (descriptor_field w)
          (own t (λ v. w.uint32 10 ++ w.string v))
          m
          (record m { name = over t m.name })
  unfolding descriptor_field
  Takes-name t m h =
      Takes-own w laws (descriptor_field w) 10 w.string w.read_string (IsText w)
        (λ x. record m { name = over x m.name }) t (omega arith) laws.read_string-string (λ r. refl)
        h

  -- One method is pushed behind the others.
  Takes-method :
      (x : Text) (m : ServiceDescriptor)
      → IsText w x
      → Takes w laws
          (descriptor_field w)
          (w.uint32 18 ++ w.string x)
          m
          (record m { methods = m.methods ++ (x ∷ []) })
  unfolding descriptor_field
  Takes-method x m h =
      Takes-field w laws (descriptor_field w) 18 (w.string x) (omega arith)
        (λ p tail. rw (taken-got p (w.string x) tail x _ (laws.read_string-string x tail h)) refl)

  Takes-methods :
      (xs : List Text) (m : ServiceDescriptor)
      → All (IsText w) xs
      → Takes w laws
          (descriptor_field w)
          (encode_methods w xs)
          m
          (record m { methods = m.methods ++ xs })
  unfolding encode_methods
  Takes-methods [] m h = rw (append-nil m.methods) (Takes-nil w laws (descriptor_field w) m)
  Takes-methods (x ∷ xs) m (h, hs) =
      rw
        (
          ← append_assoc m.methods (x ∷ []) xs,
          ← append_assoc (w.uint32 18) (w.string x) (encode_methods w xs),
        )
        (Takes-append w laws (descriptor_field w) (Takes-method x m h)
          (Takes-methods xs (record m { methods = m.methods ++ (x ∷ []) }) hs))

  Takes-encode :
      (m : ServiceDescriptor)
      → IsEncodable w m
      → Takes w laws (descriptor_field w) (encode w m) empty m
  unfolding encode
  Takes-encode m h =
      let e : (record { name = over m.name none; methods = m.methods }) ≡ m =
        λ i. record { name = over-none m.name i; methods = m.methods } in
      subst (Takes w laws (descriptor_field w) (encode w m) empty) e (
        Takes-append w laws (descriptor_field w) (Takes-name m.name empty h.name)
          (Takes-methods m.methods _ h.methods))

  descriptor_field-Ends :
      (tag : ℕ) (m : ServiceDescriptor) (r : Reader)
      → Ends (length r.rest) (descriptor_field w tag m r)
  unfolding descriptor_field
  descriptor_field-Ends tag m r =
      if-Ends (length r.rest) (tag / 8 == 1) _ _
        (set_with-Ends w.read_string r (λ v. record m { name = some v }) laws.read_string-le)
        (if-Ends (length r.rest) (tag / 8 == 2) _ _
          (set_with-Ends w.read_string r (λ v. record m { methods = m.methods ++ (v ∷ []) })
            laws.read_string-le)
          (set_with-Ends (w.skip_type (tag % 8)) r (λ v. m)
            (λ b rest a. laws.skip_type-le (tag % 8) b rest)))

  pub read_back : (m : ServiceDescriptor) → IsEncodable w m → decode w (encode w m) ≡ ok m
  unfolding decode decode_from
  read_back m h =
      rw (decode_message-Takes w laws (descriptor_field w) (encode w m) empty m (Takes-encode m h))
        refl

  -- Under the laws of protobufjs's Reader and Writer, `ServiceDescriptor.decode` gives back a
  -- descriptor, its methods in order, that `ServiceDescriptor.encode` wrote, and `decodeDelimited`
  -- does so for `encodeDelimited` at any place of a reader and leaves what follows. The values fit
  -- the wire format, and the encoding is shorter than 2^32 bytes.
  pub decode-encode_descriptor :
      (m : ServiceDescriptor) (tail : Bytes) (p : ℕ)
      → IsEncodable w m
      → length (encode w m) < 2 ^ 32
      → (decode w (encode w m) ≡ ok m)
        × (decode_delimited w (at p (encode_delimited w m ++ tail))
            ≡ ok (m, at (p + length (encode_delimited w m)) tail))
  unfolding decode_from decode_delimited encode_delimited
  decode-encode_descriptor m tail p h lt = (
    read_back m h,
    decode_delimited-Takes w laws (descriptor_field w) (encode w m) tail p empty m
        (Takes-encode m h) lt,
  )

  pub decode_descriptor-ne-exhausted : (b : Bytes) → decode w b ≢ err exhausted
  unfolding decode decode_from
  decode_descriptor-ne-exhausted b =
      decode_message-ne-exhausted w laws (descriptor_field w) empty b descriptor_field-Ends
