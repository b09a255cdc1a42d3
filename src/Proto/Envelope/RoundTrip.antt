-- ===== src/Proto/Envelope/RoundTrip.antt =====
-- `Envelope.decode` against `Envelope.encode`.
use ibridger.Common.{
  ℕ, ◌+◌, ◌*◌, ◌^◌, ◌≤◌, ◌<◌, ◌≡◌, ◌==◌, false, ◌/◌, ◌%◌, ◌≢◌, refl, sym, ◌∙◌, ap, arith, List, [],
  ◌∷◌, ◌++◌, append_assoc, append-nil, length, All, if_neg,
}
use ibridger.Common.Text.{Text, Bytes, codes}
use ibridger.Common.Assoc.{Fresh, Distinct, set-append}
use ibridger.Errors.{ok}
use ibridger.Proto.Runtime.{Runtime, IsRuntime, IsText, IsBuffer}
use ibridger.Proto.Fields.{at}
use ibridger.Proto.Fields.Takes.{Takes, Takes-nil, Takes-append, Takes-field, taken-got}
use ibridger.Proto.Fields.Values.{over, over-none, OptionAll}
use ibridger.Proto.Fields.Whole.{decode_message-Takes}
use ibridger.Proto.Envelope.{
  Envelope, empty, encode, envelope_field, decode, decode_from, set_property,
}
use ibridger.Proto.Envelope.Parts.{
  set_all, Takes-type, Takes-request_id, Takes-service_name, Takes-method_name, Takes-payload,
  Takes-status, Takes-error_message, Takes-metadata,
}

-- The values that the wire format can carry: integers of their width, Unicode texts, byte buffers.
pub record IsEncodable (w : Runtime) (m : Envelope) : Type 0 where
  pub type : OptionAll (λ v. v < 2 ^ 32) m.type
  pub request_id : OptionAll (λ v. v < 2 ^ 64) m.request_id
  pub service_name : OptionAll (IsText w) m.service_name
  pub method_name : OptionAll (IsText w) m.method_name
  pub payload : OptionAll IsBuffer m.payload
  pub status : OptionAll (λ v. v < 2 ^ 32) m.status
  pub error_message : OptionAll (IsText w) m.error_message
  pub metadata : All (λ e. IsText w e.0 × IsText w e.1) m.metadata

-- The fields of `m` over those of `old`.
abbrev pub merge : Envelope → Envelope → Envelope
merge m old = record {
  type = over m.type old.type;
  request_id = over m.request_id old.request_id;
  service_name = over m.service_name old.service_name;
  method_name = over m.method_name old.method_name;
  payload = over m.payload old.payload;
  status = over m.status old.status;
  error_message = over m.error_message old.error_message;
  metadata = set_all m.metadata old.metadata;
}

module _ (w : Runtime) (laws : IsRuntime w) where
  pub Takes-encode :
      (m old : Envelope)
      → IsEncodable w m
      → Takes w laws (envelope_field w) (encode w m) old (merge m old)
  unfolding encode
  Takes-encode m old h = Takes-append w laws _ (Takes-type w laws m.type old h.type) (
      Takes-append w laws _ (Takes-request_id w laws m.request_id _ h.request_id) (
        Takes-append w laws _ (Takes-service_name w laws m.service_name _ h.service_name) (
          Takes-append w laws _ (Takes-method_name w laws m.method_name _ h.method_name) (
            Takes-append w laws _ (Takes-payload w laws m.payload _ h.payload) (
              Takes-append w laws _ (Takes-status w laws m.status _ h.status) (
                Takes-append w laws _ (Takes-error_message w laws m.error_message _ h.error_message)
                  (Takes-metadata w laws m.metadata _ h.metadata)))))))

  pub decode-Takes :
      (b : Bytes) (m : Envelope) → Takes w laws (envelope_field w) b empty m → decode w b ≡ ok m
  unfolding decode decode_from
  decode-Takes b m t = rw (decode_message-Takes w laws (envelope_field w) b empty m t) refl

-- No key is `__proto__`.
abbrev pub NoProto : List (Text × Text) → Type 0
NoProto = All (λ e. e.0 ≢ codes "__proto__")

-- A map as `decode` can rebuild it: every key once, and none of them `__proto__`.
abbrev pub IsMap : List (Text × Text) → Type 0
IsMap md = Distinct md × NoProto md

pub Fresh-middle :
    (acc : List (Text × Text)) (k v : Text) (md : List (Text × Text))
    → Distinct (acc ++ (k, v) ∷ md)
    → Fresh k acc
Fresh-middle [] k v md h = tt
Fresh-middle ((j, u) ∷ acc) k v md (h, hs) = (head acc h, Fresh-middle acc k v md hs)
  where
    head : (acc : List (Text × Text)) → Fresh j (acc ++ (k, v) ∷ md) → j ≢ k
    head [] f = λ e. f.0 (sym e)
    head ((i, u) ∷ acc) f = head acc f.1

pub set_all-append :
    (md acc : List (Text × Text)) → Distinct (acc ++ md) → NoProto md → set_all md acc ≡ acc ++ md
set_all-append [] acc d n = sym (append-nil acc)
set_all-append ((k, v) ∷ md) acc d (n, ns) =
    let one : set_property k v acc ≡ acc ++ (k, v) ∷ [] =
      unfold set_property in rw (if_neg _ n) (set-append k v acc (Fresh-middle acc k v md d)) in
    rw one (
      set_all-append md (acc ++ (k, v) ∷ []) (rw (append_assoc acc ((k, v) ∷ []) md) d) ns
      ∙ append_assoc acc ((k, v) ∷ []) md)

merge-empty : (m : Envelope) → IsMap m.metadata → merge m empty ≡ m
merge-empty m (d, n) = λ i. record {
  type = over-none m.type i;
  request_id = over-none m.request_id i;
  service_name = over-none m.service_name i;
  method_name = over-none m.method_name i;
  payload = over-none m.payload i;
  status = over-none m.status i;
  error_message = over-none m.error_message i;
  metadata = set_all-append m.metadata [] d n i;
}

-- Under the documented laws of protobufjs's Reader and Writer, decoding gives back the envelope
-- that was encoded, own properties and absent ones alike, if its values fit the wire format and
-- its metadata has every key once and no key `__proto__`.
pub decode-encode :
    (w : Runtime)
    → IsRuntime w
    → (m : Envelope) → IsEncodable w m
    → IsMap m.metadata
    → decode w (encode w m) ≡ ok m
decode-encode w laws m h k =
    decode-Takes w laws (encode w m) (merge m empty) (Takes-encode w laws m empty h)
    ∙ ap ok (merge-empty m k)

-- Two encoded envelopes, one behind the other, decode to one: each field is the second's where
-- that has it and the first's otherwise, and the second's metadata are assigned entry by entry.
-- Both fit the wire format, and the first's metadata has every key once and none `__proto__`.
pub decode-append :
    (w : Runtime)
    → IsRuntime w
    → (m more : Envelope) → IsEncodable w m
    → IsEncodable w more
    → IsMap m.metadata
    → decode w (encode w m ++ encode w more) ≡ ok (merge more m)
decode-append w laws m more h h' k =
    decode-Takes w laws (encode w m ++ encode w more) (merge more (merge m empty)) (
      Takes-append w laws _ (Takes-encode w laws m empty h)
        (Takes-encode w laws more (merge m empty) h'))
    ∙ ap (λ (x : Envelope). ok (merge more x)) (merge-empty m k)

-- A length-delimited field with a number that `Envelope` does not have.
pub record UnknownField : Type 0 where
  pub number : ℕ
  pub content : Bytes

pub record IsUnknown (f : UnknownField) : Type 0 where
  pub beyond : 8 < f.number
  pub fits : f.number < 2 ^ 29
  pub buffer : IsBuffer f.content

module _ (w : Runtime) where
  abbrev pub unknown_bytes : List UnknownField → Bytes
  unknown_bytes [] = []
  unknown_bytes (f ∷ fs) = (w.uint32 (f.number * 8 + 2) ++ w.bytes f.content) ++ unknown_bytes fs

  module _ (laws : IsRuntime w) where
    skip_unknown :
        (f : UnknownField) (m : Envelope) (p : ℕ) (tail : Bytes)
        → IsUnknown f
        → envelope_field w (f.number * 8 + 2) m (at p (w.bytes f.content ++ tail))
          ≡ ok (m, at (p + length (w.bytes f.content)) tail)
    unfolding envelope_field
    skip_unknown f m p tail u =
        rw
          (
            other 1 (omega arith),
            other 2 (omega arith),
            other 3 (omega arith),
            other 4 (omega arith),
            other 5 (omega arith),
            other 6 (omega arith),
            other 7 (omega arith),
            other 8 (omega arith),
            kind,
            taken-got p (w.bytes f.content) tail tt _
                (laws.skip_type-bytes f.content tail u.buffer),
          )
          refl
      where
        other : (k : ℕ) → k ≤ 8 → ((f.number * 8 + 2) / 8 == k) ≡ false
        other k h = ground (arith, u.beyond)

        kind : (f.number * 8 + 2) % 8 ≡ 2
        kind = omega arith

    Takes-unknown :
        (fs : List UnknownField) (m : Envelope)
        → All IsUnknown fs
        → Takes w laws (envelope_field w) (unknown_bytes fs) m m
    Takes-unknown [] m h = Takes-nil w laws _ m
    Takes-unknown (f ∷ fs) m (u, us) =
        Takes-append w laws _
          (Takes-field w laws _ (f.number * 8 + 2) (w.bytes f.content) (omega (arith, u.fits))
            (λ p tail. skip_unknown f m p tail u))
          (Takes-unknown fs m us)

-- Length-delimited fields with numbers above 8, before or behind the fields of an encoded
-- envelope, change nothing of what `decode` gives, under the conditions of the round trip.
pub decode-unknown :
    (w : Runtime)
    → IsRuntime w
    → (m : Envelope) (before after : List UnknownField) → IsEncodable w m
    → IsMap m.metadata
    → All IsUnknown before
    → All IsUnknown after
    → decode w (unknown_bytes w before ++ (encode w m ++ unknown_bytes w after)) ≡ ok m
decode-unknown w laws m before after h k us vs =
    decode-Takes w laws _ (merge m empty) (
      Takes-append w laws _ (Takes-unknown w laws before empty us) (
        Takes-append w laws _ (Takes-encode w laws m empty h)
          (Takes-unknown w laws after (merge m empty) vs)))
    ∙ ap ok (merge-empty m k)
