-- ===== src/Proto/Envelope/Objects/Parts.antt =====
-- How `Envelope.fromObject` reads each part of what `Envelope.toObject` makes.
use ibridger.Common.{
  ℕ, zero, suc, ◌^◌, ◌<◌, ◌≡◌, refl, subst, ap, arith, Option, none, some, Bool, true, false, List,
  [], ltb, length, Bool-cases, inl, inr,
}
use ibridger.Common.Text.{Text, Bytes, text_dec}
use ibridger.Errors.{ok}
use ibridger.Proto.Fields.Values.{OptionAll}
use ibridger.Proto.Objects.{
  Options, BytesOption, as_buffer, as_array, as_base64, Util, shown, blank, truthy, int32_number,
  int32_bits, not_null,
}
use ibridger.Proto.Objects.Finding.{or_else, filled}
use ibridger.Proto.Objects.Laws.{IsUtil, or_true}
use ibridger.Proto.Envelope.Objects.{
  type_names, status_names, value_named, read_enum, name_of, enum_value, payload_value,
  blank_payload, read_payload, is_payload, has_length, is_enum,
}

int32_bits-int32_number : (b : ℕ) → b < 2 ^ 32 → int32_bits (int32_number b) ≡ b
unfolding int32_bits int32_number
int32_bits-int32_number b h = elim (Bool-cases (ltb b (2 ^ 31))) [
  | inl low ↦ rw low (omega arith)
  | inr high ↦ rw high (omega arith)
]

-- The names of an enum lead back to its values.
abbrev Named : List Text → Type 0
Named names = (b : ℕ) → OptionAll (λ t. value_named 0 t names ≡ some b) (name_of b names)

pub Named-type : Named type_names
unfolding value_named name_of text_dec
Named-type zero = refl
Named-type (suc zero) = refl
Named-type (suc (suc zero)) = refl
Named-type (suc (suc (suc zero))) = refl
Named-type (suc (suc (suc (suc b)))) = tt

pub Named-status : Named status_names
unfolding value_named name_of text_dec
Named-status zero = refl
Named-status (suc zero) = refl
Named-status (suc (suc zero)) = refl
Named-status (suc (suc (suc zero))) = refl
Named-status (suc (suc (suc (suc zero)))) = refl
Named-status (suc (suc (suc (suc (suc zero))))) = refl
Named-status (suc (suc (suc (suc (suc (suc b)))))) = tt

module _ (o : Options) (names : List Text) (named : Named names) where
  read_enum-enum_value :
      (b : ℕ) → b < 2 ^ 32 → read_enum names (some (enum_value o names b)) ≡ some b
  unfolding enum_value read_enum
  read_enum-enum_value b h = elim (Bool-cases o.enums) [
    | inl e ↦ rw e (by_name (name_of b names) refl)
    | inr e ↦ rw e (ap some (int32_bits-int32_number b h))
  ]
    where
      by_name :
          (t : Option Text)
          → name_of b names ≡ t
          → read_enum names (some (enum_value (record o { enums = true }) names b)) ≡ some b
      by_name none e = rw (e, enum_value) (ap some (int32_bits-int32_number b h))
      by_name (some t) e =
          rw (e, enum_value) (subst (OptionAll (λ x. value_named 0 x names ≡ some b)) e (named b))

  pub read_enum-shown :
      (d : Bool) (a : Option ℕ)
      → OptionAll (λ v. v < 2 ^ 32) a
      → read_enum names
          (or_else (shown (enum_value o names) a) (or_else (blank d (enum_value o names 0)) none))
        ≡ filled d 0 a
  unfolding shown blank
  read_enum-shown d (some b) h = read_enum-enum_value b h
  read_enum-shown true none h = read_enum-enum_value 0 (omega arith)
  read_enum-shown false none h = unfold read_enum in refl

module _ (u : Util) (laws : IsUtil u) where
  read_payload-payload_value :
      (o : Options) (b : Bytes) → read_payload u (some (payload_value u o b)) ≡ ok (some b)
  unfolding payload_value read_payload
  read_payload-payload_value o b = by_bytes o.bytes
    where
      by_bytes :
          (k : BytesOption)
          → read_payload u (some (payload_value u (record o { bytes = k }) b)) ≡ ok (some b)
      by_bytes as_buffer = rw (laws.bytes_of-bytes b) refl
      by_bytes as_array = rw (laws.bytes_of-array b) refl
      by_bytes as_base64 = rw (laws.base64 b) refl

  pub blank_payload-eq : (o : Options) → blank_payload o ≡ payload_value u o []
  unfolding blank_payload payload_value
  blank_payload-eq o = by_bytes o.bytes
    where
      by_bytes :
          (k : BytesOption)
          → blank_payload (record o { bytes = k }) ≡ payload_value u (record o { bytes = k }) []
      by_bytes as_buffer = refl
      by_bytes as_array = refl
      by_bytes as_base64 = rw laws.base64_encode-nil refl

  pub read_payload-shown :
      (o : Options) (d : Bool) (a : Option Bytes)
      → read_payload u
          (or_else (shown (payload_value u o) a) (or_else (blank d (blank_payload o)) none))
        ≡ ok (filled d [] a)
  unfolding shown blank
  read_payload-shown o d (some b) = read_payload-payload_value o b
  read_payload-shown o true none = rw (blank_payload-eq o) (read_payload-payload_value o [])
  read_payload-shown o false none = unfold read_payload in refl

  pub is_payload-payload_value :
      (o : Options) (b : Bytes) → is_payload u (payload_value u o b) ≡ true
  unfolding payload_value has_length truthy
  is_payload-payload_value o b = by_bytes o.bytes
    where
      by_bytes :
          (k : BytesOption) → is_payload u (payload_value u (record o { bytes = k }) b) ≡ true
      by_bytes as_buffer = refl
      by_bytes as_array = refl
      by_bytes as_base64 = rw (laws.is_string-text (u.base64_encode b)) (or_true _)

  pub payload_value-solid :
      (o : Options) (b : Bytes) → not_null (payload_value u o b) ≡ some (payload_value u o b)
  unfolding payload_value not_null
  payload_value-solid o b = by_bytes o.bytes
    where
      by_bytes :
          (k : BytesOption)
          → not_null (payload_value u (record o { bytes = k }) b)
            ≡ some (payload_value u (record o { bytes = k }) b)
      by_bytes as_buffer = refl
      by_bytes as_array = refl
      by_bytes as_base64 = refl

pub enum_value-solid :
    (o : Options) (names : List Text) (b : ℕ)
    → not_null (enum_value o names b) ≡ some (enum_value o names b)
unfolding enum_value not_null
enum_value-solid o names b = elim (Bool-cases o.enums) [
  | inl e ↦ rw e (by_name (name_of b names) refl)
  | inr e ↦ rw e refl
]
  where
    by_name :
        (t : Option Text)
        → name_of b names ≡ t
        → not_null (enum_value (record o { enums = true }) names b)
          ≡ some (enum_value (record o { enums = true }) names b)
    by_name none e = rw (e, enum_value) refl
    by_name (some t) e = rw (e, enum_value) refl

-- A value that the enum has, as a number.
pub is_enum-enum_value :
    (o : Options) (names : List Text)
    → o.enums ≡ false
    → (b : ℕ) → b < length names
    → length names < 2 ^ 31
    → is_enum names (enum_value o names b) ≡ true
unfolding is_enum enum_value int32_number
is_enum-enum_value o names e b h small = rw e (ground arith)
