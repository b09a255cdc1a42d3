-- ===== src/Proto/Objects/Laws.antt =====
-- The documented behaviour of `$util` and of JavaScript's conversions on the values that `toObject`
-- makes.
use ibridger.Common.{
  ℕ, ◌-◌, ◌/◌, ◌%◌, ◌≡◌, ◌≢◌, ◌||◌, refl, arith, ltb, Bool-cases, inl, inr, false, ◌<◌, ◌^◌, true,
  Bool, some, [], ◌∷◌,
}
use ibridger.Common.Text.{Text, Bytes}
use ibridger.Errors.{ok}
use ibridger.Proto.Objects.{
  whole, negative, text, number, long, bytes, array, object, Properties, Items, nil, cons, Util,
  Options, LongsOption, long_value, is_long_like, truthy, low_of, high_of, int32_number, not_null,
  as_long, as_number, as_text,
}

-- The bytes of a buffer as an array of numbers.
abbrev pub byte_items : Bytes → Items
byte_items [] = nil
byte_items (b ∷ bs) = cons (number (whole b)) (byte_items bs)

-- A double holds integers exactly up to 2^53, so a Long is read back from a number below that.
abbrev pub LongFits : Options → ℕ → Type 0
LongFits o n = elim o.longs [ as_number ↦ n < 2 ^ 53 | _ ↦ n < 2 ^ 64 ]

pub record IsUtil (u : Util) : Type 0 where
  pub is_string-text : (t : Text) → u.is_string (text t) ≡ true
  pub is_integer-whole : (n : ℕ) → u.is_integer (number (whole n)) ≡ true
  pub is_integer-negative : (n : ℕ) → u.is_integer (number (negative n)) ≡ true
  pub is_integer-long_number :
      (unsigned : Bool) (n : ℕ) → u.is_integer (number (u.long_number unsigned n)) ≡ true
  pub is_object-object : (ps : Properties) → u.is_object (object ps) ≡ true
  pub to_text-text : (t : Text) → u.to_text (text t) ≡ ok t
  pub long_from-long : (unsigned : Bool) (n : ℕ) → n < 2 ^ 64 → u.long_from (long unsigned n) ≡ ok n
  pub long_from-text :
      (unsigned : Bool) (n : ℕ) → n < 2 ^ 64 → u.long_from (text (u.long_text unsigned n)) ≡ ok n
  pub long_from-number :
      (unsigned : Bool) (n : ℕ)
      → n < 2 ^ 53
      → u.long_from (number (u.long_number unsigned n)) ≡ ok n
  pub base64 : (b : Bytes) → u.base64_decode (u.base64_encode b) ≡ ok b
  pub base64_encode-nil : u.base64_encode [] ≡ []
  pub bytes_of-bytes : (b : Bytes) → u.bytes_of (bytes b) ≡ some b
  pub bytes_of-array : (b : Bytes) → u.bytes_of (array (byte_items b)) ≡ some b

-- A Long is read back as it was shown.
pub long_from-long_value :
    (u : Util)
    → IsUtil u
    → (o : Options) (unsigned : Bool) (n : ℕ) → LongFits o n
    → u.long_from (long_value u o unsigned n) ≡ ok n
unfolding long_value
long_from-long_value u laws o unsigned n h = by_longs o.longs h
  where
    by_longs :
        (l : LongsOption)
        → LongFits (record o { longs = l }) n
        → u.long_from (long_value u (record o { longs = l }) unsigned n) ≡ ok n
    by_longs as_long h = laws.long_from-long unsigned n h
    by_longs as_number h = laws.long_from-number unsigned n h
    by_longs as_text h = laws.long_from-text unsigned n h

pub long_value-solid :
    (u : Util) (o : Options) (unsigned : Bool) (n : ℕ)
    → not_null (long_value u o unsigned n) ≡ some (long_value u o unsigned n)
unfolding long_value not_null
long_value-solid u o unsigned n = by_longs o.longs
  where
    by_longs :
        (l : LongsOption)
        → not_null (long_value u (record o { longs = l }) unsigned n)
          ≡ some (long_value u (record o { longs = l }) unsigned n)
    by_longs as_long = refl
    by_longs as_number = refl
    by_longs as_text = refl

pub LongFits-zero : (o : Options) → LongFits o 0
LongFits-zero o = by_longs o.longs
  where
    by_longs : (l : LongsOption) → LongFits (record o { longs = l }) 0
    by_longs as_long = omega arith
    by_longs as_number = omega arith
    by_longs as_text = omega arith

is_integer-int32_number :
    (u : Util) → IsUtil u → (b : ℕ) → u.is_integer (number (int32_number b)) ≡ true
unfolding int32_number
is_integer-int32_number u laws b = elim (Bool-cases (ltb b (2 ^ 31))) [
  | inl low ↦ rw low (laws.is_integer-whole b)
  | inr high ↦ rw high (laws.is_integer-negative (2 ^ 32 - 1 - b))
]

pub or_true : (b : Bool) → (b || true) ≡ true
or_true true = refl
or_true false = refl

-- A Long passes as one, and so does its number.
pub is_long_like-long_value :
    (u : Util)
    → IsUtil u
    → (o : Options) (unsigned : Bool) → o.longs ≢ as_text
    → (n : ℕ) → is_long_like u (long_value u o unsigned n) ≡ true
unfolding is_long_like long_value truthy low_of high_of
is_long_like-long_value u laws o unsigned ne n = by_longs o.longs ne
  where
    by_longs :
        (l : LongsOption)
        → l ≢ as_text
        → is_long_like u (long_value u (record o { longs = l }) unsigned n) ≡ true
    by_longs as_long h =
        rw
          (
            is_integer-int32_number u laws (n % 2 ^ 32),
            is_integer-int32_number u laws (n / 2 ^ 32 % 2 ^ 32),
          )
          (or_true (u.is_integer (long unsigned n)))
    by_longs as_number h = rw (laws.is_integer-long_number unsigned n) refl
    by_longs as_text h = absurd (h refl)
