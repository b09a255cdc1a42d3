-- ===== src/Proto/Objects/Plain.antt =====
-- Conversions for the tests and examples: a Long's text is one code unit, and base64 is the bytes
-- themselves. They show that the laws of `IsUtil` can be met.
use ibridger.Common.{ℕ, ◌≡◌, refl, Bool, true, false, some, none, [], ◌∷◌}
use ibridger.Common.Text.{Text, Bytes, codes}
use ibridger.Errors.{plain, Result, ok, err}
use ibridger.Proto.Objects.{
  whole, negative, Value, number, text, long, bytes, array, Items, nil, cons, is_object_type, Util,
  as_text, as_base64,
}
use ibridger.Proto.Objects.Laws.{IsUtil, byte_items}

is_string : Value → Bool
is_string (text t) = true
is_string _ = false

is_integer : Value → Bool
is_integer (number (whole n)) = true
is_integer (number (negative n)) = true
is_integer _ = false

to_text : Value → Result Text
to_text (text t) = ok t
to_text _ = ok (codes "[object Object]")

long_from : Value → Result ℕ
long_from (long unsigned n) = ok n
long_from (number (whole n)) = ok n
long_from (text (n ∷ [])) = ok n
long_from _ = err (plain (codes "empty string"))

item_bytes : Items → Bytes
item_bytes nil = []
item_bytes (cons (number (whole b)) vs) = b ∷ item_bytes vs
item_bytes (cons _ vs) = 0 ∷ item_bytes vs

item_bytes-byte_items : (b : Bytes) → item_bytes (byte_items b) ≡ b
unfolding item_bytes
item_bytes-byte_items [] = refl
item_bytes-byte_items (x ∷ b) = rw (item_bytes-byte_items b) refl

unfoldable pub plain_util : Util
unfolding is_string is_integer to_text long_from item_bytes is_object_type
plain_util = record {
  is_string = is_string;
  is_integer = is_integer;
  is_object = is_object_type;
  to_text = to_text;
  long_from = long_from;
  long_text = λ unsigned n. n ∷ [];
  long_number = λ unsigned n. whole n;
  base64_encode = λ b. b;
  base64_decode = λ t. ok t;
  bytes_of = λ v. elim v [ bytes b ↦ some b | array vs ↦ some (item_bytes vs) | _ ↦ none ];
  json_options = record {
    enums = true;
    longs = as_text;
    bytes = as_base64;
    defaults = false;
    arrays = false;
    objects = false;
  };
}

pub plain_util-IsUtil : IsUtil plain_util
unfolding plain_util
plain_util-IsUtil = record {
  is_string-text = λ t. refl;
  is_integer-whole = λ n. refl;
  is_integer-negative = λ n. refl;
  is_integer-long_number = λ unsigned n. refl;
  is_object-object = λ ps. refl;
  to_text-text = λ t. refl;
  long_from-long = λ unsigned n h. refl;
  long_from-text = λ unsigned n h. refl;
  long_from-number = λ unsigned n h. refl;
  base64 = λ b. refl;
  base64_encode-nil = refl;
  bytes_of-bytes = λ b. refl;
  bytes_of-array = λ b. rw (item_bytes-byte_items b) refl;
}
