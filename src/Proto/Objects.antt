-- ===== src/Proto/Objects.antt =====
-- sdk/js/src/generated/proto.js: what the generated `verify`, `fromObject` and `toObject` share. The
-- values are those of JavaScript that the functions tell apart; objects have no accessors and do not
-- override `hasOwnProperty`.
pub mod Finding
pub mod Laws
pub mod Plain
use ibridger.Common.{
  ℕ, zero, suc, ◌+◌, ◌-◌, ◌*◌, ◌/◌, ◌%◌, ◌^◌, Bool, true, false, not, ◌&&◌, ◌||◌, Option, none,
  some, List, [], ◌∷◌, ◌++◌, ltb, ◌==◌, if◌then◌else◌, ite, get_or_else,
}
use ibridger.Common.Text.{Text, Bytes, codes, text_dec, decimal}
use ibridger.Errors.{Thrown, plain, Result, ok, err, ◌>>=◌}

-- `negative n` is -(n + 1). `other` is a number that is no integer, by what ToInt32 makes of it.
pub data Number : Type 0 where
  whole : ℕ → Number
  negative : ℕ → Number
  other : ℕ → Number
  nan : Number

-- `long` is an object of the package long, by its `unsigned` and its 64 bits, and `bytes` a buffer.
mutual
  pub data Value : Type 0 where
    undefined null : Value
    boolean : Bool → Value
    number : Number → Value
    text : Text → Value
    long : Bool → ℕ → Value
    bytes : Bytes → Value
    array : Items → Value
    object : Properties → Value

  pub data Items : Type 0 where
    nil : Items
    cons : Value → Items → Items

  pub data Properties : Type 0 where
    end : Properties
    property : Text → Value → Properties → Properties

-- An enum's value as a number, and back; a field holds the bits of an int32.
unfoldable pub int32_number : ℕ → Number
int32_number b = if ltb b (2 ^ 31) then whole b else negative (2 ^ 32 - 1 - b)

unfoldable pub int32_bits : Number → ℕ
int32_bits (whole n) = n % 2 ^ 32
int32_bits (negative n) = 2 ^ 32 - 1 - n % 2 ^ 32
int32_bits (other b) = b
int32_bits nan = 0

-- `typeof v === "object" && v !== null`
unfoldable pub is_object_type : Value → Bool
is_object_type undefined = false
is_object_type null = false
is_object_type (boolean b) = false
is_object_type (number n) = false
is_object_type (text t) = false
is_object_type _ = true

-- Whether a value counts as true in a test.
unfoldable pub truthy : Value → Bool
truthy undefined = false
truthy null = false
truthy (boolean b) = b
truthy (number nan) = false
truthy (number (whole n)) = not (n == 0)
truthy (text []) = false
truthy _ = true

-- `v != null`
unfoldable pub not_null : Value → Option Value
not_null undefined = none
not_null null = none
not_null v = some v

unfoldable pub find : Text → Properties → Option Value
unfolding not_null
find key end = none
find key (property k v ps) = ite (text_dec k key) (not_null v) (find key ps)

-- `v[key]` where it is not null, for a key that is a field's name.
unfoldable pub field : Text → Value → Option Value
unfolding find
field key (object ps) = find key ps
field key _ = none

-- `object[key] = v`
unfoldable pub assign : Text → Value → Properties → Properties
assign key v end = property key v end
assign key v (property k u ps) =
    ite (text_dec k key) (property k v ps) (property k u (assign key v ps))

-- `if (…) object[key] = v`
abbrev pub assign_some : Text → Option Value → Properties → Properties
assign_some key none ps = ps
assign_some key (some v) ps = assign key v ps

-- `$protobuf.IConversionOptions`
pub data LongsOption : Type 0 where
  as_long as_number as_text : LongsOption

pub data BytesOption : Type 0 where
  as_buffer as_array as_base64 : BytesOption

-- `enums` says whether `options.enums === String`.
pub record Options : Type 0 where
  pub enums : Bool
  pub longs : LongsOption
  pub bytes : BytesOption
  pub defaults : Bool
  pub arrays : Bool
  pub objects : Bool

-- What the code uses of `$util` and of JavaScript's own conversions: `isString`, `isInteger`,
-- `isObject`, `String`, `Long.fromValue`, `Long.prototype.toString`, `LongBits.prototype.toNumber`,
-- `base64`, the bytes that a `Writer` takes from a value with a `length`, and `toJSONOptions`.
pub record Util : Type 0 where
  pub is_string : Value → Bool
  pub is_integer : Value → Bool
  pub is_object : Value → Bool
  pub to_text : Value → Result Text
  pub long_from : Value → Result ℕ
  pub long_text : Bool → ℕ → Text
  pub long_number : Bool → ℕ → Number
  pub base64_encode : Bytes → Text
  pub base64_decode : Text → Result Bytes
  pub bytes_of : Value → Option Bytes
  pub json_options : Options

-- `toObject(message)` without options.
abbrev pub no_options : Options
no_options = record {
  enums = false;
  longs = as_long;
  bytes = as_buffer;
  defaults = false;
  arrays = false;
  objects = false;
}

-- `typeUrlPrefix + "/" + name`
abbrev pub type_url : Text → Option Text → Text
type_url name none = codes "type.googleapis.com" ++ (codes "/" ++ name)
type_url name (some prefix) = prefix ++ (codes "/" ++ name)

-- The argument of `fromObject`: a message of the class, or any other value.
pub data Source (M : Type 0) : Type 0 where
  instance_of : M → Source M
  value : Value → Source M

-- Reading a property of `null` or `undefined` throws.
unfoldable pub readable : Text → Value → Result (Unit {0})
readable key null =
    err (plain (codes "Cannot read properties of null (reading '" ++ (key ++ codes "')")))
readable key undefined =
    err (plain (codes "Cannot read properties of undefined (reading '" ++ (key ++ codes "')")))
readable key v = ok tt

-- `if (object.f != null) message.f = convert(object.f)`
unfoldable pub convert {ℓ} : {A : Type ℓ} → (Value → Result A) → Option Value → Result (Option A)
convert f none = ok none
convert f (some v) = do a ← f v; ok (some a)

-- `if (present && !test) return complaint`
unfoldable pub check : (Value → Bool) → Text → Option Value → Option Text → Option Text
check test complaint none rest = rest
check test complaint (some v) rest = if test v then rest else some complaint

-- `v.low` and `v.high`
unfoldable pub low_of : Value → Value
low_of (long unsigned n) = number (int32_number (n % 2 ^ 32))
low_of (object ps) = get_or_else (find (codes "low") ps) undefined
low_of _ = undefined

unfoldable pub high_of : Value → Value
high_of (long unsigned n) = number (int32_number (n / 2 ^ 32 % 2 ^ 32))
high_of (object ps) = get_or_else (find (codes "high") ps) undefined
high_of _ = undefined

module _ (u : Util) where
  -- `$util.isInteger(v) || v && $util.isInteger(v.low) && $util.isInteger(v.high)`
  unfoldable pub is_long_like : Value → Bool
  unfolding truthy low_of high_of
  is_long_like v =
      u.is_integer v || (truthy v && (u.is_integer (low_of v) && u.is_integer (high_of v)))

  -- A Long as `options.longs` wants it.
  unfoldable pub long_value : Options → Bool → ℕ → Value
  long_value o unsigned bits = elim o.longs [
    | as_long ↦ long unsigned bits
    | as_number ↦ number (u.long_number unsigned bits)
    | as_text ↦ text (u.long_text unsigned bits)
  ]

-- Such assignments in turn.
unfoldable pub put_all : List (Text × Option Value) → Properties → Properties
unfolding assign
put_all [] ps = ps
put_all ((key, v) ∷ fs) ps = put_all fs (assign_some key v ps)

-- The value of a field that the message has.
unfoldable pub shown {ℓ} : {A : Type ℓ} → (A → Value) → Option A → Option Value
shown f none = none
shown f (some a) = some (f a)

-- The value of a field where `options.defaults` asks for it.
unfoldable pub blank : Bool → Value → Option Value
blank true v = some v
blank false v = none

-- An array of texts.
unfoldable pub text_items : List Text → Items
text_items [] = nil
text_items (t ∷ ts) = cons (text t) (text_items ts)

-- `for (…) if (!test(v[i])) return …`
unfoldable pub all_items : (Value → Bool) → Items → Bool
all_items test nil = true
all_items test (cons v vs) = test v && all_items test vs

-- `for (…) out[i] = String(v[i])`
unfoldable pub item_texts : (Value → Result Text) → Items → Result (List Text)
item_texts f nil = ok []
item_texts f (cons v vs) = do t ← f v; ts ← item_texts f vs; ok (t ∷ ts)
