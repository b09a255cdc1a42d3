-- ===== src/Proto/Runtime.antt =====
-- protobufjs's `Writer` and `Reader`, which the generated code calls and does not contain. A writer
-- is the bytes that it has written; each method appends bytes. A reader is a position and the bytes
-- that are left. Integers are given by their bit patterns.
pub mod Plain
use ibridger.Common.{ℕ, ◌+◌, ◌*◌, ◌^◌, ◌≤◌, ◌<◌, ◌≡◌, Bool, true, [], ◌++◌, length, All}
use ibridger.Common.Text.{Text, Bytes}

-- What a read gives: a value and the bytes behind it, or the message of the error that it throws.
pub data Read {ℓ} (A : Type ℓ) : Type ℓ where
  got : A → Bytes → Read A
  throws : Text → Read A

pub record Runtime : Type 0 where
  pub uint32 : ℕ → Bytes
  pub int32 : ℕ → Bytes
  pub uint64 : ℕ → Bytes
  pub int64 : ℕ → Bytes
  pub string : Text → Bytes
  pub bytes : Bytes → Bytes
  pub read_uint32 : Bytes → Read ℕ
  pub read_int32 : Bytes → Read ℕ
  pub read_uint64 : Bytes → Read ℕ
  pub read_int64 : Bytes → Read ℕ
  pub read_string : Bytes → Read Text
  pub read_bytes : Bytes → Read Bytes
  -- `skipType(wireType)`
  pub skip_type : ℕ → Bytes → Read (Unit {0})
  -- Whether a text is made of whole Unicode characters, so that UTF-8 can carry it.
  pub is_unicode : Text → Bool

-- A text that UTF-8 can carry, no longer than JavaScript engines allow.
abbrev pub IsText : Runtime → Text → Type 0
IsText w s = (w.is_unicode s ≡ true) × (length s < 2 ^ 29)

-- A buffer that a length prefix can describe.
abbrev pub IsBuffer : Bytes → Type 0
IsBuffer b = All (λ x. x < 256) b × (length b < 2 ^ 32)

-- Each read takes back what the write of its name wrote and leaves what follows; a tag takes one
-- byte at least and no read gives bytes back; sizes are bounded as the wire format bounds them.
pub record IsRuntime (w : Runtime) : Type 0 where
  pub read_uint32-uint32 :
      (n : ℕ) (rest : Bytes) → n < 2 ^ 32 → w.read_uint32 (w.uint32 n ++ rest) ≡ got n rest
  pub read_int32-int32 :
      (n : ℕ) (rest : Bytes) → n < 2 ^ 32 → w.read_int32 (w.int32 n ++ rest) ≡ got n rest
  pub read_uint64-uint64 :
      (n : ℕ) (rest : Bytes) → n < 2 ^ 64 → w.read_uint64 (w.uint64 n ++ rest) ≡ got n rest
  pub read_int64-int64 :
      (n : ℕ) (rest : Bytes) → n < 2 ^ 64 → w.read_int64 (w.int64 n ++ rest) ≡ got n rest
  pub read_string-string :
      (s : Text) (rest : Bytes) → IsText w s → w.read_string (w.string s ++ rest) ≡ got s rest
  pub read_bytes-bytes :
      (b : Bytes) (rest : Bytes) → IsBuffer b → w.read_bytes (w.bytes b ++ rest) ≡ got b rest
  pub skip_type-bytes :
      (b : Bytes) (rest : Bytes) → IsBuffer b → w.skip_type 2 (w.bytes b ++ rest) ≡ got tt rest
  pub read_uint32-lt :
      (b rest : Bytes) (n : ℕ) → w.read_uint32 b ≡ got n rest → length rest < length b
  pub read_int32-le :
      (b rest : Bytes) (n : ℕ) → w.read_int32 b ≡ got n rest → length rest ≤ length b
  pub read_uint64-le :
      (b rest : Bytes) (n : ℕ) → w.read_uint64 b ≡ got n rest → length rest ≤ length b
  pub read_int64-le :
      (b rest : Bytes) (n : ℕ) → w.read_int64 b ≡ got n rest → length rest ≤ length b
  pub read_string-le :
      (b rest : Bytes) (s : Text) → w.read_string b ≡ got s rest → length rest ≤ length b
  pub read_bytes-le : (b rest a : Bytes) → w.read_bytes b ≡ got a rest → length rest ≤ length b
  pub skip_type-le :
      (t : ℕ) (b rest : Bytes) → w.skip_type t b ≡ got tt rest → length rest ≤ length b
  pub length-uint32 : (n : ℕ) → n < 2 ^ 32 → length (w.uint32 n) ≤ 5
  pub length-string : (s : Text) → length (w.string s) ≤ 3 * length s + 5
