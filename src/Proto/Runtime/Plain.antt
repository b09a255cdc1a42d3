-- ===== src/Proto/Runtime/Plain.antt =====
-- A runtime for the tests and examples: base-128 integers, and texts of ASCII alone. It shows that
-- the laws of `IsRuntime` can be met.
use native.Mathlib.Nat.{pow-suc}
use ibridger.Common.{
  ℕ, zero, suc, ◌+◌, ◌-◌, ◌*◌, ◌/◌, ◌%◌, ◌^◌, ◌≤◌, ◌<◌, ◌≡◌, refl, ◌⊎◌, inl, inr, arith, Bool, true,
  ◌&&◌, [], ◌∷◌, ◌++◌, append_assoc, ltb, leb, ◌==◌, if◌then◌else◌, length, length-append, take,
  drop, take-append, drop-append, length-drop, All,
}
use ibridger.Common.Text.{Text, Bytes, codes}
use ibridger.Proto.Runtime.{Read, got, throws, Runtime, IsRuntime}

-- Up to `k` groups of seven bits before the last one.
unfoldable pub write : ℕ → ℕ → Bytes
write zero n = n ∷ []
write (suc k) n =
    let rest = write k (n / 128) in if ltb n 128 then n ∷ [] else (n % 128 + 128) ∷ rest

abbrev above : ℕ → Read ℕ → Read ℕ
above low (got high rest) = got (low + 128 * high) rest
above low (throws text) = throws text

abbrev out_of_range : Text
out_of_range = codes "index out of range"

unfoldable pub read : ℕ → Bytes → Read ℕ
read k [] = throws out_of_range
read zero (b ∷ bs) = got b bs
read (suc k) (b ∷ bs) =
    let more = above (b - 128) (read k bs) in if ltb b 128 then got b bs else more

read-write : (k n : ℕ) (rest : Bytes) → read k (write k n ++ rest) ≡ got n rest
unfolding read write
read-write zero n rest = refl
read-write (suc k) n rest = ground (arith, read-write k (n / 128) rest)

Read-cases {ℓ} :
    {A : Type ℓ} (r : Read A)
    → ((a : A) × (rest : Bytes) × (r ≡ got a rest)) ⊎ ((text : Text) × (r ≡ throws text))
Read-cases (got a rest) = inl (a, rest, refl)
Read-cases (throws text) = inr (text, refl)

read-lt : (k : ℕ) (b rest : Bytes) (n : ℕ) → read k b ≡ got n rest → length rest < length b
unfolding read
read-lt zero [] rest n e = cc
read-lt (suc k) [] rest n e = cc
read-lt zero (x ∷ b) rest n e = ground arith
read-lt (suc k) (x ∷ b) rest n e = elim (Read-cases (read k b)) [
  | inl (hi, more, q) ↦ ground (arith, read-lt k b more hi q)
  | inr (text, q) ↦ ground arith
]

length-write : (k n : ℕ) → length (write k n) ≤ k + 1
unfolding write
length-write zero n = omega arith
length-write (suc k) n = ground (arith, length-write k (n / 128))

write-IsByte : (k n : ℕ) → n < 256 * 128 ^ k → All (λ b. b < 256) (write k n)
unfolding write
write-IsByte zero n h = omega arith
write-IsByte (suc k) n h = ground (arith, pow-suc 128 k, write-IsByte k (n / 128))

-- `n` bytes, if there are so many.
unfoldable pub slice : ℕ → Bytes → Read Bytes
slice n b = if leb n (length b) then got (take n b) (drop n b) else throws out_of_range

abbrev sliced : Read ℕ → Read Bytes
sliced (got n rest) = slice n rest
sliced (throws text) = throws text

unfoldable pub write_bytes : Bytes → Bytes
unfolding write
write_bytes b = write 4 (length b) ++ b

unfoldable pub read_bytes : Bytes → Read Bytes
unfolding read slice
read_bytes b = sliced (read 4 b)

abbrev skipped {ℓ} : {A : Type ℓ} → Read A → Read (Unit {0})
skipped (got a rest) = got tt rest
skipped (throws text) = throws text

-- Wire types 0 and 2.
unfoldable pub skip : ℕ → Bytes → Read (Unit {0})
unfolding read_bytes read
skip t b =
    if t == 0
    then skipped (read 9 b)
    else (if t == 2 then skipped (read_bytes b) else throws (codes "invalid wire type"))

unfoldable pub all_ascii : Text → Bool
all_ascii [] = true
all_ascii (c ∷ s) = ltb c 128 && all_ascii s

abbrev pub plain_runtime : Runtime
plain_runtime = record {
  uint32 = write 4;
  int32 = write 4;
  uint64 = write 9;
  int64 = write 9;
  string = write_bytes;
  bytes = write_bytes;
  read_uint32 = read 4;
  read_int32 = read 4;
  read_uint64 = read 9;
  read_int64 = read 9;
  read_string = read_bytes;
  read_bytes = read_bytes;
  skip_type = skip;
  is_unicode = all_ascii;
}

read-write_bytes : (b rest : Bytes) → read_bytes (write_bytes b ++ rest) ≡ got b rest
unfolding read_bytes write_bytes slice
read-write_bytes b rest =
    rw (append_assoc (write 4 (length b)) b rest, read-write 4 (length b) (b ++ rest))
      (ground (arith, length-append b rest, take-append b rest, drop-append b rest))

read_bytes-le : (b rest a : Bytes) → read_bytes b ≡ got a rest → length rest ≤ length b
unfolding read_bytes slice
read_bytes-le b rest a e = elim (Read-cases (read 4 b)) [
  | inl (n, more, q) ↦ ground (arith, read-lt 4 b more n q, length-drop n more)
  | inr (text, q) ↦ ground arith
]

skip-le : (t : ℕ) (b rest : Bytes) → skip t b ≡ got tt rest → length rest ≤ length b
unfolding skip
skip-le t b rest e = elim (Read-cases (read 9 b)) [
  | inl (n, more, q) ↦ elim (Read-cases (read_bytes b)) [
    | inl (a, left, p) ↦ ground (arith, read-lt 9 b more n q, read_bytes-le b left a p)
    | inr (text, p) ↦ ground (arith, read-lt 9 b more n q)
  ]
  | inr (text, q) ↦ elim (Read-cases (read_bytes b)) [
    | inl (a, left, p) ↦ ground (arith, read_bytes-le b left a p)
    | inr (other, p) ↦ ground arith
  ]
]

read-le : (k : ℕ) (b rest : Bytes) (n : ℕ) → read k b ≡ got n rest → length rest ≤ length b
read-le k b rest n e = omega (arith, read-lt k b rest n e)

skip-bytes : (b rest : Bytes) → skip 2 (write_bytes b ++ rest) ≡ got tt rest
unfolding skip
skip-bytes b rest = rw (read-write_bytes b rest) refl

length-write_bytes : (s : Text) → length (write_bytes s) ≤ 3 * length s + 5
unfolding write_bytes
length-write_bytes s =
    omega (arith, length-append (write 4 (length s)) s, length-write 4 (length s))

pub plain_runtime-IsRuntime : IsRuntime plain_runtime
plain_runtime-IsRuntime = record {
  read_uint32-uint32 = λ n rest h. read-write 4 n rest;
  read_int32-int32 = λ n rest h. read-write 4 n rest;
  read_uint64-uint64 = λ n rest h. read-write 9 n rest;
  read_int64-int64 = λ n rest h. read-write 9 n rest;
  read_string-string = λ s rest h. read-write_bytes s rest;
  read_bytes-bytes = λ b rest h. read-write_bytes b rest;
  skip_type-bytes = λ b rest h. skip-bytes b rest;
  read_uint32-lt = read-lt 4;
  read_int32-le = read-le 4;
  read_uint64-le = read-le 9;
  read_int64-le = read-le 9;
  read_string-le = read_bytes-le;
  read_bytes-le = read_bytes-le;
  skip_type-le = skip-le;
  length-uint32 = λ n h. length-write 4 n;
  length-string = length-write_bytes;
}
