-- ===== src/Common/Text.antt =====
-- JavaScript strings as lists of UTF-16 code units, buffers as lists of bytes, and the texts that
-- template literals make of numbers.
use Prim.Native.Nat.{ℕ, zero, suc, ◌+◌, ◌-◌, ◌/◌, ◌%◌, ◌^◌}
use Prim.Native.Char.{code}
use Prim.Native.String.{String}
use mathlib.Core.Path.{◌≡◌, refl}
use mathlib.Core.List.{List, [], ◌∷◌, ◌++◌}
use native.Mathlib.Decide.{ℕ_discrete}
use ibridger.Common.Tests.{ltb, if◌then◌else◌}

abbrev pub Text : Type 0
Text = List ℕ

abbrev pub Bytes : Type 0
Bytes = List ℕ

-- A literal of the source.
abbrev pub codes : String → Text
codes String.[] = []
codes (String.◌∷◌ c s) = code c ∷ codes s

unfoldable pub text_dec : Discrete Text
unfolding ℕ_discrete
text_dec = hlevel ℕ_discrete

-- The last `fuel` decimal digits, without leading zeros.
decimal_loop : ℕ → ℕ → Text → Text
decimal_loop zero n acc = acc
decimal_loop (suc fuel) n acc =
    let acc' = (48 + n % 10) ∷ acc in
    let more = decimal_loop fuel (n / 10) acc' in if ltb n 10 then acc' else more

-- `${n}` for a whole number; 20 digits are enough for 64 bits.
unfoldable pub decimal : ℕ → Text
unfolding decimal_loop
decimal n = decimal_loop 20 n []

-- `${n}` for an int32, given by its bit pattern.
unfoldable pub decimal_int32 : ℕ → Text
unfolding decimal
decimal_int32 n = if ltb n (2 ^ 31) then decimal n else codes "-" ++ decimal (2 ^ 32 - n)

decimal_test : decimal 16777216 ≡ codes "16777216"
unfolding decimal
decimal_test = refl

decimal_int32_test : decimal_int32 4294967295 ≡ codes "-1"
unfolding decimal_int32
decimal_int32_test = refl
