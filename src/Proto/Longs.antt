-- ===== src/Proto/Longs.antt =====
-- What the code uses of the package `long` and of `Number`.
use ibridger.Common.{ℕ, ◌^◌, ◌<◌, ◌≡◌}

-- `Long.fromNumber(n)` and `Number(long)`.
pub record Longs : Type 0 where
  pub from_number : ℕ → ℕ
  pub to_number : ℕ → ℕ

-- Both are exact on the integers that a double holds exactly.
pub record IsLongs (l : Longs) : Type 0 where
  pub from_number_exact : (n : ℕ) → n < 2 ^ 53 → l.from_number n ≡ n
  pub to_number_exact : (n : ℕ) → n < 2 ^ 53 → l.to_number n ≡ n
