-- ===== src/Protocol/Framing/Header.antt =====
-- The four bytes of a frame's length.
use ibridger.Common.{ℕ, ◌^◌, ◌<◌, ◌≡◌, refl, arith, [], ◌∷◌, length, All}
use ibridger.Common.Text.{Bytes}
use ibridger.Errors.{ok}
use ibridger.Protocol.Framing.{write_u32be, read_u32be}

abbrev pub IsByte : ℕ → Type 0
IsByte b = b < 256

pub length-write_u32be : (n : ℕ) → length (write_u32be n) ≡ 4
unfolding write_u32be
length-write_u32be n = refl

pub write_u32be-IsByte : (n : ℕ) → All IsByte (write_u32be n)
unfolding write_u32be
write_u32be-IsByte n = omega arith

pub read-write_u32be : (n : ℕ) → n < 2 ^ 32 → read_u32be (write_u32be n) ≡ ok n
unfolding read_u32be write_u32be
read-write_u32be n h = ground arith

-- Four bytes are the header of one length, which is below 2^32.
pub read_u32be_inv :
    (h : Bytes)
    → length h ≡ 4
    → All IsByte h
    → (n : ℕ) × (read_u32be h ≡ ok n) × (write_u32be n ≡ h)
unfolding read_u32be write_u32be
read_u32be_inv (a ∷ b ∷ c ∷ d ∷ []) e bs = (_, refl, ground arith)
read_u32be_inv _ e bs = absurd (omega arith)

-- A header can always be read.
pub read_u32be_lem : (h : Bytes) → length h ≡ 4 → (n : ℕ) × (read_u32be h ≡ ok n)
unfolding read_u32be
read_u32be_lem (a ∷ b ∷ c ∷ d ∷ []) e = (_, refl)
read_u32be_lem _ e = absurd (omega arith)
