-- ===== src/Proto/Fields/Values.antt =====
-- Optional values of a message's fields.
use ibridger.Common.{◌≡◌, refl, Option, none, some}

-- A new value, or the old one where there is none.
abbrev pub over {ℓ} : {A : Type ℓ} → Option A → Option A → Option A
over none old = old
over (some a) old = some a

pub over-none {ℓ} : {A : Type ℓ} (o : Option A) → over o none ≡ o
over-none none = refl
over-none (some a) = refl

abbrev pub OptionAll {ℓ κ} : {A : Type ℓ} → (A → Type κ) → Option A → Type κ
OptionAll P none = Unit
OptionAll P (some a) = P a
