-- ===== src/Errors.antt =====
-- sdk/js/src/transport/types.ts and the error classes of sdk/js/src/rpc/client.ts: the values that
-- the code throws or rejects with, and the result of code that may throw.
use ibridger.Common.{◌≡◌, refl, ◌⊎◌, inl, inr, [], ◌++◌}
use ibridger.Common.Text.{Text, codes, decimal}
use Prim.Native.Nat.{ℕ}

-- `transport` has a message and a code. `plain` is an `Error` with a message, the source's own or a
-- library's. `other` is a thrown value that is no `Error`, given by `String(e)`. `exhausted` is no
-- value of the program: a loop of the model ran out of fuel.
pub data Thrown : Type 0 where
  transport : Text → Text → Thrown
  rpc : ℕ → Text → Thrown
  timeout : ℕ → Thrown
  plain : Text → Thrown
  other : Text → Thrown
  exhausted : Thrown

-- `e instanceof Error ? e.message : String(e)`
unfoldable pub message : Thrown → Text
unfolding decimal
message (transport text code) = text
message (rpc status text) = text
message (timeout ms) = codes "RPC call timed out after " ++ (decimal ms ++ codes " ms")
message (plain text) = text
message (other text) = text
message exhausted = []

pub data Result {ℓ} (A : Type ℓ) : Type ℓ where
  ok : A → Result A
  err : Thrown → Result A

pub Result-cases {ℓ} :
    {V : Type ℓ} (outcome : Result V)
    → ((value : V) × (outcome ≡ ok value)) ⊎ ((thrown : Thrown) × (outcome ≡ err thrown))
Result-cases (err thrown) = inr (thrown, refl)
Result-cases (ok value) = inl (value, refl)

-- What is thrown skips the rest of the code.
infixl 5 ◌>>=◌
abbrev pub ◌>>=◌ {ℓ κ} : {V : Type ℓ} {W : Type κ} → Result V → (V → Result W) → Result W
err thrown >>= rest = err thrown
ok value >>= rest = rest value

message_test : message (timeout 250) ≡ codes "RPC call timed out after 250 ms"
unfolding message
message_test = refl
