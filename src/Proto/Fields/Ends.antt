-- ===== src/Proto/Fields/Ends.antt =====
-- How many bytes the loop over a message's fields leaves, and where it may stop.
use ibridger.Common.{
  ℕ, zero, suc, ◌+◌, ◌-◌, ◌≤◌, ◌<◌, ◌≡◌, ◌≢◌, refl, arith, length, Bool-cases, inl, inr, ltb,
  if◌then◌else◌, Bool, true, false,
}
use ibridger.Common.Text.{Bytes}
use ibridger.Errors.{exhausted, Result, ok, err, ◌>>=◌}
use ibridger.Proto.Runtime.{Read, got, throws, Runtime, IsRuntime}
use ibridger.Proto.Fields.{Reader, taken, take_with, read_fields}

module _ {ℓ} {A : Type ℓ} where
  -- A success leaves at most `n` bytes, and a failure is no lack of fuel.
  abbrev pub Ends : ℕ → Result (A × Reader) → Type 0
  Ends n (ok (a, r)) = length r.rest ≤ n
  Ends n (err e) = e ≢ exhausted

  pub Ends-mono : (n k : ℕ) (r : Result (A × Reader)) → n ≤ k → Ends n r → Ends k r
  Ends-mono n k (ok (a, r)) le h = omega arith
  Ends-mono n k (err e) le h = h

  pub if-Ends :
      (n : ℕ) (b : Bool) (x y : Result (A × Reader))
      → Ends n x
      → Ends n y
      → Ends n (if b then x else y)
  if-Ends n true x y h k = h
  if-Ends n false x y h k = k

  pub taken-Ends :
      (f : Bytes → Read A) (n : ℕ) (r : Reader)
      → ((b rest : Bytes) (a : A) → f b ≡ got a rest → length rest ≤ length b)
      → length r.rest ≤ n
      → Ends n (take_with f r)
  taken-Ends f n r le h = cases (f r.rest) refl
    where
      cases : (v : Read A) → f r.rest ≡ v → Ends n (taken r v)
      cases (got a rest) e = unfold taken in omega (arith, le r.rest rest a e)
      cases (throws text) e = unfold taken in λ q. cc

pub bind-Ends {ℓ κ} :
    {A : Type ℓ} {B : Type κ} (n : ℕ) (m : Result (A × Reader))
    (k : A × Reader → Result (B × Reader))
    → Ends n m
    → ((a : A) (r : Reader) → length r.rest ≤ n → Ends n (k (a, r)))
    → Ends n (m >>= k)
bind-Ends n (ok (a, r)) k h next = next a r h
bind-Ends n (err e) k h next = h

module _ {ℓ} (w : Runtime) (laws : IsRuntime w) {M : Type ℓ}
    (field : ℕ → M → Reader → Result (M × Reader))
    (field-Ends : (tag : ℕ) (m : M) (r : Reader) → Ends (length r.rest) (field tag m r)) where
  -- One round, with the rounds that follow.
  round-Ends :
      (next : M → Reader → Result (M × Reader)) (m : M) (r : Reader) (v : Read ℕ)
      → w.read_uint32 r.rest ≡ v
      → ((m' : M) (r' : Reader)
          → length r'.rest < length r.rest
          → Ends (length r'.rest) (next m' r'))
      → Ends (length r.rest) (do (tag, r1) ← taken r v; (m', r2) ← field tag m r1; next m' r2)
  unfolding taken
  round-Ends next m r (throws text) e more = λ q. cc
  round-Ends next m r (got tag rest) e more =
      let less : length rest < length r.rest = laws.read_uint32-lt r.rest rest tag e in
      let r1 : Reader = record { pos = r.pos + (length r.rest - length rest); rest = rest } in
      Ends-mono (length rest) (length r.rest) _ (omega arith) (
        bind-Ends (length rest) (field tag m r1) (λ x. next x.0 x.1) (field-Ends tag m r1)
          (λ m' r' le. Ends-mono (length r'.rest) (length rest) _ le (more m' r' (omega arith))))

  pub read_fields-Ends :
      (fuel end : ℕ) (m : M) (r : Reader)
      → length r.rest < fuel
      → Ends (length r.rest) (read_fields w field fuel end m r)
  unfolding read_fields
  read_fields-Ends zero end m r h = absurd (omega arith)
  read_fields-Ends (suc fuel) end m r h = elim (Bool-cases (ltb r.pos end)) [
    | inl before ↦ rw before (
        round-Ends (read_fields w field fuel end) m r (w.read_uint32 r.rest) refl
          (λ m' r' le. read_fields-Ends fuel end m' r' (omega arith)))
    | inr over ↦ rw over (omega arith)
  ]
