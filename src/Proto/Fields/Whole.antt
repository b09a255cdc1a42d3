-- ===== src/Proto/Fields/Whole.antt =====
-- The whole of a generated `decode`, on a buffer and behind a length.
use ibridger.Common.{
  ℕ, suc, ◌+◌, ◌^◌, ◌≤◌, ◌<◌, ◌≡◌, ◌≢◌, ap, arith, none, some, [], ◌++◌, append_assoc, append-nil,
  length, length-append,
}
use ibridger.Common.Text.{Bytes}
use ibridger.Errors.{exhausted, Result, ok, err, ◌>>=◌}
use ibridger.Proto.Runtime.{Read, got, Runtime, IsRuntime}
use ibridger.Proto.Fields.{Reader, at, take_with, delimited, decode_message}
use ibridger.Proto.Fields.Takes.{Takes, Takes-all, taken-got}
use ibridger.Proto.Fields.Ends.{Ends, bind-Ends, taken-Ends, read_fields-Ends}

-- A read, and a step that reads no more.
pub set_with-Ends {ℓ κ} :
    {A : Type ℓ} {B : Type κ} (f : Bytes → Read A) (r : Reader) (set : A → B)
    → ((b rest : Bytes) (a : A) → f b ≡ got a rest → length rest ≤ length b)
    → Ends (length r.rest) (do (a, r') ← take_with f r; ok (set a, r'))
set_with-Ends f r set le =
    bind-Ends (length r.rest) (take_with f r) (λ x. ok (set x.0, x.1))
      (taken-Ends f (length r.rest) r le (omega arith)) (λ a r' h. h)

module _ {ℓ} (w : Runtime) (laws : IsRuntime w) {M : Type ℓ}
    (field : ℕ → M → Reader → Result (M × Reader)) where
  -- The fields of a whole buffer.
  pub decode_message-Takes :
      (b : Bytes) (new m : M)
      → Takes w laws field b new m
      → decode_message w field new (at 0 b) none ≡ ok (m, at (0 + length b) [])
  decode_message-Takes b new m t = rw (← append-nil b) (
      Takes-all w laws field [] 0 (0 + length (b ++ [])) (suc (length (b ++ []))) t
        (omega (arith, length-append b [])) (omega (arith, length-append b [])))

  -- The fields behind their length, with more behind them.
  pub decode_delimited-Takes :
      (b tail : Bytes) (p : ℕ) (new m : M)
      → Takes w laws field b new m
      → length b < 2 ^ 32
      → (do
        (n, r1) ← take_with w.read_uint32 (at p (delimited w b ++ tail))
        decode_message w field new r1 (some n))
        ≡ ok (m, at (p + length (delimited w b)) tail)
  decode_delimited-Takes b tail p new m t h =
      let n = length b in
      let q = p + length (w.uint32 n) in
      rw
        (
          append_assoc (w.uint32 n) b tail,
          taken-got p (w.uint32 n) (b ++ tail) n _ (laws.read_uint32-uint32 n (b ++ tail) h),
          Takes-all w laws field tail q (q + n) (suc (length (b ++ tail))) t (omega arith)
              (omega (arith, length-append b tail)),
        )
        (ap (λ (k : ℕ). ok (m, at k tail)) (omega (arith, length-append (w.uint32 n) b)))

  -- On any bytes the loop ends.
  pub decode_message-ne-exhausted :
      (new : M) (b : Bytes)
      → ((tag : ℕ) (m : M) (r : Reader) → Ends (length r.rest) (field tag m r))
      → (do (m, _) ← decode_message w field new (at 0 b) none; ok m) ≢ err exhausted
  decode_message-ne-exhausted new b ends = whole _ (
      read_fields-Ends w laws field ends (suc (length b)) (0 + length b) new (at 0 b) (omega arith))
    where
      whole : (r : Result (M × Reader)) → Ends (length b) r → (do (m, _) ← r; ok m) ≢ err exhausted
      whole (ok (m, r)) h = λ q. cc
      whole (err e) h = λ q. h (cc)
