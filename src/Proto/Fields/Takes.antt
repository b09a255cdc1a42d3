-- ===== src/Proto/Fields/Takes.antt =====
-- What a run of encoded fields does to a message.
use native.Mathlib.Nat.{zero-add, add-zero, add_assoc}
use ibridger.Common.{
  ℕ, suc, ◌+◌, ◌-◌, ◌^◌, ◌≤◌, ◌<◌, ◌≡◌, refl, sym, ap, ◌∙◌, arith, Option, none, some, [], ◌++◌,
  append_assoc, lt→ltb, le→ltb, length, length-append,
}
use ibridger.Common.Text.{Bytes}
use ibridger.Errors.{Result, ok, ◌>>=◌}
use ibridger.Proto.Runtime.{Read, got, Runtime, IsRuntime}
use ibridger.Proto.Fields.{Reader, at, taken, take_with, own, read_fields}
use ibridger.Proto.Fields.Values.{OptionAll}

-- A read of what was written in front of the rest moves the reader to the rest.
pub taken-got {ℓ} :
    {A : Type ℓ} (p : ℕ) (front rest : Bytes) (a : A) (read : Read A)
    → read ≡ got a rest
    → taken (at p (front ++ rest)) read ≡ ok (a, at (p + length front) rest)
unfolding taken
taken-got p front rest a read e =
    rw e (ap (λ (n : ℕ). ok (a, at n rest)) (omega (arith, length-append front rest)))

module _ (w : Runtime) (laws : IsRuntime w) where
  pub uint32-pos : (n : ℕ) → n < 2 ^ 32 → 0 < length (w.uint32 n)
  uint32-pos n h = omega (
    arith,
    laws.read_uint32-lt _ _ n (laws.read_uint32-uint32 n [] h),
    length-append (w.uint32 n) [],
  )

  module _ {ℓ} {M : Type ℓ} (field : ℕ → M → Reader → Result (M × Reader)) where
    -- `bytes` holds `count` fields, which take the message from `m` to `m'`.
    pub record Takes (bytes : Bytes) (m m' : M) : Type ℓ where
      pub count : ℕ
      pub short : count ≤ length bytes
      pub reads :
          (tail : Bytes) (p end fuel : ℕ)
          → p + length bytes ≤ end
          → read_fields w field (count + fuel) end m (at p (bytes ++ tail))
            ≡ read_fields w field fuel end m' (at (p + length bytes) tail)

    pub Takes-nil : (m : M) → Takes [] m m
    Takes-nil m = record {
      count = 0;
      short = omega arith;
      reads = λ tail p end fuel h. rw (zero-add, add-zero);
    }

    pub Takes-append :
        {bytes more : Bytes} {m m' m'' : M}
        → Takes bytes m m'
        → Takes more m' m''
        → Takes (bytes ++ more) m m''
    Takes-append {bytes} {more} {m} {m'} {m''} s t = record {
      count = s.count + t.count;
      short = omega (arith, length-append bytes more, s.short, t.short);
      reads = λ tail p end fuel h.
          rw (add_assoc s.count t.count fuel, append_assoc bytes more tail)
            (s.reads (more ++ tail) p end (t.count + fuel) (omega (arith, length-append bytes more))
              ∙ t.reads tail (p + length bytes) end fuel (omega (arith, length-append bytes more))
              ∙ ap (λ (n : ℕ). read_fields w field fuel end m'' (at n tail))
                  (omega (arith, length-append bytes more)));
    }

    -- A round on a reader before the end.
    round :
        (p end fuel : ℕ) (b : Bytes) (m : M)
        → p < end
        → read_fields w field (suc fuel) end m (at p b) ≡ (do
          (tag, r1) ← taken (at p b) (w.read_uint32 b)
          (m', r2) ← field tag m r1
          read_fields w field fuel end m' r2)
    unfolding read_fields
    round p end fuel b m h = rw (lt→ltb p end h) refl

    -- The end of the loop.
    stop :
        (p end fuel : ℕ) (b : Bytes) (m : M)
        → end ≤ p
        → read_fields w field (suc fuel) end m (at p b) ≡ ok (m, at p b)
    unfolding read_fields
    stop p end fuel b m h = rw (le→ltb p end h) refl

    one_round :
        (tag : ℕ) (payload tail : Bytes) (m m' : M) (p end fuel : ℕ)
        → tag < 2 ^ 32
        → field tag m (at (p + length (w.uint32 tag)) (payload ++ tail))
          ≡ ok (m', at (p + length (w.uint32 tag) + length payload) tail)
        → p + length (w.uint32 tag ++ payload) ≤ end
        → read_fields w field (1 + fuel) end m (at p ((w.uint32 tag ++ payload) ++ tail))
          ≡ read_fields w field fuel end m' (at (p + length (w.uint32 tag ++ payload)) tail)
    one_round tag payload tail m m' p end fuel h one le =
        let e : 1 + fuel ≡ suc fuel = omega arith in
        rw
          (
            e,
            append_assoc (w.uint32 tag) payload tail,
            round p end fuel (w.uint32 tag ++ (payload ++ tail)) m
                (omega (arith, length-append (w.uint32 tag) payload, uint32-pos tag h)),
            taken-got p (w.uint32 tag) (payload ++ tail) tag _
                (laws.read_uint32-uint32 tag (payload ++ tail) h),
            one,
          )
          (ap (λ (n : ℕ). read_fields w field fuel end m' (at n tail))
            (omega (arith, length-append (w.uint32 tag) payload)))

    -- One field.
    pub Takes-field :
        (tag : ℕ) (payload : Bytes) {m m' : M}
        → tag < 2 ^ 32
        → ((p : ℕ) (tail : Bytes)
            → field tag m (at p (payload ++ tail)) ≡ ok (m', at (p + length payload) tail))
        → Takes (w.uint32 tag ++ payload) m m'
    Takes-field tag payload {m} {m'} h one = record {
      count = 1;
      short = omega (arith, length-append (w.uint32 tag) payload, uint32-pos tag h);
      reads = λ tail p end fuel le. one_round tag payload tail m m' p end fuel h (one _ tail) le;
    }

    -- The loop over exactly these fields.
    pub Takes-all :
        {bytes : Bytes} {m m' : M} (tail : Bytes) (p end fuel : ℕ)
        → Takes bytes m m'
        → end ≡ p + length bytes
        → length bytes < fuel
        → read_fields w field fuel end m (at p (bytes ++ tail)) ≡ ok (m', at end tail)
    Takes-all {bytes} {m} {m'} tail p end fuel t e lt =
        let f : fuel ≡ t.count + suc (fuel - t.count - 1) = omega (arith, t.short) in
        rw f (
          t.reads tail p end (suc (fuel - t.count - 1)) (omega arith)
          ∙ stop (p + length bytes) end (fuel - t.count - 1) tail m' (omega arith)
          ∙ ap (λ (n : ℕ). ok (m', at n tail)) (sym e))

    -- A field that is written where it is an own property; `set` puts a value, if any, over the
    -- message's.
    pub Takes-own {κ} :
        {A : Type κ} (tag : ℕ) (write : A → Bytes) (read : Bytes → Read A) (Fits : A → Type 0)
        (set : Option A → M) (t : Option A)
        → tag < 2 ^ 32
        → ((v : A) (rest : Bytes) → Fits v → read (write v ++ rest) ≡ got v rest)
        → ((r : Reader)
            → field tag (set none) r ≡ (do (v, r') ← take_with read r; ok (set (some v), r')))
        → OptionAll Fits t
        → Takes (own t (λ v. w.uint32 tag ++ write v)) (set none) (set t)
    Takes-own tag write read Fits set none lt law one h = Takes-nil (set none)
    Takes-own tag write read Fits set (some v) lt law one h =
        Takes-field tag (write v) lt (λ p tail.
          rw (one (at p (write v ++ tail)), taken-got p (write v) tail v _ (law v tail h)) refl)
