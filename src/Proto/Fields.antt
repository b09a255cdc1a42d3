-- ===== src/Proto/Fields.antt =====
-- sdk/js/src/generated/proto.js: what the generated `encode` and `decode` functions share.
pub mod Takes
pub mod Ends
pub mod Whole
pub mod Values
use ibridger.Common.{
  ℕ, zero, suc, ◌+◌, ◌-◌, ◌≤◌, ◌<◌, ◌≡◌, Option, none, some, [], ◌++◌, ltb, if◌then◌else◌, length,
}
use ibridger.Common.Text.{Bytes}
use ibridger.Errors.{Thrown, plain, exhausted, Result, ok, err, ◌>>=◌}
use ibridger.Proto.Runtime.{Read, got, throws, Runtime}

pub record Reader : Type 0 where
  pub pos : ℕ
  pub rest : Bytes

abbrev pub at : ℕ → Bytes → Reader
at p b = record { pos = p; rest = b }

-- `$Reader.create(buffer)`
abbrev pub reader_of : Bytes → Reader
reader_of b = at 0 b

-- A read at the reader's place.
unfoldable pub taken {ℓ} : {A : Type ℓ} → Reader → Read A → Result (A × Reader)
taken r (got a rest) = ok (a, at (r.pos + (length r.rest - length rest)) rest)
taken r (throws text) = err (plain text)

abbrev pub take_with {ℓ} : {A : Type ℓ} → (Bytes → Read A) → Reader → Result (A × Reader)
take_with f r = taken r (f r.rest)

-- `if (message.f != null && Object.hasOwnProperty.call(message, "f")) writer.…`
abbrev pub own {ℓ} : {A : Type ℓ} → Option A → (A → Bytes) → Bytes
own none write = []
own (some a) write = write a

module _ (w : Runtime) where
  -- `.fork()….ldelim()`
  abbrev pub delimited : Bytes → Bytes
  delimited b = w.uint32 (length b) ++ b

  -- `while (reader.pos < end) { var tag = reader.uint32(); switch (tag >>> 3) {…} }`
  unfoldable pub read_fields {ℓ} :
      {M : Type ℓ}
      → (ℕ → M → Reader → Result (M × Reader))
      → ℕ
      → ℕ
      → M
      → Reader
      → Result (M × Reader)
  read_fields field zero end m r = err exhausted
  read_fields field (suc fuel) end m r =
      let more = (do
        (tag, r1) ← take_with w.read_uint32 r
        (m', r2) ← field tag m r1
        read_fields field fuel end m' r2) in
      if ltb r.pos end then more else ok (m, r)

  -- Each round takes a byte at least, so this fuel is enough.
  abbrev pub rounds : Reader → ℕ
  rounds r = suc (length r.rest)

  -- `decode(reader, length)` with the `switch` of the message and `new` what its constructor makes;
  -- `length` is undefined for a whole buffer.
  abbrev pub decode_message {ℓ} :
      {M : Type ℓ}
      → (ℕ → M → Reader → Result (M × Reader))
      → M
      → Reader
      → Option ℕ
      → Result (M × Reader)
  decode_message field new r limit =
      let end : ℕ = elim limit [ none ↦ r.pos + length r.rest | some n ↦ r.pos + n ] in
      read_fields field (rounds r) end new r
