-- ===== src/Protocol/Framing/Overtaking.antt =====
-- Two calls of `recvFrame` of sdk/js/src/protocol/framing.ts on one connection, as a call of
-- sdk/js/src/rpc/client.ts that has timed out leaves behind for the next.
use ibridger.Common.{
  ℕ, Bool-cases, inl, inr, ◌==◌, suc, ◌+◌, ◌*◌, ◌^◌, ◌≤◌, ◌<◌, ◌≡◌, refl, ◌∙◌, ap, arith, false,
  some, List, [], ◌∷◌, ◌++◌, ltb, length, take, drop, length-drop, length-append,
}
use ibridger.Common.Text.{Bytes}
use ibridger.Errors.{err}
use ibridger.Transport.Connection.{
  Outcome, Waiter, Settlement, resolved, Connection, splice, drain_loop, drain_waiters, on_data,
  recv,
}
use ibridger.Protocol.Framing.{
  Phase, header, finished, begin, resume, on_header, outcome_of, write_u32be, read_u32be,
}
use ibridger.Protocol.Framing.Header.{length-write_u32be}
use ibridger.Protocol.Framing.Sending.{frame_bytes}
use ibridger.Protocol.Framing.Pending.{
  IsIdle, Fresh-append, Fresh-suc, outcome_of-Fresh, outcome_of-append,
}
use ibridger.Protocol.Framing.Receiving.{refusal}
use ibridger.Protocol.Framing.Receiving.Faithful.{resume_has, on_header-refused}

outcome_of-more :
    (q : ℕ) (ss ts : List Settlement) (o : Outcome)
    → outcome_of q ss ≡ some o
    → outcome_of q (ss ++ ts) ≡ some o
unfolding outcome_of
outcome_of-more q [] ts o h = absurd (cc h)
outcome_of-more q (s ∷ ss) ts o h = elim (Bool-cases (s.promise == q)) [
  | inl e ↦ rw e (ground (arith, h, e))
  | inr e ↦ rw e (outcome_of-more q ss ts o (ground (arith, h, e)))
]

module _ (c : Connection) (idle : IsIdle c) (drained : c.buffer ≡ []) where
  abbrev p : ℕ
  p = c.next_promise

  abbrev waiter : ℕ → Waiter
  waiter q = record { need = 4; promise = q }

  -- Both calls wait, in their order.
  abbrev both_wait : Connection
  both_wait = record c { next_promise = suc (suc p); waiters = waiter p ∷ waiter (suc p) ∷ [] }

  abbrev given : ℕ → Bytes → Settlement
  given q bytes = record { promise = q; need = 4; outcome = resolved bytes }

  begin-begin : (begin (begin c).1).1 ≡ both_wait
  unfolding begin recv splice
  begin-begin = rw (idle.waiters, idle.connected, drained) refl

  first_phase : (begin c).0 ≡ header p
  unfolding begin
  first_phase = refl

  second_phase : (begin (begin c).1).0 ≡ header (suc p)
  unfolding begin recv splice
  second_phase = rw (idle.waiters, idle.connected, drained) refl

  -- Eight bytes or more serve both.
  abbrev served : Bytes → Connection
  served chunk = record c {
    buffer = drop 4 (drop 4 chunk);
    waiters = [];
    next_promise = suc (suc p);
    settled =
        (c.settled ++ given p (take 4 chunk) ∷ []) ++ given (suc p) (take 4 (drop 4 chunk)) ∷ [];
  }

  on_data-both : (chunk : Bytes) → 8 ≤ length chunk → on_data chunk both_wait ≡ served chunk
  unfolding on_data drain_waiters drain_loop splice
  on_data-both chunk le =
      let first : ltb (length chunk) 4 ≡ false = ground arith in
      let second : ltb (length (drop 4 chunk)) 4 ≡ false = ground (arith, length-drop 4 chunk) in
      rw (drained, first, second) refl

  first_given :
      (chunk : Bytes) → outcome_of p (served chunk).settled ≡ some (resolved (take 4 chunk))
  first_given chunk =
      outcome_of-more p (c.settled ++ given p (take 4 chunk) ∷ [])
        (given (suc p) (take 4 (drop 4 chunk)) ∷ []) _
        (outcome_of-append p c.settled (given p (take 4 chunk))
          (outcome_of-Fresh p c.settled idle.fresh) refl)

  second_given :
      (chunk : Bytes)
      → outcome_of (suc p) (served chunk).settled ≡ some (resolved (take 4 (drop 4 chunk)))
  second_given chunk =
      outcome_of-append (suc p) (c.settled ++ given p (take 4 chunk) ∷ [])
        (given (suc p) (take 4 (drop 4 chunk)))
        (outcome_of-Fresh (suc p) _ (
          Fresh-append (suc p) c.settled (given p (take 4 chunk)) (Fresh-suc p c.settled idle.fresh)
            (omega arith)))
        refl

-- Where two calls of `recvFrame` wait on a living connection without buffered bytes, as when a
-- call has timed out and the next is made, and a frame of four bytes or more, the first of them
-- above 1, arrives in one chunk, the first call is given the frame's length as its header, and the
-- second the first four bytes of the frame's payload: it ends with the EMSGSIZE error for the
-- length that these make.
pub overtaken :
    (c : Connection) (a b x y : ℕ) (rest : Bytes)
    → IsIdle c
    → c.buffer ≡ []
    → 1 < a
    → (resume (begin c).0 (on_data (frame_bytes (a ∷ b ∷ x ∷ y ∷ rest)) (begin (begin c).1).1)
        ≡ on_header
            (write_u32be (length (a ∷ b ∷ x ∷ y ∷ rest)))
            (on_data (frame_bytes (a ∷ b ∷ x ∷ y ∷ rest)) (begin (begin c).1).1))
      × (resume
            (begin (begin c).1).0
            (on_data (frame_bytes (a ∷ b ∷ x ∷ y ∷ rest)) (begin (begin c).1).1)
          ≡ (
            finished (err (refusal (a * 2 ^ 24 + b * 2 ^ 16 + x * 2 ^ 8 + y))),
            on_data (frame_bytes (a ∷ b ∷ x ∷ y ∷ rest)) (begin (begin c).1).1,
          ))
overtaken c a b x y rest idle drained lt = rw both (
  ap (λ (ph : Phase). resume ph d) (first_phase c idle drained)
      ∙ (resume_has c.next_promise (write_u32be (length frame)) d
          (unfold write_u32be in first_given c idle drained chunk)).0,
  ap (λ (ph : Phase). resume ph d) (second_phase c idle drained)
      ∙ (resume_has (suc c.next_promise) (a ∷ b ∷ x ∷ y ∷ []) d
          (unfold write_u32be in second_given c idle drained chunk)).0
      ∙ on_header-refused (a ∷ b ∷ x ∷ y ∷ []) d (a * 2 ^ 24 + b * 2 ^ 16 + x * 2 ^ 8 + y)
          (unfold read_u32be in refl) (omega arith),
)
  where
    frame : Bytes
    frame = a ∷ b ∷ x ∷ y ∷ rest

    chunk : Bytes
    chunk = frame_bytes frame

    d : Connection
    d = served c idle drained chunk

    both : on_data chunk (begin (begin c).1).1 ≡ d
    both =
        ap (on_data chunk) (begin-begin c idle drained)
        ∙ on_data-both c idle drained chunk (
            omega (
              arith,
              length-append (write_u32be (length frame)) frame,
              length-write_u32be (length frame),
            ))
