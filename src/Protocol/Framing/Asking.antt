-- ===== src/Protocol/Framing/Asking.antt =====
-- The promise at which a call of `recvFrame` stands, on a connection with any history.
use ibridger.Common.{
  ℕ, suc, ◌≤◌, ◌<◌, ◌≡◌, refl, arith, Option, none, some, List, [], ◌∷◌, ◌++◌, false, ltb, ◌==◌,
  Bool-cases, if-intro, inl, inr,
}
use ibridger.Common.Text.{Bytes}
use ibridger.Errors.{Result-cases}
use ibridger.Proto.WireConstant.{max_frame_size}
use ibridger.Transport.Connection.{
  Settlement, Outcome, resolved, rejected, Connection, Event, asks, recv, step, run, drain_waiters,
  splice, on_data, on_close, on_error, fail_with, send, close, chunk, closes, fails, sends, shuts,
  hooks,
}
use ibridger.Transport.Connection.Promises.{
  OnceInAll, settlements, reject_all-settlements, drain_loop-settlements,
}
use ibridger.Protocol.Framing.{
  Phase, header, body, finished, begin, on_header, resume, resume_header, resume_body, outcome_of,
  read_u32be,
}

-- The promise was made.
abbrev pub Asked : Phase → ℕ → Type 0
Asked (header p) n = p < n
Asked (body p k) n = p < n
Asked (finished r) n = Unit {0}

pub Asked-mono : (ph : Phase) (m n : ℕ) → m ≤ n → Asked ph m → Asked ph n
Asked-mono (header p) m n le h = omega arith
Asked-mono (body p k) m n le h = omega arith
Asked-mono (finished r) m n le h = tt

-- A state of the connection that some events lead to.
abbrev pub Follows : Connection → Connection → Type 0
Follows c d = (es : List Event) × (d ≡ run c es)

recv-Follows : (n : ℕ) (c : Connection) → Follows c (recv n c)
unfolding run step
recv-Follows n c = (asks n ∷ [], refl)

recv-next_promise : (n : ℕ) (c : Connection) → (recv n c).next_promise ≡ suc c.next_promise
unfolding recv splice
recv-next_promise n c = ground arith

-- A call of `recvFrame` goes on by calls of `recv`, and stands at a promise that was made.
abbrev pub Goes : Connection → Phase × Connection → Type 0
Goes c q = Follows c q.1 × Asked q.0 q.1.next_promise

pub begin-Goes : (c : Connection) → Goes c (begin c)
unfolding begin
begin-Goes c = (recv-Follows 4 c, omega (arith, recv-next_promise 4 c))

on_header-Goes : (bytes : Bytes) (c : Connection) → Goes c (on_header bytes c)
unfolding on_header run
on_header-Goes bytes c = elim (Result-cases (read_u32be bytes)) [
  | inl (n, e) ↦
      rw (e, on_header)
        (if-intro (Goes c) (ltb max_frame_size n) _ _ (λ _. (([], refl), tt))
          (λ _.
            if-intro (Goes c) (n == 0) _ _ (λ _. (([], refl), tt))
              (λ _. (recv-Follows n c, omega (arith, recv-next_promise n c)))))
  | inr (t, e) ↦ rw (e, on_header) ((([], refl), tt))
]

pub resume-Goes : (ph : Phase) (c : Connection) → Asked ph c.next_promise → Goes c (resume ph c)
unfolding resume resume_header resume_body run
resume-Goes (header p) c a = by_outcome (outcome_of p c.settled)
  where
    by_outcome : (o : Option Outcome) → Goes c (resume_header p o c)
    by_outcome none = (([], refl), a)
    by_outcome (some (resolved bytes)) = on_header-Goes bytes c
    by_outcome (some (rejected e)) = (([], refl), tt)
resume-Goes (body p n) c a = by_outcome (outcome_of p c.settled)
  where
    by_outcome : (o : Option Outcome) → Goes c (resume_body p n o c)
    by_outcome none = (([], refl), a)
    by_outcome (some (resolved bytes)) = (([], refl), tt)
    by_outcome (some (rejected e)) = (([], refl), tt)
resume-Goes (finished r) c a = (([], refl), tt)

pub step-next_promise : (c : Connection) (e : Event) → c.next_promise ≤ (step c e).next_promise
unfolding step
step-next_promise c (chunk bytes) =
    unfold on_data drain_waiters in
    omega (arith, (drain_loop-settlements 0 c.waiters (record c { buffer = c.buffer ++ bytes })).1)
step-next_promise c closes =
    unfold on_close fail_with in
    omega (arith, (reject_all-settlements 0 _ c.waiters (record c { connected = false })).1)
step-next_promise c (fails e) =
    unfold on_error fail_with in
    omega (arith, (reject_all-settlements 0 _ c.waiters (record c { connected = false })).1)
step-next_promise c (asks n) = omega (arith, recv-next_promise n c)
step-next_promise c (sends bytes fault) = unfold send in ground arith
step-next_promise c shuts = unfold close in omega arith
step-next_promise c hooks = omega arith

-- A promise that was settled has its outcome.
settled_once :
    (p : ℕ) (ss : List Settlement)
    → 0 < settlements p ss
    → (o : Outcome) × (outcome_of p ss ≡ some o)
unfolding outcome_of
settled_once p [] h = absurd (omega arith)
settled_once p (s ∷ ss) h = elim (Bool-cases (s.promise == p)) [
  | inl e ↦ (s.outcome, rw e refl)
  | inr e ↦ rw e (settled_once p ss (ground (arith, h, e)))
]

-- Where nobody waits, a promise that was made has its outcome.
pub idle-outcome :
    (p : ℕ) (c : Connection)
    → OnceInAll p c
    → c.waiters ≡ []
    → p < c.next_promise
    → (o : Outcome) × (outcome_of p c.settled ≡ some o)
idle-outcome p c once idle lt = settled_once p c.settled (ground (arith, once, idle))
