-- ===== src/Protocol/Framing/Written.antt =====
-- Reading leaves alone what was written to a connection, and writing leaves alone what is read.
use ibridger.Common.{
  ℕ, ◌≡◌, refl, Option, none, some, List, [], ◌∷◌, ◌++◌, leb, ltb, if-intro, inl, inr, length, ◌==◌,
}
use ibridger.Common.Text.{Bytes}
use ibridger.Errors.{Result-cases}
use ibridger.Proto.WireConstant.{max_frame_size}
use ibridger.Transport.Connection.{
  Waiter, Outcome, resolved, rejected, Connection, splice, drain_loop, drain_waiters, on_data, recv,
}
use ibridger.Protocol.Framing.{
  Phase, header, body, finished, begin, on_header, resume, resume_header, resume_body, outcome_of,
  read_u32be,
}
use ibridger.Protocol.Framing.Parsing.{Parsed}
use ibridger.Protocol.Framing.Pending.{IsPending, Awaits, waits, has}
use ibridger.Protocol.Framing.Receiving.{
  Receiver, Follows, idles, at_header, at_body, refuses, IsFaithful,
}

abbrev Keeps : Connection → Connection → Type 0
Keeps c d = d.written ≡ c.written

drain_loop-written : (ws : List Waiter) (c : Connection) → Keeps c (drain_loop ws c)
unfolding drain_loop splice
drain_loop-written [] c = refl
drain_loop-written (w ∷ ws) c =
    if-intro (Keeps c) (ltb (length c.buffer) w.need) _ _ (λ _. refl)
      (λ _. drain_loop-written ws (splice w.promise w.need c))

pub on_data-written : (chunk : Bytes) (c : Connection) → (on_data chunk c).written ≡ c.written
unfolding on_data drain_waiters
on_data-written chunk c = drain_loop-written c.waiters (record c { buffer = c.buffer ++ chunk })

drain_loop-destroyed :
    (ws : List Waiter) (c : Connection) → (drain_loop ws c).destroyed ≡ c.destroyed
unfolding drain_loop splice
drain_loop-destroyed [] c = refl
drain_loop-destroyed (w ∷ ws) c =
    if-intro (λ (d : Connection). d.destroyed ≡ c.destroyed) (ltb (length c.buffer) w.need) _ _
      (λ _. refl) (λ _. drain_loop-destroyed ws (splice w.promise w.need c))

pub on_data-destroyed : (chunk : Bytes) (c : Connection) → (on_data chunk c).destroyed ≡ c.destroyed
unfolding on_data drain_waiters
on_data-destroyed chunk c = drain_loop-destroyed c.waiters (record c { buffer = c.buffer ++ chunk })

recv-written : (n : ℕ) (c : Connection) → Keeps c (recv n c)
unfolding recv splice
recv-written n c =
    if-intro (Keeps c) (leb n (length c.buffer)) _ _ (λ _. refl)
      (λ _. if-intro (Keeps c) c.connected _ _ (λ _. refl) (λ _. refl))

pub begin-written : (c : Connection) → (begin c).1.written ≡ c.written
unfolding begin
begin-written c = recv-written 4 c

on_header-written : (bytes : Bytes) (c : Connection) → Keeps c (on_header bytes c).1
unfolding on_header
on_header-written bytes c = elim (Result-cases (read_u32be bytes)) [
  | inl (n, e) ↦
      rw (e, on_header)
        (if-intro (λ (q : Phase × Connection). Keeps c q.1) (ltb max_frame_size n) _ _ (λ _. refl)
          (λ _.
            if-intro (λ (q : Phase × Connection). Keeps c q.1) (n == 0) _ _ (λ _. refl)
              (λ _. recv-written n c)))
  | inr (t, e) ↦ rw (e, on_header) refl
]

pub resume-written : (ph : Phase) (c : Connection) → (resume ph c).1.written ≡ c.written
unfolding resume
resume-written (header p) c = by_outcome (outcome_of p c.settled)
  where
    by_outcome : (o : Option Outcome) → Keeps c (resume_header p o c).1
    by_outcome none = unfold resume_header in refl
    by_outcome (some (resolved bytes)) = unfold resume_header in on_header-written bytes c
    by_outcome (some (rejected e)) = unfold resume_header in refl
resume-written (body p n) c = by_outcome (outcome_of p c.settled)
  where
    by_outcome : (o : Option Outcome) → Keeps c (resume_body p n o c).1
    by_outcome none = unfold resume_body in refl
    by_outcome (some (resolved bytes)) = unfold resume_body in refl
    by_outcome (some (rejected e)) = unfold resume_body in refl
resume-written (finished r) c = refl

-- A state of the reader's connection after a write.
abbrev pub with_written : List Bytes → Connection → Connection
with_written x c = record c { written = x }

written-IsPending :
    (x : List Bytes) (p need : ℕ) (left : Bytes) (c : Connection)
    → IsPending p need left c
    → IsPending p need left (with_written x c)
written-IsPending x p need left c i = record {
  held = i.held;
  parts = i.parts;
  state = by_state i.held i.state;
  latest = i.latest;
  connected = i.connected;
  fresh = i.fresh;
}
  where
    by_state : (h : Bytes) → Awaits p need h c → Awaits p need h (with_written x c)
    by_state h (waits a b d e) = waits a b d e
    by_state h (has a b d) = has a b d

written-Follows :
    (x : List Bytes) (r : Receiver) (rest : Bytes → Parsed) (left : Bytes)
    → Follows r rest left
    → Follows (record r { connection = with_written x r.connection }) rest left
written-Follows x r rest left (idles t i e f) =
    idles t (record { connected = i.connected; waiters = i.waiters; fresh = i.fresh }) e f
written-Follows x r rest left (at_header p t i f) =
    at_header p t (written-IsPending x p 4 left r.connection i) f
written-Follows x r rest left (at_body p n t lt i f) =
    at_body p n t lt (written-IsPending x p n left r.connection i) f
written-Follows x r rest left (refuses n t f) = refuses n t f

pub written-IsFaithful :
    (x : List Bytes) (total : Bytes) (r : Receiver)
    → IsFaithful total r
    → IsFaithful total (record r { connection = with_written x r.connection })
written-IsFaithful x total r h = record {
  rest = h.rest;
  left = h.left;
  follows = written-Follows x r h.rest h.left h.follows;
  agrees = h.agrees;
}
