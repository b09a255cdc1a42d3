-- ===== src/Protocol/Framing/Receiving/Complete.antt =====
-- What a reader has once it has had turns enough.
use ibridger.Common.{
  ℕ, zero, suc, ◌+◌, ◌*◌, ◌≤◌, ◌<◌, ◌≡◌, ◌⊎◌, refl, ◌∙◌, sym, ap, subst, arith, Option, none, some,
  List, [], ◌∷◌, ◌++◌, ltb, ◌==◌, length, length-append, append_assoc, append-nil, Bool-cases, inl,
  inr, replicate,
}
use ibridger.Common.Text.{Bytes}
use ibridger.Errors.{ok, err}
use ibridger.Proto.WireConstant.{max_frame_size}
use ibridger.Transport.Connection.{init}
use ibridger.Protocol.Framing.{Phase, header, body, finished, begin, resume, on_header, read_u32be}
use ibridger.Protocol.Framing.Header.{read_u32be_lem}
use ibridger.Protocol.Framing.Parsing.{
  Parsed, frames_of, cut, incomplete, prepend, frames_of-short, cut-short, length-frames_of,
}
use ibridger.Protocol.Framing.Pending.{IsPending, waits, has}
use ibridger.Protocol.Framing.Receiving.{
  Receiver, settle_task, call, turn_task, turn, Event, arrives, turns, stream, step, run,
  new_receiver, idles, at_header, at_body, refuses, IsFaithful, refusal,
}
use ibridger.Protocol.Framing.Receiving.Faithful.{
  resume_waits, resume_has, turn_resumed, on_header-refused, on_header-empty, on_header-body,
  arrives-IsFaithful, turn-IsFaithful,
}

-- How far the call under way is.
abbrev pub place : Option Phase → ℕ
place none = 0
place (some (header p)) = 1
place (some (body p n)) = 2
place (some (finished r)) = 2

abbrev pub rank : Receiver → ℕ
rank r = 3 * length r.frames + place r.task

-- How a reader stands at the end of a stream: at an `await`, or with the error for a frame of a
-- length that is too large.
abbrev pub Ends : Option ℕ → Option Phase → Type 0
Ends none (some (header p)) = Unit {0}
Ends none (some (body p n)) = Unit {0}
Ends none _ = ⊥
Ends (some n) task = task ≡ some (finished (err (refusal n)))

pub record IsComplete (total : Bytes) (r : Receiver) : Type 0 where
  pub frames : r.frames ≡ (frames_of total).frames
  pub ends : Ends (frames_of total).refused r.task

module _ (total : Bytes) (r : Receiver) (h : IsFaithful total r) where
  whole : frames_of total ≡ prepend r.frames (h.rest h.left)
  whole =
      ap frames_of (sym (append-nil total))
      ∙ h.agrees []
      ∙ ap (λ (x : Bytes). prepend r.frames (h.rest x)) (append-nil h.left)

  pub length-frames : length r.frames ≤ length total
  length-frames = omega (
    arith,
    length-frames_of total,
    ap (λ (p : Parsed). length p.frames) whole,
    length-append r.frames (h.rest h.left).frames,
  )

  complete :
      (p : Parsed) → h.rest h.left ≡ p → p.frames ≡ [] → Ends p.refused r.task → IsComplete total r
  complete p e nil t =
      let w : frames_of total ≡ prepend r.frames p = whole ∙ ap (prepend r.frames) e in
      record {
        frames = sym (ap (λ (x : Parsed). x.frames) w ∙ rw nil (append-nil r.frames));
        ends = subst (λ (x : Parsed). Ends x.refused r.task) (sym w) t;
      }

  -- A turn at an `await` whose promise is not settled does nothing, and the frames are complete.
  -- Any other turn gets on.
  abbrev pub Progress : Type 0
  Progress = ((turn r ≡ r) × IsComplete total r) ⊎ (rank r < rank (turn r))

  same : (t : Option Phase) → r.task ≡ t → record r { task = t } ≡ r
  same t e = λ i. record r { task = sym e i }

  rank-on_header :
      (held : Bytes) (n : ℕ)
      → read_u32be held ≡ ok n
      → 3 * length r.frames + 1 < rank (settle_task (on_header held r.connection) r)
  unfolding settle_task
  rank-on_header held n q = elim (Bool-cases (ltb max_frame_size n)) [
    | inl large ↦ rw (on_header-refused held r.connection n q (ground (arith, large))) (omega arith)
    | inr fits ↦ elim (Bool-cases (n == 0)) [
      | inl zero_length ↦
          rw (on_header-empty held r.connection n q (ground (arith, zero_length)))
            (omega (arith, length-append r.frames ([] ∷ [])))
      | inr some_length ↦
          rw
            (on_header-body held r.connection n q (ground (arith, some_length))
              (ground (arith, fits)))
            (omega arith)
    ]
  ]

  -- The bytes left are those of the buffer where the call was given none.
  length-left :
      {held : Bytes}
      → h.left ≡ held ++ r.connection.buffer
      → held ≡ []
      → length h.left ≡ length r.connection.buffer
  length-left {held} parts nil =
      omega (arith, ap length parts, ap length nil, length-append held r.connection.buffer)

  header-Progress :
      (p : ℕ)
      → r.task ≡ some (header p)
      → IsPending p 4 h.left r.connection
      → ((x : Bytes) → h.rest x ≡ frames_of x)
      → Progress
  header-Progress p t i f = elim i.state [
    | waits e o short nil ↦ inl (
      unfold settle_task in
          (turn_resumed r (header p) t _ ((resume_waits p r.connection o).0) ∙ same _ t),
      complete incomplete
          (f h.left ∙ frames_of-short h.left (omega (arith, length-left i.parts nil))) refl
          (subst (Ends none) (sym t) tt),
    )
    | has e o l ↦
        let (n, q) = read_u32be_lem i.held l in
        let moved = turn_resumed r (header p) t _ ((resume_has p i.held r.connection o).0) in
        inr (omega (arith, ap place t, ap rank moved, rank-on_header i.held n q))
  ]

  body-Progress :
      (p n : ℕ)
      → r.task ≡ some (body p n)
      → IsPending p n h.left r.connection
      → ((x : Bytes) → h.rest x ≡ cut frames_of n x)
      → Progress
  body-Progress p n t i f = elim i.state [
    | waits e o short nil ↦ inl (
      unfold settle_task in
          (turn_resumed r (body p n) t _ ((resume_waits p r.connection o).1 n) ∙ same _ t),
      complete incomplete
          (f h.left ∙ cut-short frames_of n h.left (omega (arith, length-left i.parts nil))) refl
          (subst (Ends none) (sym t) tt),
    )
    | has e o l ↦
        let moved = turn_resumed r (body p n) t _ ((resume_has p i.held r.connection o).1 n) in
        inr (
          unfold settle_task in
          omega (arith, ap place t, ap rank moved, length-append r.frames (i.held ∷ [])))
  ]

  pub progress : Progress
  progress = elim h.follows [
    | idles t i e f ↦
        let moved = ap (λ (x : Option Phase). turn_task x r) t in
        inr (unfold turn turn_task begin call in omega (arith, ap place t, ap rank moved))
    | at_header p t i f ↦ header-Progress p t i f
    | at_body p n t lt i f ↦ body-Progress p n t i f
    | refuses n t f ↦ inl (
      unfold settle_task resume in (turn_resumed r _ t _ refl ∙ same _ t),
      complete (record { frames = []; refused = some n }) (f h.left) refl t,
    )
  ]

abbrev pub some_turns : ℕ → List Event
some_turns k = replicate k turns

still : (k : ℕ) (r : Receiver) → turn r ≡ r → run r (some_turns k) ≡ r
unfolding run step
still zero r e = refl
still (suc k) r e = ap (λ (x : Receiver). run x (some_turns k)) e ∙ still k r e

place-le : (t : Option Phase) → place t ≤ 2
place-le none = omega arith
place-le (some (header p)) = omega arith
place-le (some (body p n)) = omega arith
place-le (some (finished r)) = omega arith

enough_turns :
    (total : Bytes) (k : ℕ) (r : Receiver)
    → IsFaithful total r
    → 3 * length total + 3 ≤ rank r + k
    → IsComplete total (run r (some_turns k))
unfolding run step
enough_turns total zero r h le = absurd (omega (arith, length-frames total r h, place-le r.task))
enough_turns total (suc k) r h le = elim (progress total r h) [
  | inl (e, c) ↦ subst (IsComplete total) (sym (still (suc k) r e)) c
  | inr lt ↦ enough_turns total k (turn r) (turn-IsFaithful total r h) (omega arith)
]

run-IsFaithful :
    (es : List Event) (total : Bytes) (r : Receiver)
    → IsFaithful total r
    → IsFaithful (total ++ stream es) (run r es)
unfolding run
run-IsFaithful [] total r h = rw (append-nil total) h
run-IsFaithful (arrives chunk ∷ es) total r h = rw (← append_assoc total chunk (stream es)) (
    run-IsFaithful es (total ++ chunk) (step r (arrives chunk))
      (arrives-IsFaithful chunk total r h))
run-IsFaithful (turns ∷ es) total r h =
    unfold step in run-IsFaithful es total (turn r) (turn-IsFaithful total r h)

pub start-IsFaithful : IsFaithful [] new_receiver
unfolding new_receiver init
start-IsFaithful = record {
  rest = frames_of;
  left = [];
  follows = idles refl (record { connected = refl; waiters = refl; fresh = tt }) refl (λ x. refl);
  agrees = λ more. refl;
}

-- Whatever bytes the socket of a new connection brings, in whatever chunks, a reader that calls
-- `recvFrame` again and again and alone has, after three turns for each byte and three more, the
-- frames that a reference parser finds in the whole stream. It then stands at an `await`, or,
-- where a frame's length is above MAX_FRAME_SIZE, has the EMSGSIZE error with that length.
pub run-IsComplete :
    (es : List Event) (k : ℕ)
    → 3 * length (stream es) + 3 ≤ k
    → IsComplete (stream es) (run (run new_receiver es) (some_turns k))
run-IsComplete es k le =
    enough_turns (stream es) k (run new_receiver es)
      (run-IsFaithful es [] new_receiver start-IsFaithful) (omega arith)
