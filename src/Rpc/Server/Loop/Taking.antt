-- ===== src/Rpc/Server/Loop/Taking.antt =====
-- What the reading of a serving loop does to its standing.
use ibridger.Common.{
  ℕ, ◌≤◌, ◌*◌, ◌+◌, ◌≡◌, if-intro, inl, inr, refl, ◌∙◌, sym, ap, subst, arith, none, some, List, [],
  ◌∷◌, ◌++◌, length, concat, append-nil, append_assoc, ◌<◌, length-append,
}
use ibridger.Common.Text.{Bytes}
use ibridger.Errors.{Thrown, Result, ok, err}
use ibridger.Proto.Runtime.{Runtime}
use ibridger.Proto.Envelope.{Envelope, decode}
use ibridger.Transport.Connection.{Connection, close}
use ibridger.Protocol.EnvelopeCodec.{on_frame, envelope_of}
use ibridger.Protocol.Framing.{Phase, header, body, finished, begin, resume}
use ibridger.Protocol.Framing.Pending.{IsIdle}
use ibridger.Protocol.Framing.Written.{begin-written, resume-written}
use ibridger.Protocol.Framing.Parsing.{Parsed, frames_of, prepend}
use ibridger.Protocol.Framing.Receiving.{
  Receiver, IsFaithful, turn as read_turn, settle_task, idles, at_header, at_body, refuses,
}
use ibridger.Protocol.Framing.Receiving.Faithful.{turn-IsFaithful}
use ibridger.Protocol.Framing.Receiving.Complete.{rank as read_rank, place as read_place}
use ibridger.Protocol.Framing.Receiving.Wire.{wire}
use ibridger.Rpc.Server.Loop.{
  Host, testing, receiving, Loop, on_request, after_recv, test_loop, end_loop,
}
use ibridger.Rpc.Server.Loop.Standing.{
  requests_of, responses, decoded, Decode, reader, Live, place, rank, Moves, decoded-append,
  Decode-append, length-Decode, decoded-bad,
}

-- Between two calls of `recvFrame` the connection lives and nobody waits.
pub IsFaithful-IsIdle :
    (total : Bytes) (r : Receiver) → IsFaithful total r → r.task ≡ none → IsIdle r.connection
IsFaithful-IsIdle total r h t = elim h.follows [
  | idles t' i e f ↦ i
  | at_header p t' i f ↦ absurd (cc (t, t'))
  | at_body p n t' lt i f ↦ absurd (cc (t, t'))
  | refuses n t' f ↦ absurd (cc (t, t'))
]

-- A reader whose call failed has met a frame that is too large.
IsFaithful-refused :
    (total : Bytes) (r : Receiver) (e : Thrown)
    → IsFaithful total r
    → r.task ≡ some (finished (err e))
    → (n : ℕ) × ((more : Bytes)
        → frames_of (total ++ more) ≡ record { frames = r.frames; refused = some n })
IsFaithful-refused total r e h t = elim h.follows [
  | idles t' i e f ↦ absurd (cc (t, t'))
  | at_header p t' i f ↦ absurd (cc (t, t'))
  | at_body p n t' lt i f ↦ absurd (cc (t, t'))
  | refuses n t' f ↦ (
    n,
    λ more.
        h.agrees more
        ∙ ap (prepend r.frames) (f (h.left ++ more))
        ∙ ap (λ (fs : List Bytes). record { frames = fs; refused = some n }) (append-nil r.frames),
  )
]

-- The reader gets on by this.
abbrev pub Gains : Phase × Connection → Receiver → Type 0
Gains q r = read_rank r < read_rank (settle_task q r)

pub place-le : (ph : Phase) → place (receiving ph) ≤ 5
place-le (header p) = omega arith
place-le (body p n) = omega arith
place-le (finished r) = omega arith

place-ge : (ph : Phase) → place (receiving ph) ≤ read_place (some ph) + 3
place-ge (header p) = omega arith
place-ge (body p n) = omega arith
place-ge (finished r) = omega arith

module _ (w : Runtime) (host : Host) (total : Bytes) where
  abbrev Stands : Type 0 → ℕ → Loop → Type 0
  Stands = Moves w host total

  pub test_loop-Moves :
      (s : Loop) (v : Live w host total testing s.connection s.handled)
      → Stands (Unit {0}) (rank w host total v) (test_loop w s)
  unfolding test_loop read_turn begin after_recv
  test_loop-Moves s v =
      let idle = IsFaithful-IsIdle total (reader testing s.connection v.frames) v.faithful refl in
      if-intro (Stands (Unit {0}) (rank w host total v)) s.connection.connected _ _
        (λ _. inl (
          record {
            frames = v.frames;
            faithful = turn-IsFaithful total (reader testing s.connection v.frames) v.faithful;
            decodes = v.decodes;
            written =
                ap (λ (x : List Bytes). concat x ++ []) (begin-written s.connection) ∙ v.written;
            healthy = tt;
          },
          λ _. omega arith,
        ))
        (λ lost. absurd (cc (lost, idle.connected)))

  -- The `try` around `recv`, for a frame that came.
  on_frame-Moves :
      (n : ℕ) (C : Type 0) (frame : Bytes) (c : Connection) (s : Loop) (frames : List Bytes)
      → IsFaithful total (record { task = none; connection = c; frames = frames ++ frame ∷ [] })
      → Decode w frames (requests_of s.handled)
      → concat c.written ≡ wire (responses w host s.handled)
      → n < 6 * length frames + 6
      → (r : Result Envelope) → decode w frame ≡ r
      → Stands C n (on_request (envelope_of w r) (record s { connection = c }))
  unfolding envelope_of
  on_frame-Moves n C frame c s frames h dec wr lt (ok m) e = inl (
    record {
      frames = frames ++ frame ∷ [];
      faithful = h;
      decodes = Decode-append w frames (frame ∷ []) (requests_of s.handled) (m ∷ []) dec (e, tt);
      written = append-nil (concat c.written) ∙ wr;
      healthy = tt;
    },
    λ _. omega (arith, length-append frames (frame ∷ [])),
  )
  on_frame-Moves n C frame c s frames h dec wr lt (err x) e = inr (
      unfold end_loop close in
      record {
        ended = refl;
        closed = refl;
        requests = λ more. ends more ∙ append-nil (requests_of s.handled);
        breaks = λ more. inl (
            omega (
              arith,
              ap length (parts more),
              ap length (ends more),
              ap length (append-nil (requests_of s.handled)),
              length-append frames (frame ∷ (behind more)),
              length-Decode w frames (requests_of s.handled) dec,
            ));
        written = wr;
      })
    where
      behind : Bytes → List Bytes
      behind more = (h.rest (h.left ++ more)).frames

      parts : (more : Bytes) → (frames_of (total ++ more)).frames ≡ frames ++ (frame ∷ behind more)
      parts more =
          ap (λ (p : Parsed). p.frames) (h.agrees more)
          ∙ append_assoc frames (frame ∷ []) (behind more)

      ends :
          (more : Bytes)
          → decoded w (frames_of (total ++ more)).frames ≡ requests_of s.handled ++ []
      ends more =
          ap (decoded w) (parts more)
          ∙ decoded-append w frames (frame ∷ behind more) (requests_of s.handled) dec
          ∙ ap (λ (ms : List Envelope). requests_of s.handled ++ ms)
              (decoded-bad w frame (behind more) x e)

  -- The reader gets on, and the loop with it.
  after_recv-Moves :
      (q : Phase × Connection) (ph : Phase) (s : Loop)
      (v : Live w host total (receiving ph) s.connection s.handled)
      → q.1.written ≡ s.connection.written
      → IsFaithful total (settle_task q (reader (receiving ph) s.connection v.frames))
      → Stands
          (Gains q (reader (receiving ph) s.connection v.frames))
          (rank w host total v)
          (after_recv w q s)
  unfolding after_recv settle_task on_frame
  after_recv-Moves (finished (ok frame), c) ph s v e h =
      on_frame-Moves _ _ frame c s v.frames h
        (subst (Decode w v.frames) (append-nil (requests_of s.handled)) v.decodes)
        (ap concat e ∙ sym (append-nil (concat s.connection.written)) ∙ v.written)
        (omega (arith, place-le ph)) (decode w frame) refl
  after_recv-Moves (finished (err x), c) ph s v e h =
      let (n, f) = IsFaithful-refused total _ x h refl in
      inr (
        unfold end_loop close in
        record {
          ended = refl;
          closed = refl;
          requests = λ more.
              ap (λ (p : Parsed). decoded w p.frames) (f more)
              ∙ ap (decoded w) (sym (append-nil v.frames))
              ∙ decoded-append w v.frames [] (requests_of s.handled ++ []) v.decodes
              ∙ append-nil (requests_of s.handled ++ [])
              ∙ append-nil (requests_of s.handled);
          breaks = λ more. inr (n, ap (λ (p : Parsed). p.refused) (f more));
          written = ap concat e ∙ sym (append-nil (concat s.connection.written)) ∙ v.written;
        })
  after_recv-Moves (header p, c) ph s v e h = inl (
    record {
      frames = v.frames;
      faithful = h;
      decodes = v.decodes;
      written = ap (λ (x : List Bytes). concat x ++ []) e ∙ v.written;
      healthy = tt;
    },
    λ g. omega (arith, g, place-ge ph),
  )
  after_recv-Moves (body p n, c) ph s v e h = inl (
    record {
      frames = v.frames;
      faithful = h;
      decodes = v.decodes;
      written = ap (λ (x : List Bytes). concat x ++ []) e ∙ v.written;
      healthy = tt;
    },
    λ g. omega (arith, g, place-ge ph),
  )

  pub receiving-Moves :
      (ph : Phase) (s : Loop) (v : Live w host total (receiving ph) s.connection s.handled)
      → Stands
          (Gains (resume ph s.connection) (reader (receiving ph) s.connection v.frames))
          (rank w host total v)
          (after_recv w (resume ph s.connection) s)
  unfolding read_turn
  receiving-Moves ph s v =
      after_recv-Moves (resume ph s.connection) ph s v (resume-written ph s.connection)
        (turn-IsFaithful total (reader (receiving ph) s.connection v.frames) v.faithful)
