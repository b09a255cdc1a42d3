-- ===== src/Rpc/Server/Loop/Answering.antt =====
-- What a serving loop has answered once it has had turns enough.
use ibridger.Rpc.Server.Loop.Served.{IsServed, after_recv-still, Live-IsServed, Stopped-IsServed}
use ibridger.Common.{
  ℕ, ◌≤◌, ◌*◌, ◌+◌, ◌≡◌, ◌⊎◌, inl, inr, refl, ◌∙◌, sym, ap, subst, arith, none, List, [], ◌∷◌,
  length, map, append-nil, All,
}
use ibridger.Common.Text.{Bytes}
use ibridger.Proto.Runtime.{Runtime}
use ibridger.Transport.Connection.{init}
use ibridger.Protocol.Framing.{Phase, resume}
use ibridger.Protocol.Framing.Parsing.{frames_of}
use ibridger.Protocol.Framing.Receiving.{new_receiver, turn as read_turn}
use ibridger.Protocol.Framing.Receiving.Complete.{start-IsFaithful, progress, length-frames}
use ibridger.Rpc.Server.Loop.{
  Host, Doing, testing, receiving, handling, heading, sending, ended, Loop, Event, turns, turn_at,
  turn, new_loop, step, run, after_recv,
}
use ibridger.Rpc.Server.Loop.Serving.{Fit, turn-Moves, run-Standing}
use ibridger.Rpc.Server.Loop.Taking.{place-le, receiving-Moves}
use ibridger.Rpc.Server.Loop.Standing.{
  IsQuiet, stream, decoded, Healthy, reader, Live, Stopped, place, rank, Moves,
}

-- Turns of the loop at these times, at which no write fails.
abbrev pub turns_at : List ℕ → List Event
turns_at nows = map (λ now. turns now none) nows

module _ (w : Runtime) (host : Host) (total : Bytes)
    (fits : Fit w host (decoded w (frames_of total).frames)) where
  -- The loop has done all it can, or its next turn gets it on.
  abbrev Advances : (d : Doing) (s : Loop) → Live w host total d s.connection s.handled → Type 0
  Advances d s v =
      (((now : ℕ) → turn_at w host d now none s ≡ s) × IsServed w host total s)
      ⊎ ((now : ℕ)
          → Moves w host total (Unit {0}) (rank w host total v) (turn_at w host d now none s))

  reading-Advances :
      (ph : Phase) (s : Loop)
      → s.doing ≡ receiving ph
      → (v : Live w host total (receiving ph) s.connection s.handled) → Advances (receiving ph) s v
  unfolding read_turn
  reading-Advances ph s d v =
      let r = reader (receiving ph) s.connection v.frames in
      elim (progress total r v.faithful) [
        | inl (e, c) ↦ inl (
          λ now. after_recv-still w s ph v.frames d v.healthy (resume ph s.connection) e,
          Live-IsServed w host total ph s d v c,
        )
        | inr lt ↦ inr (λ now. moved lt (receiving-Moves w host total ph s v))
      ]
    where
      moved :
          {C : Type 0}
          → C
          → Moves w host total C (rank w host total v) (after_recv w (resume ph s.connection) s)
          → Moves w host total
              (Unit {0})
              (rank w host total v)
              (after_recv w (resume ph s.connection) s)
      moved c (inl (v', g)) = inl (v', λ _. g c)
      moved c (inr x) = inr x

  advance :
      (d : Doing) (s : Loop)
      → s.doing ≡ d
      → (v : Live w host total d s.connection s.handled) → Advances d s v
  advance (receiving ph) s e v = reading-Advances ph s e v
  advance testing s e v =
      inr (λ now. turn-Moves w host total fits testing now s total [] (append-nil total) v)
  advance (handling m) s e v =
      inr (λ now. turn-Moves w host total fits (handling m) now s total [] (append-nil total) v)
  advance (heading b r) s e v =
      inr (λ now. turn-Moves w host total fits (heading b r) now s total [] (append-nil total) v)
  advance (sending r) s e v =
      inr (λ now. turn-Moves w host total fits (sending r) now s total [] (append-nil total) v)
  advance ended s e v = absurd v.healthy

  still :
      (nows : List ℕ) (s : Loop)
      → ((now : ℕ) → turn w host now none s ≡ s)
      → run w host s (turns_at nows) ≡ s
  unfolding run step
  still [] s h = refl
  still (now ∷ nows) s h = ap (λ (t : Loop). run w host t (turns_at nows)) (h now) ∙ still nows s h

  place-le_all : (d : Doing) → Healthy d → place d ≤ 5
  place-le_all (receiving ph) h = place-le ph
  place-le_all testing h = omega arith
  place-le_all (handling m) h = omega arith
  place-le_all (heading b r) h = omega arith
  place-le_all (sending r) h = omega arith
  place-le_all ended h = absurd h

  stopped : (nows : List ℕ) (s : Loop) → Stopped w host total s → run w host s (turns_at nows) ≡ s
  unfolding turn
  stopped nows s x = still nows s (λ now. ap (λ (d : Doing). turn_at w host d now none s) x.ended)

  IsServed-still :
      (nows : List ℕ) (s : Loop)
      → run w host s (turns_at nows) ≡ s
      → IsServed w host total s
      → IsServed w host total (run w host s (turns_at nows))
  IsServed-still nows s e x = subst (IsServed w host total) (sym e) x

  enough_turns :
      (nows : List ℕ) (s : Loop) (v : Live w host total s.doing s.connection s.handled)
      → 6 * length total + 6 ≤ rank w host total v + length nows
      → IsServed w host total (run w host s (turns_at nows))
  unfolding run step turn
  enough_turns [] s v le =
      absurd (omega (arith, length-frames total _ v.faithful, place-le_all s.doing v.healthy))
  enough_turns (now ∷ nows) s v le = elim (advance s.doing s refl v) [
    | inl (e, served) ↦ IsServed-still (now ∷ nows) s (still (now ∷ nows) s e) served
    | inr moves ↦ onward (moves now) (enough_turns nows (turn_at w host s.doing now none s))
  ]
    where
      onward :
          Moves w host total (Unit {0}) (rank w host total v) (turn_at w host s.doing now none s)
          → ((v' : Live w host total
                (turn_at w host s.doing now none s).doing
                (turn_at w host s.doing now none s).connection
                (turn_at w host s.doing now none s).handled)
              → 6 * length total + 6 ≤ rank w host total v' + length nows
              → IsServed w host total
                  (run w host (turn_at w host s.doing now none s) (turns_at nows)))
          → IsServed w host total (run w host (turn_at w host s.doing now none s) (turns_at nows))
      onward (inl (v', g)) rec = rec v' (omega (arith, g tt, le))
      onward (inr x) rec =
          IsServed-still nows _ (stopped nows _ x) (Stopped-IsServed w host total _ x)

start-Live :
    (w : Runtime) (host : Host) → Live w host [] new_loop.doing new_loop.connection new_loop.handled
unfolding new_loop new_receiver init
start-Live w host = record {
  frames = [];
  faithful = start-IsFaithful;
  decodes = tt;
  written = refl;
  healthy = tt;
}

-- Whatever bytes the socket of a new connection brings, in whatever chunks and with the loop's
-- turns between them, `dispatchLoop` has, after six turns for each byte and six more, handled the
-- envelopes that a reference parser finds in the whole stream, up to the first frame that does not
-- decode, in order, and has written the frames of the responses to them, in order and nothing
-- else. It then waits in `recv` where the stream has neither a frame that does not decode nor a
-- frame that is too large, and otherwise it has ended and closed the connection. A frame without a
-- payload counts as an envelope without fields, and is answered like any other. Services may be
-- registered meanwhile, and each response is that of the services at the moment of its `dispatch`.
-- No write fails, nothing else happens to the connection, and the responses to these envelopes fit
-- in a frame at any moment.
pub run-IsServed :
    (w : Runtime) (host : Host) (es : List Event) (nows : List ℕ)
    → All IsQuiet es
    → Fit w host (decoded w (frames_of (stream es)).frames)
    → 6 * length (stream es) + 6 ≤ length nows
    → IsServed w host (stream es) (run w host (run w host new_loop es) (turns_at nows))
run-IsServed w host es nows h fits le =
    elim (run-Standing w host (stream es) fits es [] new_loop h refl (inl (start-Live w host))) [
      | inl v ↦
          enough_turns w host (stream es) fits nows (run w host new_loop es) v (omega (arith, le))
      | inr x ↦
          IsServed-still w host (stream es) fits nows (run w host new_loop es)
            (stopped w host (stream es) fits nows (run w host new_loop es) x)
            (Stopped-IsServed w host (stream es) (run w host new_loop es) x)
    ]
