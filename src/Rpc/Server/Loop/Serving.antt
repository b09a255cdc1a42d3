-- ===== src/Rpc/Server/Loop/Serving.antt =====
-- A serving loop stands to its stream as it should after any quiet run.
use ibridger.Common.{
  ℕ, ◌≤◌, ◌≡◌, inl, inr, ◌∙◌, sym, ap, subst, none, some, List, [], ◌∷◌, ◌++◌, length, concat,
  append-nil, append_assoc, All,
}
use ibridger.Common.Text.{Bytes}
use ibridger.Proto.Runtime.{Runtime}
use ibridger.Proto.WireConstant.{max_frame_size}
use ibridger.Proto.Envelope.{Envelope, encode}
use ibridger.Transport.Connection.{Connection, close}
use ibridger.Transport.Connection
use ibridger.Protocol.Framing.{resume}
use ibridger.Protocol.Framing.Written.{on_data-written, on_data-destroyed}
use ibridger.Protocol.Framing.Parsing.{frames_of}
use ibridger.Protocol.Framing.Receiving.{step as read_step}
use ibridger.Protocol.Framing.Receiving.Faithful.{arrives-IsFaithful}
use ibridger.Rpc.Server.Loop.{
  Host, dispatch_at, Doing, testing, receiving, handling, heading, sending, ended, Loop, Event,
  happens, turns, turn_at, turn, step, run,
}
use ibridger.Rpc.Server.Loop.Taking.{Gains, test_loop-Moves, receiving-Moves}
use ibridger.Rpc.Server.Loop.Keeping.{under_way, handling-Moves, after_header-Moves, on_sent-Moves}
use ibridger.Rpc.Server.Loop.Standing.{
  IsQuiet, stream, requests_of, decoded, unsent, reader, Live, Stopped, Standing, rank, Moves,
}

All-mid {ℓ κ} :
    {A : Type ℓ} (P : A → Type κ) (xs : List A) (m : A) (ys : List A) → All P (xs ++ m ∷ ys) → P m
All-mid P [] m ys h = h.0
All-mid P (x ∷ xs) m ys h = All-mid P xs m ys h.1

-- The responses to these requests fit in a frame.
abbrev pub Fit : Runtime → Host → List Envelope → Type 0
Fit w host = All (λ m. (now : ℕ) → length (encode w (dispatch_at host now m)) ≤ max_frame_size)

module _ (w : Runtime) (host : Host) (final : Bytes)
    (fits : Fit w host (decoded w (frames_of final).frames)) where
  fits-handling :
      (m : Envelope) (now : ℕ) (s : Loop) (total ahead : Bytes)
      → total ++ ahead ≡ final
      → Live w host total (handling m) s.connection s.handled
      → length (encode w (dispatch_at host now m)) ≤ max_frame_size
  fits-handling m now s total ahead e v =
      let (rest, q) = under_way w host total m s ahead v in
      All-mid (λ m. (now : ℕ) → length (encode w (dispatch_at host now m)) ≤ max_frame_size)
        (requests_of s.handled) m rest
        (subst (Fit w host) (ap (λ (b : Bytes). decoded w (frames_of b).frames) (sym e) ∙ q) fits)
        now

  -- A turn, under the condition that a reader gets on where it reads.
  abbrev pub Cond : Doing → Connection → List Bytes → Type 0
  Cond (receiving ph) c frames = Gains (resume ph c) (reader (receiving ph) c frames)
  Cond _ c frames = Unit {0}

  pub turn-Moves :
      (d : Doing) (now : ℕ) (s : Loop) (total ahead : Bytes)
      → total ++ ahead ≡ final
      → (v : Live w host total d s.connection s.handled)
      → Moves w host total
          (Cond d s.connection v.frames)
          (rank w host total v)
          (turn_at w host d now none s)
  turn-Moves testing now s total ahead e v = test_loop-Moves w host total s v
  turn-Moves (receiving ph) now s total ahead e v = receiving-Moves w host total ph s v
  turn-Moves (handling m) now s total ahead e v =
      handling-Moves w host total m now s (fits-handling m now s total ahead e v) v
  turn-Moves (heading bytes r) now s total ahead e v = after_header-Moves w host total bytes r s v
  turn-Moves (sending r) now s total ahead e v = on_sent-Moves w host total r s v
  turn-Moves ended now s total ahead e v = absurd v.healthy

  pub turn-Standing :
      (now : ℕ) (s : Loop) (total ahead : Bytes)
      → total ++ ahead ≡ final
      → Standing w host total s
      → Standing w host total (turn w host now none s)
  unfolding turn
  turn-Standing now s total ahead e (inr x) =
      inr
        (subst (λ (d : Doing). Stopped w host total (turn_at w host d now none s)) (sym x.ended) x)
  turn-Standing now s total ahead e (inl v) = elim (turn-Moves s.doing now s total ahead e v) [
    | inl (v', g) ↦ inl v'
    | inr x ↦ inr x
  ]

  chunk-Standing :
      (bytes total : Bytes) (s : Loop)
      → Standing w host total s
      → Standing w host (total ++ bytes) (step w host s (happens (Connection.chunk bytes)))
  unfolding step Connection.step read_step
  chunk-Standing bytes total s (inl v) = inl (record {
    frames = v.frames;
    faithful = arrives-IsFaithful bytes total (reader s.doing s.connection v.frames) v.faithful;
    decodes = v.decodes;
    written =
        ap (λ (x : List Bytes). concat x ++ unsent s.doing) (on_data-written bytes s.connection)
        ∙ v.written;
    healthy = v.healthy;
  })
  chunk-Standing bytes total s (inr x) = inr (record {
    ended = x.ended;
    closed = on_data-destroyed bytes s.connection ∙ x.closed;
    requests = λ more. rw (append_assoc total bytes more) (x.requests (bytes ++ more));
    breaks = λ more. rw (append_assoc total bytes more) (x.breaks (bytes ++ more));
    written = ap concat (on_data-written bytes s.connection) ∙ x.written;
  })

  pub run-Standing :
      (es : List Event) (total : Bytes) (s : Loop)
      → All IsQuiet es
      → total ++ stream es ≡ final
      → Standing w host total s
      → Standing w host final (run w host s es)
  unfolding run
  run-Standing [] total s h e v =
      subst (λ (b : Bytes). Standing w host b s) (sym (append-nil total) ∙ e) v
  run-Standing (turns now none ∷ es) total s (_, h) e v =
      run-Standing es total (step w host s (turns now none)) h e
        (unfold step in turn-Standing now s total (stream es) e v)
  run-Standing (happens (Connection.chunk bytes) ∷ es) total s (_, h) e v =
      run-Standing es (total ++ bytes) (step w host s (happens (Connection.chunk bytes))) h
        (append_assoc total bytes (stream es) ∙ e) (chunk-Standing bytes total s v)
  run-Standing (turns now (some x) ∷ es) total s (q, h) e v = absurd q
  run-Standing (happens Connection.closes ∷ es) total s (q, h) e v = absurd q
  run-Standing (happens (Connection.fails x) ∷ es) total s (q, h) e v = absurd q
  run-Standing (happens (Connection.asks x) ∷ es) total s (q, h) e v = absurd q
  run-Standing (happens (Connection.sends x y) ∷ es) total s (q, h) e v = absurd q
  run-Standing (happens Connection.shuts ∷ es) total s (q, h) e v = absurd q
  run-Standing (happens Connection.hooks ∷ es) total s (q, h) e v = absurd q
