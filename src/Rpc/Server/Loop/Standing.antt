-- ===== src/Rpc/Server/Loop/Standing.antt =====
-- How a serving loop of sdk/js/src/rpc/server.ts stands to the bytes that its connection brought.
use ibridger.Common.{
  ℕ, ◌*◌, ◌+◌, ◌≡◌, ◌⊎◌, refl, ap, arith, true, Option, none, some, List, [], ◌∷◌, ◌++◌, length,
  concat, map, ◌<◌,
}
use ibridger.Common.Text.{Bytes}
use ibridger.Errors.{Thrown, ok, err}
use ibridger.Proto.Runtime.{Runtime}
use ibridger.Proto.Envelope.{Envelope, encode, decode}
use ibridger.Transport.Connection.{Connection}
use ibridger.Transport.Connection
use ibridger.Protocol.Framing.{Phase, header, finished}
use ibridger.Protocol.Framing.Parsing.{Parsed, frames_of}
use ibridger.Protocol.Framing.Receiving.{Receiver, IsFaithful}
use ibridger.Protocol.Framing.Receiving.Wire.{wire}
use ibridger.Rpc.Server.Loop.{
  Host, dispatch_at, Doing, testing, receiving, handling, heading, sending, ended, Loop, Event,
  happens, turns,
}

-- Chunks arrive, the loop gets on and no write fails.
abbrev pub IsQuiet : Event → Type 0
IsQuiet (happens (Connection.chunk bytes)) = Unit {0}
IsQuiet (turns now none) = Unit {0}
IsQuiet _ = ⊥

-- The bytes that the events bring.
abbrev pub stream : List Event → Bytes
stream [] = []
stream (happens (Connection.chunk bytes) ∷ es) = bytes ++ stream es
stream (_ ∷ es) = stream es

abbrev pub requests_of : List (ℕ × Envelope) → List Envelope
requests_of handled = map (λ h. h.1) handled

module _ (w : Runtime) where
  -- The envelopes of the frames, up to the first that does not decode.
  abbrev pub decoded : List Bytes → List Envelope
  decoded [] = []
  decoded (f ∷ fs) = elim (decode w f) [ ok m ↦ m ∷ decoded fs | err e ↦ [] ]

  -- Each frame decodes to its envelope.
  abbrev pub Decode : List Bytes → List Envelope → Type 0
  Decode [] [] = Unit {0}
  Decode (f ∷ fs) (m ∷ ms) = (decode w f ≡ ok m) × Decode fs ms
  Decode _ _ = ⊥

  -- There is a frame that does not decode, or one that is too large.
  abbrev pub Breaks : Parsed → Type 0
  Breaks p = (length (decoded p.frames) < length p.frames) ⊎ ((n : ℕ) × (p.refused ≡ some n))

  abbrev pub IsWhole : Parsed → Type 0
  IsWhole p = (length (decoded p.frames) ≡ length p.frames) × (p.refused ≡ none)

  abbrev pub responses : Host → List (ℕ × Envelope) → List Bytes
  responses host handled = map (λ (now, request). encode w (dispatch_at host now request)) handled

-- The request that is being handled, and the payload whose header was written.
abbrev pub pending : Doing → List Envelope
pending (handling request) = request ∷ []
pending _ = []

abbrev pub unsent : Doing → Bytes
unsent (heading bytes result) = bytes
unsent _ = []

-- The loop has not ended, and no write has failed.
abbrev pub Healthy : Doing → Type 0
Healthy (receiving (finished r)) = ⊥
Healthy (heading bytes (err e)) = ⊥
Healthy (sending (err e)) = ⊥
Healthy ended = ⊥
Healthy _ = Unit {0}

abbrev pub task_of : Doing → Option Phase
task_of (receiving ph) = some ph
task_of _ = none

-- The loop as a reader of frames.
abbrev pub reader : Doing → Connection → List Bytes → Receiver
reader d c frames = record { task = task_of d; connection = c; frames = frames }

module _ (w : Runtime) (host : Host) (total : Bytes) where
  -- All frames so far were taken up, and the requests handled have been answered.
  pub record Live (d : Doing) (c : Connection) (handled : List (ℕ × Envelope)) : Type 0 where
    pub frames : List Bytes
    pub faithful : IsFaithful total (reader d c frames)
    pub decodes : Decode w frames (requests_of handled ++ pending d)
    pub written : concat c.written ++ unsent d ≡ wire (responses w host handled)
    pub healthy : Healthy d

  -- The loop has ended at a frame, whatever follows it.
  pub record Stopped (s : Loop) : Type 0 where
    pub ended : s.doing ≡ ended
    pub closed : s.connection.destroyed ≡ true
    pub requests :
        (more : Bytes) → decoded w (frames_of (total ++ more)).frames ≡ requests_of s.handled
    pub breaks : (more : Bytes) → Breaks w (frames_of (total ++ more))
    pub written : concat s.connection.written ≡ wire (responses w host s.handled)

  abbrev pub Standing : Loop → Type 0
  Standing s = Live s.doing s.connection s.handled ⊎ Stopped s

-- How far the loop is from one frame to the next.
abbrev pub place : Doing → ℕ
place (handling request) = 0
place (heading bytes result) = 1
place (sending result) = 2
place testing = 3
place (receiving (header p)) = 4
place (receiving ph) = 5
place ended = 6

module _ (w : Runtime) (host : Host) (total : Bytes) where
  abbrev pub rank :
      {d : Doing} {c : Connection} {handled : List (ℕ × Envelope)}
      → Live w host total d c handled
      → ℕ
  rank {d} v = 6 * length v.frames + place d

  -- The loop has ended, or it lives and, under a condition, is further than `n`.
  abbrev pub Moves : Type 0 → ℕ → Loop → Type 0
  Moves C n s =
      ((v : Live w host total s.doing s.connection s.handled) × (C → n < rank v))
      ⊎ Stopped w host total s

module _ (w : Runtime) where
  pub decoded-append :
      (fs gs : List Bytes) (ms : List Envelope)
      → Decode w fs ms
      → decoded w (fs ++ gs) ≡ ms ++ decoded w gs
  decoded-append [] gs [] h = refl
  decoded-append [] gs (m ∷ ms) h = absurd h
  decoded-append (f ∷ fs) gs [] h = absurd h
  decoded-append (f ∷ fs) gs (m ∷ ms) (e, h) =
      rw (e, decoded) (ap (◌∷◌ m) (decoded-append fs gs ms h))

  pub Decode-append :
      (fs gs : List Bytes) (ms ns : List Envelope)
      → Decode w fs ms
      → Decode w gs ns
      → Decode w (fs ++ gs) (ms ++ ns)
  Decode-append [] gs [] ns h k = k
  Decode-append [] gs (m ∷ ms) ns h k = absurd h
  Decode-append (f ∷ fs) gs [] ns h k = absurd h
  Decode-append (f ∷ fs) gs (m ∷ ms) ns (e, h) k = (e, Decode-append fs gs ms ns h k)

  pub length-Decode :
      (fs : List Bytes) (ms : List Envelope) → Decode w fs ms → length fs ≡ length ms
  length-Decode [] [] h = refl
  length-Decode [] (m ∷ ms) h = absurd h
  length-Decode (f ∷ fs) [] h = absurd h
  length-Decode (f ∷ fs) (m ∷ ms) (e, h) = omega (arith, length-Decode fs ms h)

  pub decoded-bad :
      (f : Bytes) (gs : List Bytes) (x : Thrown) → decode w f ≡ err x → decoded w (f ∷ gs) ≡ []
  decoded-bad f gs x e = rw (e, decoded) refl
