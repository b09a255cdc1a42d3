-- ===== src/Protocol/Framing/Receiving/Wire.antt =====
-- A stream of whole frames, as `sendFrame` of sdk/js/src/protocol/framing.ts writes them.
use ibridger.Common.{
  ℕ, ◌+◌, ◌*◌, ◌≤◌, ◌≡◌, refl, ◌∙◌, ap, arith, none, List, [], ◌∷◌, ◌++◌, length, append_assoc, All,
}
use ibridger.Common.Text.{Bytes}
use ibridger.Proto.WireConstant.{max_frame_size}
use ibridger.Protocol.Framing.{write_u32be}
use ibridger.Protocol.Framing.Sending.{frame_bytes}
use ibridger.Protocol.Framing.Header.{length-write_u32be, read-write_u32be}
use ibridger.Protocol.Framing.Parsing.{
  Parsed, frames_of, cut_frame, prepend, frames_of-short, frames_of-step, cut_frame-header,
  cut_length-fits, cut-body,
}
use ibridger.Protocol.Framing.Receiving.{Event, stream, run, new_receiver}
use ibridger.Protocol.Framing.Receiving.Complete.{some_turns, run-IsComplete}

-- The frames on the wire, one behind the other.
abbrev pub wire : List Bytes → Bytes
wire [] = []
wire (f ∷ fs) = frame_bytes f ++ wire fs

pub wire-append : (fs gs : List Bytes) → wire (fs ++ gs) ≡ wire fs ++ wire gs
wire-append [] gs = refl
wire-append (f ∷ fs) gs = rw (wire-append fs gs, append_assoc (frame_bytes f) (wire fs) (wire gs))

pub frames_of-wire :
    (fs : List Bytes)
    → All (λ f. length f ≤ max_frame_size) fs
    → frames_of (wire fs) ≡ record { frames = fs; refused = none }
frames_of-wire [] h = frames_of-short [] (omega arith)
frames_of-wire (f ∷ fs) (le, h) =
    let n = length f in
    frames_of-step (wire (f ∷ fs))
    ∙ ap (cut_frame frames_of) (append_assoc (write_u32be n) f (wire fs))
    ∙ cut_frame-header frames_of (write_u32be n) (f ++ wire fs) n (length-write_u32be n)
        (read-write_u32be n (omega arith))
    ∙ cut_length-fits frames_of n (f ++ wire fs) le
    ∙ cut-body frames_of f (wire fs) n refl
    ∙ ap (prepend (f ∷ [])) (frames_of-wire fs h)

-- A reader that calls `recvFrame` again and again, on a new connection that it alone reads and
-- whose socket brings whole frames of at most MAX_FRAME_SIZE bytes as `sendFrame` writes them, has
-- been given exactly those frames, in order, after three turns for each byte of the stream and
-- three more, however the stream was cut into chunks and whatever turns the reader took between
-- them.
pub run-wire :
    (fs : List Bytes) (es : List Event) (k : ℕ)
    → All (λ f. length f ≤ max_frame_size) fs
    → stream es ≡ wire fs
    → 3 * length (stream es) + 3 ≤ k
    → (run (run new_receiver es) (some_turns k)).frames ≡ fs
run-wire fs es k h e le =
    (run-IsComplete es k le).frames
    ∙ ap (λ (b : Bytes). (frames_of b).frames) e
    ∙ ap (λ (p : Parsed). p.frames) (frames_of-wire fs h)
