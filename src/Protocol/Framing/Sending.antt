-- ===== src/Protocol/Framing/Sending.antt =====
-- What `sendFrame` writes.
use ibridger.Common.{
  ◌<◌, ◌≤◌, ◌≡◌, refl, sym, ap, ◌∙◌, arith, true, none, List, [], ◌∷◌, ◌++◌, append-nil,
  append_assoc, length, concat, le→ltb, lt→ltb,
}
use ibridger.Common.Text.{Bytes, codes}
use ibridger.Errors.{ok, err, transport}
use ibridger.Transport.Connection.{Connection, Event, run, send}
use ibridger.Proto.WireConstant.{max_frame_size}
use ibridger.Protocol.Framing.{write_u32be, send_frame, send_rest, after_header, too_large}

-- A frame on the wire.
abbrev pub frame_bytes : Bytes → Bytes
frame_bytes bytes = write_u32be (length bytes) ++ bytes

pub concat-append : (xs ys : List Bytes) → concat (xs ++ ys) ≡ concat xs ++ concat ys
concat-append [] ys = refl
concat-append (x ∷ xs) ys = rw (concat-append xs ys, append_assoc x (concat xs) (concat ys))

-- The connection after a write.
abbrev pub wrote : Bytes → Connection → Connection
wrote bytes c = record c { written = c.written ++ bytes ∷ [] }

pub send-ok :
    (bytes : Bytes) (c : Connection)
    → c.connected ≡ true
    → send bytes none c ≡ (wrote bytes c, ok tt)
unfolding send
send-ok bytes c h = ground arith

send_frame_steps :
    (bytes : Bytes) (between : List Event) (c : Connection)
    → length bytes ≤ max_frame_size
    → c.connected ≡ true
    → send_frame bytes none between none c
      ≡ send_rest bytes none (run (wrote (write_u32be (length bytes)) c) between)
unfolding send_frame
send_frame_steps bytes between c h k =
    rw (le→ltb max_frame_size (length bytes) h)
      (ap (after_header bytes between none) (send-ok (write_u32be (length bytes)) c k))

send_rest_lem :
    (bytes : Bytes) (c : Connection)
    → c.connected ≡ true
    → ((send_rest bytes none c).1 ≡ ok tt)
      × (concat (send_rest bytes none c).0.written ≡ concat c.written ++ bytes)
unfolding send_rest
send_rest_lem [] c h = (refl, sym (append-nil (concat c.written)))
send_rest_lem (x ∷ xs) c h =
    rw (lt→ltb 0 (length (x ∷ xs)) (omega arith), send-ok (x ∷ xs) c h)
      (refl, concat-append c.written ((x ∷ xs) ∷ []) ∙ rw (append-nil (x ∷ xs)))

-- The second write of a frame, in one piece where there is something to write.
pub send_rest-wrote :
    (bytes : Bytes) (c : Connection)
    → c.connected ≡ true
    → (x : List Bytes) × (send_rest bytes none c ≡ (record c { written = x }, ok tt))
      × (concat x ≡ concat c.written ++ bytes)
unfolding send_rest
send_rest-wrote [] c h = (c.written, refl, sym (append-nil (concat c.written)))
send_rest-wrote (b ∷ bs) c h = (
  c.written ++ (b ∷ bs) ∷ [],
  rw (lt→ltb 0 (length (b ∷ bs)) (omega arith)) (send-ok (b ∷ bs) c h),
  concat-append c.written ((b ∷ bs) ∷ []) ∙ rw (append-nil (b ∷ bs)),
)

-- What a frame's second part is written to: the connection after the header and what came between.
abbrev pub midway : Bytes → List Event → Connection → Connection
midway bytes between c = run (wrote (write_u32be (length bytes)) c) between

-- The wait for the header's write did no harm: the connection lives, and nobody else has written.
pub record IsUndisturbed (bytes : Bytes) (between : List Event) (c : Connection) : Type 0 where
  pub connected : c.connected ≡ true
  pub alive : (midway bytes between c).connected ≡ true
  pub alone : (midway bytes between c).written ≡ c.written ++ write_u32be (length bytes) ∷ []

-- While the connection lives, no write fails and nobody else writes, `sendFrame` succeeds on up to
-- MAX_FRAME_SIZE bytes and has then written the frame, header first, behind what was written
-- before; on more it is refused with EMSGSIZE and nothing is written.
pub send_frame_lem :
    (bytes : Bytes) (between : List Event) (c : Connection)
    → IsUndisturbed bytes between c
    → (length bytes ≤ max_frame_size
        → ((send_frame bytes none between none c).1 ≡ ok tt)
          × (concat (send_frame bytes none between none c).0.written
              ≡ concat c.written ++ frame_bytes bytes))
      × (max_frame_size < length bytes
          → send_frame bytes none between none c ≡ (
            c,
            err (
                transport
                  (too_large (codes "Frame too large: ") (length bytes))
                  (codes "EMSGSIZE")),
          ))
send_frame_lem bytes between c u = (
  λ h. rw (send_frame_steps bytes between c h u.connected) (
    (send_rest_lem bytes (midway bytes between c) u.alive).0,
    (send_rest_lem bytes (midway bytes between c) u.alive).1
        ∙ rw (u.alone, concat-append c.written (write_u32be (length bytes) ∷ []), append-nil)
            (append_assoc (concat c.written) (write_u32be (length bytes)) bytes),
  ),
  λ h. unfold send_frame in rw (lt→ltb max_frame_size (length bytes) h) refl,
)
