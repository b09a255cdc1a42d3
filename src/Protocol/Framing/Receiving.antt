-- ===== src/Protocol/Framing/Receiving.antt =====
-- A reader that calls `recvFrame` of sdk/js/src/protocol/framing.ts again and again, on a connection
-- that it alone reads. Chunks of the stream and turns of the reader come in any order.
pub mod Faithful
pub mod Complete
pub mod Wire
use ibridger.Common.{
  ℕ, zero, suc, ◌+◌, ◌*◌, ◌≤◌, ◌<◌, ◌≡◌, refl, ◌∙◌, sym, ap, arith, Bool, true, false, Option, none,
  some, List, [], ◌∷◌, ◌++◌, ltb, ◌==◌, if◌then◌else◌, length, append_assoc, append-nil, replicate,
}
use ibridger.Common.Text.{Bytes, codes}
use ibridger.Errors.{Thrown, transport, Result, ok, err}
use ibridger.Proto.WireConstant.{max_frame_size}
use ibridger.Transport.Connection.{Connection, init, on_data}
use ibridger.Protocol.Framing.{Phase, header, body, finished, begin, resume, too_large}
use ibridger.Protocol.Framing.Parsing.{Parsed, frames_of, cut, prepend}
use ibridger.Protocol.Framing.Pending.{IsIdle, IsPending}

-- `task` is the call under way, and `frames` what the calls before it gave.
pub record Receiver : Type 0 where
  pub task : Option Phase
  pub connection : Connection
  pub frames : List Bytes

unfoldable pub new_receiver : Receiver
new_receiver = record { task = none; connection = init; frames = [] }

unfoldable pub settle_task : Phase × Connection → Receiver → Receiver
settle_task (finished (ok frame), c) r = record r {
  task = none;
  connection = c;
  frames = r.frames ++ frame ∷ [];
}
settle_task (finished (err e), c) r = record r { task = some (finished (err e)); connection = c }
settle_task (header p, c) r = record r { task = some (header p); connection = c }
settle_task (body p n, c) r = record r { task = some (body p n); connection = c }

call : Phase × Connection → Receiver → Receiver
call (ph, c) r = record r { task = some ph; connection = c }

turn_task : Option Phase → Receiver → Receiver
unfolding settle_task call
turn_task none r = call (begin r.connection) r
turn_task (some ph) r = settle_task (resume ph r.connection) r

-- The reader's next step: a new call, or the call under way going on where it can.
unfoldable pub turn : Receiver → Receiver
unfolding turn_task
turn r = turn_task r.task r

pub data Event : Type 0 where
  arrives : Bytes → Event
  turns : Event

unfoldable pub step : Receiver → Event → Receiver
unfolding turn
step r (arrives chunk) = record r { connection = on_data chunk r.connection }
step r turns = turn r

unfoldable pub run : Receiver → List Event → Receiver
unfolding step
run r [] = r
run r (e ∷ es) = run (step r e) es

-- The stream that the events bring.
abbrev pub stream : List Event → Bytes
stream [] = []
stream (arrives chunk ∷ es) = chunk ++ stream es
stream (turns ∷ es) = stream es

abbrev pub refusal : ℕ → Thrown
refusal n = transport (too_large (codes "Incoming frame too large: ") n) (codes "EMSGSIZE")

-- What the bytes in `left`, which no finished call has taken, stand for.
pub data Follows (r : Receiver) (rest : Bytes → Parsed) (left : Bytes) : Type 0 where
  idles :
      r.task ≡ none
      → IsIdle r.connection
      → left ≡ r.connection.buffer
      → ((x : Bytes) → rest x ≡ frames_of x)
      → Follows r rest left
  at_header :
      (p : ℕ)
      → r.task ≡ some (header p)
      → IsPending p 4 left r.connection
      → ((x : Bytes) → rest x ≡ frames_of x)
      → Follows r rest left
  at_body :
      (p n : ℕ)
      → r.task ≡ some (body p n)
      → 0 < n
      → IsPending p n left r.connection
      → ((x : Bytes) → rest x ≡ cut frames_of n x)
      → Follows r rest left
  refuses :
      (n : ℕ)
      → r.task ≡ some (finished (err (refusal n)))
      → ((x : Bytes) → rest x ≡ record { frames = []; refused = some n })
      → Follows r rest left

-- The stream so far is the frames given and the bytes left, whatever comes behind it.
pub record IsFaithful (total : Bytes) (r : Receiver) : Type 0 where
  pub rest : Bytes → Parsed
  pub left : Bytes
  pub follows : Follows r rest left
  pub agrees : (more : Bytes) → frames_of (total ++ more) ≡ prepend r.frames (rest (left ++ more))
