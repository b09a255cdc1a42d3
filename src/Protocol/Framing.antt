-- ===== src/Protocol/Framing.antt =====
-- sdk/js/src/protocol/framing.ts: `FramedConnection`, with `writeUInt32BE` and `readUInt32BE` of
-- Node's `Buffer`. `recvFrame` is a coroutine: `Phase` says at which `await` it stands.
pub mod Header
pub mod Sending
pub mod Parsing
pub mod Pending
pub mod Receiving
pub mod Written
pub mod Asking
pub mod Overtaking
use ibridger.Common.{
  ℕ, ◌+◌, ◌*◌, ◌/◌, ◌%◌, ◌^◌, Option, none, some, List, [], ◌∷◌, ◌++◌, ltb, ◌==◌, if◌then◌else◌,
  length, Bool,
}
use ibridger.Common.Text.{Text, Bytes, codes, decimal}
use ibridger.Proto.WireConstant.{max_frame_size}
use ibridger.Errors.{transport, plain, Result, ok, err}
use ibridger.Transport.Connection.{
  Settlement, Outcome, resolved, rejected, NodeError, Connection, Event, recv, send, run,
}
use ibridger.Transport.Connection

-- `header.writeUInt32BE(n, 0)` on a buffer of 4 bytes, for n < 2^32.
unfoldable pub write_u32be : ℕ → Bytes
write_u32be n = n / 2 ^ 24 % 256 ∷ n / 2 ^ 16 % 256 ∷ n / 2 ^ 8 % 256 ∷ n % 256 ∷ []

-- `header.readUInt32BE(0)`, which throws on a shorter buffer.
unfoldable pub read_u32be : Bytes → Result ℕ
read_u32be (a ∷ b ∷ c ∷ d ∷ rest) = ok (a * 2 ^ 24 + b * 2 ^ 16 + c * 2 ^ 8 + d)
read_u32be _ = err (plain (codes "Attempt to access memory outside buffer bounds"))

abbrev pub too_large : Text → ℕ → Text
too_large what n = what ++ (decimal n ++ (codes " > " ++ decimal max_frame_size))

-- The second write of `sendFrame`, for a frame that is not empty.
unfoldable pub send_rest : Bytes → Option NodeError → Connection → Connection × Result (Unit {0})
send_rest bytes fault c = if ltb 0 (length bytes) then send bytes fault c else (c, ok tt)

-- `sendFrame` from its first `await` on; `between` is what happens to the connection during it.
unfoldable pub after_header :
    Bytes
    → List Event
    → Option NodeError
    → Connection × Result (Unit {0})
    → Connection × Result (Unit {0})
unfolding send_rest
after_header bytes between fault (c, err e) = (c, err e)
after_header bytes between fault (c, ok _) = send_rest bytes fault (run c between)

-- `sendFrame`; the faults are what the two writes end with.
unfoldable pub send_frame :
    Bytes
    → Option NodeError
    → List Event
    → Option NodeError
    → Connection
    → Connection × Result (Unit {0})
unfolding after_header
send_frame bytes header_fault between data_fault c =
    if ltb max_frame_size (length bytes)
    then (
      c,
      err (transport (too_large (codes "Frame too large: ") (length bytes)) (codes "EMSGSIZE")),
    )
    else after_header bytes between data_fault (send (write_u32be (length bytes)) header_fault c)

-- `header` awaits `recv(4)`, and `body` awaits `recv(length)`, by the promise's number.
pub data Phase : Type 0 where
  header : ℕ → Phase
  body : ℕ → ℕ → Phase
  finished : Result Bytes → Phase

-- A call of `recvFrame`, up to its first `await`.
unfoldable pub begin : Connection → Phase × Connection
begin c = (header c.next_promise, recv 4 c)

-- From the first `await` to the second, or to the end.
unfoldable pub on_header : Bytes → Connection → Phase × Connection
unfolding read_u32be
on_header bytes c = elim (read_u32be bytes) [
  | err e ↦ (finished (err e), c)
  | ok n ↦
      if ltb max_frame_size n
      then (
        finished
            (err (transport (too_large (codes "Incoming frame too large: ") n) (codes "EMSGSIZE"))),
        c,
      )
      else (if n == 0 then (finished (ok []), c) else (body c.next_promise n, recv n c))
]

-- How the promise was settled, if it was.
unfoldable pub outcome_of : ℕ → List Settlement → Option Outcome
outcome_of p [] = none
outcome_of p (s ∷ ss) = if s.promise == p then some s.outcome else outcome_of p ss

resume_header : ℕ → Option Outcome → Connection → Phase × Connection
unfolding on_header
resume_header p none c = (header p, c)
resume_header p (some (resolved bytes)) c = on_header bytes c
resume_header p (some (rejected e)) c = (finished (err e), c)

resume_body : ℕ → ℕ → Option Outcome → Connection → Phase × Connection
resume_body p n none c = (body p n, c)
resume_body p n (some (resolved bytes)) c = (finished (ok bytes), c)
resume_body p n (some (rejected e)) c = (finished (err e), c)

-- The coroutine goes on if the promise that it awaits is settled.
unfoldable pub resume : Phase → Connection → Phase × Connection
unfolding resume_header resume_body outcome_of
resume (header p) c = resume_header p (outcome_of p c.settled) c
resume (body p n) c = resume_body p n (outcome_of p c.settled) c
resume (finished r) c = (finished r, c)

-- `close` and `isConnected` are the connection's.
unfoldable pub close : Connection → Connection
close c = Connection.close c

unfoldable pub is_connected : Connection → Bool
is_connected c = Connection.is_connected c
