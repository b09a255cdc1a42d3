-- ===== src/Transport/Connection.antt =====
-- sdk/js/src/transport/unix-socket.ts: `UnixSocketConnection`. The socket's events and the calls of
-- the methods are the events of one run; what the code does with a promise is logged.
pub mod Stream
pub mod Promises
pub mod Closing
use ibridger.Common.{
  ℕ, suc, ◌+◌, Bool, true, false, Option, none, some, List, [], ◌∷◌, ◌++◌, ltb, leb, if◌then◌else◌,
  length, take, drop, get_or_else,
}
use ibridger.Common.Text.{Text, Bytes, codes}
use ibridger.Errors.{Thrown, transport, Result, ok, err}

-- An entry of `waiters`: `promise` stands for the pair of callbacks.
pub record Waiter : Type 0 where
  pub need : ℕ
  pub promise : ℕ

pub data Outcome : Type 0 where
  resolved : Bytes → Outcome
  rejected : Thrown → Outcome

-- The promise of a call of `recv`, the length that it asked for, and how it was settled.
pub record Settlement : Type 0 where
  pub promise : ℕ
  pub need : ℕ
  pub outcome : Outcome

-- `hook` says whether `onDisconnect` is set, and `disconnects` counts its calls. `next_promise`
-- numbers the calls of `recv`, and `settled` lists their settlements, the oldest first.
pub record Connection : Type 0 where
  pub buffer : Bytes
  pub connected : Bool
  pub waiters : List Waiter
  pub hook : Bool
  pub disconnects : ℕ
  pub destroyed : Bool
  pub written : List Bytes
  pub next_promise : ℕ
  pub settled : List Settlement

unfoldable pub init : Connection
init = record {
  buffer = [];
  connected = true;
  waiters = [];
  hook = false;
  disconnects = 0;
  destroyed = false;
  written = [];
  next_promise = 0;
  settled = [];
}

-- `UnixSocketConnection.fromSocket`
abbrev from_socket : Connection
from_socket = init

-- `UnixSocketConnection.connect`, given which of the two callbacks runs first: that of
-- `net.createConnection`, or the listener of 'error' with the error. The promise is settled by it.
abbrev connect : Result (Unit {0}) → Result Connection
connect (ok _) = ok from_socket
connect (err e) = err e

abbrev pub settle : ℕ → ℕ → Outcome → Connection → Connection
settle promise need outcome c = record c {
  settled = c.settled ++ record { promise = promise; need = need; outcome = outcome } ∷ [];
}

-- `splice`, and the promise that its result goes to.
unfoldable pub splice : ℕ → ℕ → Connection → Connection
splice promise n c =
    settle promise n (resolved (take n c.buffer)) (record c { buffer = drop n c.buffer })

-- The loop of `drainWaiters` over the waiters that are left.
unfoldable pub drain_loop : List Waiter → Connection → Connection
unfolding splice
drain_loop [] c = record c { waiters = [] }
drain_loop (w ∷ ws) c =
    let rest = drain_loop ws (splice w.promise w.need c) in
    if ltb (length c.buffer) w.need then record c { waiters = w ∷ ws } else rest

unfoldable pub drain_waiters : Connection → Connection
unfolding drain_loop
drain_waiters c = drain_loop c.waiters c

-- The handler of 'data'.
unfoldable pub on_data : Bytes → Connection → Connection
unfolding drain_waiters
on_data chunk c = drain_waiters (record c { buffer = c.buffer ++ chunk })

-- `for (const w of this.waiters) w.reject(err)`
unfoldable pub reject_all : Thrown → List Waiter → Connection → Connection
reject_all e [] c = c
reject_all e (w ∷ ws) c = reject_all e ws (settle w.promise w.need (rejected e) c)

abbrev pub closed_error : Thrown
closed_error = transport (codes "Connection closed") (codes "ECONNRESET")

-- `this.onDisconnect?.()`
abbrev call_hook : Connection → Connection
call_hook c = record c { disconnects = if c.hook then suc c.disconnects else c.disconnects }

-- What the handlers of 'close' and 'error' share.
unfoldable pub fail_with : Thrown → Connection → Connection
unfolding reject_all
fail_with e c =
    call_hook (record (reject_all e c.waiters (record c { connected = false })) { waiters = [] })

unfoldable pub on_close : Connection → Connection
unfolding fail_with
on_close c = fail_with closed_error c

-- A Node error: its message, and its code where it has one.
pub record NodeError : Type 0 where
  pub text : Text
  pub code : Option Text

abbrev pub transport_of : NodeError → Thrown
transport_of e = transport e.text (get_or_else e.code (codes "EUNKNOWN"))

unfoldable pub on_error : NodeError → Connection → Connection
unfolding fail_with
on_error e c = fail_with (transport_of e) c

-- `recv`: the call's promise is `c.next_promise`.
unfoldable pub recv : ℕ → Connection → Connection
unfolding splice
recv n c =
    let p = c.next_promise in
    let c' = record c { next_promise = suc p } in
    if leb n (length c.buffer)
    then splice p n c'
    else (if c.connected
        then record c' { waiters = c.waiters ++ record { need = n; promise = p } ∷ [] }
        else settle p n (rejected closed_error) c')

-- `send`. `fault` is what `socket.write` hands to its callback.
unfoldable pub send : Bytes → Option NodeError → Connection → Connection × Result (Unit {0})
send bytes fault c =
    if c.connected
    then (
      record c { written = c.written ++ bytes ∷ [] },
      elim fault [ none ↦ ok tt | some e ↦ err (transport_of e) ],
    )
    else (c, err (transport (codes "Not connected") (codes "ENOTCONN")))

unfoldable pub close : Connection → Connection
close c = record c { connected = false; destroyed = true }

unfoldable pub is_connected : Connection → Bool
is_connected c = c.connected

-- What can happen to a connection: an event of the socket, a call of a method, or the hook's set.
pub data Event : Type 0 where
  chunk : Bytes → Event
  closes : Event
  fails : NodeError → Event
  asks : ℕ → Event
  sends : Bytes → Option NodeError → Event
  shuts : Event
  hooks : Event

unfoldable pub step : Connection → Event → Connection
unfolding on_data on_close on_error recv send close
step c (chunk bytes) = on_data bytes c
step c closes = on_close c
step c (fails e) = on_error e c
step c (asks n) = recv n c
step c (sends bytes fault) = (send bytes fault c).0
step c shuts = close c
step c hooks = record c { hook = true }

unfoldable pub run : Connection → List Event → Connection
unfolding step
run c [] = c
run c (e ∷ es) = run (step c e) es
