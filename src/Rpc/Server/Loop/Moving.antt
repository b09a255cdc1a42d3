-- ===== src/Rpc/Server/Loop/Moving.antt =====
-- How the turns of a serving loop move its connection.
use ibridger.Common.{
  ℕ, ◌≤◌, ◌≡◌, refl, ◌∙◌, ap, subst, sym, Option, List, [], ◌∷◌, ◌++◌, if-intro, ltb, length,
}
use ibridger.Common.Text.{Bytes}
use ibridger.Errors.{Result, ok, err}
use ibridger.Proto.Runtime.{Runtime}
use ibridger.Proto.WireConstant.{max_frame_size}
use ibridger.Proto.Envelope.{Envelope, encode}
use ibridger.Transport.Connection
use ibridger.Transport.Connection.{
  Connection, NodeError, init, send, close, Outcome, resolved, rejected, asks, sends, shuts,
}
use ibridger.Transport.Connection.Promises.{OnceInAll, step-OnceInAll}
use ibridger.Protocol.Framing.{Phase, header, body, finished, begin, resume, write_u32be, send_rest}
use ibridger.Protocol.Framing.Asking.{
  Asked, Asked-mono, Follows, Goes, begin-Goes, resume-Goes, step-next_promise,
}
use ibridger.Protocol.EnvelopeCodec.{on_frame}
use ibridger.Rpc.Server.Loop.{
  Host, dispatch_at, Doing, testing, receiving, handling, heading, sending, ended, Loop, Event,
  happens, turns, end_loop, on_request, begin_send, after_recv, test_loop, respond, turn_at, turn,
  step, run,
}

-- The promise that the loop awaits was made.
abbrev pub AskedBy : Doing → ℕ → Type 0
AskedBy (receiving ph) n = Asked ph n
AskedBy _ n = Unit {0}

AskedBy-mono : (d : Doing) (m n : ℕ) → m ≤ n → AskedBy d m → AskedBy d n
AskedBy-mono (receiving ph) m n le h = Asked-mono ph m n le h
AskedBy-mono testing m n le h = tt
AskedBy-mono (handling x) m n le h = tt
AskedBy-mono (heading b r) m n le h = tt
AskedBy-mono (sending r) m n le h = tt
AskedBy-mono ended m n le h = tt

-- Whatever happens, each promise made waits or is settled, and the loop awaits one that was made.
pub record IsSound (s : Loop) : Type 0 where
  pub once : (p : ℕ) → OnceInAll p s.connection
  pub asked : AskedBy s.doing s.connection.next_promise

run-OnceInAll :
    (p : ℕ) (es : List Connection.Event) (c : Connection)
    → OnceInAll p c
    → OnceInAll p (Connection.run c es)
unfolding Connection.run
run-OnceInAll p [] c h = h
run-OnceInAll p (e ∷ es) c h = run-OnceInAll p es (Connection.step c e) (step-OnceInAll p c e h)

-- A turn moves the connection by calls of its methods.
abbrev pub Turns : Loop → Loop → Type 0
Turns s t = Follows s.connection t.connection × AskedBy t.doing t.connection.next_promise

send-Follows :
    (bytes : Bytes) (fault : Option NodeError) (c : Connection) → Follows c (send bytes fault c).0
unfolding Connection.run Connection.step
send-Follows bytes fault c = (sends bytes fault ∷ [], refl)

send_rest-Follows :
    (bytes : Bytes) (fault : Option NodeError) (c : Connection)
    → Follows c (send_rest bytes fault c).0
unfolding send_rest Connection.run
send_rest-Follows bytes fault c =
    if-intro (λ (q : Connection × Result (Unit {0})). Follows c q.0) (ltb 0 (length bytes)) _ _
      (λ _. send-Follows bytes fault c) (λ _. ([], refl))

run-append :
    (es fs : List Connection.Event) (c : Connection)
    → Connection.run (Connection.run c es) fs ≡ Connection.run c (es ++ fs)
unfolding Connection.run
run-append [] fs c = refl
run-append (e ∷ es) fs c = run-append es fs (Connection.step c e)

-- The end of the loop closes the connection.
Follows-close : (c d : Connection) → Follows c d → Follows c (close d)
unfolding Connection.run Connection.step
Follows-close c d (es, e) = (es ++ shuts ∷ [], ap close e ∙ run-append es (shuts ∷ []) c)

end_loop-Turns : (s t : Loop) → Follows s.connection t.connection → Turns s (end_loop t)
unfolding end_loop
end_loop-Turns s t f = (Follows-close s.connection t.connection f, tt)

same : (c : Connection) → Follows c c
unfolding Connection.run
same c = ([], refl)

module _ (w : Runtime) (host : Host) where
  on_request-Turns :
      (r : Result Envelope) (s t : Loop)
      → Follows s.connection t.connection
      → Turns s (on_request r t)
  on_request-Turns (ok m) s t f = (f, tt)
  on_request-Turns (err e) s t f = end_loop-Turns s t f

  after_recv-Turns :
      (q : Phase × Connection) (s : Loop) → Goes s.connection q → Turns s (after_recv w q s)
  unfolding after_recv
  after_recv-Turns (finished r, c) s (f, a) =
      on_request-Turns (on_frame w r) s (record s { connection = c }) f
  after_recv-Turns (header p, c) s (f, a) = (f, a)
  after_recv-Turns (body p n, c) s (f, a) = (f, a)

  pub turn-Turns :
      (d : Doing) (now : ℕ) (fault : Option NodeError) (s : Loop)
      → AskedBy d s.connection.next_promise
      → s.doing ≡ d
      → Turns s (turn_at w host d now fault s)
  unfolding test_loop respond begin_send
  turn-Turns testing now fault s a e =
      if-intro (Turns s) s.connection.connected _ _
        (λ _. after_recv-Turns (begin s.connection) s (begin-Goes s.connection))
        (λ _. end_loop-Turns s s (same s.connection))
  turn-Turns (receiving ph) now fault s a e =
      after_recv-Turns (resume ph s.connection) s (resume-Goes ph s.connection a)
  turn-Turns (handling m) now fault s a e =
      let bytes = encode w (dispatch_at host now m) in
      let t : Loop = record s { handled = s.handled ++ (now, m) ∷ [] } in
      if-intro (Turns s) (ltb max_frame_size (length bytes)) _ _
        (λ _. end_loop-Turns s t (same s.connection))
        (λ _. (send-Follows (write_u32be (length bytes)) fault s.connection, tt))
  turn-Turns (heading bytes (ok _)) now fault s a e =
      (send_rest-Follows bytes fault s.connection, tt)
  turn-Turns (heading bytes (err x)) now fault s a e = end_loop-Turns s s (same s.connection)
  turn-Turns (sending (ok _)) now fault s a e = (same s.connection, tt)
  turn-Turns (sending (err x)) now fault s a e = end_loop-Turns s s (same s.connection)
  turn-Turns ended now fault s a e =
      (same s.connection, subst (λ (d : Doing). AskedBy d s.connection.next_promise) (sym e) tt)

  pub step-IsSound : (e : Event) (s : Loop) → IsSound s → IsSound (step w host s e)
  unfolding step turn
  step-IsSound (happens x) s v = record {
    once = λ p. step-OnceInAll p s.connection x (v.once p);
    asked = AskedBy-mono s.doing _ _ (step-next_promise s.connection x) v.asked;
  }
  step-IsSound (turns now fault) s v =
      let ((es, f), a) = turn-Turns s.doing now fault s v.asked refl in
      record {
        once = λ p. subst (OnceInAll p) (sym f) (run-OnceInAll p es s.connection (v.once p));
        asked = a;
      }

  pub run-IsSound_from : (es : List Event) (s : Loop) → IsSound s → IsSound (run w host s es)
  unfolding run
  run-IsSound_from [] s v = v
  run-IsSound_from (e ∷ es) s v = run-IsSound_from es (step w host s e) (step-IsSound e s v)
