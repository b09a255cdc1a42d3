-- ===== src/Rpc/Client/Session/Waiting.antt =====
-- sdk/js/src/rpc/client.ts: what becomes of a call that is made while the connection is lost.
use ibridger.Common.{
  ℕ, ◌+◌, ◌<◌, ◌≡◌, refl, ◌∙◌, ap, arith, true, false, some, List, [], ◌∷◌, ◌++◌, length,
}
use ibridger.Common.Text.{Bytes}
use ibridger.Errors.{ok}
use ibridger.Proto.Longs.{Longs}
use ibridger.Rpc.Client.{
  Call, Client, request_envelope, start_call, start_on, launch_encoded, launch,
}
use ibridger.Rpc.Client.Backoff.{ReconnectOptions, has_more}
use ibridger.Rpc.Client.Session.{returns, Session, Event, loses, calls, run}
use ibridger.Rpc.Client.Session.Trying.{
  IsCalm, Failure, failing, succeeding, has_more-le, lost, trying, trying-lose, trying-call,
  trying-connect, trying-failing,
}

module _ {T : Type 0} (l : Longs) (o : ReconnectOptions) where
  start_call-sent :
      (call : Call T) (conn : ℕ) (payload : Bytes) (c : Client T)
      → c.call_in_flight ≡ false
      → call.encoded ≡ ok payload
      → (start_call l call (record c { codec = some conn })).sent
        ≡ c.sent ++ (conn, request_envelope l call c.next_request_id payload) ∷ []
  unfolding start_call start_on launch_encoded launch
  start_call-sent call conn payload c free e = rw (free, e) refl

  waits :
      (before after : List Failure) (call : Call T) (es : List (Event T)) (s : Session T)
      → IsCalm s
      → ((j : ℕ) → j < length before + length after → has_more o.max_attempts j ≡ true)
      → run l (some o) s (loses returns ∷ failing before (calls call ∷ failing after es))
        ≡ run l (some o) (trying l o (length before + length after) (call ∷ []) (lost s)) es
  unfolding run
  waits before after call es s h k =
      ap (λ t. run l (some o) t (failing before (calls call ∷ failing after es)))
        (trying-lose l o s h)
      ∙ trying-failing l o before 0 [] (calls call ∷ failing after es) (lost s)
          (λ j a. k j (omega (arith, a)))
      ∙ ap (λ t. run l (some o) t (failing after es))
          (trying-call l o (0 + length before) call (lost s))
      ∙ trying-failing l o after (0 + length before) (call ∷ []) es (lost s)
          (λ j a. k j (omega (arith, a)))
      ∙ ap (λ n. run l (some o) (trying l o n (call ∷ []) (lost s)) es) (omega arith)

-- A call that is made after the loss of the connection, before any attempt of the loop of
-- `scheduleReconnect` or after some that failed, on a client with reconnection options and nothing
-- else under way, is sent on the connection that the first successful attempt opens, at the first
-- poll after that, whatever errors the attempts before it met and however many polls come during
-- the sleeps and the awaits of all the attempts, as long as `maxAttempts` allows the successful
-- one; the hooks return.
pub call-waits :
    {T : Type 0} (l : Longs) (o : ReconnectOptions) (s : Session T) (call : Call T)
    (payload : Bytes) (before after : List Failure) (p q conn : ℕ)
    → IsCalm s
    → call.encoded ≡ ok payload
    → has_more o.max_attempts (length before + length after) ≡ true
    → (run l (some o) s (
        loses returns
        ∷ failing before (calls call ∷ failing after (succeeding p q conn)))).client.sent
      ≡ s.client.sent ++ (conn, request_envelope l call s.client.next_request_id payload) ∷ []
call-waits l o s call payload before after p q conn h e more =
    ap (λ t. t.client.sent)
      (waits l o before after call (succeeding p q conn) s h (λ j a.
        has_more-le o.max_attempts j (length before + length after) (omega (arith, a)) more))
    ∙ ap (λ c. c.sent)
        (trying-connect l o (length before + length after) p q call conn (lost s) more)
    ∙ start_call-sent l o call conn payload s.client h.call_in_flight e
