-- ===== src/Transport/Listener.antt =====
-- sdk/js/src/transport/unix-socket-server.ts: `UnixSocketServer`. The server of `net` and the file
-- system are outside; their callbacks are calls of `on_listening` and `on_closed`.
use ibridger.Common.{ℕ, suc, Bool, true, false}

-- Whether `server` is set, `_isListening`, and how often the socket's file was unlinked.
pub record Listener : Type 0 where
  pub server : Bool
  pub is_listening : Bool
  pub unlinks : ℕ

abbrev pub new_listener : Listener
new_listener = record { server = false; is_listening = false; unlinks = 0 }

-- `listen`, up to the promise that the callback settles.
unfoldable pub listen : Listener → Listener
listen l = record l { server = true; unlinks = suc l.unlinks }

-- The callback of `server.listen`, which resolves the promise of `listen`.
unfoldable pub on_listening : Listener → Listener
on_listening l = record l { is_listening = true }

-- `close`, up to the promise that the callback settles; without a server it is resolved at once.
unfoldable pub close : Listener → Listener
close l = record l { is_listening = false }

-- The callback of `server.close`.
unfoldable pub on_closed : Listener → Listener
on_closed l = record l { unlinks = suc l.unlinks }
