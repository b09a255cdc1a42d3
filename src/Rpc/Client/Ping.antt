-- ===== src/Rpc/Client/Ping.antt =====
-- sdk/js/src/rpc/client.ts: `ping`, as the arguments that it hands to `call`.
use ibridger.Common.{ℕ, Option, List}
use ibridger.Common.Text.{Text, codes}
use ibridger.Errors.{ok}
use ibridger.Proto.Runtime.{Runtime}
use ibridger.Proto.Ping
use ibridger.Proto.Pong
use ibridger.Proto.Pong.{Pong}
use ibridger.Rpc.Client.{Call}

-- `ping(options)`, with the options' timeout and metadata.
abbrev pub ping_call : Runtime → Option ℕ → Option (List (Text × Text)) → Call Pong
ping_call w timeout metadata = record {
  service = codes "ibridger.Ping";
  method = codes "Ping";
  encoded = ok (Ping.encode w Ping.empty);
  decode = Pong.decode w;
  timeout = timeout;
  metadata = metadata;
}
