-- ===== src/Protocol/EnvelopeCodec.antt =====
-- sdk/js/src/protocol/envelope-codec.ts: `EnvelopeCodec`. `recv` goes on from the end of `recvFrame`.
use ibridger.Common.{Option, List, ◌++◌}
use ibridger.Common.Text.{Bytes, codes}
use ibridger.Errors.{Thrown, transport, message, Result, ok, err}
use ibridger.Proto.Runtime.{Runtime}
use ibridger.Proto.Envelope.{Envelope, encode, decode}
use ibridger.Transport.Connection.{Connection, Event, NodeError}
use ibridger.Protocol.Framing.{send_frame}

abbrev pub undecodable : Thrown → Thrown
undecodable e = transport (codes "Failed to decode Envelope: " ++ message e) (codes "EBADMSG")

module _ (w : Runtime) where
  unfoldable pub send :
      Envelope
      → Option NodeError
      → List Event
      → Option NodeError
      → Connection
      → Connection × Result (Unit {0})
  send envelope = send_frame (encode w envelope)

  -- The `try` around `Envelope.decode`.
  unfoldable pub envelope_of : Result Envelope → Result Envelope
  envelope_of (ok envelope) = ok envelope
  envelope_of (err e) = err (undecodable e)

  -- `recv`, given what `recvFrame` ended with.
  unfoldable pub on_frame : Result Bytes → Result Envelope
  unfolding envelope_of
  on_frame (ok frame) = envelope_of (decode w frame)
  on_frame (err e) = err e
