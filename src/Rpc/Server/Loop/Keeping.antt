-- ===== src/Rpc/Server/Loop/Keeping.antt =====
-- What the writing of a serving loop does to its standing.
use ibridger.Rpc.Server.Loop.Taking.{IsFaithful-IsIdle}
use ibridger.Common.{
  ℕ, ◌≤◌, ◌≡◌, inl, refl, ◌∙◌, sym, ap, subst, arith, none, List, [], ◌∷◌, ◌++◌, length, concat,
  map-append, append-nil, append_assoc, le→ltb,
}
use ibridger.Common.Text.{Bytes}
use ibridger.Errors.{Result, ok, err}
use ibridger.Proto.Runtime.{Runtime}
use ibridger.Proto.WireConstant.{max_frame_size}
use ibridger.Proto.Envelope.{Envelope, encode}
use ibridger.Transport.Connection.{Connection}
use ibridger.Protocol.Framing.{write_u32be}
use ibridger.Protocol.Framing.Sending.{concat-append, send-ok, send_rest-wrote, frame_bytes}
use ibridger.Protocol.Framing.Written.{written-IsFaithful}
use ibridger.Protocol.Framing.Parsing.{Parsed, frames_of}
use ibridger.Protocol.Framing.Receiving.Wire.{wire, wire-append}
use ibridger.Rpc.Server.Loop.{
  Host, dispatch_at, handling, heading, sending, Loop, on_sent, after_header, sent_body, respond,
  begin_send,
}
use ibridger.Rpc.Server.Loop.Standing.{
  requests_of, responses, decoded, Decode, reader, Live, rank, Moves, decoded-append,
}

module _ (w : Runtime) (host : Host) (total : Bytes) where
  abbrev Stands : Type 0 → ℕ → Loop → Type 0
  Stands = Moves w host total

  -- The request under way is among those of the stream.
  pub under_way :
      (m : Envelope) (s : Loop) (ahead : Bytes)
      → (v : Live w host total (handling m) s.connection s.handled)
      → (rest : List Envelope) × (decoded w (frames_of (total ++ ahead)).frames
          ≡ requests_of s.handled ++ m ∷ rest)
  under_way m s ahead v =
      let behind = (v.faithful.rest (v.faithful.left ++ ahead)).frames in
      (
        decoded w behind,
        ap (λ (p : Parsed). decoded w p.frames) (v.faithful.agrees ahead)
            ∙ decoded-append w v.frames behind (requests_of s.handled ++ m ∷ []) v.decodes
            ∙ append_assoc (requests_of s.handled) (m ∷ []) (decoded w behind),
      )

  pub handling-Moves :
      (m : Envelope) (now : ℕ) (s : Loop)
      → length (encode w (dispatch_at host now m)) ≤ max_frame_size
      → (v : Live w host total (handling m) s.connection s.handled)
      → Stands (Unit {0}) (rank w host total v) (respond w host m now none s)
  unfolding respond begin_send
  handling-Moves m now s le v =
      let bytes = encode w (dispatch_at host now m) in
      let idle =
        IsFaithful-IsIdle total (reader (handling m) s.connection v.frames) v.faithful refl in
      let sent = send-ok (write_u32be (length bytes)) s.connection idle.connected in
      rw (le→ltb max_frame_size (length bytes) le) (
        rw sent (
          inl (
            record {
              frames = v.frames;
              faithful =
                  written-IsFaithful (s.connection.written ++ write_u32be (length bytes) ∷ []) total
                    (reader (handling m) s.connection v.frames) v.faithful;
              decodes =
                  subst (Decode w v.frames)
                    (sym (
                      append-nil (requests_of (s.handled ++ (now, m) ∷ []))
                      ∙ map-append (λ (h : ℕ × Envelope). h.1) s.handled ((now, m) ∷ [])))
                    v.decodes;
              written =
                  wrote bytes
                    (ap (λ (rs : List Bytes). wire rs) (map-append _ s.handled ((now, m) ∷ [])))
                    (sym (append-nil (concat s.connection.written)) ∙ v.written);
              healthy = tt;
            },
            λ _. omega arith,
          )))
    where
      wrote :
          (b : Bytes)
          → wire (responses w host (s.handled ++ (now, m) ∷ []))
            ≡ wire (responses w host s.handled ++ b ∷ [])
          → concat s.connection.written ≡ wire (responses w host s.handled)
          → concat (s.connection.written ++ write_u32be (length b) ∷ []) ++ b
            ≡ wire (responses w host (s.handled ++ (now, m) ∷ []))
      wrote b e f =
          ap (λ (x : Bytes). x ++ b)
            (concat-append s.connection.written (write_u32be (length b) ∷ []))
          ∙ append_assoc (concat s.connection.written) (write_u32be (length b) ++ []) b
          ∙ ap (λ (x : Bytes). x ++ ((write_u32be (length b) ++ []) ++ b)) f
          ∙ ap (λ (x : Bytes). wire (responses w host s.handled) ++ (x ++ b))
              (append-nil (write_u32be (length b)))
          ∙ ap (λ (x : Bytes). wire (responses w host s.handled) ++ x)
              (sym (append-nil (frame_bytes b)))
          ∙ sym (wire-append (responses w host s.handled) (b ∷ []))
          ∙ sym e

  pub after_header-Moves :
      (bytes : Bytes) (r : Result (Unit {0})) (s : Loop)
      (v : Live w host total (heading bytes r) s.connection s.handled)
      → Stands (Unit {0}) (rank w host total v) (after_header bytes r none s)
  after_header-Moves bytes (err e) s v = absurd v.healthy
  after_header-Moves bytes (ok _) s v =
      let idle =
        IsFaithful-IsIdle total (reader (heading bytes (ok tt)) s.connection v.frames) v.faithful
          refl in
      let (x, sent, e) = send_rest-wrote bytes s.connection idle.connected in
      subst
        (λ (q : Connection × Result (Unit {0})).
          Stands (Unit {0}) (rank w host total v) (sent_body q s))
        (sym sent)
        (inl (
          record {
            frames = v.frames;
            faithful =
                written-IsFaithful x total (reader (heading bytes (ok tt)) s.connection v.frames)
                  v.faithful;
            decodes = v.decodes;
            written = append-nil (concat x) ∙ e ∙ v.written;
            healthy = tt;
          },
          λ _. omega arith,
        ))

  pub on_sent-Moves :
      (r : Result (Unit {0})) (s : Loop) (v : Live w host total (sending r) s.connection s.handled)
      → Stands (Unit {0}) (rank w host total v) (on_sent r s)
  on_sent-Moves (err e) s v = absurd v.healthy
  on_sent-Moves (ok _) s v = inl (
    record {
      frames = v.frames;
      faithful = v.faithful;
      decodes = v.decodes;
      written = v.written;
      healthy = tt;
    },
    λ _. omega arith,
  )
