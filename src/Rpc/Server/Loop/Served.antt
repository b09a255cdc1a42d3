-- ===== src/Rpc/Server/Loop/Served.antt =====
-- When a serving loop has answered its stream.
use ibridger.Common.{
  ℕ, ◌≡◌, ◌⊎◌, inl, inr, refl, ◌∙◌, sym, ap, subst, arith, true, Option, none, some, List, [], ◌∷◌,
  ◌++◌, length, concat, append-nil, length-append,
}
use ibridger.Common.Text.{Bytes}
use ibridger.Errors.{ok, err}
use ibridger.Proto.Runtime.{Runtime}
use ibridger.Transport.Connection.{Connection}
use ibridger.Protocol.Framing.{Phase, header, body, finished}
use ibridger.Protocol.Framing.Parsing.{frames_of}
use ibridger.Protocol.Framing.Receiving.{Receiver, settle_task}
use ibridger.Protocol.Framing.Receiving.Complete.{IsComplete, Ends}
use ibridger.Protocol.Framing.Receiving.Wire.{wire}
use ibridger.Rpc.Server.Loop.{Host, testing, receiving, ended, Loop, after_recv}
use ibridger.Rpc.Server.Loop.Standing.{
  requests_of, responses, decoded, Breaks, IsWhole, Healthy, reader, Live, Stopped, decoded-append,
  length-Decode,
}

-- The requests in the stream were handled, each answered in its turn. The loop waits for more, or
-- has met a frame that it cannot read and has closed the connection.
pub record IsServed (w : Runtime) (host : Host) (total : Bytes) (s : Loop) : Type 0 where
  pub requests : requests_of s.handled ≡ decoded w (frames_of total).frames
  pub written : concat s.connection.written ≡ wire (responses w host s.handled)
  pub stands :
      (IsWhole w (frames_of total) × ((ph : Phase) × (s.doing ≡ receiving ph)))
      ⊎ (Breaks w (frames_of total) × (s.doing ≡ ended) × (s.connection.destroyed ≡ true))

-- A loop at a reader's place.
abbrev read_at : Loop → Receiver → Loop
read_at s r = record s {
  doing = elim r.task [ none ↦ testing | some ph ↦ receiving ph ];
  connection = r.connection;
}

module _ (w : Runtime) (s : Loop) (ph : Phase) (frames : List Bytes) (d : s.doing ≡ receiving ph)
    (reads : Healthy (receiving ph)) where
  abbrev here : Receiver
  here = reader (receiving ph) s.connection frames

  back : read_at s here ≡ s
  back = λ i. record s { doing = sym d i }

  -- Where the reader does not move, the loop does not.
  pub after_recv-still : (q : Phase × Connection) → settle_task q here ≡ here → after_recv w q s ≡ s
  unfolding after_recv settle_task
  after_recv-still (header p, c) e = ap (read_at s) e ∙ back
  after_recv-still (body p n, c) e = ap (read_at s) e ∙ back
  after_recv-still (finished (ok frame), c) e =
      absurd
        (omega (arith, ap (λ (r : Receiver). length r.frames) e, length-append frames (frame ∷ [])))
  after_recv-still (finished (err x), c) e =
      absurd (unread ph reads (ap (λ (r : Receiver). r.task) e))
    where
      unread : (ph : Phase) → Healthy (receiving ph) → some (finished (err x)) ≡ some ph → ⊥
      unread (header p) h e = cc
      unread (body p n) h e = cc
      unread (finished r) h e = h

module _ (w : Runtime) (host : Host) (total : Bytes) where
  -- At the end of the stream.
  pub Live-IsServed :
      (ph : Phase) (s : Loop)
      → s.doing ≡ receiving ph
      → (v : Live w host total (receiving ph) s.connection s.handled)
      → IsComplete total (reader (receiving ph) s.connection v.frames)
      → IsServed w host total s
  Live-IsServed ph s d v c = record {
    requests = all;
    written = sym (append-nil (concat s.connection.written)) ∙ v.written;
    stands = inl (
      (
        omega (
          arith,
          ap length all,
          ap length (append-nil (requests_of s.handled)),
          length-Decode w v.frames (requests_of s.handled ++ []) v.decodes,
          ap length c.frames,
        ),
        none_refused (frames_of total).refused ph v.healthy c.ends,
      ),
      (ph, d),
    );
  }
    where
      all : requests_of s.handled ≡ decoded w (frames_of total).frames
      all =
          sym (append-nil (requests_of s.handled))
          ∙ sym (append-nil (requests_of s.handled ++ []))
          ∙ sym (decoded-append w v.frames [] (requests_of s.handled ++ []) v.decodes)
          ∙ ap (decoded w) (append-nil v.frames ∙ c.frames)

      none_refused :
          (o : Option ℕ) (ph : Phase) → Healthy (receiving ph) → Ends o (some ph) → o ≡ none
      none_refused none ph h e = refl
      none_refused (some n) (header p) h e = absurd (cc e)
      none_refused (some n) (body p k) h e = absurd (cc e)
      none_refused (some n) (finished r) h e = absurd h

  pub Stopped-IsServed : (s : Loop) → Stopped w host total s → IsServed w host total s
  Stopped-IsServed s x = record {
    requests =
        sym (x.requests []) ∙ ap (λ (b : Bytes). decoded w (frames_of b).frames) (append-nil total);
    written = x.written;
    stands = inr (
      subst (λ (b : Bytes). Breaks w (frames_of b)) (append-nil total) (x.breaks []),
      x.ended,
      x.closed,
    );
  }
