-- ===== src/Protocol/Framing/Receiving/Faithful.antt =====
-- What one event does to the frames and bytes of a reader.
use ibridger.Common.{
  ℕ, ◌≤◌, ◌<◌, ◌≡◌, refl, ◌∙◌, sym, ap, subst, arith, Option, none, some, [], ◌++◌, ltb, ◌==◌,
  length, append_assoc, Bool-cases, inl, inr,
}
use ibridger.Common.Text.{Bytes}
use ibridger.Errors.{ok, err}
use ibridger.Proto.WireConstant.{max_frame_size}
use ibridger.Transport.Connection.{Connection, recv, resolved}
use ibridger.Protocol.Framing.{
  Phase, header, body, finished, begin, resume, resume_header, resume_body, on_header, outcome_of,
  read_u32be,
}
use ibridger.Protocol.Framing.Header.{read_u32be_lem}
use ibridger.Protocol.Framing.Parsing.{
  Parsed, frames_of, cut, cut_frame, cut_length, prepend, frames_of-step, cut_frame-header,
  cut-body, cut_length-fits, cut_length-refused, prepend_assoc,
}
use ibridger.Protocol.Framing.Pending.{
  IsIdle, IsPending, waits, has, on_data-IsIdle, on_data-IsPending, recv-IsPending,
}
use ibridger.Protocol.Framing.Receiving.{
  Receiver, settle_task, turn_task, turn, arrives, step, Follows, idles, at_header, at_body,
  refuses, IsFaithful, refusal,
}

arrives-Follows :
    (chunk : Bytes) (r : Receiver) (rest : Bytes → Parsed) (left : Bytes)
    → Follows r rest left
    → Follows (step r (arrives chunk)) rest (left ++ chunk)
unfolding step
arrives-Follows chunk r rest left (idles t i e f) =
    let (j, b) = on_data-IsIdle chunk r.connection i in idles t j (rw e (sym b)) f
arrives-Follows chunk r rest left (at_header p t i f) =
    at_header p t (on_data-IsPending chunk p 4 left r.connection i) f
arrives-Follows chunk r rest left (at_body p n t lt i f) =
    at_body p n t lt (on_data-IsPending chunk p n left r.connection i) f
arrives-Follows chunk r rest left (refuses n t f) = refuses n t f

pub arrives-IsFaithful :
    (chunk total : Bytes) (r : Receiver)
    → IsFaithful total r
    → IsFaithful (total ++ chunk) (step r (arrives chunk))
unfolding step
arrives-IsFaithful chunk total r h = record {
  rest = h.rest;
  left = h.left ++ chunk;
  follows = arrives-Follows chunk r h.rest h.left h.follows;
  agrees = λ more.
      rw (append_assoc total chunk more, append_assoc h.left chunk more) (h.agrees (chunk ++ more));
}

-- A call of `recvFrame` at an `await` whose promise is not settled stays there.
pub resume_waits :
    (p : ℕ) (c : Connection)
    → outcome_of p c.settled ≡ none
    → (resume (header p) c ≡ (header p, c)) × ((n : ℕ) → resume (body p n) c ≡ (body p n, c))
unfolding resume resume_header resume_body
resume_waits p c o = (rw o refl, λ n. rw o refl)

-- A call that was given its bytes goes on.
pub resume_has :
    (p : ℕ) (held : Bytes) (c : Connection)
    → outcome_of p c.settled ≡ some (resolved held)
    → (resume (header p) c ≡ on_header held c)
      × ((n : ℕ) → resume (body p n) c ≡ (finished (ok held), c))
unfolding resume resume_header resume_body
resume_has p held c o = (rw o refl, λ n. rw o refl)

pub turn_resumed :
    (r : Receiver) (ph : Phase) (t : r.task ≡ some ph) (next : Phase × Connection)
    → resume ph r.connection ≡ next
    → turn r ≡ settle_task next r
unfolding turn
turn_resumed r ph t next e =
    ap (λ (x : Option Phase). turn_task x r) t ∙ ap (λ (x : Phase × Connection). settle_task x r) e

begin-IsFaithful :
    (total : Bytes) (r : Receiver) (h : IsFaithful total r)
    → r.task ≡ none
    → IsIdle r.connection
    → h.left ≡ r.connection.buffer
    → ((x : Bytes) → h.rest x ≡ frames_of x)
    → IsFaithful total (turn r)
unfolding turn begin
begin-IsFaithful total r h t i e f = rw t (record {
  rest = h.rest;
  left = h.left;
  follows = at_header r.connection.next_promise refl (rw e (recv-IsPending 4 r.connection i)) f;
  agrees = h.agrees;
})

-- What the header's length leads to.
module _ (held : Bytes) (c : Connection) (n : ℕ) (q : read_u32be held ≡ ok n) where
  pub on_header-refused : max_frame_size < n → on_header held c ≡ (finished (err (refusal n)), c)
  unfolding on_header
  on_header-refused h = rw (q, on_header) (ground arith)

  pub on_header-empty : n ≡ 0 → on_header held c ≡ (finished (ok []), c)
  unfolding on_header
  on_header-empty h = rw (q, on_header) (ground arith)

  pub on_header-body :
      0 < n → n ≤ max_frame_size → on_header held c ≡ (body c.next_promise n, recv n c)
  unfolding on_header
  on_header-body h le = rw (q, on_header) (ground arith)

-- A call that stands at an `await` with the bytes it asked for.
module _ (total : Bytes) (r : Receiver) (h : IsFaithful total r) (held : Bytes)
    (parts : h.left ≡ held ++ r.connection.buffer) (idle : IsIdle r.connection) where
  abbrev buffered : Bytes
  buffered = r.connection.buffer

  left-append : (more : Bytes) → h.left ++ more ≡ held ++ (buffered ++ more)
  left-append more = rw parts (append_assoc held buffered more)

  -- The header's four bytes give a length.
  module _ (n : ℕ) (l : length held ≡ 4) (q : read_u32be held ≡ ok n)
      (f : (x : Bytes) → h.rest x ≡ frames_of x) where
    rest-header :
        (more : Bytes) → h.rest (h.left ++ more) ≡ cut_length frames_of (ok n) (buffered ++ more)
    rest-header more =
        f (h.left ++ more)
        ∙ frames_of-step (h.left ++ more)
        ∙ ap (cut_frame frames_of) (left-append more)
        ∙ cut_frame-header frames_of held (buffered ++ more) n l q

    agrees-header :
        (more : Bytes)
        → frames_of (total ++ more)
          ≡ prepend r.frames (cut_length frames_of (ok n) (buffered ++ more))
    agrees-header more = h.agrees more ∙ ap (prepend r.frames) (rest-header more)

    on_header-IsFaithful : IsFaithful total (settle_task (on_header held r.connection) r)
    unfolding settle_task
    on_header-IsFaithful = elim (Bool-cases (ltb max_frame_size n)) [
      | inl large ↦ rw (on_header-refused held r.connection n q (ground (arith, large))) (record {
        rest = λ x. record { frames = []; refused = some n };
        left = [];
        follows = refuses n refl (λ x. refl);
        agrees = λ more.
            agrees-header more
            ∙ ap (prepend r.frames)
                (cut_length-refused frames_of n (buffered ++ more) (ground (arith, large)));
      })
      | inr fits ↦ elim (Bool-cases (n == 0)) [
        | inl zero_length ↦
            rw (on_header-empty held r.connection n q (ground (arith, zero_length))) (record {
              rest = frames_of;
              left = buffered;
              follows = idles refl idle refl (λ x. refl);
              agrees = λ more.
                  let here : length {A = ℕ} [] ≡ n = ground (arith, zero_length) in
                  agrees-header more
                  ∙ ap (prepend r.frames) (
                      cut_length-fits frames_of n (buffered ++ more) (ground (arith, fits))
                      ∙ cut-body frames_of [] (buffered ++ more) n here)
                  ∙ prepend_assoc r.frames [] (frames_of (buffered ++ more));
            })
        | inr some_length ↦
            rw
              (on_header-body held r.connection n q (ground (arith, some_length))
                (ground (arith, fits)))
              (record {
                rest = cut frames_of n;
                left = buffered;
                follows =
                    at_body r.connection.next_promise n refl (ground (arith, some_length))
                      (recv-IsPending n r.connection idle) (λ x. refl);
                agrees = λ more.
                    agrees-header more
                    ∙ ap (prepend r.frames)
                        (cut_length-fits frames_of n (buffered ++ more) (ground (arith, fits)));
              })
      ]
    ]

  -- The body is the frame.
  body-IsFaithful :
      (n : ℕ)
      → length held ≡ n
      → ((x : Bytes) → h.rest x ≡ cut frames_of n x)
      → IsFaithful total (settle_task (finished (ok held), r.connection) r)
  unfolding settle_task
  body-IsFaithful n l f = record {
    rest = frames_of;
    left = buffered;
    follows = idles refl idle refl (λ x. refl);
    agrees = λ more.
        h.agrees more
        ∙ ap (prepend r.frames) (
            f (h.left ++ more)
            ∙ ap (cut frames_of n) (left-append more)
            ∙ cut-body frames_of held (buffered ++ more) n l)
        ∙ prepend_assoc r.frames held (frames_of (buffered ++ more));
  }

module _ (total : Bytes) (r : Receiver) (h : IsFaithful total r) where
  at_header-IsFaithful :
      (p : ℕ)
      → r.task ≡ some (header p)
      → (i : IsPending p 4 h.left r.connection) → ((x : Bytes) → h.rest x ≡ frames_of x)
      → IsFaithful total (turn r)
  unfolding turn resume resume_header settle_task
  at_header-IsFaithful p t i f = elim i.state [
    | waits e o short nil ↦
        rw (t, turn, o)
          (record {
            rest = h.rest;
            left = h.left;
            follows = at_header p refl i f;
            agrees = h.agrees;
          })
    | has e o l ↦
        let (n, q) = read_u32be_lem i.held l in
        let idle : IsIdle r.connection = record {
          connected = i.connected;
          waiters = e;
          fresh = i.fresh;
        } in
        subst (IsFaithful total)
          (sym (turn_resumed r (header p) t _ (resume_has p i.held r.connection o).0))
          (on_header-IsFaithful total r h i.held i.parts idle n l q f)
  ]

  at_body-IsFaithful :
      (p n : ℕ)
      → r.task ≡ some (body p n)
      → 0 < n
      → (i : IsPending p n h.left r.connection) → ((x : Bytes) → h.rest x ≡ cut frames_of n x)
      → IsFaithful total (turn r)
  unfolding turn resume resume_body settle_task
  at_body-IsFaithful p n t lt i f = elim i.state [
    | waits e o short nil ↦
        rw (t, turn, o)
          (record {
            rest = h.rest;
            left = h.left;
            follows = at_body p n refl lt i f;
            agrees = h.agrees;
          })
    | has e o l ↦
        rw (t, turn, o)
          (body-IsFaithful total r h i.held i.parts
            (record { connected = i.connected; waiters = e; fresh = i.fresh }) n l f)
  ]

  pub turn-IsFaithful : IsFaithful total (turn r)
  turn-IsFaithful = elim h.follows [
    | idles t i e f ↦ begin-IsFaithful total r h t i e f
    | at_header p t i f ↦ at_header-IsFaithful p t i f
    | at_body p n t lt i f ↦ at_body-IsFaithful p n t lt i f
    | refuses n t f ↦
        unfold turn resume settle_task in
        rw t
          (record { rest = h.rest; left = h.left; follows = refuses n refl f; agrees = h.agrees })
  ]
