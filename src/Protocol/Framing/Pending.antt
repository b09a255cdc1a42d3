-- ===== src/Protocol/Framing/Pending.antt =====
-- One awaited call of `recv` on a connection that nobody else reads: the bytes that it got or will
-- get stand in front of those that are buffered.
use ibridger.Common.{
  ℕ, suc, ◌≤◌, ◌<◌, ◌≡◌, refl, ◌∙◌, sym, ap, arith, true, none, some, List, [], ◌∷◌, ◌++◌, ltb, leb,
  length, take, length-take, append_assoc, Bool-cases, inl, inr, take-append-drop,
}
use ibridger.Common.Text.{Bytes}
use ibridger.Transport.Connection.{
  Settlement, resolved, Connection, splice, drain_loop, drain_waiters, on_data, recv,
}
use ibridger.Protocol.Framing.{outcome_of}

-- No promise from `p` on has been settled.
abbrev pub Fresh : ℕ → List Settlement → Type 0
Fresh p [] = Unit {0}
Fresh p (s ∷ ss) = (s.promise < p) × Fresh p ss

pub Fresh-append :
    (p : ℕ) (ss : List Settlement) (s : Settlement)
    → Fresh p ss
    → s.promise < p
    → Fresh p (ss ++ s ∷ [])
Fresh-append p [] s h lt = (lt, tt)
Fresh-append p (t ∷ ss) s h lt = (h.0, Fresh-append p ss s h.1 lt)

pub Fresh-suc : (p : ℕ) (ss : List Settlement) → Fresh p ss → Fresh (suc p) ss
Fresh-suc p [] h = tt
Fresh-suc p (s ∷ ss) h = (omega (arith, h.0), Fresh-suc p ss h.1)

pub outcome_of-Fresh : (p : ℕ) (ss : List Settlement) → Fresh p ss → outcome_of p ss ≡ none
unfolding outcome_of
outcome_of-Fresh p [] h = refl
outcome_of-Fresh p (s ∷ ss) h = ground (arith, h.0, outcome_of-Fresh p ss h.1)

pub outcome_of-append :
    (p : ℕ) (ss : List Settlement) (s : Settlement)
    → outcome_of p ss ≡ none
    → s.promise ≡ p
    → outcome_of p (ss ++ s ∷ []) ≡ some s.outcome
unfolding outcome_of
outcome_of-append p [] s h e = ground arith
outcome_of-append p (t ∷ ss) s h e = ground (arith, outcome_of-append p ss s)

-- Nobody waits, and the connection lives.
pub record IsIdle (c : Connection) : Type 0 where
  pub connected : c.connected ≡ true
  pub waiters : c.waiters ≡ []
  pub fresh : Fresh c.next_promise c.settled

-- Either the call waits, or it was given its bytes.
pub data Awaits (p need : ℕ) (held : Bytes) (c : Connection) : Type 0 where
  waits :
      c.waiters ≡ record { need = need; promise = p } ∷ []
      → outcome_of p c.settled ≡ none
      → length c.buffer < need
      → held ≡ []
      → Awaits p need held c
  has :
      c.waiters ≡ []
      → outcome_of p c.settled ≡ some (resolved held)
      → length held ≡ need
      → Awaits p need held c

-- The latest promise `p` stands for `need` bytes at the front of `left`.
pub record IsPending (p need : ℕ) (left : Bytes) (c : Connection) : Type 0 where
  pub held : Bytes
  pub parts : left ≡ held ++ c.buffer
  pub state : Awaits p need held c
  pub latest : c.next_promise ≡ suc p
  pub connected : c.connected ≡ true
  pub fresh : Fresh c.next_promise c.settled

pub recv-IsPending :
    (n : ℕ) (c : Connection) → IsIdle c → IsPending c.next_promise n c.buffer (recv n c)
unfolding recv splice
recv-IsPending n c i = elim (Bool-cases (leb n (length c.buffer))) [
  | inl enough ↦ rw enough (record {
    held = take n c.buffer;
    parts = sym (take-append-drop n c.buffer);
    state =
        has i.waiters
          (outcome_of-append c.next_promise c.settled _
            (outcome_of-Fresh c.next_promise c.settled i.fresh) refl)
          (omega (arith, length-take n c.buffer, leb→le n (length c.buffer) enough));
    latest = refl;
    connected = i.connected;
    fresh =
        Fresh-append (suc c.next_promise) c.settled _ (Fresh-suc _ c.settled i.fresh) (omega arith);
  })
  | inr short ↦
      rw (short, i.connected)
        (record {
          held = [];
          parts = refl;
          state =
              waits (rw i.waiters refl) (outcome_of-Fresh c.next_promise c.settled i.fresh)
                (ground (arith, short)) refl;
          latest = refl;
          connected = refl;
          fresh = Fresh-suc _ c.settled i.fresh;
        })
]
  where
    leb→le : (a b : ℕ) → leb a b ≡ true → a ≤ b
    leb→le a b h = ground arith

pub on_data-IsIdle :
    (chunk : Bytes) (c : Connection)
    → IsIdle c
    → (IsIdle (on_data chunk c)) × ((on_data chunk c).buffer ≡ c.buffer ++ chunk)
unfolding on_data drain_waiters
on_data-IsIdle chunk c i = rw i.waiters (
    unfold drain_loop in
    (record { connected = i.connected; waiters = refl; fresh = i.fresh }, refl))

module _ (chunk : Bytes) (p need : ℕ) (left : Bytes) (c : Connection)
    (i : IsPending p need left c) where
  more : left ++ chunk ≡ i.held ++ (c.buffer ++ chunk)
  more = rw i.parts (append_assoc i.held c.buffer chunk)

  on_data-waits :
      c.waiters ≡ record { need = need; promise = p } ∷ []
      → outcome_of p c.settled ≡ none
      → i.held ≡ []
      → IsPending p need (left ++ chunk) (on_data chunk c)
  unfolding on_data drain_waiters drain_loop splice
  on_data-waits e o nil = elim (Bool-cases (ltb (length (c.buffer ++ chunk)) need)) [
    | inl short ↦
        rw (e, short)
          (record {
            held = [];
            parts = more ∙ ap (λ (h : Bytes). h ++ (c.buffer ++ chunk)) nil;
            state = waits refl o (ground (arith, short)) refl;
            latest = i.latest;
            connected = i.connected;
            fresh = i.fresh;
          })
    | inr enough ↦
        rw (e, enough)
          (record {
            held = take need (c.buffer ++ chunk);
            parts =
                more
                ∙ ap (λ (h : Bytes). h ++ (c.buffer ++ chunk)) nil
                ∙ sym (take-append-drop need (c.buffer ++ chunk));
            state =
                has refl (outcome_of-append p c.settled _ o refl)
                  (ground (arith, length-take need (c.buffer ++ chunk), enough));
            latest = i.latest;
            connected = i.connected;
            fresh = Fresh-append c.next_promise c.settled _ i.fresh (omega (arith, i.latest));
          })
  ]

  on_data-has :
      c.waiters ≡ []
      → outcome_of p c.settled ≡ some (resolved i.held)
      → length i.held ≡ need
      → IsPending p need (left ++ chunk) (on_data chunk c)
  unfolding on_data drain_waiters drain_loop
  on_data-has e o l = rw e (record {
    held = i.held;
    parts = more;
    state = has refl o l;
    latest = i.latest;
    connected = i.connected;
    fresh = i.fresh;
  })

  pub on_data-IsPending : IsPending p need (left ++ chunk) (on_data chunk c)
  on_data-IsPending = elim i.state [
    | waits e o short nil ↦ on_data-waits e o nil
    | has e o l ↦ on_data-has e o l
  ]
