-- ===== src/Protocol/Framing/Parsing.antt =====
-- A reference for the frames in a stream of bytes, without connections and promises. The format is
-- that of sdk/js/src/protocol/framing.ts.
use ibridger.Common.{
  ℕ, zero, suc, ◌≤◌, ◌<◌, ◌≡◌, refl, ◌∙◌, sym, ap, arith, Option, none, some, List, [], ◌∷◌, ◌++◌,
  ltb, if◌then◌else◌, length, take, drop, length-drop, append_assoc, false, Bool-cases, inl, inr,
  take-append, drop-append, length-append,
}
use ibridger.Common.Text.{Bytes}
use ibridger.Errors.{Result, ok, err}
use ibridger.Proto.WireConstant.{max_frame_size}
use ibridger.Protocol.Framing.{read_u32be}

-- The frames that are whole, and the length of the frame that is too large, if the stream has one.
pub record Parsed : Type 0 where
  pub frames : List Bytes
  pub refused : Option ℕ

abbrev pub incomplete : Parsed
incomplete = record { frames = []; refused = none }

abbrev pub prepend : List Bytes → Parsed → Parsed
prepend fs p = record { frames = fs ++ p.frames; refused = p.refused }

-- A body of `n` bytes, and what follows it.
unfoldable pub cut : (Bytes → Parsed) → ℕ → Bytes → Parsed
cut next n b = if ltb (length b) n then incomplete else prepend (take n b ∷ []) (next (drop n b))

unfoldable pub cut_length : (Bytes → Parsed) → Result ℕ → Bytes → Parsed
unfolding cut
cut_length next (err e) b = incomplete
cut_length next (ok n) b =
    if ltb max_frame_size n then record { frames = []; refused = some n } else cut next n b

unfoldable pub cut_frame : (Bytes → Parsed) → Bytes → Parsed
unfolding cut_length
cut_frame next b =
    if ltb (length b) 4 then incomplete else cut_length next (read_u32be (take 4 b)) (drop 4 b)

unfoldable pub parse : ℕ → Bytes → Parsed
unfolding cut_frame
parse zero b = incomplete
parse (suc fuel) b = cut_frame (parse fuel) b

-- Each frame takes four bytes at least, so this fuel is enough.
unfoldable pub frames_of : Bytes → Parsed
unfolding parse
frames_of b = parse (suc (length b)) b

ltb-le : (a b : ℕ) → ltb a b ≡ false → b ≤ a
ltb-le a b h = ground arith

module _ (f g : Bytes → Parsed) where
  cut-ext :
      (n : ℕ) (b : Bytes) → ((x : Bytes) → length x ≤ length b → f x ≡ g x) → cut f n b ≡ cut g n b
  unfolding cut
  cut-ext n b h = ground (arith, h (drop n b), length-drop n b)

  cut_length-ext :
      (r : Result ℕ) (b : Bytes)
      → ((x : Bytes) → length x ≤ length b → f x ≡ g x)
      → cut_length f r b ≡ cut_length g r b
  unfolding cut_length
  cut_length-ext (err e) b h = refl
  cut_length-ext (ok n) b h = let e = cut-ext n b h in ground arith

  cut_frame-ext :
      (b : Bytes) → ((x : Bytes) → length x < length b → f x ≡ g x) → cut_frame f b ≡ cut_frame g b
  unfolding cut_frame
  cut_frame-ext b h = elim (Bool-cases (ltb (length b) 4)) [
    | inl short ↦ rw short refl
    | inr long ↦ rw long (
        cut_length-ext (read_u32be (take 4 b)) (drop 4 b)
          (λ x le. h x (omega (arith, length-drop 4 b, ltb-le (length b) 4 long))))
  ]

parse_enough : (k j : ℕ) (b : Bytes) → length b < k → length b < j → parse k b ≡ parse j b
unfolding parse
parse_enough zero j b h h' = absurd (omega arith)
parse_enough (suc k) zero b h h' = absurd (omega arith)
parse_enough (suc k) (suc j) b h h' =
    cut_frame-ext (parse k) (parse j) b (λ x lt. parse_enough k j x (omega arith) (omega arith))

-- One frame at a time.
pub frames_of-step : (b : Bytes) → frames_of b ≡ cut_frame frames_of b
unfolding frames_of
frames_of-step b =
    cut_frame-ext (parse (length b)) frames_of b
      (λ x lt. parse_enough (length b) (suc (length x)) x lt (omega arith))

module _ (next : Bytes → Parsed) where
  pub cut_frame-header :
      (h b : Bytes) (n : ℕ)
      → length h ≡ 4
      → read_u32be h ≡ ok n
      → cut_frame next (h ++ b) ≡ cut_length next (ok n) b
  unfolding cut_frame
  cut_frame-header h b n e r =
      let long : ltb (length (h ++ b)) 4 ≡ false = ground (arith, length-append h b) in
      rw (long, front, behind, r) refl
    where
      front : take 4 (h ++ b) ≡ h
      front = ap (λ (k : ℕ). take k (h ++ b)) (sym e) ∙ take-append h b

      behind : drop 4 (h ++ b) ≡ b
      behind = ap (λ (k : ℕ). drop k (h ++ b)) (sym e) ∙ drop-append h b

  pub cut-body :
      (h b : Bytes) (n : ℕ) → length h ≡ n → cut next n (h ++ b) ≡ prepend (h ∷ []) (next b)
  unfolding cut
  cut-body h b n e =
      let long : ltb (length (h ++ b)) n ≡ false = ground (arith, length-append h b) in
      rw (long, ← e, take-append h b, drop-append h b) refl

  pub cut_length-fits :
      (n : ℕ) (b : Bytes) → n ≤ max_frame_size → cut_length next (ok n) b ≡ cut next n b
  unfolding cut_length
  cut_length-fits n b h = ground arith

  pub cut_length-refused :
      (n : ℕ) (b : Bytes)
      → max_frame_size < n
      → cut_length next (ok n) b ≡ record { frames = []; refused = some n }
  unfolding cut_length
  cut_length-refused n b h = ground arith

pub prepend_assoc :
    (fs : List Bytes) (f : Bytes) (p : Parsed)
    → prepend fs (prepend (f ∷ []) p) ≡ prepend (fs ++ f ∷ []) p
prepend_assoc fs f p = rw (append_assoc fs (f ∷ []) p.frames) refl

pub cut-short :
    (next : Bytes → Parsed) (n : ℕ) (b : Bytes) → length b < n → cut next n b ≡ incomplete
unfolding cut
cut-short next n b h = ground arith

pub frames_of-short : (b : Bytes) → length b < 4 → frames_of b ≡ incomplete
frames_of-short b h = frames_of-step b ∙ (unfold cut_frame in ground arith)

length-cut_frame :
    (next : Bytes → Parsed)
    → ((x : Bytes) → length (next x).frames ≤ length x)
    → (b : Bytes) → length (cut_frame next b).frames ≤ length b
unfolding cut_frame
length-cut_frame next h b = elim (Bool-cases (ltb (length b) 4)) [
  | inl short ↦ rw short (omega arith)
  | inr long ↦ rw long (by_length (ltb-le (length b) 4 long) (read_u32be (take 4 b)))
]
  where
    by_length :
        4 ≤ length b → (r : Result ℕ) → length (cut_length next r (drop 4 b)).frames ≤ length b
    by_length le (err e) = unfold cut_length in omega arith
    by_length le (ok n) =
        unfold cut_length cut in
        ground (arith, h (drop n (drop 4 b)), length-drop n (drop 4 b), length-drop 4 b)

length-parse : (k : ℕ) (b : Bytes) → length (parse k b).frames ≤ length b
unfolding parse
length-parse zero b = omega arith
length-parse (suc k) b = length-cut_frame (parse k) (length-parse k) b

-- There are no more frames than bytes.
pub length-frames_of : (b : Bytes) → length (frames_of b).frames ≤ length b
unfolding frames_of
length-frames_of b = length-parse (suc (length b)) b
