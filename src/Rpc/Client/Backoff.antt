-- ===== src/Rpc/Client/Backoff.antt =====
-- sdk/js/src/rpc/client.ts: the loop of `scheduleReconnect`, over the attempts that it makes. Delays
-- are in milliseconds.
use ibridger.Common.{
  ℕ, zero, suc, ◌+◌, ◌*◌, ◌^◌, ◌≤◌, ◌<◌, ◌≡◌, subst, if-intro, replicate, arith, min, Bool, true,
  false, Option, none, some, List, [], ◌∷◌, ltb, if◌then◌else◌, length, get_or_else,
}
use native.Mathlib.Nat.{pow-suc}

-- `maxAttempts` is `none` for its default, Infinity. Those that are given are natural numbers that a
-- number of JavaScript, a double, holds.
pub record ReconnectOptions : Type 0 where
  pub max_attempts : Option ℕ
  pub base_delay_ms : Option ℕ
  pub max_delay_ms : Option ℕ

-- What the arithmetic on doubles comes to: a natural number, Infinity or NaN.
pub data Number : Type 0 where
  finite : ℕ → Number
  infinity nan : Number

-- From here on a number rounds to Infinity.
unfoldable pub double_range : ℕ
double_range = 2 ^ 1024

unfoldable pub rounded : ℕ → Number
rounded n = if ltb n double_range then finite n else infinity

-- A natural number times Infinity.
abbrev by_infinity : ℕ → Number
by_infinity zero = nan
by_infinity (suc m) = infinity

-- A product of a natural number with a power of two, which a double holds exactly below its range.
abbrev times : ℕ → Number → Number
times m (finite n) = rounded (m * n)
times m infinity = by_infinity m
times m nan = nan

-- `Math.min(x, cap)`
abbrev min_with : Number → ℕ → Number
min_with (finite n) cap = finite (min n cap)
min_with infinity cap = finite cap
min_with nan cap = nan

-- `Math.min(baseDelayMs * 2 ** attempt, maxDelayMs)`
unfoldable pub delay_of : ReconnectOptions → ℕ → Number
unfolding rounded
delay_of o attempt =
    min_with (times (get_or_else o.base_delay_ms 200) (rounded (2 ^ attempt)))
      (get_or_else o.max_delay_ms 10000)

-- What an attempt meets: `connect` throws, or it succeeds and `onReconnect` returns or throws.
pub data Attempt : Type 0 where
  fails connects hook_throws : Attempt

-- How the loop stands: returned with the client connected, out of attempts, or still at work.
pub data End : Type 0 where
  reconnected exhausted unfinished : End

-- The arguments of `sleep`, how the loop stands, `reconnecting`, and the calls of `onReconnect`.
pub record Outcome : Type 0 where
  pub delays : List Number
  pub end : End
  pub reconnecting : Bool
  pub hooks : ℕ

abbrev pub has_more : Option ℕ → ℕ → Bool
has_more none attempt = true
has_more (some n) attempt = ltb attempt n

abbrev slept : Number → Outcome → Outcome
slept d o = record o { delays = d ∷ o.delays }

-- The `for` loop, over the attempts that the environment has let happen. `reconnecting` is cleared
-- before the hook runs, and the `catch` takes the hook's exception for a failed attempt.
unfoldable pub reconnect_loop : ReconnectOptions → ℕ → Bool → ℕ → List Attempt → Outcome
reconnect_loop o attempt flag hooks [] =
    if has_more o.max_attempts attempt
    then record { delays = []; end = unfinished; reconnecting = flag; hooks = hooks }
    else record { delays = []; end = exhausted; reconnecting = false; hooks = hooks }
reconnect_loop o attempt flag hooks (a ∷ rest) =
    if has_more o.max_attempts attempt
    then slept (delay_of o attempt) (elim a [
      | fails ↦ reconnect_loop o (suc attempt) flag hooks rest
      | connects ↦ record {
        delays = [];
        end = reconnected;
        reconnecting = false;
        hooks = suc hooks;
      }
      | hook_throws ↦ reconnect_loop o (suc attempt) false (suc hooks) rest
    ])
    else record { delays = []; end = exhausted; reconnecting = false; hooks = hooks }

-- `scheduleReconnect`, where `reconnecting` is not set yet.
unfoldable pub schedule_reconnect : ReconnectOptions → List Attempt → Outcome
unfolding reconnect_loop
schedule_reconnect o attempts = reconnect_loop o 0 true 0 attempts

-- The delays are these: the next one, and each that follows is twice the one before or the cap.
abbrev pub BacksOff : ℕ → ℕ → List Number → Type 0
BacksOff cap next [] = Unit {0}
BacksOff cap next (d ∷ ds) = (d ≡ finite next) × BacksOff cap (min (2 * next) cap) ds

-- Where the factors are positive and the cap is in the range, overflow does not show.
capped_product :
    (base power top : ℕ)
    → 0 < base
    → 0 < power
    → top ≤ double_range
    → min_with (times base (rounded power)) top ≡ finite (min (base * power) top)
unfolding rounded
capped_product zero power top b p c = absurd (omega arith)
capped_product (suc m) power top b p c =
    let large : power ≤ suc m * power = grind arith in ground (arith, c, large)

power-pos : (k : ℕ) → 0 < 2 ^ k
power-pos zero = omega arith
power-pos (suc k) = omega (arith, pow-suc 2 k, power-pos k)

twice : (base k : ℕ) → base * 2 ^ suc k ≡ 2 * (base * 2 ^ k)
twice base k = rw (pow-suc 2 k) (grind arith)

module _ (o : ReconnectOptions) (based : 0 < get_or_else o.base_delay_ms 200)
    (ranged : get_or_else o.max_delay_ms 10000 ≤ double_range) where
  abbrev cap : ℕ
  cap = get_or_else o.max_delay_ms 10000

  -- The delay before this attempt, as a natural number.
  abbrev nth : ℕ → ℕ
  nth k = min (get_or_else o.base_delay_ms 200 * 2 ^ k) cap

  delay_of-nth : (k : ℕ) → delay_of o k ≡ finite (nth k)
  unfolding delay_of
  delay_of-nth k = capped_product _ _ _ based (power-pos k) ranged

  nth-suc : (k : ℕ) → nth (suc k) ≡ min (2 * nth k) cap
  nth-suc k = omega (arith, twice (get_or_else o.base_delay_ms 200) k)

  -- A further delay, in front of those of the attempts that follow.
  slept-BacksOff :
      (k : ℕ) (ds : List Number)
      → BacksOff cap (nth (suc k)) ds
      → BacksOff cap (nth k) (delay_of o k ∷ ds)
  slept-BacksOff k ds b = (delay_of-nth k, subst (λ n. BacksOff cap n ds) (nth-suc k) b)

  abbrev Backing : ℕ → Outcome → Type 0
  Backing k out = BacksOff cap (nth k) out.delays

  loop-BacksOff :
      (k : ℕ) (flag : Bool) (hooks : ℕ) (attempts : List Attempt)
      → BacksOff cap (nth k) (reconnect_loop o k flag hooks attempts).delays
  unfolding reconnect_loop
  loop-BacksOff k flag hooks [] =
      if-intro (Backing k) (has_more o.max_attempts k) _ _ (λ _. tt) (λ _. tt)
  loop-BacksOff k flag hooks (fails ∷ rest) =
      if-intro (Backing k) (has_more o.max_attempts k) _ _
        (λ _. slept-BacksOff k _ (loop-BacksOff (suc k) flag hooks rest)) (λ _. tt)
  loop-BacksOff k flag hooks (connects ∷ rest) =
      if-intro (Backing k) (has_more o.max_attempts k) _ _ (λ _. slept-BacksOff k [] tt) (λ _. tt)
  loop-BacksOff k flag hooks (hook_throws ∷ rest) =
      if-intro (Backing k) (has_more o.max_attempts k) _ _
        (λ _. slept-BacksOff k _ (loop-BacksOff (suc k) false (suc hooks) rest)) (λ _. tt)

module _ (o : ReconnectOptions) (limit : ℕ) (limited : o.max_attempts ≡ some limit) where
  loop-limit :
      (k : ℕ) (flag : Bool) (hooks : ℕ) (attempts : List Attempt)
      → k ≤ limit
      → k + length (reconnect_loop o k flag hooks attempts).delays ≤ limit
  unfolding reconnect_loop
  loop-limit k flag hooks [] h = rw limited (ground arith)
  loop-limit k flag hooks (fails ∷ rest) h =
      rw limited (ground (arith, loop-limit (suc k) flag hooks rest))
  loop-limit k flag hooks (connects ∷ rest) h = rw limited (ground arith)
  loop-limit k flag hooks (hook_throws ∷ rest) h =
      rw limited (ground (arith, loop-limit (suc k) false (suc hooks) rest))

  -- Enough failures in a row.
  loop-exhausted :
      (k j : ℕ) (flag : Bool) (hooks : ℕ)
      → limit ≤ k + j
      → ((reconnect_loop o k flag hooks (replicate j fails)).end ≡ exhausted)
        × ((reconnect_loop o k flag hooks (replicate j fails)).reconnecting ≡ false)
  unfolding reconnect_loop
  loop-exhausted k zero flag hooks h = rw limited (ground arith)
  loop-exhausted k (suc j) flag hooks h =
      rw limited (ground (arith, loop-exhausted (suc k) j flag hooks))

-- Whatever the attempts meet, the first delay of `scheduleReconnect` is the base delay or the cap,
-- whichever is less, and each further one is twice the one before or the cap, whichever is less,
-- as far as the attempts go. The base delay is not 0, and the cap is in the range of a double.
pub schedule_reconnect-BacksOff :
    (o : ReconnectOptions) (attempts : List Attempt)
    → 0 < get_or_else o.base_delay_ms 200
    → get_or_else o.max_delay_ms 10000 ≤ double_range
    → BacksOff
        (get_or_else o.max_delay_ms 10000)
        (min (get_or_else o.base_delay_ms 200) (get_or_else o.max_delay_ms 10000))
        (schedule_reconnect o attempts).delays
unfolding schedule_reconnect
schedule_reconnect-BacksOff o attempts based ranged =
    subst
      (λ n. BacksOff (get_or_else o.max_delay_ms 10000) n (schedule_reconnect o attempts).delays)
      (omega arith) (loop-BacksOff o based ranged 0 true 0 attempts)

-- With `maxAttempts` set, the loop of `scheduleReconnect` makes at most so many attempts, and
-- after so many failures it has ended without a connection, with `reconnecting` cleared.
pub schedule_reconnect_limit :
    (o : ReconnectOptions) (limit : ℕ) (attempts : List Attempt)
    → o.max_attempts ≡ some limit
    → (length (schedule_reconnect o attempts).delays ≤ limit)
      × ((schedule_reconnect o (replicate limit fails)).end ≡ exhausted)
      × ((schedule_reconnect o (replicate limit fails)).reconnecting ≡ false)
unfolding schedule_reconnect
schedule_reconnect_limit o limit attempts e =
    let b = loop-limit o limit e 0 true 0 attempts (omega arith) in
    let x = loop-exhausted o limit e 0 limit true 0 (omega arith) in (omega (arith, b), x.0, x.1)
