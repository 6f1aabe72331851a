-- ===== src/Backoff.antt =====
-- backoff.go: exponential backoff with full jitter. The source computes
-- min(cap, base * factor^attempt) in float64, and here the numbers are exact: for a cap below 2^53
-- and settings that are not negative the result is the same, since a product that is rounded is
-- above the cap.
pub mod Bounds
use Prim.Native.Nat.{max, min}
use go_xmpp.Prelude.{
  Bool, Option, if◌then◌else◌, negsuc, none, pos, some, suc, zero, ℕ, ℤ, ◌%◌, ◌*◌, ◌+◌,
}

pub record Backoff : Type 0 where
  pub no_jitter : Bool
  pub base : ℤ
  pub factor : ℤ
  pub cap : ℤ
  pub attempt : ℕ

abbrev pub default_base : ℕ
default_base = 20

abbrev pub default_factor : ℕ
default_factor = 2

abbrev pub default_cap : ℕ
default_cap = 180000

abbrev or_default : ℤ → ℕ → ℤ
or_default (pos zero) d = pos d
or_default z d = z

unfoldable pub set_default : Backoff → Backoff
set_default b = record b {
  base = or_default b.base default_base;
  cap = or_default b.cap default_cap;
  factor = or_default b.factor default_factor;
}

-- The arithmetic of the expression, on exact integers.
abbrev negate : ℤ → ℤ
negate (pos zero) = pos 0
negate (pos (suc n)) = negsuc n
negate (negsuc n) = pos (suc n)

abbrev scale : ℤ → ℕ → ℤ
scale (pos n) k = pos (n * k)
scale (negsuc n) k = negate (pos (suc n * k))

abbrev times : ℤ → ℤ → ℤ
times a (pos k) = scale a k
times a (negsuc k) = negate (scale a (suc k))

unfoldable power : ℤ → ℕ → ℤ
power f zero = pos 1
power f (suc n) = times (power f n) f

abbrev min_int : ℤ → ℤ → ℤ
min_int (pos a) (pos b) = pos (min a b)
min_int (pos a) (negsuc b) = negsuc b
min_int (negsuc a) (pos b) = negsuc a
min_int (negsuc a) (negsuc b) = negsuc (max a b)

-- expBackoff: the attempt is the field of the structure.
unfoldable pub exp_backoff : Backoff → ℤ
unfolding power
exp_backoff b = min_int b.cap (times b.base (power b.factor b.attempt))

-- rand.Intn(d) for the random number `r`: it is below `d`, and panics if `d` is not positive.
unfoldable pub intn : ℕ → ℤ → Option ℤ
intn r (pos zero) = none
intn r (pos (suc d)) = some (pos (r % suc d))
intn r (negsuc d) = none

-- durationForAttempt, in milliseconds, with the structure that setDefault changed; `none` is a panic.
-- The parameter `attempt` of the source is not read.
unfoldable pub duration_for_attempt : ℕ → ℕ → Backoff → Option ℤ × Backoff
unfolding set_default exp_backoff intn
duration_for_attempt r attempt b =
    let b' = set_default b in
    ((if b'.no_jitter then some (exp_backoff b') else intn r (exp_backoff b')), b')

-- duration: the next duration, and one more attempt.
unfoldable pub duration : ℕ → Backoff → Option ℤ × Backoff
unfolding duration_for_attempt
duration r b =
    let (d, b') = duration_for_attempt r b.attempt b in (d, record b' { attempt = b'.attempt + 1 })

unfoldable pub reset : Backoff → Backoff
reset b = record b { attempt = 0 }
