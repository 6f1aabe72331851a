-- ===== src/Backoff/Bounds.antt =====
-- The durations stay between the base and the cap.
use Prim.Native.Nat.{min}
use native.Mathlib.Nat.{mul-le-mul_left, one-le-pow, pow-le-pow_right}
use native.Mathlib.Numerals.{unary_clauses}
use go_xmpp.Backoff.{
  Backoff, default_base, default_cap, default_factor, duration, exp_backoff, intn, min_int,
  or_default, power, set_default, times,
}
use mathlib.Core.Path.{subst}
use go_xmpp.Prelude.{
  Bool, Option, ap, arith, false, if◌then◌else◌, inl, inr, negsuc, none, pos, refl, some, suc, sym,
  true, zero, ℕ, ℤ, ◌%◌, ◌*◌, ◌+◌, ◌<◌, ◌^◌, ◌∙◌, ◌≡◌, ◌≤◌, ◌⊎◌,
}

-- Settings that are not negative.
abbrev pub settings : Bool → ℕ → ℕ → ℕ → ℕ → Backoff
settings no_jitter base factor cap attempt = record {
  no_jitter = no_jitter;
  base = pos base;
  factor = pos factor;
  cap = pos cap;
  attempt = attempt;
}

-- A setting, where 0 stands for the default.
abbrev pub setting : ℕ → ℕ → ℕ
setting zero d = d
setting (suc n) d = suc n

-- min(cap, base * factor^attempt), with the defaults for 0.
abbrev pub capped : ℕ → ℕ → ℕ → ℕ → ℕ
capped base factor cap attempt =
    min (setting cap default_cap)
      (setting base default_base * setting factor default_factor ^ attempt)

setting_pos : (n d : ℕ) → 0 < d → 0 < setting n d
setting_pos zero d h = h
setting_pos (suc n) d h = omega arith

or_default-setting : (n d : ℕ) → or_default (pos n) d ≡ pos (setting n d)
or_default-setting zero d = refl
or_default-setting (suc n) d = refl

set_default-settings :
    (j : Bool) (base factor cap attempt : ℕ)
    → set_default (settings j base factor cap attempt)
      ≡ settings j
          (setting base default_base)
          (setting factor default_factor)
          (setting cap default_cap)
          attempt
unfolding set_default
set_default-settings j base factor cap attempt = ground (
  arith,
  or_default-setting base default_base,
  or_default-setting factor default_factor,
  or_default-setting cap default_cap,
)

power-pos : (f n : ℕ) → power (pos f) n ≡ pos (f ^ n)
unfolding power
power-pos f zero = simp unary_clauses refl
power-pos f (suc n) =
    ap (λ z. times z (pos f)) (power-pos f n) ∙ ap pos (simp unary_clauses (grind arith))

exp_backoff-settings :
    (j : Bool) (base factor cap attempt : ℕ)
    → exp_backoff (settings j base factor cap attempt) ≡ pos (min cap (base * factor ^ attempt))
unfolding exp_backoff
exp_backoff-settings j base factor cap attempt =
    ap (λ z. min_int (pos cap) (times (pos base) z)) (power-pos factor attempt)

pow_pos : (f n : ℕ) → 0 < f → 0 < f ^ n
pow_pos f n h = one-le-pow n f h

capped-pos : (base factor cap attempt : ℕ) → 0 < capped base factor cap attempt
capped-pos base factor cap attempt = grind (
  arith,
  setting_pos base default_base (omega arith),
  setting_pos cap default_cap (omega arith),
  pow_pos (setting factor default_factor) attempt (setting_pos factor default_factor (omega arith)),
)

intn-pos : (r d : ℕ) → 0 < d → intn r (pos d) ≡ some (pos (r % d))
unfolding intn
intn-pos r zero h = absurd (omega arith)
intn-pos r (suc d) h = refl

le-mul_pow : (a f n : ℕ) → 0 < f → a ≤ a * f ^ n
le-mul_pow a f n h = grind (arith, mul-le-mul_left a (pow_pos f n h))

le-capped :
    (base factor cap attempt : ℕ)
    → min (setting base default_base) (setting cap default_cap) ≤ capped base factor cap attempt
le-capped base factor cap attempt = omega (
  arith,
  le-mul_pow (setting base default_base) (setting factor default_factor) attempt
      (setting_pos factor default_factor (omega arith)),
)

duration_of :
    (r : ℕ) (b b' : Backoff) (e : ℕ)
    → set_default b ≡ b'
    → exp_backoff b' ≡ pos e
    → 0 < e
    → duration r b
      ≡ (some (pos (if b'.no_jitter then e else r % e)), record b' { attempt = b'.attempt + 1 })
unfolding duration
duration_of r b b' e h k p =
    subst
      (λ (x : Backoff).
        ◌≡◌ {A = Option ℤ × Backoff}
          (
            (if x.no_jitter then some (exp_backoff x) else intn r (exp_backoff x)),
            record x { attempt = x.attempt + 1 },
          )
          (some (pos (if b'.no_jitter then e else r % e)), record b' { attempt = b'.attempt + 1 }))
      (sym h) (ground (arith, k, intn-pos r e p))

-- What duration gives, and the settings after it.
pub duration-settings :
    (r : ℕ) (j : Bool) (base factor cap attempt : ℕ)
    → duration r (settings j base factor cap attempt) ≡ (
      some (pos (if j then capped base factor cap attempt else r % capped base factor cap attempt)),
      settings j
          (setting base default_base)
          (setting factor default_factor)
          (setting cap default_cap)
          (attempt + 1),
    )
duration-settings r j base factor cap attempt =
    let b = setting base default_base in
    let f = setting factor default_factor in
    let m = setting cap default_cap in
    duration_of r (settings j base factor cap attempt) (settings j b f m attempt)
      (capped base factor cap attempt) (set_default-settings j base factor cap attempt)
      (exp_backoff-settings j b f m attempt) (capped-pos base factor cap attempt)

-- For settings that are not negative, and in exact arithmetic, the next duration is computed without a panic and is at most the
-- cap, with the defaults for settings that are 0. Without jitter it is min(cap, base * factor^attempt),
-- which is at least the smaller of base and cap; with jitter it is below that. The attempt goes up by
-- one.
pub duration_bounds :
    (r : ℕ) (j : Bool) (base factor cap attempt : ℕ)
    → (d : ℕ) × ((duration r (settings j base factor cap attempt)).0 ≡ some (pos d))
      × (d ≤ setting cap default_cap)
      × (((j ≡ true)
            × (d ≡ capped base factor cap attempt)
            × (min (setting base default_base) (setting cap default_cap) ≤ d))
          ⊎ ((j ≡ false) × (d < capped base factor cap attempt)))
      × ((duration r (settings j base factor cap attempt)).1.attempt ≡ attempt + 1)
duration_bounds r true base factor cap attempt =
    let q = duration-settings r true base factor cap attempt in
    (
      capped base factor cap attempt,
      ap (λ x. x.0) q,
      omega arith,
      inl (refl, refl, le-capped base factor cap attempt),
      ap (λ x. x.1.attempt) q,
    )
duration_bounds r false base factor cap attempt =
    let q = duration-settings r false base factor cap attempt in
    let below : r % capped base factor cap attempt < capped base factor cap attempt =
      grind (arith, capped-pos base factor cap attempt) in
    (
      r % capped base factor cap attempt,
      ap (λ x. x.0) q,
      omega (arith, below),
      inr (refl, below),
      ap (λ x. x.1.attempt) q,
    )

-- An integer that is below 0.
abbrev IsNegative : ℤ → Type 0
IsNegative (pos n) = ⊥
IsNegative (negsuc n) = Unit

min_int-IsNegative : (n : ℕ) (z : ℤ) → IsNegative (min_int (negsuc n) z)
min_int-IsNegative n (pos m) = tt
min_int-IsNegative n (negsuc m) = tt

exp_backoff-IsNegative :
    (b : Backoff) (n : ℕ) → b.cap ≡ negsuc n → IsNegative (exp_backoff (set_default b))
unfolding exp_backoff set_default
exp_backoff-IsNegative b n e =
    subst
      (λ z. IsNegative (
        min_int (or_default z default_cap) (
          times (or_default b.base default_base)
            (power (or_default b.factor default_factor) b.attempt))))
      (sym e)
      (min_int-IsNegative n (
        times (or_default b.base default_base)
          (power (or_default b.factor default_factor) b.attempt)))

intn-negative : (r : ℕ) (z : ℤ) → IsNegative z → intn r z ≡ none
unfolding intn
intn-negative r (pos n) h = absurd h
intn-negative r (negsuc n) h = refl

-- With jitter, a negative cap makes rand.Intn panic.
negative_cap_panics :
    (r n : ℕ) (b : Backoff) → b.no_jitter ≡ false → b.cap ≡ negsuc n → (duration r b).0 ≡ none
unfolding duration
negative_cap_panics r n b h e =
    ground (arith, h, intn-negative r (exp_backoff (set_default b)) (exp_backoff-IsNegative b n e))

-- The capped powers of successive attempts never shrink.
capped_mono :
    (base factor cap attempt : ℕ)
    → capped base factor cap attempt ≤ capped base factor cap (attempt + 1)
capped_mono base factor cap attempt =
    let f = setting factor default_factor in
    omega (
      arith,
      mul-le-mul_left (setting base default_base) (
          pow-le-pow_right {n = f} (setting_pos factor default_factor (omega arith)) {i = attempt}
            {j = attempt + 1} (omega arith)),
    )
