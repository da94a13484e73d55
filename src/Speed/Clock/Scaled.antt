-- ===== src/Speed/Clock/Scaled.antt =====
-- Scaling an elapsed tick count by a speed (src/speed.rs, in `sample`): nothing at zero, monotone,
-- and exact at 1x.
use native.Mathlib.Nat.{mul-div_left, zero-mul, mul-one, mul_assoc}
use intimatr.Prelude.{
  ℕ, ◌*◌, ◌/◌, ◌^◌, ◌≡◌, ◌≤◌, ◌<◌, refl, ap, ◌∙◌, true, false, arith, min, u64_max, leb,
  if◌then◌else◌,
}
use intimatr.Float.{
  F64, nan, infinite, finite, unit, overflow, one, zero, is_finite, lt, of_u64, mul, pack, floor,
  to_u64,
}
use intimatr.Float.Round.{round, round_mono, round-exact, div_mono, times_mono}
use intimatr.Speed.Clock.{scaled}

-- A speed that `set_multiplier` accepts.
pub record IsSpeed (m : F64) : Type 0 where
  pub bounded : is_finite m ≡ true
  pub positive : lt zero m ≡ true

pub one-IsSpeed : IsSpeed one
unfolding one unit
one-IsSpeed = record { bounded = refl; positive = refl }

unit-pos : 0 < unit
unfolding unit
unit-pos = omega arith

-- `floor` and the conversion of a rounded magnitude.
whole : ℕ → ℕ
whole r = if leb overflow r then u64_max else min (r / unit * unit / unit) u64_max

whole_mono : (a b : ℕ) → a ≤ b → whole a ≤ whole b
unfolding whole
whole_mono a b h = ground (
  arith,
  mul-div_left (a / unit) unit-pos,
  mul-div_left (b / unit) unit-pos,
  div_mono unit a b unit-pos h,
)

scaled-finite :
    (d k : ℕ) → scaled d (finite false k) ≡ whole (round 1074 (round 0 d * unit * k) / unit)
unfolding scaled of_u64 mul pack floor to_u64 whole
scaled-finite d k = ground arith

IsSpeed-form : (m : F64) → IsSpeed m → (k : ℕ) × (m ≡ finite false k)
IsSpeed-form nan s = absurd (ground arith)
IsSpeed-form (infinite b) s = absurd (ground arith)
IsSpeed-form (finite true k) s = absurd (ground arith)
IsSpeed-form (finite false k) s = (k, refl)

scaled-zero_finite : (k : ℕ) → scaled 0 (finite false k) ≡ 0
unfolding whole unit overflow round
scaled-zero_finite k = rw (scaled-finite 0 k, zero-mul k) refl

-- No time at all is no time at any speed.
pub scaled-zero : (m : F64) → IsSpeed m → scaled 0 m ≡ 0
scaled-zero m s = let (k, e) = IsSpeed-form m s in rw e (scaled-zero_finite k)

scaled-mono_finite : (a b k : ℕ) → a ≤ b → scaled a (finite false k) ≤ scaled b (finite false k)
scaled-mono_finite a b k h =
    rw (scaled-finite a k, scaled-finite b k)
      (whole_mono _ _ (
        div_mono unit _ _ unit-pos
          (round_mono 1074 _ _ (times_mono _ _ k (times_mono _ _ unit (round_mono 0 a b h))))))

-- More time is no less time, at any speed.
pub scaled_mono : (m : F64) → IsSpeed m → (a b : ℕ) → a ≤ b → scaled a m ≤ scaled b m
scaled_mono m s a b h = let (k, e) = IsSpeed-form m s in rw e (scaled-mono_finite a b k h)

pub scaled-le : (d : ℕ) (m : F64) → IsSpeed m → scaled d m ≤ u64_max
scaled-le d m s =
    let (k, e) = IsSpeed-form m s in rw (e, scaled-finite d k) (unfold whole in ground arith)

unit-lt-overflow : (d : ℕ) → d < 2 ^ 53 → d * unit < overflow
unfolding unit overflow
unit-lt-overflow d h = omega arith

whole-exact : (d : ℕ) → d < 2 ^ 53 → whole (d * unit) ≡ d
unfolding whole
whole-exact d h =
    rw (mul-div_left d unit-pos, mul-div_left d unit-pos) (ground (arith, unit-lt-overflow d h))

round-ticks : (d : ℕ) → d < 2 ^ 53 → round 0 d ≡ d
round-ticks d h = rw mul-one at (round-exact 0 d 0 h (omega arith))

round-units : (d : ℕ) → d < 2 ^ 53 → round 1074 (d * unit * unit) ≡ d * unit * unit
unfolding unit
round-units d h = rw (mul_assoc d (2 ^ 1074) (2 ^ 1074)) (round-exact 1074 d 2148 h (omega arith))

-- At 1x every tick count below 2^53 is kept exactly.
pub scaled-one : (d : ℕ) → d < 2 ^ 53 → scaled d one ≡ d
unfolding one
scaled-one d h =
    scaled-finite d unit
    ∙ ap (λ t. whole (round 1074 (t * unit * unit) / unit)) (round-ticks d h)
    ∙ ap (λ t. whole (t / unit)) (round-units d h)
    ∙ ap whole (mul-div_left (d * unit) unit-pos)
    ∙ whole-exact d h
