-- ===== src/Speed/Clock.antt =====
-- src/speed.rs: the virtual clock. Ticks are u64; a call returns the new clock and its result, and
-- an error leaves the clock as it was.
pub mod Scaled
pub mod Laws
pub mod Changes
pub mod Trace
use intimatr.Prelude.{ℕ, ◌-◌, Bool, not, ◌||◌, max, saturating_add, Result, ok, err, if◌then◌else◌}
use intimatr.Float.{F64, one, zero, is_finite, le, of_u64, mul, floor, to_u64}

pub data ClockError : Type 0 where
  invalid_multiplier : ClockError

pub record VirtualClock : Type 0 where
  pub anchor_real : ℕ
  pub anchor_virtual : ℕ
  pub last_real : ℕ
  pub last_virtual : ℕ
  pub multiplier : F64

unfoldable pub new : ℕ → ℕ → VirtualClock
new real_origin virtual_origin = record {
  anchor_real = real_origin;
  anchor_virtual = virtual_origin;
  last_real = real_origin;
  last_virtual = virtual_origin;
  multiplier = one;
}

-- `((elapsed as f64) * multiplier).floor() as u64`
unfoldable pub scaled : ℕ → F64 → ℕ
scaled elapsed multiplier = to_u64 (floor (mul (of_u64 elapsed) multiplier))

unfoldable pub sample : VirtualClock → ℕ → VirtualClock × ℕ
sample c real_ticks =
    let last_real = max c.last_real real_ticks in
    let elapsed = last_real - c.anchor_real in
    let projected = saturating_add c.anchor_virtual (scaled elapsed c.multiplier) in
    let last_virtual = max c.last_virtual projected in
    (record c { last_real = last_real; last_virtual = last_virtual }, last_virtual)

-- `set_multiplier` once its argument is accepted.
unfoldable pub reanchor : VirtualClock → ℕ → F64 → VirtualClock × ℕ
unfolding sample
reanchor c real_ticks multiplier =
    let (c', at_change) = sample c real_ticks in
    (
      record c' { anchor_real = c'.last_real; anchor_virtual = at_change; multiplier = multiplier },
      at_change,
    )

unfoldable pub set_multiplier : VirtualClock → ℕ → F64 → Result ClockError (VirtualClock × ℕ)
unfolding reanchor
set_multiplier c real_ticks multiplier =
    if not (is_finite multiplier) || le multiplier zero
    then err invalid_multiplier
    else ok (reanchor c real_ticks multiplier)

-- `set_multiplier(real_ticks, 1.0)`, whose error case is shown to be impossible.
unfoldable pub reset : VirtualClock → ℕ → VirtualClock × ℕ
unfolding reanchor
reset c real_ticks = reanchor c real_ticks one
