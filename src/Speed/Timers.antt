-- ===== src/Speed/Timers.antt =====
-- src/speed_timers.rs: one virtual performance counter, projected into the Windows timers. A u128
-- product of the source never wraps here, and the 32-bit timers wrap as Windows has it.
pub mod Laws
use intimatr.Prelude.{
  ℕ, ◌+◌, ◌-◌, ◌*◌, ◌/◌, ◌%◌, ◌^◌, min, u64_max, saturating_add, Result, ok, err, ◌>>=◌, ◌==◌,
  if◌then◌else◌,
}
use intimatr.Float.{F64}
use intimatr.Speed.Clock.{VirtualClock, ClockError}
use intimatr.Speed.Clock

pub data TimerInitError : Type 0 where
  invalid_frequency : TimerInitError

pub record TimerSnapshot : Type 0 where
  pub performance_counter : ℕ
  pub tick_count64 : ℕ
  pub tick_count : ℕ
  pub time_get_time : ℕ

pub record WindowsTimers : Type 0 where
  pub clock : VirtualClock
  pub real_qpc_origin : ℕ
  pub initial_tick_count64 : ℕ
  pub initial_time_get_time : ℕ
  pub qpc_frequency : ℕ

unfoldable pub new : ℕ → ℕ → ℕ → ℕ → Result TimerInitError WindowsTimers
new real_qpc_origin qpc_frequency initial_tick_count64 initial_time_get_time =
    if qpc_frequency == 0
    then err invalid_frequency
    else ok (record {
      clock = Clock.new real_qpc_origin real_qpc_origin;
      real_qpc_origin = real_qpc_origin;
      initial_tick_count64 = initial_tick_count64;
      initial_time_get_time = initial_time_get_time;
      qpc_frequency = qpc_frequency;
    })

abbrev pub multiplier : WindowsTimers → F64
multiplier t = t.clock.multiplier

unfoldable pub elapsed_ms : WindowsTimers → ℕ → ℕ
elapsed_ms t virtual_qpc = min ((virtual_qpc - t.real_qpc_origin) * 1000 / t.qpc_frequency) u64_max

-- The snapshot that `sample` builds from the virtual counter.
unfoldable pub project : WindowsTimers → ℕ → TimerSnapshot
project t virtual_qpc =
    let elapsed = elapsed_ms t virtual_qpc in
    let tick_count64 = saturating_add t.initial_tick_count64 elapsed in
    record {
      performance_counter = virtual_qpc;
      tick_count64 = tick_count64;
      tick_count = tick_count64 % 2 ^ 32;
      time_get_time = (t.initial_time_get_time + elapsed % 2 ^ 32) % 2 ^ 32;
    }

unfoldable pub sample : WindowsTimers → ℕ → WindowsTimers × TimerSnapshot
sample t real_qpc =
    let (clock, virtual_qpc) = Clock.sample t.clock real_qpc in
    (record t { clock = clock }, project t virtual_qpc)

unfoldable pub set_multiplier :
    WindowsTimers → ℕ → F64 → Result ClockError (WindowsTimers × TimerSnapshot)
unfolding sample
set_multiplier t real_qpc multiplier = do
  changed ← Clock.set_multiplier t.clock real_qpc multiplier
  ok (sample (record t { clock = changed.0 }) real_qpc)

unfoldable pub reset : WindowsTimers → ℕ → WindowsTimers × TimerSnapshot
unfolding sample
reset t real_qpc = sample (record t { clock = (Clock.reset t.clock real_qpc).0 }) real_qpc
