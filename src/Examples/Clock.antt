-- ===== src/Examples/Clock.antt =====
-- Runs of the clock's and the timers' theorems.
use intimatr.Prelude.{◌+◌, ◌≤◌, ◌≡◌, refl, [], ◌∷◌, ok, arith, u64_max, saturating_add}
use intimatr.Float.{one, unit, overflow, of_u64, mul, pack, floor, to_u64}
use intimatr.Float.Round.{round}
use intimatr.Speed.Clock.{VirtualClock, new, scaled, sample, set_multiplier, reanchor}
use intimatr.Speed.Clock.Laws.{IsClock, new-IsClock}
use intimatr.Speed.Clock.Changes.{change_continuity, change_rate}
use intimatr.Speed.Clock.Trace.{samples, changes, resets, times, Rising, times-Rising}
use intimatr.Speed.Timers.{WindowsTimers, TimerSnapshot}
use intimatr.Speed.Timers
use intimatr.Examples.Data.{half, double, timers}

abbrev start : VirtualClock
start = new 0 0

start-IsClock : IsClock start
start-IsClock = new-IsClock 0 0 (omega arith) (omega arith)

-- The clock changed to 2x at real time 100.
abbrev fast : VirtualClock
fast = record {
  anchor_real = 100;
  anchor_virtual = 100;
  last_real = 100;
  last_virtual = 100;
  multiplier = double;
}

change-made : set_multiplier start 100 double ≡ ok (fast, 100)
unfolding set_multiplier reanchor sample new scaled to_u64 floor mul of_u64 pack overflow round one
    unit
change-made = refl

change_continuity_example : (100 ≡ (sample start 100).1) × ((sample fast 50).1 ≡ 100)
change_continuity_example =
    change_continuity start 100 double fast 100 50 (omega arith) start-IsClock change-made
      (omega arith)

change_rate_example : (sample fast (100 + 25)).1 ≡ saturating_add 100 (scaled 25 double)
change_rate_example =
    change_rate start 100 double fast 100 25 (omega arith) start-IsClock (unfold new in omega arith)
      change-made

reset-fits : (sample start 100).1 + 25 ≤ u64_max
unfolding sample new scaled to_u64 floor mul of_u64 pack overflow round one unit
reset-fits = omega arith

times-Rising_example :
    Rising fast.last_virtual
      (times fast (samples 150 ∷ changes 120 half ∷ samples 90 ∷ resets 200 ∷ []))
times-Rising_example =
    times-Rising fast (samples 150 ∷ changes 120 half ∷ samples 90 ∷ resets 200 ∷ [])

abbrev slowed : WindowsTimers
slowed = record timers {
  clock = record {
    anchor_real = 70;
    anchor_virtual = 140;
    last_real = 70;
    last_virtual = 140;
    multiplier = half;
  };
}

abbrev slowed_shows : TimerSnapshot
slowed_shows = record {
  performance_counter = 140;
  tick_count64 = 140;
  tick_count = 140;
  time_get_time = 140;
}

slow-made : Timers.set_multiplier timers 70 half ≡ ok (slowed, slowed_shows)
unfolding Timers.set_multiplier Timers.sample Timers.project Timers.elapsed_ms set_multiplier
    reanchor sample scaled to_u64 floor mul of_u64 pack overflow round unit
slow-made = refl
