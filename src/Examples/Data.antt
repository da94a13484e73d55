-- ===== src/Examples/Data.antt =====
-- Settings with the presets 0.5x, 1x and 2x that start at 2x for five seconds, and what the program
-- makes of them.
use intimatr.Prelude.{◌^◌, ◌≡◌, refl, true, false, none, some, [], ◌∷◌, ok, arith}
use intimatr.Float.{F64, finite, one, unit, overflow, of_u64, mul, pack, floor, to_u64}
use intimatr.Float.Round.{round}
use intimatr.Speed.Clock.{VirtualClock, scaled}
use intimatr.Speed.Clock
use intimatr.Speed.Timers.{WindowsTimers}
use intimatr.Speed.Timers
use intimatr.Speed.Config.{SpeedSettings, validate, any_falling}
use intimatr.Speed.Config.Laws.{IsSettings, validate_iff}
use intimatr.Speed.Controls.{SpeedControlState, start, effective_multiplier}
use intimatr.Speed.Controls
use intimatr.Speed.Session.{SpeedSession, duration_qpc_ticks}
use intimatr.Speed.Session
use intimatr.Speed.Session.Laws.{IsSession}
use intimatr.Speed.Session.Start.{new-IsSession}
use intimatr.Speed.Clock.Scaled.{IsSpeed}

abbrev pub half : F64
half = finite false (2 ^ 1073)

abbrev pub double : F64
double = finite false (2 ^ 1075)

-- 1x, written out.
abbrev pub normal : F64
normal = finite false (2 ^ 1074)

abbrev pub settings : SpeedSettings
settings = record {
  enabled = true;
  initial_multiplier = double;
  startup_duration_ms = 5000;
  min_multiplier = half;
  max_multiplier = double;
  steps = half ∷ normal ∷ double ∷ [];
}

abbrev pub clock : VirtualClock
clock = record {
  anchor_real = 0;
  anchor_virtual = 0;
  last_real = 0;
  last_virtual = 0;
  multiplier = double;
}

abbrev pub timers : WindowsTimers
timers = record {
  clock = clock;
  real_qpc_origin = 0;
  initial_tick_count64 = 0;
  initial_time_get_time = 0;
  qpc_frequency = 1000;
}

abbrev pub controls : SpeedControlState
controls = record {
  steps = half ∷ normal ∷ double ∷ [];
  selected = double;
  previous_nonunity = some double;
  bypassed = false;
  held_multiplier = none;
}

abbrev pub session : SpeedSession
session = record {
  controls = controls;
  timers = timers;
  qpc_frequency = 1000;
  hold_deadline_qpc = none;
  startup_deadline_qpc = some 5000;
}

pub half-IsSpeed : IsSpeed half
half-IsSpeed = record { bounded = refl; positive = refl }

pub double-IsSpeed : IsSpeed double
double-IsSpeed = record { bounded = refl; positive = refl }

pub settings-valid : validate settings ≡ ok tt
unfolding validate any_falling one unit
settings-valid = refl

pub settings-IsSettings : IsSettings settings
settings-IsSettings = (validate_iff settings).0 settings-valid

pub session-new : Session.new settings 0 1000 0 0 ≡ ok session
unfolding Session.new Controls.new validate any_falling one unit start Timers.new Clock.new
    Timers.set_multiplier Clock.set_multiplier Clock.reanchor Clock.sample Timers.sample
    effective_multiplier duration_qpc_ticks scaled to_u64 floor mul of_u64 pack overflow round
session-new = refl

pub session-IsSession : IsSession half double session
session-IsSession = (new-IsSession settings 0 1000 0 0 session (omega arith) session-new).1
