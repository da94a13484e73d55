-- ===== src/Speed/Session.antt =====
-- src/speed_session.rs: controls and timers behind one boundary, with the two deadlines. A call that
-- fails returns the session as it has left it.
pub mod Rounds
pub mod Laws
pub mod Requests
pub mod Start
pub mod Actions
pub mod Deadlines
pub mod Polling
use intimatr.Prelude.{
  ℕ, zero, suc, ◌*◌, ◌/◌, min, max, u64_max, saturating_add, Bool, true, false, not, ◌&&◌, ◌||◌,
  Option, none, some, Result, ok, err, ◌>>=◌, map_err, ltb, leb, if◌then◌else◌,
}
use intimatr.Float.{F64, one, eq}
use intimatr.Speed.Clock.{ClockError}
use intimatr.Speed.Timers.{WindowsTimers, TimerSnapshot, TimerInitError}
use intimatr.Speed.Timers
use intimatr.Speed.Config.{SpeedSettings, SpeedProfileError}
use intimatr.Speed.Controls.{SpeedControlState, effective_multiplier}
use intimatr.Speed.Controls

pub data SpeedAction : Type 0 where
  increase decrease toggle reset : SpeedAction
  select_preset : F64 → SpeedAction
  hold_start : F64 → ℕ → SpeedAction
  hold_release focus_lost : SpeedAction

pub data SpeedSessionError : Type 0 where
  profile : SpeedProfileError → SpeedSessionError
  timer : TimerInitError → SpeedSessionError
  clock : ClockError → SpeedSessionError
  unknown_preset invalid_hold_duration : SpeedSessionError

pub record SpeedSession : Type 0 where
  pub controls : SpeedControlState
  pub timers : WindowsTimers
  pub qpc_frequency : ℕ
  pub hold_deadline_qpc : Option ℕ
  pub startup_deadline_qpc : Option ℕ

unfoldable pub duration_qpc_ticks : ℕ → ℕ → ℕ
duration_qpc_ticks qpc_frequency duration_ms =
    min (max (duration_ms * qpc_frequency / 1000) 1) u64_max

unfoldable pub new : SpeedSettings → ℕ → ℕ → ℕ → ℕ → Result SpeedSessionError SpeedSession
new settings real_qpc_origin qpc_frequency initial_tick_count64 initial_time_get_time = do
  controls ← map_err profile (Controls.new settings)
  timers ←
      map_err timer
        (Timers.new real_qpc_origin qpc_frequency initial_tick_count64 initial_time_get_time)
  set ← map_err clock (Timers.set_multiplier timers real_qpc_origin (effective_multiplier controls))
  let startup_deadline_qpc =
      if settings.enabled
        && (not (eq settings.initial_multiplier one) && ltb 0 settings.startup_duration_ms)
      then some (
          saturating_add real_qpc_origin
            (duration_qpc_ticks qpc_frequency settings.startup_duration_ms))
      else none
  ok (record {
    controls = controls;
    timers = set.0;
    qpc_frequency = qpc_frequency;
    hold_deadline_qpc = none;
    startup_deadline_qpc = startup_deadline_qpc;
  })

abbrev pub multiplier : SpeedSession → F64
multiplier s = Timers.multiplier s.timers

-- The deadline that comes first, and whether it is the startup's, which wins a tie.
unfoldable pub next_deadline : Option ℕ → Option ℕ → Option (ℕ × Bool)
next_deadline (some startup) (some hold) =
    if leb startup hold then some (startup, true) else some (hold, false)
next_deadline (some startup) none = some (startup, true)
next_deadline none (some hold) = some (hold, false)
next_deadline none none = none

-- `if set_multiplier(deadline, restored).is_err() { reset(deadline); }`
unfoldable pub restore : WindowsTimers → ℕ → F64 → WindowsTimers
restore t deadline restored = elim (Timers.set_multiplier t deadline restored) [
  | ok p ↦ p.0
  | err e ↦ (Timers.reset t deadline).0
]

-- One round of the loop in `advance_deadlines`, for a deadline that has passed.
unfoldable pub expire : SpeedSession → ℕ → Bool → SpeedSession
unfolding restore
expire s deadline true =
    let (controls, restored) = Controls.reset s.controls in
    record s {
      controls = controls;
      timers = restore s.timers deadline restored;
      hold_deadline_qpc = none;
      startup_deadline_qpc = none;
    }
expire s deadline false =
    let (controls, restored) = Controls.end_hold s.controls in
    record s {
      controls = controls;
      timers = restore s.timers deadline restored;
      hold_deadline_qpc = none;
    }

-- The loop, for at most `fuel` rounds.
unfoldable pub advance : ℕ → SpeedSession → ℕ → SpeedSession
unfolding next_deadline
advance zero s real_qpc = s
advance (suc fuel) s real_qpc = elim (next_deadline s.startup_deadline_qpc s.hold_deadline_qpc) [
  | none ↦ s
  | some (deadline, startup) ↦ elim (ltb real_qpc deadline) [
    | true ↦ s
    | false ↦ advance fuel (expire s deadline startup) real_qpc
  ]
]

-- Each round clears a deadline, so the third one ends the loop.
unfoldable pub advance_deadlines : SpeedSession → ℕ → SpeedSession
unfolding advance
advance_deadlines s real_qpc = advance 3 s real_qpc

unfoldable pub sample : SpeedSession → ℕ → SpeedSession × TimerSnapshot
sample s real_qpc =
    let s' = advance_deadlines s real_qpc in
    let (timers, snapshot) = Timers.sample s'.timers real_qpc in
    (record s' { timers = timers }, snapshot)

-- What an action does to the controls, and the speed and the hold deadline that it asks for.
unfoldable pub control :
    SpeedSession → ℕ → SpeedAction → SpeedControlState × Result SpeedSessionError (F64 × Option ℕ)
unfolding duration_qpc_ticks
control s real_qpc increase = let (c, m) = Controls.increase s.controls in (c, ok (m, none))
control s real_qpc decrease = let (c, m) = Controls.decrease s.controls in (c, ok (m, none))
control s real_qpc toggle = let (c, m) = Controls.toggle s.controls in (c, ok (m, none))
control s real_qpc reset = let (c, m) = Controls.reset s.controls in (c, ok (m, none))
control s real_qpc (select_preset rate) =
    let (c, selected) = Controls.select_preset s.controls rate in
    (c, if not selected then err unknown_preset else ok (effective_multiplier c, none))
control s real_qpc (hold_start rate duration_ms) =
    if not (leb 1 duration_ms && leb duration_ms 60000)
    then (s.controls, err invalid_hold_duration)
    else (let (c, held) = Controls.begin_hold s.controls rate in
        let ticks = duration_qpc_ticks s.qpc_frequency duration_ms in
        (
          c,
          if not held
              then err unknown_preset
              else ok (effective_multiplier c, some (saturating_add real_qpc ticks)),
        ))
control s real_qpc hold_release = let (c, m) = Controls.end_hold s.controls in (c, ok (m, none))
control s real_qpc focus_lost = let (c, m) = Controls.reset s.controls in (c, ok (m, none))

-- `matches!(action, HoldStart { .. } | HoldRelease)`
abbrev pub is_hold : SpeedAction → Bool
is_hold (hold_start rate duration_ms) = true
is_hold hold_release = true
is_hold _ = false

-- The end of `apply`, with the speed that the controls ask for.
unfoldable pub commit :
    SpeedSession
    → ℕ
    → SpeedAction
    → F64
    → Option ℕ
    → SpeedSession × Result SpeedSessionError TimerSnapshot
commit s real_qpc action rate new_deadline = elim (Timers.set_multiplier s.timers real_qpc rate) [
  | err e ↦ (s, err (clock e))
  | ok (timers, snapshot) ↦ (
    record s {
      timers = timers;
      hold_deadline_qpc = new_deadline;
      startup_deadline_qpc = if not (is_hold action) then none else s.startup_deadline_qpc;
    },
    ok snapshot,
  )
]

-- The `?` of a refused action, or the commit.
unfoldable pub finish :
    SpeedSession
    → ℕ
    → SpeedAction
    → SpeedControlState × Result SpeedSessionError (F64 × Option ℕ)
    → SpeedSession × Result SpeedSessionError TimerSnapshot
unfolding commit
finish s real_qpc action (controls, err e) = (record s { controls = controls }, err e)
finish s real_qpc action (controls, ok (rate, new_deadline)) =
    commit (record s { controls = controls }) real_qpc action rate new_deadline

unfoldable pub apply :
    SpeedSession → ℕ → SpeedAction → SpeedSession × Result SpeedSessionError TimerSnapshot
unfolding control finish
apply s real_qpc action =
    let s' = advance_deadlines s real_qpc in finish s' real_qpc action (control s' real_qpc action)
