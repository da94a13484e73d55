-- ===== src/Examples/Session.antt =====
-- Runs of the theorems on a session: one that starts at 2x for five seconds, and holds 0.5x.
use intimatr.Prelude.{◌≡◌, refl, none, some, ok, arith}
use intimatr.Float.{one, unit, overflow, of_u64, mul, pack, floor, to_u64, zero}
use intimatr.Float.Round.{round}
use intimatr.Speed.Clock.{scaled}
use intimatr.Speed.Clock
use intimatr.Speed.Timers
use intimatr.Speed.Controls.{start}
use intimatr.Speed.Controls
use intimatr.Speed.Session.{
  SpeedSession, next_deadline, advance, advance_deadlines, sample, control, commit, finish, apply,
  duration_qpc_ticks, hold_start, select_preset, unknown_preset,
}
use intimatr.Speed.Session.Laws.{IsSession}
use intimatr.Speed.Session.Actions.{apply_accepted, apply-IsSession}
use intimatr.Speed.Session.Requests.{refusal}
use intimatr.Speed.Session.Deadlines.{hold_ends}
use intimatr.Speed.Session.Polling.{sample_poll}
use intimatr.Examples.Data.{half, double, session, half-IsSpeed, session-IsSession}

-- 0.5x is held for 200 ms from real time 100.
abbrev held : SpeedSession
held = (apply session 100 (hold_start half 200)).0

held-IsSession : IsSession half double held
held-IsSession =
    apply-IsSession half double half-IsSpeed session 100 (hold_start half 200) (omega arith)
      session-IsSession

held-until : held.hold_deadline_qpc ≡ some 300
unfolding apply finish control commit advance_deadlines advance next_deadline duration_qpc_ticks
    Controls.begin_hold Controls.effective_multiplier Timers.set_multiplier Clock.set_multiplier
    Clock.reanchor Clock.sample Timers.sample scaled to_u64 floor mul of_u64 pack overflow round one
    unit
held-until = refl

sample_poll_example : sample (sample held 250).0 400 ≡ sample held 400
sample_poll_example =
    sample_poll half double half-IsSpeed 250 400 (omega arith) (omega arith) held held-IsSession

hold_ends_example : (sample held 400).0.controls.held_multiplier ≡ none
hold_ends_example =
    hold_ends half double half-IsSpeed held held-IsSession 300 400 held-until (omega arith)
      (omega arith)

hold-allowed : refusal (advance_deadlines session 100).controls (hold_start half 200) ≡ none
unfolding advance_deadlines advance next_deadline
hold-allowed = refl

apply_accepted_example :
    IsSession half double (apply session 100 (hold_start half 200)).0
    × ((apply session 100 (hold_start half 200)).1 ≡ ok (sample session 100).1)
apply_accepted_example =
    apply_accepted half double half-IsSpeed session 100 (hold_start half 200) (omega arith)
      session-IsSession hold-allowed

-- 0x is no preset.
stop-refused :
    refusal (advance_deadlines session 100).controls (select_preset zero) ≡ some unknown_preset
unfolding advance_deadlines advance next_deadline
stop-refused = refl
