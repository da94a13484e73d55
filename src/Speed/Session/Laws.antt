-- ===== src/Speed/Session/Laws.antt =====
-- The invariant of a session (src/speed_session.rs).
use intimatr.Prelude.{
  ℕ, ◌≤◌, ◌≡◌, sym, ap, ◌∙◌, Bool, true, false, Option, none, some, is_some, u64_max, leb,
}
use mathlib.Core.Path.{subst}
use intimatr.Float.{F64}
use intimatr.Speed.Clock.Scaled.{IsSpeed}
use intimatr.Speed.Timers.{WindowsTimers}
use intimatr.Speed.Timers.Laws.{
  IsTimers, sample-IsTimers, multiplier-sample, set_multiplier-IsTimers,
}
use intimatr.Speed.Config.Laws.{InRange-IsSpeed}
use intimatr.Speed.Controls.{SpeedControlState, effective_multiplier}
use intimatr.Speed.Controls
use intimatr.Speed.Controls.Found.{OnSome, OnSome-if, OnSome-elim}
use intimatr.Speed.Controls.Laws.{IsControls, effective-InRange}
use intimatr.Speed.Controls.Settled.{IsSettled, end_hold-IsSettled, reset-IsSettled}
use intimatr.Speed.Session.Rounds.{pending, advance_induction}
use intimatr.Speed.Session.{SpeedSession, next_deadline, restore, expire, advance_deadlines, sample}

-- A session of a profile whose speeds range from `lo` to `hi`: the clock runs at the speed that the
-- controls put in force, and a temporary hold is active exactly while it has a deadline.
pub record IsSession (lo hi : F64) (s : SpeedSession) : Type 0 where
  pub controls : IsControls lo hi s.controls
  pub timers : IsTimers s.timers
  pub in_force : s.timers.clock.multiplier ≡ effective_multiplier s.controls
  pub lease : is_some s.hold_deadline_qpc ≡ is_some s.controls.held_multiplier
  pub hold_fits : OnSome (λ d. d ≤ u64_max) s.hold_deadline_qpc
  pub startup_fits : OnSome (λ d. d ≤ u64_max) s.startup_deadline_qpc

module _ (lo hi : F64) (low : IsSpeed lo) where
  pub effective-IsSpeed :
      (c : SpeedControlState) → IsControls lo hi c → IsSpeed (effective_multiplier c)
  effective-IsSpeed c v = InRange-IsSpeed lo hi _ low (effective-InRange lo hi c v)

  -- With a speed in range the error branch of a deadline is never taken.
  pub restore-ok :
      (t : WindowsTimers) (d : ℕ) (m : F64)
      → d ≤ u64_max
      → IsSpeed m
      → IsTimers t
      → IsTimers (restore t d m) × ((restore t d m).clock.multiplier ≡ m)
  unfolding restore
  restore-ok t d m h s v =
      let (q, e, valid, force, same) = set_multiplier-IsTimers t d m h s v in
      rw (e, restore) (valid, force)

  pub IsSettled-IsSpeed : (p : SpeedControlState × F64) → IsSettled lo hi p → IsSpeed p.1
  IsSettled-IsSpeed p s = subst IsSpeed (sym s.names) (effective-IsSpeed p.0 s.valid)

  restore-IsSettled :
      (t : WindowsTimers) (d : ℕ) (p : SpeedControlState × F64)
      → d ≤ u64_max
      → IsTimers t
      → IsSettled lo hi p
      → IsTimers (restore t d p.1) × ((restore t d p.1).clock.multiplier ≡ effective_multiplier p.0)
  restore-IsSettled t d p h v s =
      let (valid, force) = restore-ok t d p.1 h (IsSettled-IsSpeed p s) v in
      (valid, force ∙ s.names)

  pub expire-IsSession :
      (s : SpeedSession) (d : ℕ) (b : Bool)
      → d ≤ u64_max
      → IsSession lo hi s
      → IsSession lo hi (expire s d b)
  unfolding expire
  expire-IsSession s d true h v =
      let settled = reset-IsSettled lo hi s.controls v.controls in
      let (timed, force) =
        restore-IsSettled s.timers d (Controls.reset s.controls) h v.timers settled in
      record {
        controls = settled.valid;
        timers = timed;
        in_force = force;
        lease = ap is_some (sym settled.unheld);
        hold_fits = tt;
        startup_fits = tt;
      }
  expire-IsSession s d false h v =
      let settled = end_hold-IsSettled lo hi s.controls v.controls in
      let (timed, force) =
        restore-IsSettled s.timers d (Controls.end_hold s.controls) h v.timers settled in
      record {
        controls = settled.valid;
        timers = timed;
        in_force = force;
        lease = ap is_some (sym settled.unheld);
        hold_fits = tt;
        startup_fits = v.startup_fits;
      }

  next_deadline-fits :
      (a b : Option ℕ)
      → OnSome (λ d. d ≤ u64_max) a
      → OnSome (λ d. d ≤ u64_max) b
      → OnSome (λ (p : ℕ × Bool). p.0 ≤ u64_max) (next_deadline a b)
  unfolding next_deadline
  next_deadline-fits none none h k = tt
  next_deadline-fits none (some b) h k = k
  next_deadline-fits (some a) none h k = h
  next_deadline-fits (some a) (some b) h k = OnSome-if _ (leb a b) _ _ (λ _. h) (λ _. k)

  pub pending-fits :
      (s : SpeedSession) (d : ℕ) (b : Bool)
      → IsSession lo hi s
      → pending s ≡ some (d, b)
      → d ≤ u64_max
  pending-fits s d b v e =
      OnSome-elim (λ (p : ℕ × Bool). p.0 ≤ u64_max) (pending s)
        (next_deadline-fits s.startup_deadline_qpc s.hold_deadline_qpc v.startup_fits v.hold_fits) e

  pub advance_deadlines-IsSession :
      (s : SpeedSession) (r : ℕ) → IsSession lo hi s → IsSession lo hi (advance_deadlines s r)
  unfolding advance_deadlines
  advance_deadlines-IsSession s r v =
      advance_induction (IsSession lo hi) r
        (λ t d b e h w. expire-IsSession t d b (pending-fits t d b w e) w) 3 s v

  pub sample-IsSession :
      (s : SpeedSession) (r : ℕ) → r ≤ u64_max → IsSession lo hi s → IsSession lo hi (sample s r).0
  unfolding sample
  sample-IsSession s r h v =
      let w = advance_deadlines-IsSession s r v in
      record {
        controls = w.controls;
        timers = sample-IsTimers (advance_deadlines s r).timers r h w.timers;
        in_force = multiplier-sample (advance_deadlines s r).timers r ∙ w.in_force;
        lease = w.lease;
        hold_fits = w.hold_fits;
        startup_fits = w.startup_fits;
      }
