-- ===== src/Speed/Coordinator/Laws.antt =====
-- What the coordinator keeps (src/speed_coordinator.rs), and that the loss of the focus and a refused
-- action both end at 1x.
use intimatr.Prelude.{
  ℕ, ◌≤◌, ◌≡◌, refl, sym, ap, ◌∙◌, inl, inr, true, none, Result, ok, err, u64_max, Result-cases,
}
use mathlib.Core.Path.{subst}
use intimatr.Float.{F64, one}
use intimatr.Speed.Clock.Scaled.{IsSpeed}
use intimatr.Speed.Timers.{TimerSnapshot}
use intimatr.Speed.Timers
use intimatr.Speed.Timers.Laws.{multiplier-sample}
use intimatr.Speed.Controls
use intimatr.Speed.Session.{
  SpeedSession, SpeedAction, SpeedSessionError, focus_lost, multiplier, control, commit, finish,
  advance_deadlines,
}
use intimatr.Speed.Session
use intimatr.Speed.Session.Rounds.{advance-none}
use intimatr.Speed.Session.Laws.{IsSession}
use intimatr.Speed.Session.Actions.{apply_accepted}
use intimatr.Speed.Session.Deadlines.{effective-bypassed}
use intimatr.Speed.Input.Laws.{IsPump}
use intimatr.Speed.Coordinator.{SpeedCoordinator}

-- The session and the pump are in their invariants, and the focus that the status tells is the pump's.
pub record IsCoordinator (lo hi : F64) (c : SpeedCoordinator) : Type 0 where
  pub session : IsSession lo hi c.session
  pub input : IsPump c.input
  pub same_focus : c.focused ≡ c.input.focused

-- At 1x, with no temporary speed left.
pub record IsReset (s : SpeedSession) : Type 0 where
  pub rate : multiplier s ≡ one
  pub hold : s.hold_deadline_qpc ≡ none
  pub startup : s.startup_deadline_qpc ≡ none

commit-focus_lost :
    (s : SpeedSession) (r : ℕ) (m : F64) (t : TimerSnapshot)
    → (commit s r focus_lost m none).1 ≡ ok t
    → ((commit s r focus_lost m none).0.controls ≡ s.controls)
      × ((commit s r focus_lost m none).0.hold_deadline_qpc ≡ none)
      × ((commit s r focus_lost m none).0.startup_deadline_qpc ≡ none)
unfolding commit
commit-focus_lost s r m t h = elim (Result-cases (Timers.set_multiplier s.timers r m)) [
  | inl (q, e) ↦ rw (e, commit) (refl, refl, refl)
  | inr (e, f) ↦ absurd (differs (rw (f, commit) at h))
]
  where
    differs :
        {e : SpeedSessionError}
        → ◌≡◌ {A = Result SpeedSessionError TimerSnapshot} (err e) (ok t)
        → ⊥
    differs k = cc

reset-bypassed :
    (c : Controls.SpeedControlState)
    → ((Controls.reset c).0.bypassed ≡ true) × ((Controls.reset c).0.held_multiplier ≡ none)
unfolding Controls.reset
reset-bypassed c = (refl, refl)

module _ (lo hi : F64) (low : IsSpeed lo) where
  -- A loss of the focus is never refused, and leaves the session at 1x.
  pub focus_lost-IsReset :
      (s : SpeedSession) (r : ℕ)
      → r ≤ u64_max
      → IsSession lo hi s
      → IsReset (Session.apply s r focus_lost).0
        × ((Session.apply s r focus_lost).1 ≡ ok (Session.sample s r).1)
  unfolding Controls.reset
  focus_lost-IsReset s r h v =
      let (valid, shown) = apply_accepted lo hi low s r focus_lost h v refl in
      let (controls, hold, startup) = left s r _ shown in
      (
        record {
          rate =
              valid.in_force
              ∙ effective-bypassed (Session.apply s r focus_lost).0
                  (ap (λ (k : Controls.SpeedControlState). k.bypassed) controls)
                  (ap (λ (k : Controls.SpeedControlState). k.held_multiplier) controls);
          hold = hold;
          startup = startup;
        },
        shown,
      )
    where
      left :
          (s : SpeedSession) (r : ℕ) (t : TimerSnapshot)
          → (Session.apply s r focus_lost).1 ≡ ok t
          → ((Session.apply s r focus_lost).0.controls
              ≡ (Controls.reset (advance_deadlines s r).controls).0)
            × ((Session.apply s r focus_lost).0.hold_deadline_qpc ≡ none)
            × ((Session.apply s r focus_lost).0.startup_deadline_qpc ≡ none)
      left s r t = unfold Session.apply finish control in λ k. commit-focus_lost _ r _ t k

-- Nothing is left that a later sample could change.
pub sample-IsReset : (s : SpeedSession) (r : ℕ) → IsReset s → IsReset (Session.sample s r).0
unfolding Session.sample advance_deadlines
sample-IsReset s r v =
    subst (λ (k : SpeedSession). IsReset (record k { timers = (Timers.sample k.timers r).0 }))
      (sym idle)
      (record { rate = multiplier-sample s.timers r ∙ v.rate; hold = v.hold; startup = v.startup })
  where
    idle : advance_deadlines s r ≡ s
    idle = advance-none 3 s r (rw (v.startup, v.hold) (unfold Session.next_deadline in refl))
