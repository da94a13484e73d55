-- ===== src/Speed/Coordinator/Branches.antt =====
-- The ways that the calls of src/speed_coordinator.rs go, one lemma for each.
use intimatr.Prelude.{ℕ, ◌≡◌, refl, ap, some, List, [], ◌∷◌, Result, ok}
use intimatr.Speed.Timers.{TimerSnapshot}
use intimatr.Speed.Session.{SpeedSession, SpeedAction, SpeedSessionError, focus_lost}
use intimatr.Speed.Session
use intimatr.Speed.Input.{FocusedInputPump, InputSnapshot}
use intimatr.Speed.Input
use intimatr.Speed.Coordinator.{
  SpeedCoordinatorError, SpeedCoordinator, apply, apply_all, sample, input_sample_with_actions,
}

-- What an input sample starts its actions from.
unfoldable pub observed : SpeedCoordinator → ℕ → InputSnapshot → SpeedCoordinator
observed c r snapshot = record (sample c r).0 {
  input = (Input.sample c.input snapshot).0;
  focused = snapshot.focused;
}

pub apply-ok :
    (c : SpeedCoordinator) (r : ℕ) (a : SpeedAction) (t : TimerSnapshot)
    → (Session.apply c.session r a).1 ≡ ok t
    → apply c r a
      ≡ (record c { session = (Session.apply c.session r a).0; last_action = some a }, ok t)
unfolding apply
apply-ok c r a t e = rw (e, apply) refl

pub apply_all-next :
    (c c' : SpeedCoordinator) (r : ℕ) (a : SpeedAction) (actions : List SpeedAction)
    (t : TimerSnapshot)
    → apply c r a ≡ (c', ok t)
    → apply_all c r (a ∷ actions) ≡ apply_all c' r actions
unfolding apply_all
apply_all-next c c' r a actions t e =
    rw (e, apply_all)
      (ap
        (λ (p : SpeedCoordinator × Result SpeedCoordinatorError TimerSnapshot).
          apply_all p.0 r actions)
        e)

pub apply_all-none : (c : SpeedCoordinator) (r : ℕ) → apply_all c r [] ≡ (c, ok tt)
unfolding apply_all
apply_all-none c r = refl

pub input_sample-ok :
    (c c' : SpeedCoordinator) (r : ℕ) (snapshot : InputSnapshot)
    → apply_all (observed c r snapshot) r (Input.sample c.input snapshot).1 ≡ (c', ok tt)
    → input_sample_with_actions c r snapshot ≡ (
      (sample c' r).0,
      ok (record { timers = (sample c' r).1; actions = (Input.sample c.input snapshot).1 }),
    )
unfolding input_sample_with_actions observed
input_sample-ok c c' r snapshot e =
    rw (e, input_sample_with_actions)
      (ap
        (λ (p : SpeedCoordinator × Result SpeedCoordinatorError (Unit {0})). (
          (sample p.0 r).0,
          ok (record { timers = (sample p.0 r).1; actions = (Input.sample c.input snapshot).1 }),
        ))
        e)
