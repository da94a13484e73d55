-- ===== src/Speed/Coordinator/Sampling.antt =====
-- An input sample from end to end (`input_sample_with_actions` of src/speed_coordinator.rs).
use intimatr.Prelude.{
  ℕ, ◌≤◌, ◌≡◌, refl, sym, ap, ◌∙◌, inl, inr, true, false, some, List, [], ◌∷◌, ok, u64_max,
  Result-cases,
}
use intimatr.Float.{F64}
use intimatr.Speed.Clock.Scaled.{IsSpeed}
use intimatr.Speed.Timers.{TimerSnapshot}
use intimatr.Speed.Session.{SpeedSession, SpeedAction, focus_lost}
use intimatr.Speed.Session
use intimatr.Speed.Session.Laws.{sample-IsSession}
use intimatr.Speed.Session.Actions.{apply-IsSession}
use intimatr.Speed.Input.{FocusedInputPump, InputSnapshot}
use intimatr.Speed.Input
use intimatr.Speed.Input.Focus.{sample-Sampled, sample_focus}
use intimatr.Speed.Coordinator.{
  SpeedCoordinator, apply, reset_after_input_error, apply_all, sample, input_sample_with_actions,
}
use intimatr.Speed.Coordinator.Laws.{IsCoordinator, IsReset, focus_lost-IsReset, sample-IsReset}
use intimatr.Speed.Coordinator.Branches.{
  observed, apply-ok, apply_all-next, apply_all-none, input_sample-ok,
}

-- At 1x and without the focus, which is the last thing that happened.
pub record Dropped (c : SpeedCoordinator) : Type 0 where
  pub reset : IsReset c.session
  pub status : c.focused ≡ false
  pub pump : c.input.focused ≡ false
  pub last : c.last_action ≡ some focus_lost

module _ (lo hi : F64) (low : IsSpeed lo) where
  -- A command keeps the coordinator in its invariant, refused or not.
  pub apply-IsCoordinator :
      (c : SpeedCoordinator) (r : ℕ) (a : SpeedAction)
      → r ≤ u64_max
      → IsCoordinator lo hi c
      → IsCoordinator lo hi (apply c r a).0
  unfolding apply
  apply-IsCoordinator c r a h v =
      let s = apply-IsSession lo hi low c.session r a h v.session in
      elim (Result-cases (Session.apply c.session r a).1) [
        | inl (t, e) ↦
            rw (e, apply) (record { session = s; input = v.input; same_focus = v.same_focus })
        | inr (f, e) ↦
            rw (e, apply) (record { session = s; input = v.input; same_focus = v.same_focus })
      ]

  pub sample-IsCoordinator :
      (c : SpeedCoordinator) (r : ℕ)
      → r ≤ u64_max
      → IsCoordinator lo hi c
      → IsCoordinator lo hi (sample c r).0
  unfolding sample
  sample-IsCoordinator c r h v = record {
    session = sample-IsSession lo hi low c.session r h v.session;
    input = v.input;
    same_focus = v.same_focus;
  }

  reset-IsCoordinator :
      (c : SpeedCoordinator) (r : ℕ)
      → r ≤ u64_max
      → IsCoordinator lo hi c
      → IsCoordinator lo hi (reset_after_input_error c r)
  unfolding reset_after_input_error
  reset-IsCoordinator c r h v =
      let sampled = sample-Sampled c.input (record { focused = false; down_keys = [] }) v.input in
      record {
        session = apply-IsSession lo hi low c.session r focus_lost h v.session;
        input = sampled.valid;
        same_focus = sym sampled.focus;
      }

  apply_all-IsCoordinator :
      (c : SpeedCoordinator) (r : ℕ) (actions : List SpeedAction)
      → r ≤ u64_max
      → IsCoordinator lo hi c
      → IsCoordinator lo hi (apply_all c r actions).0
  unfolding apply_all
  apply_all-IsCoordinator c r [] h v = v
  apply_all-IsCoordinator c r (a ∷ actions) h v =
      let w = apply-IsCoordinator c r a h v in
      elim (Result-cases (apply c r a).1) [
        | inl (t, e) ↦ rw (e, apply_all) (apply_all-IsCoordinator (apply c r a).0 r actions h w)
        | inr (f, e) ↦ rw (e, apply_all) (reset-IsCoordinator (apply c r a).0 r h w)
      ]

  pub observed-IsCoordinator :
      (c : SpeedCoordinator) (r : ℕ) (snapshot : InputSnapshot)
      → r ≤ u64_max
      → IsCoordinator lo hi c
      → IsCoordinator lo hi (observed c r snapshot)
  unfolding observed
  observed-IsCoordinator c r snapshot h v =
      let sampled = sample-Sampled c.input snapshot v.input in
      record {
        session = (sample-IsCoordinator c r h v).session;
        input = sampled.valid;
        same_focus = sym sampled.focus;
      }

  -- For a coordinator in its invariant, of a profile whose least speed is positive: an input
  -- sample at a time in u64 leaves it in its invariant, whether the sample succeeds or fails.
  pub input_sample-IsCoordinator :
      (c : SpeedCoordinator) (r : ℕ) (snapshot : InputSnapshot)
      → r ≤ u64_max
      → IsCoordinator lo hi c
      → IsCoordinator lo hi (input_sample_with_actions c r snapshot).0
  unfolding input_sample_with_actions observed
  input_sample-IsCoordinator c r snapshot h v =
      let actions = (Input.sample c.input snapshot).1 in
      let valid =
        apply_all-IsCoordinator (observed c r snapshot) r actions h
          (observed-IsCoordinator c r snapshot h v) in
      elim (Result-cases (apply_all (observed c r snapshot) r actions).1) [
        | inl (t, e) ↦
            rw (e, input_sample_with_actions)
              (sample-IsCoordinator (apply_all (observed c r snapshot) r actions).0 r h valid)
        | inr (f, e) ↦ rw (e, input_sample_with_actions) valid
      ]

  -- For a coordinator in its invariant that has the focus, of a profile whose least speed is
  -- positive: an input sample at a time in u64 without the focus succeeds, reports exactly one
  -- loss of the focus, and leaves the session at 1x with no deadline and the focus dropped in the
  -- status and in the pump.
  pub focus_loss :
      (c : SpeedCoordinator) (r : ℕ) (snapshot : InputSnapshot)
      → r ≤ u64_max
      → IsCoordinator lo hi c
      → c.focused ≡ true
      → snapshot.focused ≡ false
      → Dropped (input_sample_with_actions c r snapshot).0
        × (t : TimerSnapshot) × ((input_sample_with_actions c r snapshot).1
            ≡ ok (record { timers = t; actions = focus_lost ∷ [] }))
  unfolding observed sample
  focus_loss c r snapshot h v f g =
      let sent : (Input.sample c.input snapshot).1 ≡ focus_lost ∷ [] =
        sample_focus c.input snapshot (rw g refl) ∙ rw (sym v.same_focus ∙ f) refl in
      let start = observed c r snapshot in
      let (reset, shown) =
        focus_lost-IsReset lo hi low start.session r h
          (observed-IsCoordinator c r snapshot h v).session in
      let one =
        apply_all-next start _ r focus_lost [] _ (apply-ok start r focus_lost _ shown)
        ∙ apply_all-none _ r in
      rw (input_sample-ok c _ r snapshot (ap (apply_all start r) sent ∙ one), sent)
        (
          record {
            reset = sample-IsReset _ r reset;
            status = g;
            pump = (sample-Sampled c.input snapshot v.input).focus ∙ g;
            last = refl;
          },
          _,
          refl,
        )
