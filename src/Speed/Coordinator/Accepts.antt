-- ===== src/Speed/Coordinator/Accepts.antt =====
-- What the compiled hotkeys send is never refused (src/speed_coordinator.rs over
-- src/speed_hotkeys.rs): the session's presets do not change, and the bound holds are among them.
use intimatr.Prelude.{
  ℕ, ◌≤◌, ◌≡◌, refl, sym, ap, ◌∙◌, false, none, some, List, [], ◌∷◌, Result, ok, u64_max, All,
  >>=-eq-ok, ok-injective,
}
use mathlib.Core.Path.{subst}
use intimatr.Float.{F64}
use intimatr.Speed.Clock.Scaled.{IsSpeed}
use intimatr.Speed.Timers.{TimerSnapshot}
use intimatr.Speed.Config.{SpeedSettings}
use intimatr.Speed.Config.Laws.{IsSettings}
use intimatr.Speed.Controls.{SpeedControlState, start}
use intimatr.Speed.Session.{
  SpeedSession, SpeedAction, SpeedSessionError, increase, decrease, toggle, reset, select_preset,
  hold_start, hold_release, focus_lost, control, commit, finish, expire, advance_deadlines,
}
use intimatr.Speed.Session
use intimatr.Speed.Session.Actions.{apply_accepted}
use intimatr.Speed.Session.Start.{new-IsSession, map_err-eq-ok}
use intimatr.Speed.Hotkeys.{KeyChord, Action}
use intimatr.Speed.Hotkeys.Compile.{SpeedHotkeyConfig, IsAllowed, IsBindings, compile-IsBindings}
use intimatr.Speed.Input.{InputSnapshot, FocusedInputPump}
use intimatr.Speed.Input
use intimatr.Speed.Input.Laws.{IsOffered}
use intimatr.Speed.Input.Focus.{sample-Sampled, new-IsPump}
use intimatr.Speed.Coordinator.{
  SpeedCoordinatorError, SpeedCoordinator, InputSampleOutcome, apply, apply_all, sample,
  input_sample_with_actions, new,
}
use intimatr.Speed.Coordinator.Laws.{IsCoordinator}
use intimatr.Speed.Coordinator.Branches.{
  observed, apply-ok, apply_all-next, apply_all-none, input_sample-ok,
}
use intimatr.Speed.Coordinator.Sampling.{
  observed-IsCoordinator, apply-IsCoordinator, input_sample-IsCoordinator,
}
use intimatr.Speed.Coordinator.Presets.{advance-steps, apply-steps, sample-steps, offered-accepted}

-- The holds of the bindings are among the presets of the session.
pub record IsConfigured (lo hi : F64) (c : SpeedCoordinator) : Type 0 where
  pub valid : IsCoordinator lo hi c
  pub bindings : IsBindings c.session.controls.steps c.input.dispatcher.bindings

module _ (lo hi : F64) (low : IsSpeed lo) where
  apply-accepted :
      (c : SpeedCoordinator) (r : ℕ) (a : SpeedAction) (bs : List (KeyChord × Action))
      → r ≤ u64_max
      → IsCoordinator lo hi c
      → All (λ (b : KeyChord × Action). IsAllowed c.session.controls.steps b.1) bs
      → IsOffered bs a
      → (t : TimerSnapshot) × ((Session.apply c.session r a).1 ≡ ok t)
  apply-accepted c r a bs h v k o =
      let allowed =
        subst (λ steps. All (λ (b : KeyChord × Action). IsAllowed steps b.1) bs)
          (sym (advance-steps c.session r)) k in
      let free = offered-accepted (advance_deadlines c.session r).controls bs a allowed o in
      ((Session.sample c.session r).1, (apply_accepted lo hi low c.session r a h v.session free).1)

  apply_all-ok :
      (c : SpeedCoordinator) (r : ℕ) (actions : List SpeedAction) (bs : List (KeyChord × Action))
      → r ≤ u64_max
      → IsCoordinator lo hi c
      → All (λ (b : KeyChord × Action). IsAllowed c.session.controls.steps b.1) bs
      → All (IsOffered bs) actions
      → (c' : SpeedCoordinator) × (apply_all c r actions ≡ (c', ok tt))
        × (c'.session.controls.steps ≡ c.session.controls.steps)
        × (c'.input ≡ c.input)
  apply_all-ok c r [] bs h v k o = (c, apply_all-none c r, refl, refl)
  apply_all-ok c r (a ∷ actions) bs h v k o =
      let (t, e) = apply-accepted c r a bs h v k o.0 in
      let next = record c { session = (Session.apply c.session r a).0; last_action = some a } in
      let applied : apply c r a ≡ (next, ok t) = apply-ok c r a t e in
      let valid =
        subst (IsCoordinator lo hi)
          (ap (λ (p : SpeedCoordinator × Result SpeedCoordinatorError TimerSnapshot). p.0) applied)
          (apply-IsCoordinator lo hi low c r a h v) in
      let (c', rest, steps, input) =
        apply_all-ok next r actions bs h valid
          (subst (λ steps. All (λ (b : KeyChord × Action). IsAllowed steps b.1) bs)
            (sym (apply-steps c.session r a)) k)
          o.1 in
      (
        c',
        apply_all-next c next r a actions t applied ∙ rest,
        steps ∙ apply-steps c.session r a,
        input,
      )

  -- What an input sample leaves, from the coordinator that the actions have left.
  sampled-steps :
      (c : SpeedCoordinator) (r : ℕ)
      → (sample c r).0.session.controls.steps ≡ c.session.controls.steps
  unfolding sample
  sampled-steps c r = sample-steps c.session r

  sampled-input : (c : SpeedCoordinator) (r : ℕ) → (sample c r).0.input ≡ c.input
  unfolding sample
  sampled-input c r = refl

  -- For a coordinator in its invariant whose bound holds are presets of its session, of a profile
  -- whose least speed is positive: at a time in u64 an input sample succeeds, whatever the
  -- snapshot; its outcome names exactly the actions that the input pump sends for it; and it
  -- leaves a coordinator of which the same holds.
  pub input_sample_succeeds :
      (c : SpeedCoordinator) (r : ℕ) (snapshot : InputSnapshot)
      → r ≤ u64_max
      → IsConfigured lo hi c
      → IsConfigured lo hi (input_sample_with_actions c r snapshot).0
        × (t : TimerSnapshot) × ((input_sample_with_actions c r snapshot).1
            ≡ ok (record { timers = t; actions = (Input.sample c.input snapshot).1 }))
  input_sample_succeeds c r snapshot h v =
      let start = observed c r snapshot in
      let sent = sample-Sampled c.input snapshot v.valid.input in
      let same : start.session.controls.steps ≡ c.session.controls.steps =
        unfold observed sample in sample-steps c.session r in
      let allowed =
        subst
          (λ steps.
            All (λ (b : KeyChord × Action). IsAllowed steps b.1) c.input.dispatcher.bindings)
          (sym same) v.bindings.allowed in
      let (c', e, steps, input) =
        apply_all-ok start r (Input.sample c.input snapshot).1 c.input.dispatcher.bindings h
          (observed-IsCoordinator lo hi low c r snapshot h v.valid) allowed sent.batch.offered in
      let made = input_sample-ok c c' r snapshot e in
      let valid =
        subst (IsCoordinator lo hi)
          (ap (λ (p : SpeedCoordinator × Result SpeedCoordinatorError InputSampleOutcome). p.0)
            made)
          (input_sample-IsCoordinator lo hi low c r snapshot h v.valid) in
      let bound : (sample c' r).0.input.dispatcher.bindings ≡ c.input.dispatcher.bindings =
        ap (λ (k : FocusedInputPump). k.dispatcher.bindings) (sampled-input c' r ∙ input)
        ∙ unfold observed in sent.batch.same_bindings in
      rw made (
        record {
          valid = valid;
          bindings = subst (IsBindings (sample c' r).0.session.controls.steps) (sym bound) (
              subst (λ k. IsBindings k c.input.dispatcher.bindings)
                (sym (sampled-steps c' r ∙ steps ∙ same)) v.bindings);
        },
        _,
        refl,
      )

-- Where `SpeedCoordinator::new` succeeds, for an origin in u64, the settings are valid, the
-- coordinator is in its invariant, and its bindings have distinct chords, no reserved key, and
-- holds that are presets of its session.
pub new-IsConfigured :
    (settings : SpeedSettings) (shortcuts : SpeedHotkeyConfig) (origin frequency ticks time : ℕ)
    (c : SpeedCoordinator)
    → origin ≤ u64_max
    → new settings shortcuts origin frequency ticks time ≡ ok c
    → IsSettings settings × IsConfigured settings.min_multiplier settings.max_multiplier c
unfolding new Input.new start
new-IsConfigured settings shortcuts origin frequency ticks time c h e =
    let (d, compiled, e1) = >>=-eq-ok _ _ e in
    let (s, opened, e2) = >>=-eq-ok _ _ e1 in
    let (valid, session, same) =
      new-IsSession settings origin frequency ticks time s h (map_err-eq-ok _ _ opened) in
    let (bindings, unfocused, unheld) =
      compile-IsBindings settings shortcuts d (map_err-eq-ok _ _ compiled) in
    let steps : settings.steps ≡ s.controls.steps =
      ap (λ (k : SpeedControlState). k.steps) (sym same) in
    let configured : IsConfigured settings.min_multiplier settings.max_multiplier
        (record { session = s; input = Input.new d; focused = false; last_action = none }) =
      record {
        valid = record {
          session = session;
          input = new-IsPump d unfocused unheld;
          same_focus = refl;
        };
        bindings = subst (λ k. IsBindings k d.bindings) steps bindings;
      } in
    (
      valid,
      subst (IsConfigured settings.min_multiplier settings.max_multiplier) (ok-injective e2)
          configured,
    )
