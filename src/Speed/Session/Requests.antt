-- ===== src/Speed/Session/Requests.antt =====
-- What `apply` asks of the controls (src/speed_session.rs): which actions it refuses, and what the others
-- ask for.
use intimatr.Prelude.{
  ℕ, ◌≤◌, ◌≡◌, refl, sym, ap, inl, inr, Bool, true, ◌&&◌, Option, none, some, ok, err, arith,
  is_some, u64_max, saturating_add, leb, if◌then◌else◌, Bool-cases,
}
use intimatr.Float.{F64, is_finite}
use intimatr.Speed.Config.{contains}
use intimatr.Speed.Controls.{SpeedControlState, effective_multiplier}
use intimatr.Speed.Controls
use intimatr.Speed.Controls.Found.{OnSome}
use intimatr.Speed.Controls.Laws.{IsControls}
use intimatr.Speed.Controls.Keeps.{begin_hold-IsControls, select_preset-IsControls}
use intimatr.Speed.Controls.Settled.{
  IsSettled, end_hold-IsSettled, reset-IsSettled, toggle-IsSettled, increase-IsSettled,
  decrease-IsSettled,
}
use intimatr.Speed.Session.{
  SpeedSession, SpeedAction, SpeedSessionError, unknown_preset, invalid_hold_duration, increase,
  decrease, toggle, reset, select_preset, hold_start, hold_release, focus_lost, control,
  duration_qpc_ticks,
}

abbrev pub is_preset : SpeedControlState → F64 → Bool
is_preset c m = is_finite m && contains c.steps m

-- The error with which an action is refused, if it is: a speed that is no preset, or a hold that is
-- not of 1 to 60000 milliseconds.
abbrev pub refusal : SpeedControlState → SpeedAction → Option SpeedSessionError
refusal c (select_preset m) = if is_preset c m then none else some unknown_preset
refusal c (hold_start m d) =
    if leb 1 d && leb d 60000
    then if is_preset c m then none else some unknown_preset
    else some invalid_hold_duration
refusal c _ = none

pub control_refused :
    (s : SpeedSession) (r : ℕ) (a : SpeedAction) (e : SpeedSessionError)
    → refusal s.controls a ≡ some e
    → control s r a ≡ (s.controls, err e)
unfolding control Controls.select_preset Controls.begin_hold
control_refused s r (select_preset m) e h = ground arith
control_refused s r (hold_start m d) e h = ground arith
control_refused s r increase e h = absurd (ground arith)
control_refused s r _ e h = absurd (ground arith)

unless-none : (b : Bool) (e : SpeedSessionError) → (if b then none else some e) ≡ none → b ≡ true
unless-none b e h = ground arith

hold_allowed :
    (c : SpeedControlState) (m : F64) (d : ℕ)
    → refusal c (hold_start m d) ≡ none
    → ((leb 1 d && leb d 60000) ≡ true) × (is_preset c m ≡ true)
hold_allowed c m d h = elim (Bool-cases (leb 1 d && leb d 60000)) [
  | inl e ↦ (e, unless-none (is_preset c m) unknown_preset (rw e at h))
  | inr e ↦ absurd (some-ne-none invalid_hold_duration (rw e at h))
]
  where
    some-ne-none : (e : SpeedSessionError) → ◌≡◌ {A = Option SpeedSessionError} (some e) none → ⊥
    some-ne-none e q = cc

preset_taken :
    (c : SpeedControlState) (m : F64)
    → is_preset c m ≡ true
    → ((Controls.select_preset c m).1 ≡ true)
      × ((Controls.select_preset c m).0.held_multiplier ≡ none)
unfolding Controls.select_preset
preset_taken c m h = (ground arith, ground arith)

hold_taken :
    (c : SpeedControlState) (m : F64)
    → is_preset c m ≡ true
    → ((Controls.begin_hold c m).1 ≡ true) × ((Controls.begin_hold c m).0.held_multiplier ≡ some m)
unfolding Controls.begin_hold
hold_taken c m h = (ground arith, ground arith)

-- What an accepted action asks for: valid controls, the speed that they put in force, and a hold
-- deadline exactly if they hold.
pub record Asks (lo hi : F64) (s : SpeedSession) (r : ℕ) (a : SpeedAction) : Type 0 where
  pub controls : SpeedControlState
  pub rate : F64
  pub deadline : Option ℕ
  pub result : control s r a ≡ (controls, ok (rate, deadline))
  pub valid : IsControls lo hi controls
  pub names : rate ≡ effective_multiplier controls
  pub lease : is_some deadline ≡ is_some controls.held_multiplier
  pub fits : OnSome (λ d. d ≤ u64_max) deadline

module _ (lo hi : F64) where
  settled-Asks :
      (s : SpeedSession) (r : ℕ) (a : SpeedAction) (p : SpeedControlState × F64)
      → control s r a ≡ (p.0, ok (p.1, none))
      → IsSettled lo hi p
      → Asks lo hi s r a
  settled-Asks s r a p e v = record {
    controls = p.0;
    rate = p.1;
    deadline = none;
    result = e;
    valid = v.valid;
    names = v.names;
    lease = ap is_some (sym v.unheld);
    fits = tt;
  }

  pub control_accepted :
      (s : SpeedSession) (r : ℕ) (a : SpeedAction)
      → IsControls lo hi s.controls
      → refusal s.controls a ≡ none
      → Asks lo hi s r a
  unfolding control
  control_accepted s r increase v h =
      settled-Asks s r increase (Controls.increase s.controls) refl
        (increase-IsSettled lo hi s.controls v)
  control_accepted s r decrease v h =
      settled-Asks s r decrease (Controls.decrease s.controls) refl
        (decrease-IsSettled lo hi s.controls v)
  control_accepted s r toggle v h =
      settled-Asks s r toggle (Controls.toggle s.controls) refl
        (toggle-IsSettled lo hi s.controls v)
  control_accepted s r reset v h =
      settled-Asks s r reset (Controls.reset s.controls) refl (reset-IsSettled lo hi s.controls v)
  control_accepted s r (select_preset m) v h =
      let (taken, unheld) =
        preset_taken s.controls m (unless-none (is_preset s.controls m) unknown_preset h) in
      record {
        controls = (Controls.select_preset s.controls m).0;
        rate = effective_multiplier (Controls.select_preset s.controls m).0;
        deadline = none;
        result = rw taken refl;
        valid = select_preset-IsControls lo hi s.controls m v;
        names = refl;
        lease = ap is_some (sym unheld);
        fits = tt;
      }
  control_accepted s r (hold_start m d) v h =
      let (timely, preset) = hold_allowed s.controls m d h in
      let (taken, held) = hold_taken s.controls m preset in
      record {
        controls = (Controls.begin_hold s.controls m).0;
        rate = effective_multiplier (Controls.begin_hold s.controls m).0;
        deadline = some (saturating_add r (duration_qpc_ticks s.qpc_frequency d));
        result = rw (timely, taken) refl;
        valid = begin_hold-IsControls lo hi s.controls m v;
        names = refl;
        lease = ap is_some (sym held);
        fits = omega arith;
      }
  control_accepted s r hold_release v h =
      settled-Asks s r hold_release (Controls.end_hold s.controls) refl
        (end_hold-IsSettled lo hi s.controls v)
  control_accepted s r focus_lost v h =
      settled-Asks s r focus_lost (Controls.reset s.controls) refl
        (reset-IsSettled lo hi s.controls v)
