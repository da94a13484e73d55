-- ===== src/Speed/Coordinator/Presets.antt =====
-- No action changes the presets of a session (src/speed_session.rs), and what is bound to a hotkey is
-- accepted if its holds are among them.
use intimatr.Prelude.{
  ℕ, ◌≡◌, refl, ◌∙◌, inl, inr, Bool, true, false, Option, none, some, List, [], ◌∷◌, Result, ok,
  err, arith, All, Result-cases,
}
use mathlib.Core.Path.{subst}
use intimatr.Float.{F64}
use intimatr.Speed.Timers.{TimerSnapshot}
use intimatr.Speed.Timers
use intimatr.Speed.Controls.{SpeedControlState, start, activate, activate_found, toggled, end_hold}
use intimatr.Speed.Controls
use intimatr.Speed.Session.{
  SpeedSession, SpeedAction, SpeedSessionError, increase, decrease, toggle, reset, select_preset,
  hold_start, hold_release, focus_lost, control, commit, finish, expire, advance_deadlines,
}
use intimatr.Speed.Session
use intimatr.Speed.Session.Rounds.{advance_induction}
use intimatr.Speed.Session.Requests.{refusal}
use intimatr.Speed.Hotkeys.{KeyChord, Action, hold, speed_action}
use intimatr.Speed.Hotkeys.Laws.{IsBound}
use intimatr.Speed.Hotkeys.Compile.{IsAllowed}
use intimatr.Speed.Input.Laws.{IsOffered}

activate_found-steps :
    (c : SpeedControlState) (o : Option F64) → (activate_found c o).steps ≡ c.steps
unfolding activate_found activate Controls.end_hold
activate_found-steps c none = refl
activate_found-steps c (some m) = refl

toggled-steps : (c : SpeedControlState) → (toggled c).steps ≡ c.steps
unfolding toggled
toggled-steps c = ground arith

-- An action leaves the presets as they are.
pub control-steps :
    (s : SpeedSession) (r : ℕ) (a : SpeedAction) → (control s r a).0.steps ≡ s.controls.steps
unfolding control Controls.increase Controls.decrease Controls.toggle Controls.reset
    Controls.select_preset Controls.begin_hold Controls.end_hold activate
control-steps s r increase = activate_found-steps _ _
control-steps s r decrease = activate_found-steps _ _
control-steps s r toggle = toggled-steps _
control-steps s r reset = refl
control-steps s r (select_preset m) = ground arith
control-steps s r (hold_start m d) = ground arith
control-steps s r hold_release = refl
control-steps s r focus_lost = refl

expire-steps :
    (s : SpeedSession) (d : ℕ) (b : Bool) → (expire s d b).controls.steps ≡ s.controls.steps
unfolding expire Controls.reset Controls.end_hold
expire-steps s d true = refl
expire-steps s d false = refl

pub advance-steps :
    (s : SpeedSession) (r : ℕ) → (advance_deadlines s r).controls.steps ≡ s.controls.steps
unfolding advance_deadlines
advance-steps s r =
    advance_induction (λ t. t.controls.steps ≡ s.controls.steps) r
      (λ t d b e h k. expire-steps t d b ∙ k) 3 s refl

commit-steps :
    (s : SpeedSession) (r : ℕ) (a : SpeedAction) (m : F64) (o : Option ℕ)
    → (commit s r a m o).0.controls.steps ≡ s.controls.steps
unfolding commit
commit-steps s r a m o = elim (Result-cases (Timers.set_multiplier s.timers r m)) [
  | inl (q, e) ↦ rw (e, commit) refl
  | inr (f, e) ↦ rw (e, commit) refl
]

finish-steps :
    (s : SpeedSession) (r : ℕ) (a : SpeedAction)
    (p : SpeedControlState × Result SpeedSessionError (F64 × Option ℕ))
    → (finish s r a p).0.controls.steps ≡ p.0.steps
unfolding finish
finish-steps s r a (c, ok (m, o)) = commit-steps (record s { controls = c }) r a m o
finish-steps s r a (c, err e) = refl

pub apply-steps :
    (s : SpeedSession) (r : ℕ) (a : SpeedAction)
    → (Session.apply s r a).0.controls.steps ≡ s.controls.steps
unfolding Session.apply
apply-steps s r a =
    finish-steps (advance_deadlines s r) r a _
    ∙ control-steps (advance_deadlines s r) r a
    ∙ advance-steps s r

pub sample-steps :
    (s : SpeedSession) (r : ℕ) → (Session.sample s r).0.controls.steps ≡ s.controls.steps
unfolding Session.sample
sample-steps s r = advance-steps s r

allowed-accepted :
    (c : SpeedControlState) (a : Action) → IsAllowed c.steps a → refusal c (speed_action a) ≡ none
unfolding speed_action
allowed-accepted c Action.increase h = refl
allowed-accepted c Action.decrease h = refl
allowed-accepted c Action.toggle h = refl
allowed-accepted c Action.reset h = refl
allowed-accepted c (hold m d) h = rw (h.0, h.1, h.2) refl

bound-accepted :
    (c : SpeedControlState) (bs : List (KeyChord × Action)) (a : SpeedAction)
    → All (λ (b : KeyChord × Action). IsAllowed c.steps b.1) bs
    → IsBound bs a
    → refusal c a ≡ none
bound-accepted c [] a v h = elim h [ ]
bound-accepted c ((chord, b) ∷ bs) a v (inl h) =
    subst (λ x. refusal c x ≡ none) h (allowed-accepted c b v.0)
bound-accepted c ((chord, b) ∷ bs) a v (inr h) = bound-accepted c bs a v.1 h

pub offered-accepted :
    (c : SpeedControlState) (bs : List (KeyChord × Action)) (a : SpeedAction)
    → All (λ (b : KeyChord × Action). IsAllowed c.steps b.1) bs
    → IsOffered bs a
    → refusal c a ≡ none
offered-accepted c bs a v (inl h) = bound-accepted c bs a v h
offered-accepted c bs a v (inr (inl h)) = rw h refl
offered-accepted c bs a v (inr (inr h)) = rw h refl
