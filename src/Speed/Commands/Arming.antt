-- ===== src/Speed/Commands/Arming.antt =====
-- An arm of a selected game (`arm_selected_game_session` of src/speed_commands.rs) starts it at 1x.
use mathlib.Core.Path.{subst}
use intimatr.Prelude.{
  ℕ, ◌≤◌, ◌≡◌, refl, sym, ap, ◌∙◌, false, none, some, Option, ok, arith, u64_max,
}
use intimatr.Float.{one, unit, overflow, of_u64, mul, pack, floor, to_u64}
use intimatr.Float.Round.{round}
use intimatr.Speed.Clock.{scaled}
use intimatr.Speed.Clock
use intimatr.Speed.Timers.{TimerSnapshot}
use intimatr.Speed.Timers
use intimatr.Speed.Controls.Found.{OnSome}
use intimatr.Speed.Config.{validate, any_falling}
use intimatr.Speed.Controls.{start, effective_multiplier}
use intimatr.Speed.Controls
use intimatr.Speed.Session.{SpeedSession, focus_lost, reset, duration_qpc_ticks}
use intimatr.Speed.Session
use intimatr.Speed.Hotkeys.Compile.{compile, add_optional, add_hold}
use intimatr.Speed.Hotkeys
use intimatr.Speed.Input
use intimatr.Speed.Coordinator.{SpeedCoordinator}
use intimatr.Speed.Coordinator
use intimatr.Speed.Coordinator.Laws.{IsReset, focus_lost-IsReset}
use intimatr.Speed.Coordinator.Accepts.{new-IsConfigured}
use intimatr.Speed.Preview.{
  PreviewSession, SpeedPreviewExecutor, game_settings, no_hotkeys, preview_frequency, offline_label,
}
use intimatr.Speed.Commands.{Backend, armed_session, reset_target, arm_selected_game_session}
use intimatr.Speed.Commands.Laws.{IsPreview, apply-IsConfigured, apply-session}

-- A reset does what a loss of the focus does.
reset-focus_lost :
    (s : SpeedSession) (r : ℕ) → Session.apply s r reset ≡ Session.apply s r focus_lost
unfolding Session.apply
reset-focus_lost s r = refl

game_session :
    (c : SpeedCoordinator) × (Coordinator.new game_settings no_hotkeys 0 preview_frequency 0 0
      ≡ ok c)
    × IsReset c.session
unfolding Coordinator.new compile add_optional add_hold Session.new Controls.new validate
    any_falling one unit start Timers.new Clock.new Timers.set_multiplier Clock.set_multiplier
    Clock.reanchor Clock.sample Timers.sample effective_multiplier duration_qpc_ticks scaled to_u64
    floor mul of_u64 pack overflow round game_settings Input.new Hotkeys.watched_keys
game_session = (_, refl, record { rate = refl; hold = refl; startup = refl })

apply_reset-ok :
    (c : SpeedCoordinator) (r : ℕ) {t : TimerSnapshot}
    → (Session.apply c.session r reset).1 ≡ ok t
    → (Coordinator.apply c r reset).1 ≡ ok t
unfolding Coordinator.apply
apply_reset-ok c r e = rw (Coordinator.apply, e) refl

-- A session that there is comes to 1x, and one is made where there is none.
armed :
    (session : Option PreviewSession) (now : ℕ)
    → OnSome IsPreview session
    → now ≤ u64_max
    → (s : PreviewSession) × (armed_session session now ≡ (some s, ok tt))
      × IsPreview s
      × IsReset s.coordinator.session
unfolding armed_session
armed none now v h =
    let (c, made, still) = game_session in
    let (valid, configured) =
      new-IsConfigured game_settings no_hotkeys 0 preview_frequency 0 0 c (omega arith) made in
    (
      record { coordinator = c; settings = game_settings; label = offline_label },
      rw (armed_session, made) refl,
      record { settings = valid; configured = configured },
      still,
    )
armed (some s) now v h =
    let low = v.settings.min_positive in
    let lo = s.settings.min_multiplier in
    let hi = s.settings.max_multiplier in
    let same = reset-focus_lost s.coordinator.session now in
    let (still, shown) =
      focus_lost-IsReset lo hi low s.coordinator.session now h v.configured.valid.session in
    let accepted = apply_reset-ok s.coordinator now (ap (λ p. p.1) same ∙ shown) in
    (
      record s { coordinator = (Coordinator.apply s.coordinator now reset).0 },
      rw (armed_session, accepted) refl,
      record {
        settings = v.settings;
        configured = apply-IsConfigured lo hi low s.coordinator now reset h v.configured;
      },
      subst IsReset (sym ((apply-session s.coordinator now reset).0 ∙ ap (λ p. p.0) same)) still,
    )

module _ {B I : Type 0} (backend : Backend B) (e : SpeedPreviewExecutor I) (now : ℕ) (b : B) where
  -- For an executor whose preview, if there is one, is in its invariant, and a time in u64: an arm
  -- that no explicit profile blocks leaves a preview in its invariant at 1x with no deadline,
  -- whether there was one or not, and answers with what the clock in the target says to one reset.
  pub arm-IsReset :
      OnSome IsPreview e.session
      → now ≤ u64_max
      → e.blocked_by_explicit_profile ≡ false
      → (s : PreviewSession) × (arm_selected_game_session backend e now b
          ≡ (record e { session = some s }, (backend b reset).0, (backend b reset).1))
        × IsPreview s
        × IsReset s.coordinator.session
  unfolding arm_selected_game_session reset_target
  arm-IsReset v h open_ =
      let (s, made, valid, still) = armed e.session now v h in
      (s, unblocked open_ ∙ ap (reset_target backend e b) made, valid, still)
    where
      unblocked :
          e.blocked_by_explicit_profile ≡ false
          → arm_selected_game_session backend e now b
            ≡ reset_target backend e b (armed_session e.session now)
      unblocked k = ground arith
