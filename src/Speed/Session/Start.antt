-- ===== src/Speed/Session/Start.antt =====
-- A session of valid settings starts in the invariant (`SpeedSession::new` in src/speed_session.rs).
use intimatr.Prelude.{
  ℕ, ◌≤◌, ◌≡◌, ap, sym, Bool, none, some, Result, ok, err, arith, u64_max, saturating_add, is_some,
  if◌then◌else◌, map_err, >>=-eq-ok, ok-injective,
}
use intimatr.Speed.Timers.Laws.{new-IsTimers, set_multiplier-IsTimers}
use intimatr.Speed.Config.{SpeedSettings, validate}
use intimatr.Speed.Config.Laws.{IsSettings, validate_iff}
use intimatr.Speed.Controls.{SpeedControlState, start, effective_multiplier}
use intimatr.Speed.Controls
use intimatr.Speed.Controls.Found.{OnSome, OnSome-if}
use intimatr.Speed.Controls.Laws.{IsControls, start-IsControls}
use intimatr.Speed.Session.{SpeedSession, new}
use intimatr.Speed.Session.Laws.{IsSession, effective-IsSpeed}

pub map_err-eq-ok :
    {E F A : Type 0} (f : E → F) (r : Result E A) {a : A} → map_err f r ≡ ok a → r ≡ ok a
map_err-eq-ok f (ok a) h = cc
map_err-eq-ok f (err e) h = absurd (ground arith)

pub validated :
    (s : SpeedSettings) {c : SpeedControlState}
    → Controls.new s ≡ ok c
    → IsSettings s × (start s ≡ c)
unfolding Controls.new
validated s h =
    let (u, valid, rest) = >>=-eq-ok (validate s) (λ _. ok (start s)) h in
    ((validate_iff s).0 valid, ok-injective rest)

started-fits :
    (b : Bool) (origin ticks : ℕ)
    → OnSome (λ d. d ≤ u64_max) (if b then some (saturating_add origin ticks) else none)
started-fits b origin ticks =
    OnSome-if (λ d. d ≤ u64_max) b (some (saturating_add origin ticks)) none (λ _. omega arith)
      (λ _. tt)

-- Where `SpeedSession::new` succeeds, for an origin in u64, the settings are valid, the session is
-- in its invariant, and its controls are those of the settings.
pub new-IsSession :
    (settings : SpeedSettings) (origin frequency ticks time : ℕ) (s : SpeedSession)
    → origin ≤ u64_max
    → new settings origin frequency ticks time ≡ ok s
    → IsSettings settings
      × IsSession settings.min_multiplier settings.max_multiplier s
      × (s.controls ≡ start settings)
unfolding new start
new-IsSession settings origin frequency ticks time s h e =
    let (c, made, e1) = >>=-eq-ok _ _ e in
    let (t, timed, e2) = >>=-eq-ok _ _ e1 in
    let (valid, same) = validated settings (map_err-eq-ok _ _ made) in
    let controls : IsControls settings.min_multiplier settings.max_multiplier c =
      rw (← same) (start-IsControls settings valid) in
    let timers = new-IsTimers origin frequency ticks time h (map_err-eq-ok _ _ timed) in
    let speed =
      effective-IsSpeed settings.min_multiplier settings.max_multiplier valid.min_positive c
        controls in
    let (q, set, kept, force, rate) =
      set_multiplier-IsTimers t origin (effective_multiplier c) h speed timers in
    let done = ok-injective (rw set at e2) in
    let session : IsSession settings.min_multiplier settings.max_multiplier _ = record {
      controls = controls;
      timers = kept;
      in_force = force;
      lease = ap (λ (k : SpeedControlState). is_some k.held_multiplier) same;
      hold_fits = tt;
      startup_fits = started-fits _ origin _;
    } in
    (valid, rw (← done) session, rw (← done) (sym same))
