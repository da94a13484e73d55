-- ===== src/Speed/Session/Actions.antt =====
-- What `apply` does with each action (src/speed_session.rs): which ones it refuses, and that a
-- refused one changes nothing beyond the deadlines that have passed.
use intimatr.Prelude.{
  ℕ, ◌≤◌, ◌≡◌, sym, ap, ◌∙◌, inl, inr, not, none, some, Result, ok, err, u64_max, Option-cases,
}
use mathlib.Core.Path.{subst}
use intimatr.Float.{F64}
use intimatr.Speed.Clock.Scaled.{IsSpeed}
use intimatr.Speed.Timers.{TimerSnapshot}
use intimatr.Speed.Timers
use intimatr.Speed.Timers.Laws.{set_multiplier-IsTimers, change_no_jump}
use intimatr.Speed.Controls.Found.{OnSome-if}
use intimatr.Speed.Session.{
  SpeedSession, SpeedAction, SpeedSessionError, advance_deadlines, sample, control, commit, finish,
  apply, is_hold,
}
use intimatr.Speed.Session.Laws.{IsSession, advance_deadlines-IsSession, effective-IsSpeed}
use intimatr.Speed.Session.Requests.{refusal, control_refused, Asks, control_accepted}

-- An action that is refused returns the error that it is refused with, and leaves exactly the
-- session that the passed deadlines leave.
pub apply_refused :
    (s : SpeedSession) (r : ℕ) (a : SpeedAction) (e : SpeedSessionError)
    → refusal (advance_deadlines s r).controls a ≡ some e
    → apply s r a ≡ (advance_deadlines s r, err e)
apply_refused s r a e h =
    unfold apply finish in
    ap (finish (advance_deadlines s r) r a) (control_refused (advance_deadlines s r) r a e h)

-- What an accepted action leaves, from the session `s` that the deadlines have left.
abbrev Committed :
    F64
    → F64
    → SpeedSession
    → ℕ
    → SpeedAction
    → SpeedSession × Result SpeedSessionError TimerSnapshot
    → Type 0
Committed lo hi s r a p = IsSession lo hi p.0 × (p.1 ≡ ok (Timers.sample s.timers r).1)

module _ (lo hi : F64) (low : IsSpeed lo) where
  finish-Committed :
      (s : SpeedSession) (r : ℕ) (a : SpeedAction)
      → r ≤ u64_max
      → IsSession lo hi s
      → Asks lo hi s r a
      → Committed lo hi s r a (finish s r a (control s r a))
  finish-Committed s r a h v k =
      let speed = subst IsSpeed (sym k.names) (effective-IsSpeed lo hi low k.controls k.valid) in
      let (q, e, timed, force, same) = set_multiplier-IsTimers s.timers r k.rate h speed v.timers in
      let (shown, again) = change_no_jump s.timers r k.rate q.0 q.1 h v.timers e in
      subst (Committed lo hi s r a) (sym (ap (finish s r a) k.result)) (
        unfold finish in
        rw (e, commit)
          (
            record {
              controls = k.valid;
              timers = timed;
              in_force = force ∙ k.names;
              lease = k.lease;
              hold_fits = k.fits;
              startup_fits =
                  OnSome-if (λ d. d ≤ u64_max) (not (is_hold a)) none s.startup_deadline_qpc
                    (λ _. tt) (λ _. v.startup_fits);
            },
            ap ok shown,
          ))

  -- For a session in its invariant, of a profile whose least speed is positive, and a time in u64:
  -- an action that is not refused (no unknown preset, no hold outside 1 to 60000 ms) succeeds with
  -- the snapshot that `sample` would have returned, and leaves the session in its invariant.
  pub apply_accepted :
      (s : SpeedSession) (r : ℕ) (a : SpeedAction)
      → r ≤ u64_max
      → IsSession lo hi s
      → refusal (advance_deadlines s r).controls a ≡ none
      → IsSession lo hi (apply s r a).0 × ((apply s r a).1 ≡ ok (sample s r).1)
  unfolding apply sample
  apply_accepted s r a h v k =
      let w = advance_deadlines-IsSession lo hi low s r v in
      finish-Committed (advance_deadlines s r) r a h w
        (control_accepted lo hi (advance_deadlines s r) r a w.controls k)

  -- For a session in its invariant, of a profile whose least speed is positive, every action at a
  -- time in u64, refused or not, leaves the session in its invariant.
  pub apply-IsSession :
      (s : SpeedSession) (r : ℕ) (a : SpeedAction)
      → r ≤ u64_max
      → IsSession lo hi s
      → IsSession lo hi (apply s r a).0
  apply-IsSession s r a h v = elim (Option-cases (refusal (advance_deadlines s r).controls a)) [
    | inl k ↦ (apply_accepted s r a h v k).0
    | inr (e, k) ↦ rw (apply_refused s r a e k) (advance_deadlines-IsSession lo hi low s r v)
  ]
