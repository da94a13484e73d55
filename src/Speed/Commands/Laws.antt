-- ===== src/Speed/Commands/Laws.antt =====
-- What commands keep of the preview (src/speed_commands.rs), and where the clock of the target refuses
-- an action.
use mathlib.Core.Path.{subst}
use intimatr.Prelude.{
  ℕ, ◌≤◌, ◌≡◌, refl, sym, inl, inr, none, some, Option, List, [], ◌∷◌, Result, ok, err, u64_max,
  Result-cases,
}
use intimatr.Float.{F64}
use intimatr.Speed.Clock.Scaled.{IsSpeed}
use intimatr.Speed.Timers.{TimerSnapshot}
use intimatr.Speed.Config.Laws.{IsSettings}
use intimatr.Speed.Session.{SpeedAction, focus_lost}
use intimatr.Speed.Session
use intimatr.Speed.Coordinator.{SpeedCoordinator, SpeedCoordinatorError}
use intimatr.Speed.Coordinator
use intimatr.Speed.Coordinator.Laws.{IsReset, focus_lost-IsReset}
use intimatr.Speed.Coordinator.Sampling.{apply-IsCoordinator, sample-IsCoordinator}
use intimatr.Speed.Coordinator.Presets.{apply-steps, sample-steps}
use intimatr.Speed.Coordinator.Accepts.{IsConfigured}
use intimatr.Speed.Preview.{
  PreviewSession, SpeedPreviewStatus, SpeedPreviewError, coordinator, session_status,
}
use intimatr.Speed.Commands.{Backend, apply_with_fail_safe, request_session}

-- The settings of a session are valid, and its coordinator is configured by them.
pub record IsPreview (s : PreviewSession) : Type 0 where
  pub settings : IsSettings s.settings
  pub configured : IsConfigured s.settings.min_multiplier s.settings.max_multiplier s.coordinator

pub apply-session :
    (c : SpeedCoordinator) (r : ℕ) (a : SpeedAction)
    → ((Coordinator.apply c r a).0.session ≡ (Session.apply c.session r a).0)
      × ((Coordinator.apply c r a).0.input ≡ c.input)
unfolding Coordinator.apply
apply-session c r a = elim (Result-cases (Session.apply c.session r a).1) [
  | inl (t, e) ↦ rw (e, Coordinator.apply) (refl, refl)
  | inr (f, e) ↦ rw (e, Coordinator.apply) (refl, refl)
]

module _ (lo hi : F64) (low : IsSpeed lo) where
  -- Any action keeps the bindings among the presets.
  pub apply-IsConfigured :
      (c : SpeedCoordinator) (r : ℕ) (a : SpeedAction)
      → r ≤ u64_max
      → IsConfigured lo hi c
      → IsConfigured lo hi (Coordinator.apply c r a).0
  apply-IsConfigured c r a h v =
      let (session, input) = apply-session c r a in
      record {
        valid = apply-IsCoordinator lo hi low c r a h v.valid;
        bindings = rw (session, input, apply-steps c.session r a) v.bindings;
      }

  pub sample-IsConfigured :
      (c : SpeedCoordinator) (r : ℕ)
      → r ≤ u64_max
      → IsConfigured lo hi c
      → IsConfigured lo hi (Coordinator.sample c r).0
  sample-IsConfigured c r h v = record {
    valid = sample-IsCoordinator lo hi low c r h v.valid;
    bindings = unfold Coordinator.sample in rw (sample-steps c.session r) v.bindings;
  }

  -- A loss of the focus, whatever comes of it, leaves the coordinator at 1x.
  pub apply_focus_lost-IsReset :
      (c : SpeedCoordinator) (r : ℕ)
      → r ≤ u64_max
      → IsConfigured lo hi c
      → IsReset (Coordinator.apply c r focus_lost).0.session
  apply_focus_lost-IsReset c r h v =
      subst IsReset (sym (apply-session c r focus_lost).0)
        (focus_lost-IsReset lo hi low c.session r h v.valid.session).0

module _ {B : Type 0} (backend : Backend B) where
  pub fail_safe-ok :
      (c : SpeedCoordinator) (r : ℕ) (a : SpeedAction) (b : B) {done : Unit {0}}
      → (backend b a).1 ≡ ok done
      → apply_with_fail_safe backend c r a b ≡ (c, (backend b a).0, ok tt)
  unfolding apply_with_fail_safe
  fail_safe-ok c r a b e = rw (apply_with_fail_safe, e) refl

  pub fail_safe-err :
      (c : SpeedCoordinator) (r : ℕ) (a : SpeedAction) (b : B) {e : SpeedPreviewError}
      → (backend b a).1 ≡ err e
      → apply_with_fail_safe backend c r a b
        ≡ ((Coordinator.apply c r focus_lost).0, (backend (backend b a).0 focus_lost).0, err e)
  unfolding apply_with_fail_safe
  fail_safe-err c r a b e = rw (apply_with_fail_safe, e) refl

  -- The actions given to the clock of the target, up to the first that it refuses.
  unfoldable pub deliver : B → List SpeedAction → B × Result SpeedPreviewError (Unit {0})
  deliver b [] = (b, ok tt)
  deliver b (a ∷ actions) =
      let (b', result) = backend b a in
      elim result [ ok done ↦ deliver b' actions | err e ↦ (b', err e) ]

  -- What a request or a sample leaves behind.
  pub record Answered (s : PreviewSession) (e : SpeedPreviewError) (b : B)
      (p : PreviewSession × B × Result SpeedPreviewError SpeedPreviewStatus) : Type 0 where
    pub answer : p.2 ≡ err e
    pub target : p.1 ≡ (backend b focus_lost).0
    pub slowed : IsReset p.0.coordinator.session

  request-err :
      (s : PreviewSession) (now : ℕ) (a : SpeedAction) (b : B) {t : TimerSnapshot}
      {e : SpeedPreviewError}
      → (Coordinator.apply s.coordinator now a).1 ≡ ok t
      → (backend b a).1 ≡ err e
      → request_session backend s now (some a) b ≡ (
        record s {
          coordinator =
              (Coordinator.apply (Coordinator.apply s.coordinator now a).0 now focus_lost).0;
        },
        (backend (backend b a).0 focus_lost).0,
        err e,
      )
  unfolding request_session
  request-err s now a b k r =
      rw (request_session, k)
        (rw (fail_safe-err (Coordinator.apply s.coordinator now a).0 now a b r) refl)

  -- For a preview in its invariant and a time in u64: where the coordinator takes an action and
  -- the clock in the target then refuses it, the command answers with that refusal, has given the
  -- target a loss of the focus, and leaves the session at 1x with no deadline.
  pub request_refused :
      (s : PreviewSession) (now : ℕ) (a : SpeedAction) (b : B) (t : TimerSnapshot)
      (e : SpeedPreviewError)
      → IsPreview s
      → now ≤ u64_max
      → (Coordinator.apply s.coordinator now a).1 ≡ ok t
      → (backend b a).1 ≡ err e
      → Answered s e (backend b a).0 (request_session backend s now (some a) b)
  request_refused s now a b t e v h k r =
      let low = v.settings.min_positive in
      let lo = s.settings.min_multiplier in
      let hi = s.settings.max_multiplier in
      let applied = apply-IsConfigured lo hi low s.coordinator now a h v.configured in
      subst (Answered s e (backend b a).0) (sym (request-err s now a b k r)) (record {
        answer = refl;
        target = refl;
        slowed =
            apply_focus_lost-IsReset lo hi low (Coordinator.apply s.coordinator now a).0 now h
              applied;
      })

  request-ok :
      (s : PreviewSession) (now : ℕ) (a : SpeedAction) (b : B) {t : TimerSnapshot} {done : Unit {0}}
      → (Coordinator.apply s.coordinator now a).1 ≡ ok t
      → (backend b a).1 ≡ ok done
      → request_session backend s now (some a) b ≡ (
        record s { coordinator = (Coordinator.apply s.coordinator now a).0 },
        (backend b a).0,
        ok (session_status (record s { coordinator = (Coordinator.apply s.coordinator now a).0 })),
      )
  unfolding request_session
  request-ok s now a b k r =
      rw (request_session, k)
        (rw (fail_safe-ok (Coordinator.apply s.coordinator now a).0 now a b r) refl)

  request-refused :
      (s : PreviewSession) (now : ℕ) (a : SpeedAction) (b : B) {e : SpeedCoordinatorError}
      → (Coordinator.apply s.coordinator now a).1 ≡ err e
      → request_session backend s now (some a) b ≡ (
        record s { coordinator = (Coordinator.apply s.coordinator now a).0 },
        b,
        err (coordinator e),
      )
  unfolding request_session
  request-refused s now a b k = rw (request_session, k) refl

  -- For a preview in its invariant and a time in u64, every request, whether the coordinator or
  -- the clock in the target refuses it or neither, leaves the preview in its invariant.
  pub request-IsPreview :
      (s : PreviewSession) (now : ℕ) (request : Option SpeedAction) (b : B)
      → IsPreview s
      → now ≤ u64_max
      → IsPreview (request_session backend s now request b).0
  request-IsPreview s now none b v h =
      unfold request_session in
      record {
        settings = v.settings;
        configured =
            sample-IsConfigured s.settings.min_multiplier s.settings.max_multiplier
              v.settings.min_positive s.coordinator now h v.configured;
      }
  request-IsPreview s now (some a) b v h =
      let low = v.settings.min_positive in
      let keep = apply-IsConfigured s.settings.min_multiplier s.settings.max_multiplier low in
      let applied = keep s.coordinator now a h v.configured in
      elim (Result-cases (Coordinator.apply s.coordinator now a).1) [
        | inr (e, refused) ↦
            subst (λ p. IsPreview p.0) (sym (request-refused s now a b refused))
              (record { settings = v.settings; configured = applied })
        | inl (t, taken) ↦ elim (Result-cases (backend b a).1) [
          | inl (done, delivered) ↦
              subst (λ p. IsPreview p.0) (sym (request-ok s now a b taken delivered))
                (record { settings = v.settings; configured = applied })
          | inr (e, refused) ↦
              subst (λ p. IsPreview p.0) (sym (request-err s now a b taken refused))
                (record {
                  settings = v.settings;
                  configured =
                      keep (Coordinator.apply s.coordinator now a).0 now focus_lost h applied;
                })
        ]
      ]
