-- ===== src/Speed/Commands/Samples.antt =====
-- Samples of the input and polls of the status (src/speed_commands.rs): what reaches the clock of the
-- target, and what a poll leaves alone.
use intimatr.Prelude.{
  ℕ, ◌≤◌, ◌≡◌, refl, sym, ap, ◌∙◌, inl, inr, none, List, [], ◌∷◌, Result, ok, err, u64_max,
  Result-cases,
}
use intimatr.Speed.Session.{SpeedSession, SpeedAction, focus_lost}
use intimatr.Speed.Session.Polling.{sample_poll}
use intimatr.Speed.Input.{InputSnapshot}
use intimatr.Speed.Input
use intimatr.Speed.Coordinator.{SpeedCoordinator, input_sample_with_actions}
use intimatr.Speed.Coordinator
use intimatr.Speed.Coordinator.Accepts.{IsConfigured, input_sample_succeeds}
use intimatr.Speed.Preview.{PreviewSession, SpeedPreviewStatus, SpeedPreviewError, session_status}
use intimatr.Speed.Commands.{Backend, apply_each, sample_session, request_session}
use intimatr.Speed.Commands.Laws.{
  IsPreview, Answered, deliver, fail_safe-ok, fail_safe-err, apply-IsConfigured,
  apply_focus_lost-IsReset,
}

err-ne-ok {ℓ κ} :
    {E : Type κ} {A : Type ℓ} {e : E} {a : A} → ◌≡◌ {A = Result E A} (err e) (ok a) → ⊥
err-ne-ok h = cc

err-injective {ℓ κ} :
    {E : Type κ} {A : Type ℓ} {e f : E} → ◌≡◌ {A = Result E A} (err e) (err f) → e ≡ f
err-injective h = cc

module _ {B : Type 0} (backend : Backend B) where
  deliver_nil : (b : B) → deliver backend b [] ≡ (b, ok tt)
  unfolding deliver
  deliver_nil b = refl

  each_nil : (c : SpeedCoordinator) (r : ℕ) (b : B) → apply_each backend c r [] b ≡ (c, b, ok tt)
  unfolding apply_each
  each_nil c r b = refl

  deliver-next :
      (a : SpeedAction) (actions : List SpeedAction) (b : B) {done : Unit {0}}
      → (backend b a).1 ≡ ok done
      → deliver backend b (a ∷ actions) ≡ deliver backend (backend b a).0 actions
  unfolding deliver
  deliver-next a actions b e = rw (deliver, e) refl

  deliver-stop :
      (a : SpeedAction) (actions : List SpeedAction) (b : B) {x : SpeedPreviewError}
      → (backend b a).1 ≡ err x
      → deliver backend b (a ∷ actions) ≡ ((backend b a).0, err x)
  unfolding deliver
  deliver-stop a actions b e = rw (deliver, e) refl

  -- What follows the first action.
  abbrev after :
      ℕ
      → List SpeedAction
      → SpeedCoordinator × B × Result SpeedPreviewError (Unit {0})
      → SpeedCoordinator × B × Result SpeedPreviewError (Unit {0})
  after r actions p = elim p.2 [
    | ok done ↦ apply_each backend p.0 r actions p.1
    | err e ↦ (p.0, p.1, err e)
  ]

  each-next :
      (c : SpeedCoordinator) (r : ℕ) (a : SpeedAction) (actions : List SpeedAction) (b : B)
      {done : Unit {0}}
      → (backend b a).1 ≡ ok done
      → apply_each backend c r (a ∷ actions) b ≡ apply_each backend c r actions (backend b a).0
  unfolding apply_each
  each-next c r a actions b e = ap (after r actions) (fail_safe-ok backend c r a b e)

  each-stop :
      (c : SpeedCoordinator) (r : ℕ) (a : SpeedAction) (actions : List SpeedAction) (b : B)
      {x : SpeedPreviewError}
      → (backend b a).1 ≡ err x
      → apply_each backend c r (a ∷ actions) b
        ≡ ((Coordinator.apply c r focus_lost).0, (backend (backend b a).0 focus_lost).0, err x)
  unfolding apply_each
  each-stop c r a actions b e = ap (after r actions) (fail_safe-err backend c r a b e)

  -- The loop over the actions delivers them, and falls back to a loss of the focus.
  apply_each-ok :
      (c : SpeedCoordinator) (r : ℕ) (actions : List SpeedAction) (b b' : B)
      → deliver backend b actions ≡ (b', ok tt)
      → apply_each backend c r actions b ≡ (c, b', ok tt)
  apply_each-ok c r [] b b' e =
      let same : b ≡ b' = ap (λ p. p.0) (sym (deliver_nil b) ∙ e) in rw (each_nil c r b, same) refl
  apply_each-ok c r (a ∷ actions) b b' e = elim (Result-cases (backend b a).1) [
    | inl (done, taken) ↦
        each-next c r a actions b taken
        ∙ apply_each-ok c r actions (backend b a).0 b' (rw (deliver-next a actions b taken) at e)
    | inr (x, refused) ↦
        absurd (err-ne-ok (ap (λ p. p.1) (rw (deliver-stop a actions b refused) at e)))
  ]

  apply_each-err :
      (c : SpeedCoordinator) (r : ℕ) (actions : List SpeedAction) (b b' : B) (x : SpeedPreviewError)
      → deliver backend b actions ≡ (b', err x)
      → apply_each backend c r actions b
        ≡ ((Coordinator.apply c r focus_lost).0, (backend b' focus_lost).0, err x)
  apply_each-err c r [] b b' x e =
      absurd (err-ne-ok (sym (ap (λ p. p.1) (sym (deliver_nil b) ∙ e))))
  apply_each-err c r (a ∷ actions) b b' x e = elim (Result-cases (backend b a).1) [
    | inl (done, taken) ↦
        each-next c r a actions b taken
        ∙ apply_each-err c r actions (backend b a).0 b' x (rw (deliver-next a actions b taken) at e)
    | inr (y, refused) ↦
        let stopped = rw (deliver-stop a actions b refused) at e in
        let state = ap (λ p. p.0) stopped in
        let same : y ≡ x = err-injective (ap (λ p. p.1) stopped) in
        each-stop c r a actions b refused ∙ rw (state, same) refl
  ]

  module _ (s : PreviewSession) (now : ℕ) (snapshot : InputSnapshot) (b b' : B) (v : IsPreview s)
      (h : now ≤ u64_max) where
    abbrev pub sent : List SpeedAction
    sent = (Input.sample s.coordinator.input snapshot).1

    -- The coordinator that the sample leaves, from what the coordinator answers.
    abbrev pub sampled_coordinator : SpeedCoordinator
    sampled_coordinator = (input_sample_with_actions s.coordinator now snapshot).0

    sampled-IsConfigured :
        IsConfigured s.settings.min_multiplier s.settings.max_multiplier sampled_coordinator
    sampled-IsConfigured =
        (input_sample_succeeds s.settings.min_multiplier s.settings.max_multiplier
          v.settings.min_positive s.coordinator now snapshot h v.configured).0

    -- The end of `sample_input`, from what the loop over the actions leaves.
    abbrev ends_with :
        SpeedCoordinator × B × Result SpeedPreviewError (Unit {0})
        → PreviewSession × B × Result SpeedPreviewError SpeedPreviewStatus
    ends_with p = (
      record s { coordinator = p.0 },
      p.1,
      elim p.2 [ ok done ↦ ok (session_status (record s { coordinator = p.0 })) | err e ↦ err e ],
    )

    sample-runs :
        sample_session backend s now snapshot b
        ≡ ends_with (apply_each backend sampled_coordinator now sent b)
    unfolding sample_session
    sample-runs =
        let answers =
          (input_sample_succeeds s.settings.min_multiplier s.settings.max_multiplier
            v.settings.min_positive s.coordinator now snapshot h v.configured).2 in
        rw (sample_session, answers) refl

    -- For a preview in its invariant and a time in u64: where the clock in the target takes, one
    -- after the other, the actions that the input pump sends for a snapshot, the sample gives it
    -- exactly those, leaves the coordinator as its own sample leaves it, answers with its status,
    -- and keeps the invariant.
    pub sample_delivered :
        deliver backend b sent ≡ (b', ok tt)
        → IsPreview (sample_session backend s now snapshot b).0
          × (sample_session backend s now snapshot b ≡ (
            record s { coordinator = sampled_coordinator },
            b',
            ok (session_status (record s { coordinator = sampled_coordinator })),
          ))
    sample_delivered e =
        let each = apply_each-ok sampled_coordinator now sent b b' e in
        let ran : sample_session backend s now snapshot b ≡ (
          record s { coordinator = sampled_coordinator },
          b',
          ok (session_status (record s { coordinator = sampled_coordinator })),
        ) =
          sample-runs ∙ ap ends_with each in
        (rw ran (record { settings = v.settings; configured = sampled-IsConfigured }), ran)

    -- For a preview in its invariant and a time in u64: where the clock in the target refuses one
    -- of the actions that the input pump sends for a snapshot, the sample answers with that
    -- refusal, gives the target a loss of the focus and no later action, leaves the session at 1x
    -- with no deadline, and keeps the invariant.
    pub sample_refused :
        (x : SpeedPreviewError)
        → deliver backend b sent ≡ (b', err x)
        → IsPreview (sample_session backend s now snapshot b).0
          × Answered backend s x b' (sample_session backend s now snapshot b)
    sample_refused x e =
        let low = v.settings.min_positive in
        let lo = s.settings.min_multiplier in
        let hi = s.settings.max_multiplier in
        let each = apply_each-err sampled_coordinator now sent b b' x e in
        let ran : sample_session backend s now snapshot b ≡ (
          record s { coordinator = (Coordinator.apply sampled_coordinator now focus_lost).0 },
          (backend b' focus_lost).0,
          err x,
        ) =
          sample-runs ∙ ap ends_with each in
        (
          rw ran (record {
            settings = v.settings;
            configured =
                apply-IsConfigured lo hi low sampled_coordinator now focus_lost h
                  sampled-IsConfigured;
          }),
          rw ran (record {
            answer = refl;
            target = refl;
            slowed =
                apply_focus_lost-IsReset lo hi low sampled_coordinator now h sampled-IsConfigured;
          }),
        )

  -- For a preview in its invariant and times p ≤ q in u64: a poll of the status at p leaves the
  -- target alone, and a poll at q after it answers and leaves what a poll at q alone does.
  pub status_poll :
      (s : PreviewSession) (p q : ℕ) (b : B)
      → IsPreview s
      → p ≤ q
      → q ≤ u64_max
      → (request_session backend s p none b).1 ≡ b
        × ((request_session backend (request_session backend s p none b).0 q none b)
            ≡ request_session backend s q none b)
  unfolding request_session Coordinator.sample
  status_poll s p q b v h k = (
    refl,
    ap
        (λ (t : SpeedSession).
          let s' = record s { coordinator = record s.coordinator { session = t } } in
          (s', b, ok (session_status s')))
        (ap (λ r. r.0)
          (sample_poll s.settings.min_multiplier s.settings.max_multiplier v.settings.min_positive p
            q h k s.coordinator.session v.configured.valid.session)),
  )
