-- ===== src/Speed/Commands.antt =====
-- src/speed_commands.rs: the commands on the preview, in front of the clock that is installed in the
-- target. A call is given the nanoseconds since its session has started.
pub mod Laws
pub mod Samples
pub mod Arming
use intimatr.Prelude.{
  ◌⊎◌, inl, inr, ℕ, Option, none, some, List, [], ◌∷◌, Result, ok, err, ◌>>=◌, ◌>>◌, if◌then◌else◌,
}
use intimatr.Speed.Session.{SpeedAction}
use intimatr.Speed.Input.{InputSnapshot}
use intimatr.Speed.Input
use intimatr.Speed.Coordinator.{SpeedCoordinator, input_sample_with_actions}
use intimatr.Speed.Coordinator
use intimatr.Speed.Preview.{
  PreviewSession, SpeedPreviewError, SpeedPreviewExecutor, SpeedPreviewStatus, SpeedRequest,
  action_of, game_settings, no_hotkeys, offline_label, preview_frequency, session_status,
  unavailable, unconfigured, inactive_profile, coordinator,
}

-- The clock in the target, which may refuse an action.
abbrev pub Backend : Type 0 → Type 0
Backend B = B → SpeedAction → B × Result SpeedPreviewError (Unit {0})

-- The session that an arm makes or resets, at the time of the session that there is.
unfoldable pub armed_session :
    Option PreviewSession → ℕ → Option PreviewSession × Result SpeedPreviewError (Unit {0})
armed_session (some s) now =
    let (c, result) = Coordinator.apply s.coordinator now SpeedAction.reset in
    (
      some (record s { coordinator = c }),
      elim result [ ok snapshot ↦ ok tt | err e ↦ err (coordinator e) ],
    )
armed_session none now = elim (Coordinator.new game_settings no_hotkeys 0 preview_frequency 0 0) [
  | err e ↦ (none, err (coordinator e))
  | ok c ↦
      (some (record { coordinator = c; settings = game_settings; label = offline_label }), ok tt)
]

module _ {B : Type 0} (backend : Backend B) where
  -- A refusal is answered by a loss of the focus, in the preview and in the target.
  unfoldable pub apply_with_fail_safe :
      SpeedCoordinator
      → ℕ
      → SpeedAction
      → B
      → SpeedCoordinator × B × Result SpeedPreviewError (Unit {0})
  apply_with_fail_safe c now action b =
      let (b', result) = backend b action in
      elim result [
        | ok done ↦ (c, b', ok tt)
        | err e ↦ (
          (Coordinator.apply c now SpeedAction.focus_lost).0,
          (backend b' SpeedAction.focus_lost).0,
          err e,
        )
      ]

  -- The loop over the actions of a sample, which the first refusal ends.
  unfoldable pub apply_each :
      SpeedCoordinator
      → ℕ
      → List SpeedAction
      → B
      → SpeedCoordinator × B × Result SpeedPreviewError (Unit {0})
  apply_each c now [] b = (c, b, ok tt)
  apply_each c now (action ∷ actions) b =
      let (c', b', result) = apply_with_fail_safe c now action b in
      elim result [ ok done ↦ apply_each c' now actions b' | err e ↦ (c', b', err e) ]

  unfoldable pub sample_session :
      PreviewSession
      → ℕ
      → InputSnapshot
      → B
      → PreviewSession × B × Result SpeedPreviewError SpeedPreviewStatus
  sample_session s now snapshot b =
      let (c, outcome) = input_sample_with_actions s.coordinator now snapshot in
      elim outcome [
        | err e ↦ (record s { coordinator = c }, b, err (coordinator e))
        | ok sampled ↦
            (let (c', b', result) = apply_each c now sampled.actions b in
              let s' = record s { coordinator = c' } in
              (s', b', elim result [ ok done ↦ ok (session_status s') | err e ↦ err e ]))
      ]

  -- What a request does to the session that there is.
  unfoldable pub request_session :
      PreviewSession
      → ℕ
      → Option SpeedAction
      → B
      → PreviewSession × B × Result SpeedPreviewError SpeedPreviewStatus
  request_session s now none b =
      let s' = record s { coordinator = (Coordinator.sample s.coordinator now).0 } in
      (s', b, ok (session_status s'))
  request_session s now (some action) b =
      let (c, applied) = Coordinator.apply s.coordinator now action in
      let s' = record s { coordinator = c } in
      elim applied [
        | err e ↦ (s', b, err (coordinator e))
        | ok snapshot ↦
            (let (c', b', result) = apply_with_fail_safe c now action b in
              (
                record s { coordinator = c' },
                b',
                elim result [ ok done ↦ ok (session_status s') | err e ↦ err e ],
              ))
      ]

  module _ {I : Type 0} where
    unfoldable pub sample_input :
        SpeedPreviewExecutor I
        → ℕ
        → InputSnapshot
        → B
        → SpeedPreviewExecutor I × B × Result SpeedPreviewError SpeedPreviewStatus
    sample_input e now snapshot b = elim e.session [
      | none ↦ (e, b, err unconfigured)
      | some s ↦
          (let (s', b', result) = sample_session s now snapshot b in
            (record e { session = some s' }, b', result))
    ]

    unfoldable pub preview_command :
        SpeedPreviewExecutor I
        → ℕ
        → SpeedRequest
        → B
        → SpeedPreviewExecutor I × B × Result SpeedPreviewError SpeedPreviewStatus
    preview_command e now request b = elim e.session [
      | none ↦
          (e, b, elim (action_of request) [ none ↦ ok unavailable | some a ↦ err unconfigured ])
      | some s ↦
          (let (s', b', result) = request_session s now (action_of request) b in
            (record e { session = some s' }, b', result))
    ]

    -- `CommandExecutor::execute`: a speed request is handled here, any other command by the executor
    -- behind this one.
    unfoldable pub execute :
        {O R : Type 0}
        → (I → O → I × Result SpeedPreviewError R)
        → SpeedPreviewExecutor I
        → ℕ
        → SpeedRequest ⊎ O
        → B
        → SpeedPreviewExecutor I × B × Result SpeedPreviewError (SpeedPreviewStatus ⊎ R)
    unfolding preview_command
    execute inner_execute e now (inl request) b =
        let (e', b', result) = preview_command e now request b in
        (e', b', elim result [ ok answer ↦ ok (inl answer) | err failure ↦ err failure ])
    execute inner_execute e now (inr other) b =
        let (inner, result) = inner_execute e.inner other in
        (
          record e { inner = inner },
          b,
          elim result [ ok answer ↦ ok (inr answer) | err failure ↦ err failure ],
        )

    -- The end of an arm, which resets the target.
    unfoldable pub reset_target :
        SpeedPreviewExecutor I
        → B
        → Option PreviewSession × Result SpeedPreviewError (Unit {0})
        → SpeedPreviewExecutor I × B × Result SpeedPreviewError (Unit {0})
    reset_target e b p =
        let e' = record e { session = p.0 } in
        elim p.1 [
          | err failure ↦ (e', b, err failure)
          | ok done ↦
              (let (b', reset_result) = backend b SpeedAction.reset in (e', b', reset_result))
        ]

    unfoldable pub arm_selected_game_session :
        SpeedPreviewExecutor I
        → ℕ
        → B
        → SpeedPreviewExecutor I × B × Result SpeedPreviewError (Unit {0})
    arm_selected_game_session e now b =
        if e.blocked_by_explicit_profile
        then (e, b, err inactive_profile)
        else reset_target e b (armed_session e.session now)

-- `shutdown`, whose last loss of the focus is lost with the session.
unfoldable pub shutdown : {I : Type 0} → (I → I) → SpeedPreviewExecutor I → SpeedPreviewExecutor I
shutdown inner_shutdown e = record e { session = none; inner = inner_shutdown e.inner }
