-- ===== src/Examples/Commands.antt =====
-- Runs of the theorems on the commands: a clock that counts what it is given, and one that refuses
-- to speed up.
use intimatr.Prelude.{ℕ, suc, ◌≡◌, refl, true, false, none, some, ok, err, arith}
use intimatr.Float.{one, unit, overflow, of_u64, mul, pack, floor, to_u64}
use intimatr.Float.Round.{round}
use intimatr.Speed.Clock.{scaled}
use intimatr.Speed.Clock
use intimatr.Speed.Timers.{TimerSnapshot}
use intimatr.Speed.Timers
use intimatr.Speed.Controls.{start, effective_multiplier, activate_found, activate}
use intimatr.Speed.Controls
use intimatr.Speed.Session.{
  SpeedAction, focus_lost, hold_release, advance, advance_deadlines, next_deadline, control, commit,
  finish, duration_qpc_ticks,
}
use intimatr.Speed.Session
use intimatr.Speed.Hotkeys.{on_key, on_press, fire, speed_action}
use intimatr.Speed.Hotkeys.Compile.{compile-IsBindings}
use intimatr.Speed.Input.{feed, edges}
use intimatr.Speed.Input
use intimatr.Speed.Coordinator.{apply, input_sample_with_actions}
use intimatr.Speed.Coordinator.Laws.{IsReset}
use intimatr.Speed.Preview.{
  PreviewSession, inactive_profile, SpeedPreviewExecutor, session_status, offline_label,
}
use intimatr.Speed.Commands.{Backend, sample_session, request_session, arm_selected_game_session}
use intimatr.Speed.Commands.Laws.{IsPreview, Answered, deliver, request_refused, request-IsPreview}
use intimatr.Speed.Commands.Samples.{sample_delivered, sample_refused, status_poll}
use intimatr.Speed.Commands.Arming.{arm-IsReset}
use intimatr.Examples.Data.{settings, settings-IsSettings}
use intimatr.Examples.Coordinator.{
  dispatcher, playing, released, shortcuts, compiled, playing-IsCoordinator,
}

abbrev counting : Backend ℕ
counting n action = (suc n, ok tt)

abbrev limited : Backend ℕ
limited n SpeedAction.increase = (n, err inactive_profile)
limited n action = (suc n, ok tt)

abbrev preview : PreviewSession
preview = record { coordinator = playing; settings = settings; label = offline_label }

preview-IsPreview : IsPreview preview
preview-IsPreview = record {
  settings = settings-IsSettings;
  configured = record {
    valid = playing-IsCoordinator;
    bindings = (compile-IsBindings settings shortcuts dispatcher compiled).0;
  };
}

increased : (t : TimerSnapshot) × ((apply playing 100 SpeedAction.increase).1 ≡ ok t)
unfolding apply Session.apply advance_deadlines advance next_deadline finish control
    Controls.increase activate_found activate effective_multiplier commit Timers.set_multiplier
    Clock.set_multiplier Clock.reanchor Clock.sample Timers.sample scaled to_u64 floor mul of_u64
    pack overflow round one unit
increased = (_, refl)

request_refused_example :
    Answered limited preview inactive_profile 0
      (request_session limited preview 100 (some SpeedAction.increase) 0)
request_refused_example =
    request_refused limited preview 100 SpeedAction.increase 0 increased.0 inactive_profile
      preview-IsPreview (omega arith) increased.1 refl

request-IsPreview_example :
    IsPreview (request_session limited preview 100 (some SpeedAction.increase) 0).0
request-IsPreview_example =
    request-IsPreview limited preview 100 (some SpeedAction.increase) 0 preview-IsPreview
      (omega arith)

sent_all : deliver counting 0 (Input.sample playing.input released).1 ≡ (2, ok tt)
unfolding deliver Input.sample edges feed on_key on_press fire speed_action
sent_all = refl

sample_delivered_example :
    IsPreview (sample_session counting preview 100 released 0).0
    × (sample_session counting preview 100 released 0 ≡ (
      record preview { coordinator = (input_sample_with_actions playing 100 released).0 },
      2,
      ok (
          session_status
            (record preview { coordinator = (input_sample_with_actions playing 100 released).0 })),
    ))
sample_delivered_example =
    sample_delivered counting preview 100 released 0 2 preview-IsPreview (omega arith) sent_all

sent_some : deliver limited 0 (Input.sample playing.input released).1 ≡ (1, err inactive_profile)
unfolding deliver Input.sample edges feed on_key on_press fire speed_action
sent_some = refl

sample_refused_example :
    IsPreview (sample_session limited preview 100 released 0).0
    × Answered limited preview inactive_profile 1 (sample_session limited preview 100 released 0)
sample_refused_example =
    sample_refused limited preview 100 released 0 1 preview-IsPreview (omega arith) inactive_profile
      sent_some

status_poll_example :
    ((request_session counting preview 100 none 0).1 ≡ 0)
    × (request_session counting (request_session counting preview 100 none 0).0 6000 none 0
        ≡ request_session counting preview 6000 none 0)
status_poll_example =
    status_poll counting preview 100 6000 0 preview-IsPreview (omega arith) (omega arith)

abbrev executor : SpeedPreviewExecutor ℕ
executor = record {
  inner = 0;
  session = some preview;
  blocked_by_explicit_profile = false;
  explicit_profile_configured = true;
  explicit_profile_sha256 = none;
}

arm-IsReset_example :
    (s : PreviewSession) × (arm_selected_game_session counting executor 100 0
      ≡ (record executor { session = some s }, 1, ok tt))
    × IsPreview s
    × IsReset s.coordinator.session
arm-IsReset_example = arm-IsReset counting executor 100 0 preview-IsPreview (omega arith) refl
