-- ===== src/Speed/Coordinator.antt =====
-- src/speed_coordinator.rs: the input pump and the session behind one boundary.
pub mod Laws
pub mod Branches
pub mod Sampling
pub mod Presets
pub mod Accepts
use intimatr.Prelude.{
  ℕ, Bool, true, false, Option, none, some, List, [], ◌∷◌, Result, ok, err, ◌>>=◌, map_err,
}
use intimatr.Float.{F64}
use intimatr.Speed.Timers.{TimerSnapshot}
use intimatr.Speed.Config.{SpeedSettings}
use intimatr.Speed.Session.{SpeedSession, SpeedAction, SpeedSessionError, focus_lost}
use intimatr.Speed.Session
use intimatr.Speed.Hotkeys.{SpeedHotkeyDispatcher}
use intimatr.Speed.Hotkeys.Chord.{HotkeyError}
use intimatr.Speed.Hotkeys.Compile.{SpeedHotkeyConfig, compile}
use intimatr.Speed.Input.{FocusedInputPump, InputSnapshot}
use intimatr.Speed.Input

pub record SpeedCoordinatorStatus : Type 0 where
  pub preview_multiplier : F64
  pub focused : Bool
  pub last_action : Option SpeedAction
  pub clock_applied_to_game : Bool

pub data SpeedCoordinatorError : Type 0 where
  hotkeys : HotkeyError → SpeedCoordinatorError
  session : SpeedSessionError → SpeedCoordinatorError

pub record InputSampleOutcome : Type 0 where
  pub timers : TimerSnapshot
  pub actions : List SpeedAction

pub record SpeedCoordinator : Type 0 where
  pub session : SpeedSession
  pub input : FocusedInputPump
  pub focused : Bool
  pub last_action : Option SpeedAction

unfoldable pub new :
    SpeedSettings
    → SpeedHotkeyConfig
    → ℕ
    → ℕ
    → ℕ
    → ℕ
    → Result SpeedCoordinatorError SpeedCoordinator
new settings shortcuts real_qpc_origin qpc_frequency initial_tick_count64 initial_time_get_time = do
  dispatcher ← map_err hotkeys (compile shortcuts settings)
  s ← map_err session (
      Session.new settings real_qpc_origin qpc_frequency initial_tick_count64 initial_time_get_time)
  ok (record { session = s; input = Input.new dispatcher; focused = false; last_action = none })

unfoldable pub apply :
    SpeedCoordinator
    → ℕ
    → SpeedAction
    → SpeedCoordinator × Result SpeedCoordinatorError TimerSnapshot
apply c real_qpc action =
    let (s, result) = Session.apply c.session real_qpc action in
    elim result [
      | ok snapshot ↦ (record c { session = s; last_action = some action }, ok snapshot)
      | err e ↦ (record c { session = s }, err (SpeedCoordinatorError.session e))
    ]

unfoldable pub reset_after_input_error : SpeedCoordinator → ℕ → SpeedCoordinator
reset_after_input_error c real_qpc =
    let (input, _actions) = Input.sample c.input (record { focused = false; down_keys = [] }) in
    let (s, _result) = Session.apply c.session real_qpc focus_lost in
    record { session = s; input = input; focused = false; last_action = some focus_lost }

-- The loop over the actions, which the first refused one ends.
unfoldable pub apply_all :
    SpeedCoordinator
    → ℕ
    → List SpeedAction
    → SpeedCoordinator × Result SpeedCoordinatorError (Unit {0})
unfolding apply reset_after_input_error
apply_all c real_qpc [] = (c, ok tt)
apply_all c real_qpc (action ∷ actions) =
    let (c', result) = apply c real_qpc action in
    elim result [
      | ok snapshot ↦ apply_all c' real_qpc actions
      | err e ↦ (reset_after_input_error c' real_qpc, err e)
    ]

unfoldable pub sample : SpeedCoordinator → ℕ → SpeedCoordinator × TimerSnapshot
sample c real_qpc =
    let (s, timers) = Session.sample c.session real_qpc in (record c { session = s }, timers)

unfoldable pub input_sample_with_actions :
    SpeedCoordinator
    → ℕ
    → InputSnapshot
    → SpeedCoordinator × Result SpeedCoordinatorError InputSampleOutcome
unfolding sample apply_all
input_sample_with_actions c real_qpc snapshot =
    let (sampled, _timers) = sample c real_qpc in
    let (input, actions) = Input.sample c.input snapshot in
    let (c', result) =
      apply_all (record sampled { input = input; focused = snapshot.focused }) real_qpc actions in
    elim result [
      | ok done ↦
          (let (c'', timers) = sample c' real_qpc in
            (c'', ok (record { timers = timers; actions = actions })))
      | err e ↦ (c', err e)
    ]

unfoldable pub input_sample :
    SpeedCoordinator
    → ℕ
    → InputSnapshot
    → SpeedCoordinator × Result SpeedCoordinatorError TimerSnapshot
unfolding input_sample_with_actions
input_sample c real_qpc snapshot =
    let (c', result) = input_sample_with_actions c real_qpc snapshot in
    (c', elim result [ ok outcome ↦ ok outcome.timers | err e ↦ err e ])

unfoldable pub status : SpeedCoordinator → SpeedCoordinatorStatus
status c = record {
  preview_multiplier = Session.multiplier c.session;
  focused = c.focused;
  last_action = c.last_action;
  clock_applied_to_game = false;
}
