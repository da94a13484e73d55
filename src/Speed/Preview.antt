-- ===== src/Speed/Preview.antt =====
-- src/speed_commands.rs: requests, the status, and the executor that holds the preview of the speed
-- control, with what it keeps of the launch profile. A mutex that is poisoned is left out.
use Prim.Native.String.{String}
use intimatr.Prelude.{
  ℕ, zero, suc, Bool, true, false, not, Option, none, some, List, [], ◌∷◌, Result, ok, ◌>>=◌, ◌>>◌,
  fail_if, map_err, map, if◌then◌else◌,
}
use intimatr.Float.{F64, one}
use intimatr.Float.Bits.{f64_of_bits}
use intimatr.Speed.Config.{SpeedSettings}
use intimatr.Speed.Session.{SpeedAction}
use intimatr.Speed.Hotkeys.Chord.{Text}
use intimatr.Speed.Hotkeys.Compile.{SpeedHotkeyConfig}
use intimatr.Speed.Input
use intimatr.Speed.Coordinator.{SpeedCoordinator, SpeedCoordinatorError}
use intimatr.Speed.Coordinator

pub data SpeedRequest : Type 0 where
  status increase decrease toggle reset : SpeedRequest
  select_preset : F64 → SpeedRequest
  hold_start : F64 → ℕ → SpeedRequest
  hold_release focus_lost : SpeedRequest

unfoldable pub action_of : SpeedRequest → Option SpeedAction
action_of status = none
action_of increase = some SpeedAction.increase
action_of decrease = some SpeedAction.decrease
action_of toggle = some SpeedAction.toggle
action_of reset = some SpeedAction.reset
action_of (select_preset multiplier) = some (SpeedAction.select_preset multiplier)
action_of (hold_start multiplier duration_ms) = some (SpeedAction.hold_start multiplier duration_ms)
action_of hold_release = some SpeedAction.hold_release
action_of focus_lost = some SpeedAction.focus_lost

pub record SpeedPreviewStatus : Type 0 where
  pub configured : Bool
  pub profile : Option Text
  pub preview_multiplier : F64
  pub focused : Bool
  pub last_action : Option SpeedAction
  pub clock_applied_to_game : Bool

abbrev pub unavailable : SpeedPreviewStatus
unavailable = record {
  configured = false;
  profile = none;
  preview_multiplier = one;
  focused = false;
  last_action = none;
  clock_applied_to_game = false;
}

pub data SpeedPreviewError : Type 0 where
  unconfigured inactive_profile : SpeedPreviewError
  coordinator : SpeedCoordinatorError → SpeedPreviewError
  fixture_clock : String → SpeedPreviewError

pub record PreviewSession : Type 0 where
  pub coordinator : SpeedCoordinator
  pub settings : SpeedSettings
  pub label : Text

unfoldable pub session_status : PreviewSession → SpeedPreviewStatus
unfolding Coordinator.status
session_status s =
    let state = Coordinator.status s.coordinator in
    record {
      configured = true;
      profile = some s.label;
      preview_multiplier = state.preview_multiplier;
      focused = state.focused;
      last_action = state.last_action;
      clock_applied_to_game = false;
    }

-- `digest.get(index)`
abbrev pub get_elem? : List ℕ → ℕ → Option ℕ
get_elem? [] index = none
get_elem? (word ∷ words) zero = some word
get_elem? (word ∷ words) (suc index) = get_elem? words index

-- The executor behind this one, of which only its end is called here.
pub record SpeedPreviewExecutor (I : Type 0) : Type 0 where
  pub inner : I
  pub session : Option PreviewSession
  pub blocked_by_explicit_profile : Bool
  pub explicit_profile_configured : Bool
  pub explicit_profile_sha256 : Option (List ℕ)

unfoldable pub disabled : {I : Type 0} → I → SpeedPreviewExecutor I
disabled inner = record {
  inner = inner;
  session = none;
  blocked_by_explicit_profile = false;
  explicit_profile_configured = false;
  explicit_profile_sha256 = none;
}

unfoldable pub blocked_explicit_profile : {I : Type 0} → I → SpeedPreviewExecutor I
blocked_explicit_profile inner = record {
  inner = inner;
  session = none;
  blocked_by_explicit_profile = true;
  explicit_profile_configured = false;
  explicit_profile_sha256 = none;
}

unfoldable pub explicit_launch_profile_state : {I : Type 0} → SpeedPreviewExecutor I → ℕ
explicit_launch_profile_state e =
    if e.blocked_by_explicit_profile then 2 else if e.explicit_profile_configured then 1 else 0

abbrev pub preview_frequency : ℕ
preview_frequency = 1000000000

unfoldable pub with_profile :
    {I : Type 0}
    → I
    → SpeedSettings
    → SpeedHotkeyConfig
    → Text
    → Result SpeedPreviewError (SpeedPreviewExecutor I)
unfolding Coordinator.new
with_profile inner settings hotkeys label = do
  fail_if (not settings.enabled) inactive_profile
  c ← map_err coordinator (Coordinator.new settings hotkeys 0 preview_frequency 0 0)
  ok (record {
    inner = inner;
    session = some (record { coordinator = c; settings = settings; label = label });
    blocked_by_explicit_profile = false;
    explicit_profile_configured = true;
    explicit_profile_sha256 = none;
  })

unfoldable pub with_profile_and_sha256 :
    {I : Type 0}
    → I
    → SpeedSettings
    → SpeedHotkeyConfig
    → Text
    → List ℕ
    → Result SpeedPreviewError (SpeedPreviewExecutor I)
unfolding with_profile
with_profile_and_sha256 inner settings hotkeys label sha256 = do
  executor ← with_profile inner settings hotkeys label
  ok (record executor { explicit_profile_sha256 = some sha256 })

unfoldable pub explicit_profile_sha256_word : {I : Type 0} → SpeedPreviewExecutor I → ℕ → Option ℕ
explicit_profile_sha256_word e index = elim e.explicit_profile_sha256 [
  | none ↦ none
  | some digest ↦ get_elem? digest index
]

-- `SpeedHotkeyConfig::default()`
abbrev pub no_hotkeys : SpeedHotkeyConfig
no_hotkeys = record { increase = none; decrease = none; toggle = none; reset = none; hold = none }

-- "explicit-offline-game"
abbrev pub offline_label : Text
offline_label =
    101 ∷ 120 ∷ 112 ∷ 108 ∷ 105 ∷ 99 ∷ 105 ∷ 116 ∷ 45 ∷ 111 ∷ 102 ∷ 102 ∷ 108 ∷ 105 ∷ 110 ∷ 101 ∷ 45
    ∷ 103 ∷ 97 ∷ 109 ∷ 101 ∷ []

-- `SpeedSettings::default()`, enabled.
unfoldable pub game_settings : SpeedSettings
unfolding f64_of_bits
game_settings = record {
  enabled = true;
  initial_multiplier = one;
  startup_duration_ms = 0;
  min_multiplier = f64_of_bits 4591870180066957722;
  max_multiplier = f64_of_bits 4621819117588971520;
  steps = map f64_of_bits (
      4598175219545276416 ∷ 4602678819172646912 ∷ 4604930618986332160 ∷ 4607182418800017408
      ∷ 4609434218613702656 ∷ 4611686018427387904 ∷ 4613937818241073152 ∷ 4617315517961601024
      ∷ 4621819117588971520 ∷ []);
}

unfoldable pub selected_game_timer_settings :
    {I : Type 0} → SpeedPreviewExecutor I → Result SpeedPreviewError SpeedSettings
selected_game_timer_settings e = do
  fail_if e.blocked_by_explicit_profile inactive_profile
  ok (elim e.session [ none ↦ game_settings | some s ↦ s.settings ])

unfoldable pub watched_keys : {I : Type 0} → SpeedPreviewExecutor I → List ℕ
watched_keys e = elim e.session [ none ↦ [] | some s ↦ Input.watched_keys s.coordinator.input ]
