-- ===== src/Examples/Coordinator.antt =====
-- Runs of the theorems on hotkeys, the input pump and the coordinator: F7 with Ctrl speeds up, and H
-- with Ctrl holds 0.5x for 200 ms.
use intimatr.Prelude.{◌≡◌, refl, true, false, none, some, [], ◌∷◌, ok, arith}
use intimatr.Speed.Timers.{TimerSnapshot}
use intimatr.Speed.Config.Laws.{IsSettings}
use intimatr.Speed.Session.{focus_lost}
use intimatr.Speed.Hotkeys.{Modifiers, KeyChord, KeyEvent, Action, SpeedHotkeyDispatcher}
use intimatr.Speed.Hotkeys.Chord.{
  parse_chord, parse_tokens, add_modifier, parse_key, character_key, function_key,
}
use intimatr.Speed.Hotkeys.Compile.{
  SpeedHotkeyConfig, compile, add_binding, add_optional, add_hold, IsBindings, compile-IsBindings,
}
use intimatr.Speed.Input.{FocusedInputPump, InputSnapshot, feed, edges}
use intimatr.Speed.Input
use intimatr.Speed.Input.Laws.{IsPump, Sampled}
use intimatr.Speed.Input.Focus.{sample-Sampled, sample_again}
use intimatr.Speed.Coordinator.{SpeedCoordinator, new, input_sample_with_actions}
use intimatr.Speed.Coordinator.Laws.{IsCoordinator}
use intimatr.Speed.Coordinator.Sampling.{Dropped, input_sample-IsCoordinator, focus_loss}
use intimatr.Speed.Coordinator.Accepts.{IsConfigured, input_sample_succeeds, new-IsConfigured}
use intimatr.Examples.Data.{
  half, double, settings, session, half-IsSpeed, session-new, session-IsSession,
}

-- "ctrl+f7", and " Ctrl + H".
abbrev pub shortcuts : SpeedHotkeyConfig
shortcuts = record {
  increase = some (99 ∷ 116 ∷ 114 ∷ 108 ∷ 43 ∷ 102 ∷ 55 ∷ []);
  decrease = none;
  toggle = none;
  reset = none;
  hold = some (record {
    chord = 32 ∷ 67 ∷ 116 ∷ 114 ∷ 108 ∷ 32 ∷ 43 ∷ 32 ∷ 72 ∷ [];
    multiplier = half;
    duration_ms = 200;
  });
}

abbrev ctrl : Modifiers
ctrl = record { ctrl = true; alt = false; shift = false }

abbrev ctrl_f7 : KeyChord
ctrl_f7 = record { key = 118; modifiers = ctrl }

abbrev ctrl_h : KeyChord
ctrl_h = record { key = 72; modifiers = ctrl }

abbrev pub dispatcher : SpeedHotkeyDispatcher
dispatcher = record {
  bindings = (ctrl_f7, Action.increase) ∷ (ctrl_h, Action.hold half 200) ∷ [];
  pressed = [];
  held = none;
  focused = false;
}

pub compiled : compile shortcuts settings ≡ ok dispatcher
unfolding compile add_binding add_optional add_hold parse_chord parse_tokens add_modifier parse_key
    character_key function_key
compiled = refl

compile-IsBindings_example :
    IsBindings settings.steps dispatcher.bindings
    × (dispatcher.focused ≡ false)
    × (dispatcher.held ≡ none)
compile-IsBindings_example = compile-IsBindings settings shortcuts dispatcher compiled

abbrev holding : SpeedHotkeyDispatcher
holding = record dispatcher { pressed = 72 ∷ []; held = some ctrl_h; focused = true }

-- H is released.
abbrev release : KeyEvent
release = record { virtual_key = 72; modifiers = ctrl; pressed = false; repeat = false }

abbrev pub focused_pump : FocusedInputPump
focused_pump = record {
  dispatcher = holding;
  keys = 16 ∷ 17 ∷ 18 ∷ 72 ∷ 118 ∷ [];
  previously_down = 17 ∷ 72 ∷ [];
  focused = true;
}

focused_pump-IsPump : IsPump focused_pump
focused_pump-IsPump = record { same_focus = refl; unheld = λ h. absurd (ground arith) }

abbrev pub released : InputSnapshot
released = record { focused = true; down_keys = 118 ∷ 17 ∷ [] }

sample-Sampled_example : Sampled focused_pump released (Input.sample focused_pump released)
sample-Sampled_example = sample-Sampled focused_pump released focused_pump-IsPump

abbrev pub unfocused : InputSnapshot
unfocused = record { focused = false; down_keys = 17 ∷ 118 ∷ [] }

sample_again_example :
    Input.sample (Input.sample focused_pump released).0 released
    ≡ ((Input.sample focused_pump released).0, [])
sample_again_example = sample_again focused_pump released

abbrev coordinator : SpeedCoordinator
coordinator = record {
  session = session;
  input = Input.new dispatcher;
  focused = false;
  last_action = none;
}

made : new settings shortcuts 0 1000 0 0 ≡ ok coordinator
unfolding new
made = rw (compiled, session-new) refl

new-IsConfigured_example : IsSettings settings × IsConfigured half double coordinator
new-IsConfigured_example =
    new-IsConfigured settings shortcuts 0 1000 0 0 coordinator (omega arith) made

input_sample_succeeds_example :
    IsConfigured half double (input_sample_with_actions coordinator 100 released).0
    × (t : TimerSnapshot) × ((input_sample_with_actions coordinator 100 released).1
        ≡ ok (record { timers = t; actions = (Input.sample coordinator.input released).1 }))
input_sample_succeeds_example =
    input_sample_succeeds half double half-IsSpeed coordinator 100 released (omega arith)
      (new-IsConfigured settings shortcuts 0 1000 0 0 coordinator (omega arith) made).1

-- A coordinator with the focus.
abbrev pub playing : SpeedCoordinator
playing = record { session = session; input = focused_pump; focused = true; last_action = none }

pub playing-IsCoordinator : IsCoordinator half double playing
playing-IsCoordinator = record {
  session = session-IsSession;
  input = focused_pump-IsPump;
  same_focus = refl;
}

input_sample-IsCoordinator_example :
    IsCoordinator half double (input_sample_with_actions playing 100 released).0
input_sample-IsCoordinator_example =
    input_sample-IsCoordinator half double half-IsSpeed playing 100 released (omega arith)
      playing-IsCoordinator

focus_loss_example :
    Dropped (input_sample_with_actions playing 100 unfocused).0
    × (t : TimerSnapshot) × ((input_sample_with_actions playing 100 unfocused).1
        ≡ ok (record { timers = t; actions = focus_lost ∷ [] }))
focus_loss_example =
    focus_loss half double half-IsSpeed playing 100 unfocused (omega arith) playing-IsCoordinator
      refl refl
