-- ===== src/Examples/Policy.antt =====
-- Runs of the theorems on profiles and windows: a bottle that starts at 1x, and a game in it that is
-- excluded.
use mathlib.Core.List.Permᴰ.{swap}
use intimatr.Prelude.{◌≡◌, refl, true, false, none, some, [], ◌∷◌, ok}
use intimatr.Float.{one, unit}
use intimatr.Speed.Session.{focus_lost}
use intimatr.Speed.Config
use intimatr.Speed.Config.{any_falling}
use intimatr.Speed.Hotkeys.Chord.{
  parse_chord, parse_tokens, add_modifier, parse_key, character_key, function_key,
}
use intimatr.Speed.Hotkeys.Compile.{compile, add_binding, add_optional, add_hold}
use intimatr.Speed.Identity.{Name, bottle_key, game_path_key, after_drive}
use intimatr.Speed.Policy.{
  SpeedOverride, SharedSpeedConfig, ResolvedSpeed, apply_to, check_effective, find_bottle,
  find_game, with_bottle, with_game, validate_bottles, validate_games, validate_overrides, validate,
  resolve_for, launch_profile, resolved_launch_profile,
}
use intimatr.Speed.Policy.Laws.{IsResolved, resolve_for_total}
use intimatr.Speed.Policy.Launch.{launch_profile_resolves}
use intimatr.Speed.Window.{WindowCandidate, FocusedWindowEpoch, choose_unique}
use intimatr.Speed.Window.Laws.{watch, choose_unique_any_order, watch_switch}
use intimatr.Examples.Data.{settings}
use intimatr.Examples.Coordinator.{shortcuts, released, focused_pump}

abbrev no_override : SpeedOverride
no_override = record {
  enabled = none;
  initial_multiplier = none;
  startup_duration_ms = none;
  min_multiplier = none;
  max_multiplier = none;
  steps = none;
}

-- " Games", and "C:\g".
abbrev games_bottle : Name
games_bottle = 32 ∷ 71 ∷ 97 ∷ 109 ∷ 101 ∷ 115 ∷ []

abbrev game_path : Name
game_path = 67 ∷ 58 ∷ 92 ∷ 103 ∷ []

abbrev config : SharedSpeedConfig
config = record {
  version = 1;
  speed = settings;
  hotkeys = shortcuts;
  bottles =
      record {
        name = games_bottle;
        exclude = false;
        speed = record no_override { initial_multiplier = some one };
      }
      ∷ [];
  games =
      record { bottle = games_bottle; path = game_path; exclude = true; speed = no_override } ∷ [];
}

-- "games", and "c:/g".
abbrev games_key : Name
games_key = 103 ∷ 97 ∷ 109 ∷ 101 ∷ 115 ∷ []

abbrev game_key : Name
game_key = 99 ∷ 58 ∷ 47 ∷ 103 ∷ []

named : bottle_key games_bottle ≡ ok games_key
unfolding bottle_key
named = refl

found : game_path_key game_path ≡ ok game_key
unfolding game_path_key after_drive
found = refl

valid : validate config ≡ ok tt
unfolding validate validate_overrides validate_bottles validate_games check_effective find_bottle
    with_bottle apply_to bottle_key game_path_key after_drive Config.validate any_falling compile
    add_binding add_optional add_hold parse_chord parse_tokens add_modifier parse_key character_key
    function_key one unit
valid = refl

resolve_for_total_example :
    (r : ResolvedSpeed) × (resolve_for config games_bottle game_path ≡ ok r)
    × IsResolved config games_key game_key r
resolve_for_total_example =
    resolve_for_total config games_bottle game_path games_key game_key valid named found

abbrev barred : ResolvedSpeed
barred = record {
  settings = record settings { enabled = false; initial_multiplier = one };
  excluded = true;
  matched_bottle = true;
  matched_game = true;
}

is_barred : resolve_for config games_bottle game_path ≡ ok barred
unfolding resolve_for find_bottle find_game with_bottle with_game apply_to validate
    validate_overrides validate_bottles validate_games check_effective bottle_key game_path_key
    after_drive Config.validate any_falling compile add_binding add_optional add_hold parse_chord
    parse_tokens add_modifier parse_key character_key function_key one unit
is_barred = refl

launch_profile_resolves_example :
    (resolved_launch_profile config games_bottle game_path ≡ ok (launch_profile config barred))
    × (resolve_for (launch_profile config barred) games_bottle game_path
        ≡ ok (record {
          settings = barred.settings;
          excluded = false;
          matched_bottle = false;
          matched_game = false;
        }))
launch_profile_resolves_example =
    launch_profile_resolves config barred games_bottle game_path games_bottle game_path games_key
      game_key is_barred named found

abbrev game_window : WindowCandidate
game_window = record {
  id = 33;
  current_process = true;
  top_level = true;
  visible = true;
  owned = false;
  tool_window = false;
  title = games_key;
}

abbrev tool_window : WindowCandidate
tool_window = record game_window { id = 44; tool_window = true }

choose_unique_any_order_example :
    choose_unique (game_window ∷ tool_window ∷ []) ≡ choose_unique (tool_window ∷ game_window ∷ [])
choose_unique_any_order_example =
    choose_unique_any_order (game_window ∷ tool_window ∷ []) (tool_window ∷ game_window ∷ [])
      (swap refl refl)

abbrev epoch : FocusedWindowEpoch
epoch = record { active_window = some 33 }

watch_switch_example :
    ((watch epoch focused_pump 44 released).1 ≡ focus_lost ∷ [])
    × ((watch
          (watch epoch focused_pump 44 released).0.0
          (watch epoch focused_pump 44 released).0.1
          44
          released).1
        ≡ [])
watch_switch_example = watch_switch epoch focused_pump 33 44 released refl refl refl refl refl
