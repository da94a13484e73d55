-- ===== src/Speed/Policy.antt =====
-- src/speed_policy.rs and `SharedSpeedConfig::validate` of src/speed_config.rs: the profile of a game
-- from the global settings and the rules for bottles and executables.
pub mod Laws
pub mod Launch
use intimatr.Prelude.{
  ℕ, Bool, true, false, not, ◌&&◌, ◌||◌, Option, none, some, List, [], ◌∷◌, Result, ok, err, ◌>>=◌,
  ◌>>◌, fail_if, map_err, any, find, is_some, ◌==◌, if◌then◌else◌,
}
use intimatr.Float.{F64}
use intimatr.Speed.Config.{SpeedSettings, SpeedProfileError, invalid}
use intimatr.Speed.Config
use intimatr.Speed.Hotkeys.Chord.{HotkeyError, text_eq}
use intimatr.Speed.Hotkeys.Compile.{SpeedHotkeyConfig, compile}
use intimatr.Speed.Identity.{Name, bottle_key, game_path_key}

pub record SpeedOverride : Type 0 where
  pub enabled : Option Bool
  pub initial_multiplier : Option F64
  pub startup_duration_ms : Option ℕ
  pub min_multiplier : Option F64
  pub max_multiplier : Option F64
  pub steps : Option (List F64)

abbrev pub or_keep {ℓ} : {A : Type ℓ} → Option A → A → A
or_keep none a = a
or_keep (some value) a = value

unfoldable pub apply_to : SpeedOverride → SpeedSettings → SpeedSettings
apply_to o s = record {
  enabled = or_keep o.enabled s.enabled;
  initial_multiplier = or_keep o.initial_multiplier s.initial_multiplier;
  startup_duration_ms = or_keep o.startup_duration_ms s.startup_duration_ms;
  min_multiplier = or_keep o.min_multiplier s.min_multiplier;
  max_multiplier = or_keep o.max_multiplier s.max_multiplier;
  steps = or_keep o.steps s.steps;
}

pub record BottleSpeedRule : Type 0 where
  pub name : Name
  pub exclude : Bool
  pub speed : SpeedOverride

pub record GameSpeedRule : Type 0 where
  pub bottle : Name
  pub path : Name
  pub exclude : Bool
  pub speed : SpeedOverride

pub record SharedSpeedConfig : Type 0 where
  pub version : ℕ
  pub speed : SpeedSettings
  pub hotkeys : SpeedHotkeyConfig
  pub bottles : List BottleSpeedRule
  pub games : List GameSpeedRule

pub record ResolvedSpeed : Type 0 where
  pub settings : SpeedSettings
  pub excluded : Bool
  pub matched_bottle : Bool
  pub matched_game : Bool

-- An error of a profile, where `compile` gives a constructor for its message.
pub data PolicyError : Type 0 where
  profile : SpeedProfileError → PolicyError
  hotkeys : HotkeyError → PolicyError

-- `key(..).ok().as_deref() == Some(&key)`
abbrev pub is_key : Result SpeedProfileError Name → Name → Bool
is_key (ok found) key = text_eq found key
is_key (err e) key = false

module _ (p : SharedSpeedConfig) where
  -- `effective.validate()?` and `profile.hotkeys.compile(&effective)?`
  unfoldable pub check_effective : SpeedSettings → Result PolicyError (Unit {0})
  check_effective effective = do
    map_err profile (Config.validate effective)
    compiled ← map_err hotkeys (compile p.hotkeys effective)
    ok tt

  unfoldable pub find_bottle : Name → Option BottleSpeedRule
  find_bottle bottle = find (λ rule. is_key (bottle_key rule.name) bottle) p.bottles

  unfoldable pub find_game : Name → Name → Option GameSpeedRule
  find_game bottle path =
      find (λ rule. is_key (bottle_key rule.bottle) bottle && is_key (game_path_key rule.path) path)
        p.games

  -- The settings under a rule for the bottle, if there is one.
  unfoldable pub with_bottle : Option BottleSpeedRule → SpeedSettings
  with_bottle none = p.speed
  with_bottle (some rule) = apply_to rule.speed p.speed

  unfoldable pub validate_bottles : List Name → List BottleSpeedRule → Result PolicyError (Unit {0})
  unfolding check_effective
  validate_bottles bottles [] = ok tt
  validate_bottles bottles (rule ∷ rules) = do
    identity ← map_err profile (bottle_key rule.name)
    fail_if (any (text_eq identity) bottles) (profile (invalid "duplicate bottle override"))
    check_effective (apply_to rule.speed p.speed)
    validate_bottles (identity ∷ bottles) rules

  unfoldable pub validate_games :
      List (Name × Name) → List GameSpeedRule → Result PolicyError (Unit {0})
  unfolding check_effective find_bottle with_bottle
  validate_games games [] = ok tt
  validate_games games (rule ∷ rules) = do
    bottle ← map_err profile (bottle_key rule.bottle)
    path ← map_err profile (game_path_key rule.path)
    fail_if (any (λ game. text_eq bottle game.0 && text_eq path game.1) games)
        (profile (invalid "duplicate executable override"))
    check_effective (apply_to rule.speed (with_bottle (find_bottle bottle)))
    validate_games ((bottle, path) ∷ games) rules

  unfoldable pub validate_overrides : Result PolicyError (Unit {0})
  unfolding validate_bottles validate_games
  validate_overrides = do validate_bottles [] p.bottles; validate_games [] p.games

  unfoldable pub validate : Result PolicyError (Unit {0})
  unfolding validate_overrides check_effective
  validate = do
    fail_if (not (p.version == 1)) (profile (invalid "unsupported speed profile version"))
    check_effective p.speed
    validate_overrides

  unfoldable pub with_game : Option BottleSpeedRule → Option GameSpeedRule → SpeedSettings
  unfolding with_bottle
  with_game bottle none = with_bottle bottle
  with_game bottle (some rule) = apply_to rule.speed (with_bottle bottle)

  abbrev pub excludes : Option BottleSpeedRule → Option GameSpeedRule → Bool
  excludes bottle game =
      elim bottle [ none ↦ false | some rule ↦ rule.exclude ]
      || elim game [ none ↦ false | some rule ↦ rule.exclude ]

  abbrev pub resolved : Option BottleSpeedRule → Option GameSpeedRule → ResolvedSpeed
  resolved bottle game =
      let settings = with_game bottle game in
      record {
        settings = if excludes bottle game then record settings { enabled = false } else settings;
        excluded = excludes bottle game;
        matched_bottle = is_some bottle;
        matched_game = is_some game;
      }

  unfoldable pub resolve_for : Name → Name → Result PolicyError ResolvedSpeed
  unfolding validate find_bottle find_game check_effective with_game
  resolve_for name executable_path = do
    validate
    bottle ← map_err profile (bottle_key name)
    path ← map_err profile (game_path_key executable_path)
    let matched_bottle = find_bottle bottle
    let matched_game = find_game bottle path
    check_effective (with_game matched_bottle matched_game)
    ok (resolved matched_bottle matched_game)

-- The profile without rules that a launch is given.
abbrev pub launch_profile : SharedSpeedConfig → ResolvedSpeed → SharedSpeedConfig
launch_profile p r = record {
  version = p.version;
  speed = r.settings;
  hotkeys = p.hotkeys;
  bottles = [];
  games = [];
}

unfoldable pub resolved_launch_profile :
    SharedSpeedConfig → Name → Name → Result PolicyError SharedSpeedConfig
unfolding resolve_for validate
resolved_launch_profile p name executable_path = do
  r ← resolve_for p name executable_path
  validate (launch_profile p r)
  ok (launch_profile p r)
