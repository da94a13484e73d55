-- ===== src/Speed/Policy/Launch.antt =====
-- The profile that a launch is given (`resolved_launch_profile` of src/speed_policy.rs) is valid, and
-- resolves to the same settings whatever is launched with it.
use intimatr.Prelude.{◌≡◌, refl, ap, ◌∙◌, false, ok}
use intimatr.Speed.Identity.{Name, bottle_key, game_path_key}
use intimatr.Speed.Policy.{
  SharedSpeedConfig, ResolvedSpeed, check_effective, find_bottle, find_game, with_bottle, with_game,
  resolved, validate_bottles, validate_games, validate_overrides, validate, resolve_for,
  launch_profile, resolved_launch_profile,
}
use intimatr.Speed.Policy.Laws.{IsFine, validate-Checked, resolves, resolve_for-eq-ok}

module _ (p : SharedSpeedConfig) (r : ResolvedSpeed) where
  launch_profile-IsFine :
      (bottle path : Name)
      → IsFine p r.settings
      → IsFine (launch_profile p r) (
          with_game
            (launch_profile p r)
            (find_bottle (launch_profile p r) bottle)
            (find_game (launch_profile p r) bottle path))
  unfolding with_game with_bottle find_bottle find_game check_effective
  launch_profile-IsFine bottle path fine = fine

  launch_profile-valid :
      validate p ≡ ok tt → IsFine p r.settings → validate (launch_profile p r) ≡ ok tt
  unfolding validate validate_overrides validate_bottles validate_games check_effective
  launch_profile-valid valid fine =
      let version = (validate-Checked p valid).version in rw (version, fine) refl

  -- Without rules, the settings are resolved as they are.
  launch_profile-alone :
      (bottle path : Name)
      → resolved
          (launch_profile p r)
          (find_bottle (launch_profile p r) bottle)
          (find_game (launch_profile p r) bottle path)
        ≡ record {
          settings = r.settings;
          excluded = false;
          matched_bottle = false;
          matched_game = false;
        }
  unfolding with_game with_bottle find_bottle find_game
  launch_profile-alone bottle path = refl

  -- Where a profile resolves for an executable, its profile for the launch is made, and that
  -- profile resolves for every bottle and executable that have keys to the same settings, without
  -- a rule that matches or excludes.
  pub launch_profile_resolves :
      (name executable_path other_name other_path bottle path : Name)
      → resolve_for p name executable_path ≡ ok r
      → bottle_key other_name ≡ ok bottle
      → game_path_key other_path ≡ ok path
      → (resolved_launch_profile p name executable_path ≡ ok (launch_profile p r))
        × (resolve_for (launch_profile p r) other_name other_path
            ≡ ok (record {
              settings = r.settings;
              excluded = false;
              matched_bottle = false;
              matched_game = false;
            }))
  unfolding resolved_launch_profile
  launch_profile_resolves name executable_path other_name other_path bottle path h named found =
      let (valid, fine) = resolve_for-eq-ok p name executable_path r h in
      let launched = launch_profile-valid valid fine in
      (
        rw (resolved_launch_profile, h) (rw launched refl),
        resolves (launch_profile p r) other_name other_path bottle path launched named found
              (launch_profile-IsFine bottle path fine)
            ∙ ap ok (launch_profile-alone bottle path),
      )
