-- ===== src/Speed/Policy/Laws.antt =====
-- A profile that is valid resolves for every executable, and what it resolves to is itself a valid
-- profile (src/speed_policy.rs).
use mathlib.Core.Path.{subst}
use intimatr.Prelude.{
  ℕ, ◌≡◌, refl, sym, ap, ◌∙◌, inl, inr, true, false, not, Option, none, some, List, [], ◌∷◌, Result,
  ok, err, arith, find-All, All, map_err, fail_if, ◌==◌, ok-injective, Bool-cases, Option-cases,
  >>=-eq-ok, >>-eq-ok, map_err-eq-ok,
}
use intimatr.Speed.Config.{SpeedSettings}
use intimatr.Speed.Config
use intimatr.Speed.Config.Laws.{IsSettings, validate_iff}
use intimatr.Speed.Hotkeys.Chord.{text_eq}
use intimatr.Speed.Hotkeys.{KeyChord, Action}
use intimatr.Speed.Hotkeys.Compile.{HoldHotkey, compile, add_hold}
use intimatr.Speed.Identity.{Name, bottle_key, game_path_key}
use intimatr.Speed.Policy.{
  SharedSpeedConfig, BottleSpeedRule, GameSpeedRule, ResolvedSpeed, PolicyError, profile, is_key,
  apply_to, check_effective, find_bottle, find_game, with_bottle, with_game, excludes, resolved,
  validate_bottles, validate_games, validate_overrides, validate, resolve_for,
}

text_eq-eq : (s t : Name) → text_eq s t ≡ true → s ≡ t
text_eq-eq [] [] h = refl
text_eq-eq (a ∷ s) (b ∷ t) h =
    let heads : a ≡ b = ground arith in
    let tails : s ≡ t = text_eq-eq s t (ground arith) in rw (heads, tails) refl
text_eq-eq [] (b ∷ t) h = cc
text_eq-eq (a ∷ s) [] h = cc

is_key-eq :
    (k : Result Config.SpeedProfileError Name) (key : Name) → is_key k key ≡ true → k ≡ ok key
is_key-eq (ok found) key h = ap ok (text_eq-eq found key h)
is_key-eq (err e) key h = cc

module _ (p : SharedSpeedConfig) where
  abbrev pub IsFine : SpeedSettings → Type 0
  IsFine s = check_effective p s ≡ ok tt

  is_version : (n : ℕ) (e : PolicyError) → fail_if (not (n == 1)) e ≡ ok tt → n ≡ 1
  is_version n e h = ground arith

  validate_bottles-All :
      (bottles : List Name) (rules : List BottleSpeedRule)
      → validate_bottles p bottles rules ≡ ok tt
      → All (λ (rule : BottleSpeedRule). IsFine (apply_to rule.speed p.speed)) rules
  unfolding validate_bottles
  validate_bottles-All bottles [] h = tt
  validate_bottles-All bottles (rule ∷ rules) h =
      let (identity, named, h1) = >>=-eq-ok (map_err profile (bottle_key rule.name)) _ h in
      let (fresh, h2) = >>-eq-ok _ _ h1 in
      let (fine, h3) = >>-eq-ok _ _ h2 in (fine, validate_bottles-All (identity ∷ bottles) rules h3)

  -- A rule for an executable has been checked over the rule for its bottle.
  abbrev pub IsCovered : GameSpeedRule → Type 0
  IsCovered rule =
      (bottle : Name) × (bottle_key rule.bottle ≡ ok bottle)
      × IsFine (apply_to rule.speed (with_bottle p (find_bottle p bottle)))

  validate_games-All :
      (games : List (Name × Name)) (rules : List GameSpeedRule)
      → validate_games p games rules ≡ ok tt
      → All IsCovered rules
  unfolding validate_games
  validate_games-All games [] h = tt
  validate_games-All games (rule ∷ rules) h =
      let (bottle, named, h1) = >>=-eq-ok (map_err profile (bottle_key rule.bottle)) _ h in
      let (path, found, h2) = >>=-eq-ok (map_err profile (game_path_key rule.path)) _ h1 in
      let (fresh, h3) = >>-eq-ok _ _ h2 in
      let (fine, h4) = >>-eq-ok _ _ h3 in
      (
        (bottle, map_err-eq-ok profile (bottle_key rule.bottle) named, fine),
        validate_games-All ((bottle, path) ∷ games) rules h4,
      )

  pub record Checked : Type 0 where
    pub version : p.version ≡ 1
    pub speed : IsFine p.speed
    pub bottles : All (λ (rule : BottleSpeedRule). IsFine (apply_to rule.speed p.speed)) p.bottles
    pub games : All IsCovered p.games

  pub validate-Checked : validate p ≡ ok tt → Checked
  unfolding validate validate_overrides
  validate-Checked h =
      let (version, h1) = >>-eq-ok _ _ h in
      let (speed, h2) = >>-eq-ok _ _ h1 in
      let (bottles, games) = >>-eq-ok _ _ h2 in
      record {
        version = is_version p.version _ version;
        speed = speed;
        bottles = validate_bottles-All [] p.bottles bottles;
        games = validate_games-All [] p.games games;
      }

  with_bottle-IsFine : (bottle : Name) → Checked → IsFine (with_bottle p (find_bottle p bottle))
  unfolding with_bottle find_bottle
  with_bottle-IsFine bottle v = elim (Option-cases (find_bottle p bottle)) [
    | inl missing ↦ rw missing v.speed
    | inr (rule, found) ↦ rw found (find-All _ _ p.bottles v.bottles found).0
  ]

  with_game-IsFine :
      (bottle path : Name)
      → Checked
      → IsFine (with_game p (find_bottle p bottle) (find_game p bottle path))
  unfolding with_game find_game
  with_game-IsFine bottle path v = elim (Option-cases (find_game p bottle path)) [
    | inl missing ↦ rw missing (with_bottle-IsFine bottle v)
    | inr (rule, found) ↦
        let ((bottle', named, fine), keys) = find-All _ _ p.games v.games found in
        let same : bottle' ≡ bottle =
          ok-injective (sym named ∙ is_key-eq (bottle_key rule.bottle) bottle (ground arith)) in
        rw found
          (subst (λ b. IsFine (apply_to rule.speed (with_bottle p (find_bottle p b)))) same fine)
  ]

same_hold :
    (bindings : List (KeyChord × Action)) (hold : Option HoldHotkey) (s : SpeedSettings)
    → add_hold bindings hold (record s { enabled = false }) ≡ add_hold bindings hold s
unfolding add_hold
same_hold bindings none s = refl
same_hold bindings (some h) s = refl

-- Whether settings are enabled does not matter to their validity.
module _ (p : SharedSpeedConfig) where
  disabled-IsFine : (s : SpeedSettings) → IsFine p s → IsFine p (record s { enabled = false })
  unfolding check_effective Config.validate compile add_hold
  disabled-IsFine s h = elim (Option-cases p.hotkeys.hold) [
    | inl missing ↦ rw missing (rw missing at h)
    | inr (hold, found) ↦ rw found (rw found at h)
  ]

  -- What a resolution promises, for the keys of a bottle and an executable.
  pub record IsResolved (bottle path : Name) (r : ResolvedSpeed) : Type 0 where
    pub settings : IsSettings r.settings
    pub fine : IsFine p r.settings
    pub excluded : r.excluded ≡ excludes p (find_bottle p bottle) (find_game p bottle path)
    pub barred : r.excluded ≡ true → r.settings.enabled ≡ false
    pub merged :
        r.excluded ≡ false
        → r.settings ≡ with_game p (find_bottle p bottle) (find_game p bottle path)

  IsFine-IsSettings : (s : SpeedSettings) → IsFine p s → IsSettings s
  unfolding check_effective
  IsFine-IsSettings s h =
      let (valid, h1) = >>-eq-ok _ _ h in
      (validate_iff s).0 (map_err-eq-ok profile (Config.validate s) valid)

  resolved-IsFine :
      (bottle : Option BottleSpeedRule) (game : Option GameSpeedRule)
      → IsFine p (with_game p bottle game)
      → IsFine p (resolved p bottle game).settings
  resolved-IsFine bottle game h = elim (Bool-cases (excludes p bottle game)) [
    | inl excluded ↦ rw excluded (disabled-IsFine (with_game p bottle game) h)
    | inr open_ ↦ rw open_ h
  ]

  resolved-IsResolved :
      (bottle path : Name)
      → IsFine p (with_game p (find_bottle p bottle) (find_game p bottle path))
      → IsResolved bottle path (resolved p (find_bottle p bottle) (find_game p bottle path))
  resolved-IsResolved bottle path h =
      let fine = resolved-IsFine (find_bottle p bottle) (find_game p bottle path) h in
      record {
        settings = IsFine-IsSettings _ fine;
        fine = fine;
        excluded = refl;
        barred = λ e. rw e refl;
        merged = λ e. rw e refl;
      }

  pub resolves :
      (name executable_path bottle path : Name)
      → validate p ≡ ok tt
      → bottle_key name ≡ ok bottle
      → game_path_key executable_path ≡ ok path
      → IsFine p (with_game p (find_bottle p bottle) (find_game p bottle path))
      → resolve_for p name executable_path
        ≡ ok (resolved p (find_bottle p bottle) (find_game p bottle path))
  unfolding resolve_for
  resolves name executable_path bottle path valid named found fine =
      rw (resolve_for, valid, named, found) (rw fine refl)

  -- Where a profile is valid, and the bottle and the executable have keys, the profile resolves:
  -- to valid settings that the hotkeys compile with, that are not enabled if a rule that matches
  -- excludes, and that else are the global ones under the rule for the bottle and the rule for the
  -- executable.
  pub resolve_for_total :
      (name executable_path bottle path : Name)
      → validate p ≡ ok tt
      → bottle_key name ≡ ok bottle
      → game_path_key executable_path ≡ ok path
      → (r : ResolvedSpeed) × (resolve_for p name executable_path ≡ ok r) × IsResolved bottle path r
  resolve_for_total name executable_path bottle path valid named found =
      let fine = with_game-IsFine p bottle path (validate-Checked p valid) in
      (
        _,
        resolves name executable_path bottle path valid named found fine,
        resolved-IsResolved bottle path fine,
      )

  pub resolve_for-eq-ok :
      (name executable_path : Name) (r : ResolvedSpeed)
      → resolve_for p name executable_path ≡ ok r
      → (validate p ≡ ok tt) × IsFine p r.settings
  unfolding resolve_for
  resolve_for-eq-ok name executable_path r h =
      let (valid, h1) = >>-eq-ok _ _ h in
      let (bottle, named, h2) = >>=-eq-ok (map_err profile (bottle_key name)) _ h1 in
      let (path, found, h3) = >>=-eq-ok (map_err profile (game_path_key executable_path)) _ h2 in
      let (fine, h4) = >>-eq-ok _ _ h3 in
      (
        valid,
        subst (λ (x : ResolvedSpeed). IsFine p x.settings) (ok-injective h4)
            (resolved-IsFine (find_bottle p bottle) (find_game p bottle path) fine),
      )
