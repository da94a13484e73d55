-- ===== src/Examples/Controls.antt =====
-- Runs of the theorems on settings and controls.
use intimatr.Prelude.{◌≡◌, ◌↔◌, [], ◌∷◌, ok}
use intimatr.Speed.Config.{validate}
use intimatr.Speed.Config.Laws.{IsSettings, validate_iff}
use intimatr.Speed.Controls.{end_hold, increase}
use intimatr.Speed.Controls.Laws.{IsControls}
use intimatr.Speed.Controls.Steps.{increase-NextAbove}
use intimatr.Speed.Controls.Next.{NextAbove}
use intimatr.Examples.Data.{
  half, double, normal, settings, controls, half-IsSpeed, session-IsSession,
}

controls-IsControls : IsControls half double controls
controls-IsControls = session-IsSession.controls

validate_iff_example : (validate settings ≡ ok tt) ↔ IsSettings settings
validate_iff_example = validate_iff settings

increase-NextAbove_example :
    NextAbove (half ∷ normal ∷ double ∷ []) (end_hold controls).1 (increase controls).1
increase-NextAbove_example =
    increase-NextAbove half double half-IsSpeed controls controls-IsControls
