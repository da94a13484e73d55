-- ===== src/Speed/Controls/Settled.antt =====
-- The operations of the controls that end a hold (src/speed_controls.rs): their result names the speed
-- that they leave in force.
use intimatr.Prelude.{◌≡◌, refl, Option, none, some, find}
use intimatr.Float.{F64, lt}
use intimatr.Speed.Controls.{
  SpeedControlState, effective_multiplier, end_hold, activate_found, find_last, increase, decrease,
  toggle, reset,
}
use intimatr.Speed.Controls.Laws.{IsControls, end_hold-IsControls, toggled_cases}
use intimatr.Speed.Controls.Keeps.{
  reset-IsControls, toggle-IsControls, increase-IsControls, decrease-IsControls,
}

module _ (lo hi : F64) where
  -- A result that names the speed in force, in a valid state with no hold.
  pub record IsSettled (p : SpeedControlState × F64) : Type 0 where
    pub valid : IsControls lo hi p.0
    pub names : p.1 ≡ effective_multiplier p.0
    pub unheld : p.0.held_multiplier ≡ none

  pub end_hold-IsSettled : (c : SpeedControlState) → IsControls lo hi c → IsSettled (end_hold c)
  unfolding end_hold
  end_hold-IsSettled c v = record {
    valid = end_hold-IsControls lo hi c v;
    names = refl;
    unheld = refl;
  }

  pub reset-IsSettled : (c : SpeedControlState) → IsControls lo hi c → IsSettled (reset c)
  unfolding reset
  reset-IsSettled c v = record { valid = reset-IsControls lo hi c v; names = refl; unheld = refl }

  pub toggle-IsSettled : (c : SpeedControlState) → IsControls lo hi c → IsSettled (toggle c)
  unfolding toggle
  toggle-IsSettled c v = record {
    valid = toggle-IsControls lo hi c v;
    names = refl;
    unheld =
        toggled_cases (λ t. t.held_multiplier ≡ none) (end_hold c).0 (λ _. refl) (λ p e. refl) refl;
  }

  unheld-activate_found :
      (c : SpeedControlState) (o : Option F64)
      → (activate_found (end_hold c).0 o).held_multiplier ≡ none
  unfolding activate_found end_hold
  unheld-activate_found c none = refl
  unheld-activate_found c (some m) = refl

  pub increase-IsSettled : (c : SpeedControlState) → IsControls lo hi c → IsSettled (increase c)
  unfolding increase
  increase-IsSettled c v = record {
    valid = increase-IsControls lo hi c v;
    names = refl;
    unheld = unheld-activate_found c (find (λ step. lt (end_hold c).1 step) c.steps);
  }

  pub decrease-IsSettled : (c : SpeedControlState) → IsControls lo hi c → IsSettled (decrease c)
  unfolding decrease
  decrease-IsSettled c v = record {
    valid = decrease-IsControls lo hi c v;
    names = refl;
    unheld = unheld-activate_found c (find_last (λ step. lt step (end_hold c).1) c.steps);
  }
