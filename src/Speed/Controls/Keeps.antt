-- ===== src/Speed/Controls/Keeps.antt =====
-- The operations of the controls keep the invariant (src/speed_controls.rs).
use intimatr.Prelude.{not, Option, none, some, arith, inl, inr, Bool-cases, ◌||◌}
use intimatr.Float.{F64, one, is_finite, eq}
use intimatr.Speed.Config.{contains}
use intimatr.Speed.Config.Laws.{InRange}
use intimatr.Speed.Controls.Found.{
  OnSome, OnSome-if, OnSome-elim, OnSome-map, find-OnSome, find_last-OnSome,
}
use intimatr.Speed.Controls.{
  SpeedControlState, begin_hold, end_hold, activate, activate_found, toggled, increase, decrease,
  select_preset, toggle, reset,
}
use intimatr.Speed.Controls.Laws.{
  NonUnity, IsControls, not-eq-true, contains-InRange, toggled_cases, end_hold-IsControls,
}

module _ (lo hi : F64) where
  activate-IsControls :
      (c : SpeedControlState) (m : F64)
      → InRange lo hi m
      → IsControls lo hi c
      → IsControls lo hi (activate c m)
  unfolding activate
  activate-IsControls c m r v = record {
    has_one = v.has_one;
    in_range = v.in_range;
    increasing = v.increasing;
    selected = r;
    unit = v.unit;
    previous =
        OnSome-if (NonUnity lo hi) (not (eq m one)) _ _ (λ h. (r, not-eq-true _ h))
          (λ _. v.previous);
    held = tt;
    active = λ h. ground arith;
  }

  activate_found-IsControls :
      (c : SpeedControlState) (o : Option F64)
      → OnSome (InRange lo hi) o
      → IsControls lo hi c
      → IsControls lo hi (activate_found c o)
  unfolding activate_found
  activate_found-IsControls c none r v = v
  activate_found-IsControls c (some m) r v = activate-IsControls c m r v

  pub begin_hold-IsControls :
      (c : SpeedControlState) (m : F64) → IsControls lo hi c → IsControls lo hi (begin_hold c m).0
  unfolding begin_hold
  begin_hold-IsControls c m v = elim (Bool-cases (not (is_finite m) || not (contains c.steps m))) [
    | inl refused ↦ rw (refused, begin_hold) v
    | inr taken ↦
        let r = contains-InRange lo hi c.steps m v.in_range (ground arith) in
        rw (taken, begin_hold)
          (record {
            has_one = v.has_one;
            in_range = v.in_range;
            increasing = v.increasing;
            selected = v.selected;
            unit = v.unit;
            previous = v.previous;
            held = r;
            active = v.active;
          })
  ]

  pub select_preset-IsControls :
      (c : SpeedControlState) (m : F64)
      → IsControls lo hi c
      → IsControls lo hi (select_preset c m).0
  unfolding select_preset
  select_preset-IsControls c m v =
      elim (Bool-cases (not (is_finite m) || not (contains c.steps m))) [
        | inl refused ↦ rw (refused, select_preset) v
        | inr taken ↦
            rw (taken, select_preset)
              (activate-IsControls c m (contains-InRange lo hi c.steps m v.in_range (ground arith))
                v)
      ]

  pub increase-IsControls :
      (c : SpeedControlState) → IsControls lo hi c → IsControls lo hi (increase c).0
  unfolding increase
  increase-IsControls c v =
      activate_found-IsControls (end_hold c).0 _
        (OnSome-map _ (InRange lo hi) (λ m f. f.0) _ (find-OnSome _ _ c.steps v.in_range))
        (end_hold-IsControls lo hi c v)

  pub decrease-IsControls :
      (c : SpeedControlState) → IsControls lo hi c → IsControls lo hi (decrease c).0
  unfolding decrease
  decrease-IsControls c v =
      activate_found-IsControls (end_hold c).0 _
        (OnSome-map _ (InRange lo hi) (λ m f. f.0) _ (find_last-OnSome _ _ c.steps v.in_range))
        (end_hold-IsControls lo hi c v)

  pub reset-IsControls : (c : SpeedControlState) → IsControls lo hi c → IsControls lo hi (reset c).0
  unfolding reset
  reset-IsControls c v = record {
    has_one = v.has_one;
    in_range = v.in_range;
    increasing = v.increasing;
    selected = v.unit;
    unit = v.unit;
    previous = v.previous;
    held = tt;
    active = λ h. ground arith;
  }

  toggled-IsControls : (c : SpeedControlState) → IsControls lo hi c → IsControls lo hi (toggled c)
  toggled-IsControls c v =
      toggled_cases (IsControls lo hi) c
        (λ _. record {
          has_one = v.has_one;
          in_range = v.in_range;
          increasing = v.increasing;
          selected = v.selected;
          unit = v.unit;
          previous = v.previous;
          held = v.held;
          active = λ h. ground arith;
        })
        (λ p e. record {
          has_one = v.has_one;
          in_range = v.in_range;
          increasing = v.increasing;
          selected = (OnSome-elim (NonUnity lo hi) c.previous_nonunity v.previous e).0;
          unit = v.unit;
          previous = v.previous;
          held = v.held;
          active = λ h. e;
        })
        v

  pub toggle-IsControls :
      (c : SpeedControlState) → IsControls lo hi c → IsControls lo hi (toggle c).0
  unfolding toggle
  toggle-IsControls c v = toggled-IsControls (end_hold c).0 (end_hold-IsControls lo hi c v)
