-- ===== src/Speed/Controls/Steps.antt =====
-- What the operations of the controls do, seen from outside (src/speed_controls.rs).
use intimatr.Prelude.{
  ◌≡◌, refl, sym, ap, ◌∙◌, inl, inr, true, false, none, some, arith, All, All-map, find, Bool-cases,
  Option-cases, if◌then◌else◌,
}
use intimatr.Float.{F64, one, is_finite, lt, eq}
use mathlib.Core.Path.{subst}
use intimatr.Float.Order.{eq_of_positive}
use intimatr.Speed.Clock.Scaled.{IsSpeed}
use intimatr.Speed.Config.Laws.{InRange, InRange-IsSpeed}
use intimatr.Speed.Controls.{
  SpeedControlState, effective_multiplier, begin_hold, end_hold, activate, activate_found,
  find_last, increase, decrease, toggled, toggle,
}
use intimatr.Speed.Controls.Found.{OnSome-elim, find-OnSome, find_last-OnSome}
use intimatr.Speed.Controls.Laws.{IsControls}
use intimatr.Speed.Controls.Next.{
  IsNextAbove, IsNextBelow, NextAbove, NextBelow, find-none, find_last-none, find-above,
  find_last-below,
}

effective-activate :
    (c : SpeedControlState) (m : F64) → IsSpeed m → effective_multiplier (activate c m) ≡ m
unfolding effective_multiplier activate
effective-activate c m s = elim (Bool-cases (eq m one)) [
  | inl e ↦ rw e (sym (eq_of_positive m one s.positive e))
  | inr e ↦ rw e refl
]

-- For controls in their invariant that are not bypassed, `toggle` puts 1x in force, and a second
-- one comes back to the controls as they were, less a hold.
pub toggle_twice :
    (lo hi : F64) (c : SpeedControlState)
    → IsControls lo hi c
    → c.bypassed ≡ false
    → ((toggle c).1 ≡ one) × ((toggle (toggle c).0).0 ≡ (end_hold c).0)
unfolding toggle toggled end_hold effective_multiplier
toggle_twice lo hi c v running = (ground arith, let e = v.active running in ground arith)

increase-value :
    (c : SpeedControlState)
    → (increase c).1
      ≡ effective_multiplier
          (activate_found (end_hold c).0 (find (λ step. lt (end_hold c).1 step) c.steps))
unfolding increase
increase-value c = refl

decrease-value :
    (c : SpeedControlState)
    → (decrease c).1
      ≡ effective_multiplier
          (activate_found (end_hold c).0 (find_last (λ step. lt step (end_hold c).1) c.steps))
unfolding decrease
decrease-value c = refl

effective-found_none :
    (c : SpeedControlState)
    → effective_multiplier (activate_found (end_hold c).0 none) ≡ (end_hold c).1
unfolding activate_found end_hold
effective-found_none c = refl

effective-found_some :
    (c : SpeedControlState) (m : F64)
    → IsSpeed m
    → effective_multiplier (activate_found (end_hold c).0 (some m)) ≡ m
unfolding activate_found
effective-found_some c m s = effective-activate (end_hold c).0 m s

module _ (lo hi : F64) (low : IsSpeed lo) (c : SpeedControlState) (v : IsControls lo hi c) where
  finite_steps : All (λ s. is_finite s ≡ true) c.steps
  finite_steps = All-map _ _ (λ s r. r.bounded) c.steps v.in_range

  -- For controls in their invariant, of a profile whose least speed is positive, `increase` puts
  -- in force the slowest preset above the speed that is in force once a hold has ended, or keeps
  -- that speed if no preset is above it.
  pub increase-NextAbove : NextAbove c.steps (end_hold c).1 (increase c).1
  increase-NextAbove = elim (Option-cases (find (λ step. lt (end_hold c).1 step) c.steps)) [
    | inl e ↦ inr (
      increase-value c
          ∙ ap (λ o. effective_multiplier (activate_found (end_hold c).0 o)) e
          ∙ effective-found_none c,
      find-none _ c.steps e,
    )
    | inr (m, e) ↦
        let r = OnSome-elim _ _ (find-OnSome (InRange lo hi) _ c.steps v.in_range) e in
        let q =
          increase-value c
          ∙ ap (λ o. effective_multiplier (activate_found (end_hold c).0 o)) e
          ∙ effective-found_some c m (InRange-IsSpeed lo hi m low r.0) in
        inl (
          subst (IsNextAbove c.steps (end_hold c).1) (sym q)
            (find-above (end_hold c).1 c.steps v.increasing finite_steps e))
  ]

  -- For controls in their invariant, of a profile whose least speed is positive, `decrease` puts
  -- in force the fastest preset below the speed that is in force once a hold has ended, or keeps
  -- that speed if no preset is below it.
  pub decrease-NextBelow : NextBelow c.steps (end_hold c).1 (decrease c).1
  decrease-NextBelow = elim (Option-cases (find_last (λ step. lt step (end_hold c).1) c.steps)) [
    | inl e ↦ inr (
      decrease-value c
          ∙ ap (λ o. effective_multiplier (activate_found (end_hold c).0 o)) e
          ∙ effective-found_none c,
      find_last-none _ c.steps e,
    )
    | inr (m, e) ↦
        let r = OnSome-elim _ _ (find_last-OnSome (InRange lo hi) _ c.steps v.in_range) e in
        let q =
          decrease-value c
          ∙ ap (λ o. effective_multiplier (activate_found (end_hold c).0 o)) e
          ∙ effective-found_some c m (InRange-IsSpeed lo hi m low r.0) in
        inl (
          subst (IsNextBelow c.steps (end_hold c).1) (sym q)
            (find_last-below (end_hold c).1 c.steps v.increasing finite_steps e))
  ]

-- For all controls and speeds: once a hold ends, the controls are as they would be without it, and
-- while it lasts the speed in force is the one asked for, or the one before if the hold was
-- refused.
pub hold_is_temporary :
    (c : SpeedControlState) (m : F64)
    → ((end_hold (begin_hold c m).0).0 ≡ (end_hold c).0)
      × (effective_multiplier (begin_hold c m).0
          ≡ (if (begin_hold c m).1 then m else effective_multiplier c))
unfolding begin_hold end_hold effective_multiplier
hold_is_temporary c m = (ground arith, ground arith)
