-- ===== src/Speed/Controls/Laws.antt =====
-- The invariant of the controls (src/speed_controls.rs).
use intimatr.Prelude.{
  ◌≡◌, refl, Bool, true, false, not, Option, none, some, List, [], ◌∷◌, arith, All, find, inl, inr,
  Bool-cases, if◌then◌else◌,
}
use intimatr.Float.{F64, one, lt, eq}
use intimatr.Float.Order.{ne_of_lt, ne_of_gt, eq-finite, le-eq, eq-le}
use intimatr.Speed.Config.{SpeedSettings, contains}
use intimatr.Speed.Config.Laws.{InRange, Increasing, IsSettings, one-InRange}
use intimatr.Speed.Controls.Found.{
  OnSome, OnSome-if, OnSome-or_else, OnSome-map, find-OnSome, find_last-OnSome,
}
use intimatr.Speed.Controls.{
  SpeedControlState, start, effective_multiplier, end_hold, toggled, find_last,
}

-- A speed that the toggle may come back to.
abbrev pub NonUnity : F64 → F64 → F64 → Type 0
NonUnity lo hi m = InRange lo hi m × (eq m one ≡ false)

-- The controls of a profile whose speeds range from `lo` to `hi`: every stored speed is in range, and
-- a speed that is in force is the one that the toggle comes back to, and is not 1x.
pub record IsControls (lo hi : F64) (c : SpeedControlState) : Type 0 where
  pub has_one : contains c.steps one ≡ true
  pub in_range : All (InRange lo hi) c.steps
  pub increasing : Increasing c.steps
  pub selected : InRange lo hi c.selected
  pub unit : InRange lo hi one
  pub previous : OnSome (NonUnity lo hi) c.previous_nonunity
  pub held : OnSome (InRange lo hi) c.held_multiplier
  pub active : c.bypassed ≡ false → c.previous_nonunity ≡ some c.selected

pub not-eq-true : (b : Bool) → not b ≡ true → b ≡ false
not-eq-true b h = ground arith

pub start-IsControls :
    (s : SpeedSettings) → IsSettings s → IsControls s.min_multiplier s.max_multiplier (start s)
unfolding start
start-IsControls s v = record {
  has_one = v.has_one;
  in_range = v.in_range;
  increasing = v.increasing;
  selected = v.initial;
  unit = one-InRange s v;
  previous =
      OnSome-if P (not (eq s.initial_multiplier one)) _ _ (λ h. (v.initial, not-eq-true _ h))
        (λ _. OnSome-or_else P _ _ faster slower);
  held = tt;
  active = λ h. ground arith;
}
  where
    P : F64 → Type 0
    P = NonUnity s.min_multiplier s.max_multiplier

    faster : OnSome P (find (λ v. lt one v) s.steps)
    faster =
        OnSome-map _ P (λ m f. (f.0, ne_of_gt one m f.1)) _
          (find-OnSome _ (λ v. lt one v) s.steps v.in_range)

    slower : OnSome P (find_last (λ v. lt v one) s.steps)
    slower =
        OnSome-map _ P (λ m f. (f.0, ne_of_lt m one f.1)) _
          (find_last-OnSome _ (λ v. lt v one) s.steps v.in_range)

pub eq-InRange : (lo hi a b : F64) → InRange lo hi a → eq a b ≡ true → InRange lo hi b
eq-InRange lo hi a b r e = record {
  bounded = eq-finite a b e r.bounded;
  at_least = le-eq a b lo e r.at_least;
  at_most = eq-le a b hi e r.at_most;
}

pub contains-InRange :
    (lo hi : F64) (xs : List F64) (m : F64)
    → All (InRange lo hi) xs
    → contains xs m ≡ true
    → InRange lo hi m
contains-InRange lo hi [] m r h = absurd (ground arith)
contains-InRange lo hi (x ∷ xs) m r h = elim (Bool-cases (eq x m)) [
  | inl e ↦ eq-InRange lo hi x m r.0 e
  | inr n ↦ contains-InRange lo hi xs m r.1 (ground arith)
]

pub toggled_cases :
    (P : SpeedControlState → Type 0) (c : SpeedControlState)
    → (c.bypassed ≡ false → P (record c { bypassed = true }))
    → ((p : F64) → c.previous_nonunity ≡ some p → P (record c { selected = p; bypassed = false }))
    → P c
    → P (toggled c)
unfolding toggled
toggled_cases P c stops restores stays = go c.bypassed c.previous_nonunity refl refl
  where
    go :
        (b : Bool) (o : Option F64)
        → c.bypassed ≡ b
        → c.previous_nonunity ≡ o
        → P (
            if not b then record c { bypassed = true } else elim o [
              | some previous ↦ record c { selected = previous; bypassed = false }
              | none ↦ c
            ])
    go false o e f = stops e
    go true (some p) e f = restores p f
    go true none e f = stays

module _ (lo hi : F64) where
  pub end_hold-IsControls :
      (c : SpeedControlState) → IsControls lo hi c → IsControls lo hi (end_hold c).0
  unfolding end_hold
  end_hold-IsControls c v = record {
    has_one = v.has_one;
    in_range = v.in_range;
    increasing = v.increasing;
    selected = v.selected;
    unit = v.unit;
    previous = v.previous;
    held = tt;
    active = v.active;
  }

  -- For controls in their invariant, the speed in force, held or not, is within the range of the
  -- profile.
  pub effective-InRange :
      (c : SpeedControlState) → IsControls lo hi c → InRange lo hi (effective_multiplier c)
  unfolding effective_multiplier
  effective-InRange c v = pick c.held_multiplier c.bypassed v.held
    where
      pick :
          (h : Option F64) (b : Bool)
          → OnSome (InRange lo hi) h
          → InRange lo hi (elim h [ some m ↦ m | none ↦ if b then one else c.selected ])
      pick (some m) b r = r
      pick none true r = v.unit
      pick none false r = v.selected
