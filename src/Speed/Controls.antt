-- ===== src/Speed/Controls.antt =====
-- src/speed_controls.rs: the presets, the toggle and the temporary hold. Each operation returns the
-- new state and its result.
pub mod Found
pub mod Laws
pub mod Keeps
pub mod Settled
pub mod Next
pub mod Steps
use intimatr.Prelude.{
  Bool, true, false, not, ◌||◌, Option, none, some, List, [], ◌∷◌, Result, ok, ◌>>◌, find, is_some,
  if◌then◌else◌,
}
use intimatr.Float.{F64, one, is_finite, lt, eq}
use intimatr.Speed.Config.{SpeedSettings, SpeedProfileError, contains, validate}

pub record SpeedControlState : Type 0 where
  pub steps : List F64
  pub selected : F64
  pub previous_nonunity : Option F64
  pub bypassed : Bool
  pub held_multiplier : Option F64

abbrev pub or_else {ℓ} : {A : Type ℓ} → Option A → Option A → Option A
or_else none b = b
or_else (some a) b = some a

-- `iter().rev().find(p)`
abbrev pub find_last {ℓ} : {A : Type ℓ} → (A → Bool) → List A → Option A
find_last p [] = none
find_last p (x ∷ xs) = or_else (find_last p xs) (if p x then some x else none)

-- The controls of validated settings.
unfoldable pub start : SpeedSettings → SpeedControlState
start settings =
    let initial = settings.initial_multiplier in
    record {
      steps = settings.steps;
      selected = initial;
      previous_nonunity =
          if not (eq initial one)
          then some initial
          else or_else (find (λ v. lt one v) settings.steps)
              (find_last (λ v. lt v one) settings.steps);
      bypassed = not settings.enabled || eq initial one;
      held_multiplier = none;
    }

unfoldable pub new : SpeedSettings → Result SpeedProfileError SpeedControlState
unfolding start
new settings = do validate settings; ok (start settings)

unfoldable pub effective_multiplier : SpeedControlState → F64
effective_multiplier c = elim c.held_multiplier [
  | some held ↦ held
  | none ↦ if c.bypassed then one else c.selected
]

abbrev pub is_bypassed : SpeedControlState → Bool
is_bypassed c = c.bypassed

abbrev pub is_held : SpeedControlState → Bool
is_held c = is_some c.held_multiplier

unfoldable pub begin_hold : SpeedControlState → F64 → SpeedControlState × Bool
begin_hold c multiplier =
    if not (is_finite multiplier) || not (contains c.steps multiplier)
    then (c, false)
    else (record c { held_multiplier = some multiplier }, true)

unfoldable pub end_hold : SpeedControlState → SpeedControlState × F64
unfolding effective_multiplier
end_hold c = let c' = record c { held_multiplier = none } in (c', effective_multiplier c')

unfoldable pub activate : SpeedControlState → F64 → SpeedControlState
unfolding end_hold
activate c multiplier =
    let (c', _effective) = end_hold c in
    record c' {
      selected = multiplier;
      bypassed = eq multiplier one;
      previous_nonunity = if not (eq multiplier one) then some multiplier else c'.previous_nonunity;
    }

-- `if let Some(m) = found { self.activate(m); }`
unfoldable pub activate_found : SpeedControlState → Option F64 → SpeedControlState
unfolding activate
activate_found c none = c
activate_found c (some m) = activate c m

unfoldable pub increase : SpeedControlState → SpeedControlState × F64
unfolding end_hold activate_found
increase c =
    let (c', current) = end_hold c in
    let next = activate_found c' (find (λ step. lt current step) c'.steps) in
    (next, effective_multiplier next)

unfoldable pub decrease : SpeedControlState → SpeedControlState × F64
unfolding end_hold activate_found
decrease c =
    let (c', current) = end_hold c in
    let next = activate_found c' (find_last (λ step. lt step current) c'.steps) in
    (next, effective_multiplier next)

unfoldable pub select_preset : SpeedControlState → F64 → SpeedControlState × Bool
unfolding activate
select_preset c multiplier =
    if not (is_finite multiplier) || not (contains c.steps multiplier)
    then (c, false)
    else (activate c multiplier, true)

unfoldable pub toggled : SpeedControlState → SpeedControlState
toggled c = if not c.bypassed then record c { bypassed = true } else elim c.previous_nonunity [
  | some previous ↦ record c { selected = previous; bypassed = false }
  | none ↦ c
]

unfoldable pub toggle : SpeedControlState → SpeedControlState × F64
unfolding end_hold toggled
toggle c =
    let (c', _effective) = end_hold c in let next = toggled c' in (next, effective_multiplier next)

unfoldable pub reset : SpeedControlState → SpeedControlState × F64
unfolding end_hold
reset c =
    let (c', _effective) = end_hold c in
    let next = record c' { selected = one; bypassed = true } in (next, effective_multiplier next)
