-- ===== src/Speed/Input.antt =====
-- src/speed_input.rs: the edge detector between snapshots of a focused window's keys and the hotkey
-- dispatcher. A BTreeSet is a sorted list.
pub mod Laws
pub mod Focus
use intimatr.Prelude.{
  ℕ, Bool, true, false, not, Option, none, some, List, [], ◌∷◌, ◌++◌, filter, if◌then◌else◌,
}
use intimatr.Speed.Session.{SpeedAction}
use intimatr.Speed.Hotkeys.{
  Modifiers, KeyEvent, SpeedHotkeyDispatcher, contains, sorted, on_focus_gained, on_key,
  on_focus_lost,
}
use intimatr.Speed.Hotkeys

abbrev pub control_key : ℕ
control_key = 17

abbrev pub alt_key : ℕ
alt_key = 18

abbrev pub shift_key : ℕ
shift_key = 16

pub record InputSnapshot : Type 0 where
  pub focused : Bool
  pub down_keys : List ℕ

pub record FocusedInputPump : Type 0 where
  pub dispatcher : SpeedHotkeyDispatcher
  pub keys : List ℕ
  pub previously_down : List ℕ
  pub focused : Bool

abbrev with_modifiers : List ℕ → List ℕ
with_modifiers [] = []
with_modifiers (k ∷ keys) = (k ∷ keys) ++ (control_key ∷ alt_key ∷ shift_key ∷ [])

unfoldable pub new : SpeedHotkeyDispatcher → FocusedInputPump
new dispatcher = record {
  dispatcher = dispatcher;
  keys = sorted (with_modifiers (Hotkeys.watched_keys dispatcher));
  previously_down = [];
  focused = false;
}

abbrev pub watched_keys : FocusedInputPump → List ℕ
watched_keys p = p.keys

abbrev pub push {ℓ} : {A : Type ℓ} → Option A → List A → List A
push none rest = rest
push (some a) rest = a ∷ rest

-- A loop over keys that are all pressed, or all released, in this observation.
unfoldable pub feed :
    SpeedHotkeyDispatcher → Modifiers → Bool → List ℕ → SpeedHotkeyDispatcher × List SpeedAction
feed d modifiers pressed [] = (d, [])
feed d modifiers pressed (key ∷ keys) =
    let (d', action) =
      on_key d
        (record { virtual_key = key; modifiers = modifiers; pressed = pressed; repeat = false }) in
    let (d'', rest) = feed d' modifiers pressed keys in (d'', push action rest)

abbrev pub difference : List ℕ → List ℕ → List ℕ
difference a b = filter (λ key. not (contains b key)) a

abbrev pub modifiers_of : List ℕ → Modifiers
modifiers_of down = record {
  ctrl = contains down control_key;
  alt = contains down alt_key;
  shift = contains down shift_key;
}

-- The keys of a snapshot that the host was asked for.
abbrev pub observed : FocusedInputPump → InputSnapshot → List ℕ
observed p snapshot = sorted (filter (contains p.keys) snapshot.down_keys)

-- The end of `sample`, while the window keeps its focus.
unfoldable pub edges : FocusedInputPump → List ℕ → FocusedInputPump × List SpeedAction
unfolding feed
edges p down =
    let modifiers = modifiers_of down in
    let (released, first) = feed p.dispatcher modifiers false (difference p.previously_down down) in
    let (pressed, second) = feed released modifiers true (difference down p.previously_down) in
    (record p { dispatcher = pressed; previously_down = down }, first ++ second)

unfoldable pub sample : FocusedInputPump → InputSnapshot → FocusedInputPump × List SpeedAction
unfolding edges
sample p snapshot =
    if not snapshot.focused
    then if not p.focused
      then (p, [])
      else (let (d, action) = on_focus_lost p.dispatcher in
          (record p { dispatcher = d; previously_down = []; focused = false }, action ∷ []))
    else if not p.focused
    then (
      record p {
        dispatcher = on_focus_gained p.dispatcher;
        previously_down = observed p snapshot;
        focused = true;
      },
      [],
    )
    else edges p (observed p snapshot)
