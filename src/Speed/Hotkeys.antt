-- ===== src/Speed/Hotkeys.antt =====
-- src/speed_hotkeys.rs: the dispatcher of compiled hotkeys. A HashSet of keys is a list without a
-- meaning to its order.
pub mod Laws
pub mod Chord
pub mod Compile
use intimatr.Prelude.{
  ℕ, Bool, true, false, not, ◌&&◌, ◌||◌, Option, none, some, List, [], ◌∷◌, ◌==◌, any, find, filter,
  map, ltb, if◌then◌else◌,
}
use intimatr.Float.{F64}
use intimatr.Speed.Session.{SpeedAction, hold_start, hold_release, focus_lost}

pub record Modifiers : Type 0 where
  pub ctrl : Bool
  pub alt : Bool
  pub shift : Bool

abbrev pub includes : Modifiers → Modifiers → Bool
includes m expected =
    (not expected.ctrl || m.ctrl) && (not expected.alt || m.alt) && (not expected.shift || m.shift)

pub record KeyChord : Type 0 where
  pub key : ℕ
  pub modifiers : Modifiers

pub record KeyEvent : Type 0 where
  pub virtual_key : ℕ
  pub modifiers : Modifiers
  pub pressed : Bool
  pub repeat : Bool

pub data Action : Type 0 where
  increase decrease toggle reset : Action
  hold : F64 → ℕ → Action

unfoldable pub speed_action : Action → SpeedAction
speed_action increase = SpeedAction.increase
speed_action decrease = SpeedAction.decrease
speed_action toggle = SpeedAction.toggle
speed_action reset = SpeedAction.reset
speed_action (hold multiplier duration_ms) = hold_start multiplier duration_ms

pub record SpeedHotkeyDispatcher : Type 0 where
  pub bindings : List (KeyChord × Action)
  pub pressed : List ℕ
  pub held : Option KeyChord
  pub focused : Bool

abbrev pub contains : List ℕ → ℕ → Bool
contains keys key = any (λ k. k == key) keys

abbrev pub remove : ℕ → List ℕ → List ℕ
remove key keys = filter (λ k. not (k == key)) keys

abbrev bool_eq : Bool → Bool → Bool
bool_eq true b = b
bool_eq false b = not b

abbrev pub chord_eq : KeyChord → KeyChord → Bool
chord_eq a b =
    a.key == b.key
    && bool_eq a.modifiers.ctrl b.modifiers.ctrl
    && bool_eq a.modifiers.alt b.modifiers.alt
    && bool_eq a.modifiers.shift b.modifiers.shift

-- Sorted insertion without duplicates, which `sort_unstable` and `dedup` come to, and a BTreeSet.
abbrev pub insert_sorted : ℕ → List ℕ → List ℕ
insert_sorted key [] = key ∷ []
insert_sorted key (k ∷ keys) =
    let rest = insert_sorted key keys in
    if key == k then k ∷ keys else if ltb key k then key ∷ k ∷ keys else k ∷ rest

abbrev pub sorted : List ℕ → List ℕ
sorted [] = []
sorted (k ∷ keys) = insert_sorted k (sorted keys)

unfoldable pub watched_keys : SpeedHotkeyDispatcher → List ℕ
watched_keys d = sorted (map (λ b. b.0.key) d.bindings)

unfoldable pub on_focus_gained : SpeedHotkeyDispatcher → SpeedHotkeyDispatcher
on_focus_gained d = if not d.focused then record d { focused = true; pressed = [] } else d

-- Whether an event ends the hold of a chord.
abbrev pub ends_hold : KeyChord → KeyEvent → Bool
ends_hold held event =
    (not event.pressed && event.virtual_key == held.key)
    || not (includes event.modifiers held.modifiers)

unfoldable pub release_hold : SpeedHotkeyDispatcher → KeyChord → KeyEvent → SpeedHotkeyDispatcher
release_hold d held event =
    let pressed = remove held.key d.pressed in
    record d {
      held = none;
      pressed = if not event.pressed then remove event.virtual_key pressed else pressed;
    }

abbrev pub is_hold : Action → Bool
is_hold (hold multiplier duration_ms) = true
is_hold _ = false

-- The action of the first binding of the pressed chord.
unfoldable pub fire :
    SpeedHotkeyDispatcher → Option (KeyChord × Action) → SpeedHotkeyDispatcher × Option SpeedAction
fire d none = (d, none)
fire d (some (chord, action)) =
    (if is_hold action then record d { held = some chord } else d, some (speed_action action))

-- `on_key` past the hold.
unfoldable pub on_press :
    SpeedHotkeyDispatcher → KeyEvent → SpeedHotkeyDispatcher × Option SpeedAction
unfolding fire
on_press d event =
    if not event.pressed
    then (record d { pressed = remove event.virtual_key d.pressed }, none)
    else if event.repeat || contains d.pressed event.virtual_key
    then (d, none)
    else (let pressed : KeyChord = record {
      key = event.virtual_key;
      modifiers = event.modifiers;
    } in
        fire (record d { pressed = event.virtual_key ∷ d.pressed })
          (find (λ b. chord_eq b.0 pressed) d.bindings))

unfoldable pub on_key :
    SpeedHotkeyDispatcher → KeyEvent → SpeedHotkeyDispatcher × Option SpeedAction
unfolding on_press release_hold
on_key d event = if not d.focused then (d, none) else elim d.held [
  | some held ↦
      if ends_hold held event
      then (release_hold d held event, some hold_release)
      else on_press d event
  | none ↦ on_press d event
]

unfoldable pub on_focus_lost : SpeedHotkeyDispatcher → SpeedHotkeyDispatcher × SpeedAction
on_focus_lost d = (record d { focused = false; pressed = []; held = none }, focus_lost)
