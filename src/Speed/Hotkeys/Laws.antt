-- ===== src/Speed/Hotkeys/Laws.antt =====
-- What the hotkey dispatcher may send (src/speed_hotkeys.rs).
use intimatr.Prelude.{
  ℕ, ◌≡◌, refl, ap, ◌⊎◌, inl, inr, Bool, true, false, not, ◌||◌, Option, none, some, List, [], ◌∷◌,
  arith, is_some, find, if◌then◌else◌, Bool-cases, Option-cases,
}
use intimatr.Speed.Session.{SpeedAction, hold_start, hold_release, focus_lost}
use intimatr.Speed.Controls.Found.{OnSome}
use intimatr.Speed.Hotkeys
use intimatr.Speed.Hotkeys.{
  Modifiers, KeyChord, KeyEvent, Action, hold, speed_action, SpeedHotkeyDispatcher, chord_eq,
  contains, ends_hold, release_hold, is_hold, fire, on_press, on_key,
}

-- An action of the list of bindings.
abbrev pub IsBound : List (KeyChord × Action) → SpeedAction → Type 0
IsBound [] a = ⊥
IsBound ((chord, action) ∷ bindings) a = (speed_action action ≡ a) ⊎ IsBound bindings a

-- Whether a chord is held once an action is sent.
abbrev pub holds_after : Bool → SpeedAction → Bool
holds_after b (hold_start multiplier duration_ms) = true
holds_after b hold_release = false
holds_after b focus_lost = false
holds_after b _ = b

abbrev pub holds_after_sent : Bool → Option SpeedAction → Bool
holds_after_sent b none = b
holds_after_sent b (some a) = holds_after b a

-- What a step of the dispatcher keeps, and what it may send.
pub record Step (d : SpeedHotkeyDispatcher) (p : SpeedHotkeyDispatcher × Option SpeedAction)
    : Type 0 where
  pub same_focus : p.0.focused ≡ d.focused
  pub same_bindings : p.0.bindings ≡ d.bindings
  pub tracks : is_some p.0.held ≡ holds_after_sent (is_some d.held) p.1
  pub offered :
      OnSome (λ a. IsBound d.bindings a ⊎ ((a ≡ hold_release) × (is_some d.held ≡ true))) p.1

find-IsBound :
    (q : KeyChord × Action → Bool) (bs : List (KeyChord × Action)) (b : KeyChord × Action)
    → find q bs ≡ some b
    → IsBound bs (speed_action b.1)
find-IsBound q [] b h = absurd (ground arith)
find-IsBound q (x ∷ bs) b h = elim (Bool-cases (q x)) [
  | inl e ↦
      let same : x ≡ b = ground arith in inl (ap (λ (p : KeyChord × Action). speed_action p.1) same)
  | inr e ↦ inr (find-IsBound q bs b (ground arith))
]

fire-tracks :
    (d : SpeedHotkeyDispatcher) (chord : KeyChord) (a : Action)
    → is_some (fire d (some (chord, a))).0.held ≡ holds_after (is_some d.held) (speed_action a)
unfolding fire speed_action
fire-tracks d chord Action.increase = refl
fire-tracks d chord Action.decrease = refl
fire-tracks d chord Action.toggle = refl
fire-tracks d chord Action.reset = refl
fire-tracks d chord (hold m t) = refl

fire-same :
    (d : SpeedHotkeyDispatcher) (b : Option (KeyChord × Action))
    → ((fire d b).0.focused ≡ d.focused) × ((fire d b).0.bindings ≡ d.bindings)
unfolding fire
fire-same d none = (refl, refl)
fire-same d (some (chord, a)) = (ground arith, ground arith)

fire-Step :
    (d : SpeedHotkeyDispatcher) (o : Option (KeyChord × Action))
    → OnSome (λ (b : KeyChord × Action). IsBound d.bindings (speed_action b.1)) o
    → Step d (fire d o)
fire-Step d none h = record {
  same_focus = (fire-same d none).0;
  same_bindings = (fire-same d none).1;
  tracks = unfold fire in refl;
  offered = unfold fire in tt;
}
fire-Step d (some (chord, a)) h = record {
  same_focus = (fire-same d (some (chord, a))).0;
  same_bindings = (fire-same d (some (chord, a))).1;
  tracks = unfold fire in fire-tracks d chord a;
  offered = unfold fire in inl h;
}

find-OnSome :
    (q : KeyChord × Action → Bool) (bs : List (KeyChord × Action))
    → OnSome (λ (b : KeyChord × Action). IsBound bs (speed_action b.1)) (find q bs)
find-OnSome q bs = elim (Option-cases (find q bs)) [
  | inl e ↦ rw e tt
  | inr (b, e) ↦ rw e (find-IsBound q bs b e)
]

idle-Step : (d : SpeedHotkeyDispatcher) (keys : List ℕ) → Step d (record d { pressed = keys }, none)
idle-Step d keys = record { same_focus = refl; same_bindings = refl; tracks = refl; offered = tt }

on_press-Step : (d : SpeedHotkeyDispatcher) (e : KeyEvent) → Step d (on_press d e)
unfolding on_press
on_press-Step d e = pick (not e.pressed) (e.repeat || contains d.pressed e.virtual_key)
  where
    fired : Step d (
        fire
          (record d { pressed = e.virtual_key ∷ d.pressed })
          (find
            (λ b. chord_eq b.0 (record { key = e.virtual_key; modifiers = e.modifiers }))
            d.bindings))
    fired =
        let s =
          fire-Step (record d { pressed = e.virtual_key ∷ d.pressed }) _
            (find-OnSome _ d.bindings) in
        record {
          same_focus = s.same_focus;
          same_bindings = s.same_bindings;
          tracks = s.tracks;
          offered = s.offered;
        }

    pick :
        (a b : Bool)
        → Step d (
            if a
            then (record d { pressed = Hotkeys.remove e.virtual_key d.pressed }, none)
            else if b
            then (d, none)
            else fire
                (record d { pressed = e.virtual_key ∷ d.pressed })
                (find
                  (λ b. chord_eq b.0 (record { key = e.virtual_key; modifiers = e.modifiers }))
                  d.bindings))
    pick true b = idle-Step d _
    pick false true = idle-Step d d.pressed
    pick false false = fired

release-Step :
    (d : SpeedHotkeyDispatcher) (e : KeyEvent) (held : KeyChord)
    → is_some d.held ≡ true
    → Step d (release_hold d held e, some hold_release)
unfolding release_hold
release-Step d e held h = record {
  same_focus = refl;
  same_bindings = refl;
  tracks = refl;
  offered = inr (refl, h);
}

-- For every dispatcher and key event: what is sent is a bound action or, where a chord is held,
-- its release; it tells whether a chord is held afterwards; and neither the focus nor the bindings
-- change.
pub on_key-Step : (d : SpeedHotkeyDispatcher) (e : KeyEvent) → Step d (on_key d e)
unfolding on_key
on_key-Step d e = pick d.focused d.held refl
  where
    pick :
        (f : Bool) (o : Option KeyChord)
        → d.held ≡ o
        → Step d (
            if not f then (d, none) else elim o [
              | some held ↦
                  if ends_hold held e
                  then (release_hold d held e, some hold_release)
                  else on_press d e
              | none ↦ on_press d e
            ])
    pick false o h = idle-Step d d.pressed
    pick true none h = on_press-Step d e
    pick true (some held) h = elim (Bool-cases (ends_hold held e)) [
      | inl ends ↦ rw ends (release-Step d e held (ap is_some h))
      | inr stays ↦ rw stays (on_press-Step d e)
    ]

-- Without focus no event is acted on.
pub on_key-unfocused :
    (d : SpeedHotkeyDispatcher) (e : KeyEvent) → d.focused ≡ false → on_key d e ≡ (d, none)
unfolding on_key
on_key-unfocused d e h = rw (h, on_key) refl
