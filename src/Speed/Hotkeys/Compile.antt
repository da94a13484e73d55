-- ===== src/Speed/Hotkeys/Compile.antt =====
-- From a configuration of hotkeys to a dispatcher (`compile` and `add_binding` of
-- src/speed_hotkeys.rs).
use intimatr.Prelude.{
  ℕ, ◌≡◌, refl, Bool, true, false, not, ◌&&◌, ◌||◌, Option, none, some, List, [], ◌∷◌, ◌++◌, Result,
  ok, ◌>>=◌, ◌>>◌, fail_if, arith, All, All-append, any, leb, ◌==◌, >>=-eq-ok, ok-injective,
}
use intimatr.Float.{F64, is_finite}
use intimatr.Speed.Config.{SpeedSettings, contains}
use intimatr.Speed.Hotkeys.{
  KeyChord, Action, increase, decrease, toggle, reset, hold, SpeedHotkeyDispatcher, chord_eq,
}
use intimatr.Speed.Hotkeys.Chord.{
  HotkeyError, reserved_key, duplicate_chord, hold_multiplier, hold_duration, Text, parse_chord,
}

pub record HoldHotkey : Type 0 where
  pub chord : Text
  pub multiplier : F64
  pub duration_ms : ℕ

pub record SpeedHotkeyConfig : Type 0 where
  pub increase : Option Text
  pub decrease : Option Text
  pub toggle : Option Text
  pub reset : Option Text
  pub hold : Option HoldHotkey

-- The set of the chords seen is that of the bindings made.
abbrev pub seen : List (KeyChord × Action) → KeyChord → Bool
seen bindings chord = any (λ b. chord_eq b.0 chord) bindings

abbrev pub is_reserved : KeyChord → Bool
is_reserved chord = chord.key == 121 || chord.key == 45

-- `add_binding`, once its chord is read.
abbrev pub add_chord :
    List (KeyChord × Action) → Action → KeyChord → Result HotkeyError (List (KeyChord × Action))
add_chord bindings action chord = do
  fail_if (is_reserved chord) reserved_key
  fail_if (seen bindings chord) duplicate_chord
  ok (bindings ++ ((chord, action) ∷ []))

unfoldable pub add_binding :
    List (KeyChord × Action) → Text → Action → Result HotkeyError (List (KeyChord × Action))
add_binding bindings raw action = do chord ← parse_chord raw; add_chord bindings action chord

unfoldable pub add_optional :
    List (KeyChord × Action) → Option Text → Action → Result HotkeyError (List (KeyChord × Action))
unfolding add_binding
add_optional bindings none action = ok bindings
add_optional bindings (some raw) action = add_binding bindings raw action

unfoldable pub add_hold :
    List (KeyChord × Action)
    → Option HoldHotkey
    → SpeedSettings
    → Result HotkeyError (List (KeyChord × Action))
unfolding add_binding
add_hold bindings none speed = ok bindings
add_hold bindings (some h) speed = do
  fail_if (not (is_finite h.multiplier) || not (contains speed.steps h.multiplier)) hold_multiplier
  fail_if (not (leb 1 h.duration_ms && leb h.duration_ms 60000)) hold_duration
  add_binding bindings h.chord (hold h.multiplier h.duration_ms)

unfoldable pub compile :
    SpeedHotkeyConfig → SpeedSettings → Result HotkeyError SpeedHotkeyDispatcher
unfolding add_optional add_hold
compile config speed = do
  b1 ← add_optional [] config.increase increase
  b2 ← add_optional b1 config.decrease decrease
  b3 ← add_optional b2 config.toggle toggle
  b4 ← add_optional b3 config.reset reset
  bindings ← add_hold b4 config.hold speed
  ok (record { bindings = bindings; pressed = []; held = none; focused = false })

-- No chord is bound twice.
abbrev pub Distinct : List (KeyChord × Action) → Type 0
Distinct [] = Unit
Distinct (b ∷ bindings) = (seen bindings b.0 ≡ false) × Distinct bindings

-- A hold that the speed session accepts.
abbrev pub IsAllowed : List F64 → Action → Type 0
IsAllowed steps (hold m d) =
    (is_finite m ≡ true) × (contains steps m ≡ true) × ((leb 1 d && leb d 60000) ≡ true)
IsAllowed steps _ = Unit

-- Bindings without reserved keys, without duplicates, and with holds that the session accepts.
pub record IsBindings (steps : List F64) (bindings : List (KeyChord × Action)) : Type 0 where
  pub distinct : Distinct bindings
  pub free : All (λ (b : KeyChord × Action). is_reserved b.0 ≡ false) bindings
  pub allowed : All (λ (b : KeyChord × Action). IsAllowed steps b.1) bindings

fail_if-eq-ok :
    {E B : Type 0} (b : Bool) (e : E) (k : Result E B) {x : B}
    → (fail_if b e >> k) ≡ ok x
    → (b ≡ false) × (k ≡ ok x)
fail_if-eq-ok true e k h = absurd (ground arith)
fail_if-eq-ok false e k h = (refl, h)

chord_eq_comm : (a b : KeyChord) → chord_eq a b ≡ chord_eq b a
chord_eq_comm a b = ground arith

Distinct-append :
    (bs : List (KeyChord × Action)) (b : KeyChord × Action)
    → Distinct bs
    → seen bs b.0 ≡ false
    → Distinct (bs ++ (b ∷ []))
Distinct-append [] b h k = (refl, tt)
Distinct-append (x ∷ bs) b h k =
    (seen-append bs (ground arith), Distinct-append bs b h.1 (ground arith))
  where
    neither : (a b : Bool) → a ≡ false → b ≡ false → (a || b) ≡ false
    neither a b h k = rw (h, k) refl

    seen-append :
        (bs : List (KeyChord × Action))
        → (seen bs x.0 || chord_eq b.0 x.0) ≡ false
        → seen (bs ++ (b ∷ [])) x.0 ≡ false
    seen-append [] h = ground arith
    seen-append (y ∷ bs) h = neither _ _ (ground arith) (seen-append bs (ground arith))

module _ (speed : SpeedSettings) where
  add_binding-IsBindings :
      (bindings : List (KeyChord × Action)) (raw : Text) (action : Action)
      {result : List (KeyChord × Action)}
      → IsBindings speed.steps bindings
      → IsAllowed speed.steps action
      → add_binding bindings raw action ≡ ok result
      → IsBindings speed.steps result
  unfolding add_binding
  add_binding-IsBindings bindings raw action v a h =
      let (chord, parsed, h1) = >>=-eq-ok (parse_chord raw) (add_chord bindings action) h in
      let (free, h2) =
        fail_if-eq-ok (is_reserved chord) reserved_key
          (fail_if (seen bindings chord) duplicate_chord >> ok (bindings ++ ((chord, action) ∷ [])))
          h1 in
      let (fresh, h3) =
        fail_if-eq-ok (seen bindings chord) duplicate_chord
          (ok (bindings ++ ((chord, action) ∷ []))) h2 in
      rw (← ok-injective h3) (record {
        distinct = Distinct-append bindings (chord, action) v.distinct fresh;
        free = All-append _ bindings ((chord, action) ∷ []) v.free (free, tt);
        allowed = All-append _ bindings ((chord, action) ∷ []) v.allowed (a, tt);
      })

  add_optional-IsBindings :
      (bindings : List (KeyChord × Action)) (raw : Option Text) (action : Action)
      {result : List (KeyChord × Action)}
      → IsBindings speed.steps bindings
      → IsAllowed speed.steps action
      → add_optional bindings raw action ≡ ok result
      → IsBindings speed.steps result
  unfolding add_optional
  add_optional-IsBindings bindings none action v a h = rw (← ok-injective h) v
  add_optional-IsBindings bindings (some raw) action v a h =
      add_binding-IsBindings bindings raw action v a h

  add_hold-IsBindings :
      (bindings : List (KeyChord × Action)) (h : Option HoldHotkey)
      {result : List (KeyChord × Action)}
      → IsBindings speed.steps bindings
      → add_hold bindings h speed ≡ ok result
      → IsBindings speed.steps result
  unfolding add_hold
  add_hold-IsBindings bindings none v e = rw (← ok-injective e) v
  add_hold-IsBindings bindings (some h) v e =
      let (preset, e1) =
        fail_if-eq-ok (not (is_finite h.multiplier) || not (contains speed.steps h.multiplier))
          hold_multiplier
          (fail_if (not (leb 1 h.duration_ms && leb h.duration_ms 60000)) hold_duration
            >> add_binding bindings h.chord (hold h.multiplier h.duration_ms))
          e in
      let (timely, e2) =
        fail_if-eq-ok (not (leb 1 h.duration_ms && leb h.duration_ms 60000)) hold_duration
          (add_binding bindings h.chord (hold h.multiplier h.duration_ms)) e1 in
      add_binding-IsBindings bindings h.chord (hold h.multiplier h.duration_ms) v
        (ground arith, ground arith, ground arith) e2

  -- A dispatcher that `compile` returns binds no chord twice, neither F10 nor Insert, and only
  -- holds of a preset for 1 to 60000 milliseconds; it starts without the focus and holds nothing.
  pub compile-IsBindings :
      (config : SpeedHotkeyConfig) (d : SpeedHotkeyDispatcher)
      → compile config speed ≡ ok d
      → IsBindings speed.steps d.bindings × (d.focused ≡ false) × (d.held ≡ none)
  unfolding compile
  compile-IsBindings config d h =
      let (b1, e1, h1) = >>=-eq-ok _ _ h in
      let (b2, e2, h2) = >>=-eq-ok _ _ h1 in
      let (b3, e3, h3) = >>=-eq-ok _ _ h2 in
      let (b4, e4, h4) = >>=-eq-ok _ _ h3 in
      let (b5, e5, h5) = >>=-eq-ok _ _ h4 in
      let v1 = add_optional-IsBindings [] config.increase increase empty tt e1 in
      let v2 = add_optional-IsBindings b1 config.decrease decrease v1 tt e2 in
      let v3 = add_optional-IsBindings b2 config.toggle toggle v2 tt e3 in
      let v4 = add_optional-IsBindings b3 config.reset reset v3 tt e4 in
      let v5 = add_hold-IsBindings b4 config.hold v4 e5 in rw (← ok-injective h5) (v5, refl, refl)
    where
      empty : IsBindings speed.steps []
      empty = record { distinct = tt; free = tt; allowed = tt }
