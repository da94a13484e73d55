-- ===== src/Speed/Input/Laws.antt =====
-- What the input pump may send to the speed session (src/speed_input.rs).
use intimatr.Prelude.{
  ℕ, ◌≡◌, refl, sym, ap, ◌∙◌, ◌⊎◌, inl, inr, Bool, true, false, Option, none, some, List, [], ◌∷◌,
  ◌++◌, arith, is_some, All, All-append,
}
use mathlib.Core.Path.{subst}
use intimatr.Speed.Session.{SpeedAction, hold_release, focus_lost}
use intimatr.Speed.Hotkeys.{
  Modifiers, KeyChord, KeyEvent, Action, hold, speed_action, SpeedHotkeyDispatcher, on_key,
}
use intimatr.Speed.Hotkeys.Laws.{IsBound, holds_after, Step, on_key-Step}
use intimatr.Speed.Input.{
  FocusedInputPump, InputSnapshot, push, feed, difference, modifiers_of, edges,
}

-- Whether a chord is held once a batch is sent.
abbrev pub holds_after_all : Bool → List SpeedAction → Bool
holds_after_all b [] = b
holds_after_all b (a ∷ rest) = holds_after_all (holds_after b a) rest

-- A release is sent only where a chord is held.
abbrev pub Paired : Bool → List SpeedAction → Type 0
Paired b [] = Unit
Paired b (a ∷ rest) = (a ≡ hold_release → b ≡ true) × Paired (holds_after b a) rest

abbrev pub IsOffered : List (KeyChord × Action) → SpeedAction → Type 0
IsOffered bindings a = IsBound bindings a ⊎ (a ≡ hold_release) ⊎ (a ≡ focus_lost)

-- What a batch leaves of the dispatcher `d`, and what it may hold.
pub record Batch (d : SpeedHotkeyDispatcher) (p : SpeedHotkeyDispatcher × List SpeedAction)
    : Type 0 where
  pub same_bindings : p.0.bindings ≡ d.bindings
  pub tracks : is_some p.0.held ≡ holds_after_all (is_some d.held) p.1
  pub paired : Paired (is_some d.held) p.1
  pub offered : All (IsOffered d.bindings) p.1

-- The dispatcher has the focus exactly while the pump does, and holds nothing without it.
pub record IsPump (p : FocusedInputPump) : Type 0 where
  pub same_focus : p.dispatcher.focused ≡ p.focused
  pub unheld : p.focused ≡ false → p.dispatcher.held ≡ none

speed_action-unreleased : (a : Action) → speed_action a ≡ hold_release → ⊥
unfolding speed_action
speed_action-unreleased Action.increase h = ground arith
speed_action-unreleased Action.decrease h = ground arith
speed_action-unreleased Action.toggle h = ground arith
speed_action-unreleased Action.reset h = ground arith
speed_action-unreleased (hold m t) h = ground arith

IsBound-unreleased : (bs : List (KeyChord × Action)) → IsBound bs hold_release → ⊥
IsBound-unreleased [] h = h
IsBound-unreleased ((chord, a) ∷ bs) (inl h) = speed_action-unreleased a h
IsBound-unreleased ((chord, a) ∷ bs) (inr h) = IsBound-unreleased bs h

-- One key's answer, put before the rest of its batch.
push-Batch :
    (d : SpeedHotkeyDispatcher) (q : SpeedHotkeyDispatcher × Option SpeedAction)
    (r : SpeedHotkeyDispatcher × List SpeedAction)
    → Step d q
    → Batch q.0 r
    → Batch d (r.0, push q.1 r.1)
push-Batch d (d', none) r s b = record {
  same_bindings = b.same_bindings ∙ s.same_bindings;
  tracks = b.tracks ∙ ap (λ h. holds_after_all h r.1) s.tracks;
  paired = subst (λ h. Paired h r.1) s.tracks b.paired;
  offered = subst (λ bs. All (IsOffered bs) r.1) s.same_bindings b.offered;
}
push-Batch d (d', some a) r s b = record {
  same_bindings = b.same_bindings ∙ s.same_bindings;
  tracks = b.tracks ∙ ap (λ h. holds_after_all h r.1) s.tracks;
  paired = (released, subst (λ h. Paired h r.1) s.tracks b.paired);
  offered = (kind s.offered, subst (λ bs. All (IsOffered bs) r.1) s.same_bindings b.offered);
}
  where
    kind :
        IsBound d.bindings a ⊎ ((a ≡ hold_release) × (is_some d.held ≡ true))
        → IsOffered d.bindings a
    kind (inl h) = inl h
    kind (inr h) = inr (inl h.0)

    released : a ≡ hold_release → is_some d.held ≡ true
    released e = elim s.offered [
      | inl h ↦ absurd (IsBound-unreleased d.bindings (subst (IsBound d.bindings) e h))
      | inr h ↦ h.1
    ]

feed-Batch :
    (d : SpeedHotkeyDispatcher) (m : Modifiers) (b : Bool) (keys : List ℕ)
    → Batch d (feed d m b keys)
unfolding feed
feed-Batch d m b [] = record { same_bindings = refl; tracks = refl; paired = tt; offered = tt }
feed-Batch d m b (key ∷ keys) =
    let event : KeyEvent = record {
      virtual_key = key;
      modifiers = m;
      pressed = b;
      repeat = false;
    } in
    push-Batch d (on_key d event) (feed (on_key d event).0 m b keys) (on_key-Step d event)
      (feed-Batch (on_key d event).0 m b keys)

feed-focus :
    (d : SpeedHotkeyDispatcher) (m : Modifiers) (b : Bool) (keys : List ℕ)
    → (feed d m b keys).0.focused ≡ d.focused
unfolding feed
feed-focus d m b [] = refl
feed-focus d m b (key ∷ keys) =
    feed-focus
      (on_key d (record { virtual_key = key; modifiers = m; pressed = b; repeat = false })).0 m b
      keys
    ∙ (on_key-Step d
        (record { virtual_key = key; modifiers = m; pressed = b; repeat = false })).same_focus

holds-append :
    (b : Bool) (xs ys : List SpeedAction)
    → holds_after_all b (xs ++ ys) ≡ holds_after_all (holds_after_all b xs) ys
holds-append b [] ys = refl
holds-append b (x ∷ xs) ys = holds-append (holds_after b x) xs ys

Paired-append :
    (b : Bool) (xs ys : List SpeedAction)
    → Paired b xs
    → Paired (holds_after_all b xs) ys
    → Paired b (xs ++ ys)
Paired-append b [] ys h k = k
Paired-append b (x ∷ xs) ys h k = (h.0, Paired-append (holds_after b x) xs ys h.1 k)

append-Batch :
    (d : SpeedHotkeyDispatcher) (q r : SpeedHotkeyDispatcher × List SpeedAction)
    → Batch d q
    → Batch q.0 r
    → Batch d (r.0, q.1 ++ r.1)
append-Batch d q r a b = record {
  same_bindings = b.same_bindings ∙ a.same_bindings;
  tracks =
      b.tracks
      ∙ ap (λ h. holds_after_all h r.1) a.tracks
      ∙ sym (holds-append (is_some d.held) q.1 r.1);
  paired =
      Paired-append (is_some d.held) q.1 r.1 a.paired (subst (λ h. Paired h r.1) a.tracks b.paired);
  offered =
      All-append _ q.1 r.1 a.offered
        (subst (λ bs. All (IsOffered bs) r.1) a.same_bindings b.offered);
}

-- What a sample leaves of the pump, and the batch that it sends.
pub record Sampled (p : FocusedInputPump) (snapshot : InputSnapshot)
    (q : FocusedInputPump × List SpeedAction) : Type 0 where
  pub valid : IsPump q.0
  pub focus : q.0.focused ≡ snapshot.focused
  pub batch : Batch p.dispatcher (q.0.dispatcher, q.1)

pub edges-Sampled :
    (p : FocusedInputPump) (snapshot : InputSnapshot) (down : List ℕ)
    → p.focused ≡ true
    → snapshot.focused ≡ true
    → IsPump p
    → Sampled p snapshot (edges p down)
unfolding edges
edges-Sampled p snapshot down f g v =
    let m = modifiers_of down in
    let released = feed p.dispatcher m false (difference p.previously_down down) in
    let pressed = feed released.0 m true (difference down p.previously_down) in
    record {
      valid = record {
        same_focus =
            feed-focus released.0 m true (difference down p.previously_down)
            ∙ feed-focus p.dispatcher m false (difference p.previously_down down)
            ∙ v.same_focus;
        unheld = λ h. absurd (true-ne-false (sym f ∙ h));
      };
      focus = f ∙ sym g;
      batch =
          append-Batch p.dispatcher released pressed
            (feed-Batch p.dispatcher m false (difference p.previously_down down))
            (feed-Batch released.0 m true (difference down p.previously_down));
    }
  where
    true-ne-false : true ≡ false → ⊥
    true-ne-false h = ground arith
