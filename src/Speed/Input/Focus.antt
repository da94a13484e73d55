-- ===== src/Speed/Input/Focus.antt =====
-- What a snapshot makes the input pump send (`sample` of src/speed_input.rs), and what the focus
-- of the window has to do with it.
use intimatr.Prelude.{
  ℕ, ◌≡◌, refl, sym, ap, ◌∙◌, inl, inr, Bool, true, false, ◌&&◌, none, List, [], ◌∷◌, arith,
  is_some, if◌then◌else◌, Bool-cases, All,
}
use intimatr.Speed.Session.{focus_lost}
use intimatr.Speed.Hotkeys.{SpeedHotkeyDispatcher, contains, on_focus_gained, on_focus_lost}
use intimatr.Speed.Input.{
  FocusedInputPump, InputSnapshot, feed, difference, observed, edges, sample, new,
}
use intimatr.Speed.Input.Laws.{IsPump, Sampled, edges-Sampled}

gained-focus : (d : SpeedHotkeyDispatcher) → d.focused ≡ false → (on_focus_gained d).focused ≡ true
unfolding on_focus_gained
gained-focus d h = rw (h, on_focus_gained) refl

gained-same :
    (d : SpeedHotkeyDispatcher)
    → ((on_focus_gained d).held ≡ d.held) × ((on_focus_gained d).bindings ≡ d.bindings)
unfolding on_focus_gained
gained-same d = (ground arith, ground arith)

true-ne-false : true ≡ false → ⊥
true-ne-false h = ground arith

-- The four ways that `sample` goes.
pub sample_idle :
    (p : FocusedInputPump) (s : InputSnapshot)
    → s.focused ≡ false
    → p.focused ≡ false
    → sample p s ≡ (p, [])
unfolding sample
sample_idle p s h k = rw (h, sample) (rw k refl)

pub sample_lost :
    (p : FocusedInputPump) (s : InputSnapshot)
    → s.focused ≡ false
    → p.focused ≡ true
    → sample p s ≡ (
      record p {
        dispatcher = (on_focus_lost p.dispatcher).0;
        previously_down = [];
        focused = false;
      },
      focus_lost ∷ [],
    )
unfolding sample on_focus_lost
sample_lost p s h k = rw (h, sample) (rw k refl)

pub sample_gained :
    (p : FocusedInputPump) (s : InputSnapshot)
    → s.focused ≡ true
    → p.focused ≡ false
    → sample p s ≡ (
      record p {
        dispatcher = on_focus_gained p.dispatcher;
        previously_down = observed p s;
        focused = true;
      },
      [],
    )
unfolding sample
sample_gained p s h k = rw (h, sample) (rw k refl)

pub sample-edges :
    (p : FocusedInputPump) (s : InputSnapshot)
    → s.focused ≡ true
    → p.focused ≡ true
    → sample p s ≡ edges p (observed p s)
unfolding sample
sample-edges p s h k = rw (h, sample) (rw k refl)

lost-Sampled :
    (p : FocusedInputPump) (s : InputSnapshot)
    → s.focused ≡ false
    → Sampled p s (
      record p {
        dispatcher = (on_focus_lost p.dispatcher).0;
        previously_down = [];
        focused = false;
      },
      focus_lost ∷ [],
    )
unfolding on_focus_lost
lost-Sampled p s h = record {
  valid = record { same_focus = refl; unheld = λ k. refl };
  focus = sym h;
  batch = record {
    same_bindings = refl;
    tracks = refl;
    paired = (λ e. absurd (ground arith), tt);
    offered = (inr (inr refl), tt);
  };
}

gained-Sampled :
    (p : FocusedInputPump) (s : InputSnapshot)
    → s.focused ≡ true
    → p.focused ≡ false
    → IsPump p
    → Sampled p s (
      record p {
        dispatcher = on_focus_gained p.dispatcher;
        previously_down = observed p s;
        focused = true;
      },
      [],
    )
gained-Sampled p s h k v = record {
  valid = record {
    same_focus = gained-focus p.dispatcher (v.same_focus ∙ k);
    unheld = λ e. absurd (true-ne-false e);
  };
  focus = sym h;
  batch = record {
    same_bindings = (gained-same p.dispatcher).1;
    tracks = ap is_some (gained-same p.dispatcher).0;
    paired = tt;
    offered = tt;
  };
}

-- For every snapshot, a pump in its invariant stays in it and takes the snapshot's focus. Each
-- action that it sends is one of the bound actions, the release of a chord that is held at that
-- point, or the loss of the focus; and the batch tells whether the dispatcher holds a chord
-- afterwards.
pub sample-Sampled :
    (p : FocusedInputPump) (s : InputSnapshot) → IsPump p → Sampled p s (sample p s)
sample-Sampled p s v = elim (Bool-cases s.focused) [
  | inl h ↦ elim (Bool-cases p.focused) [
    | inl k ↦ rw (sample-edges p s h k) (edges-Sampled p s (observed p s) k h v)
    | inr k ↦ rw (sample_gained p s h k) (gained-Sampled p s h k v)
  ]
  | inr h ↦ elim (Bool-cases p.focused) [
    | inl k ↦ rw (sample_lost p s h k) (lost-Sampled p s h)
    | inr k ↦ rw (sample_idle p s h k) (record {
      valid = v;
      focus = k ∙ sym h;
      batch = record { same_bindings = refl; tracks = refl; paired = tt; offered = tt };
    })
  ]
]

-- Where the window or the pump is without the focus, a snapshot sends the loss of the focus if the
-- pump had it, and else nothing, whatever keys are down.
pub sample_focus :
    (p : FocusedInputPump) (s : InputSnapshot)
    → (s.focused && p.focused) ≡ false
    → (sample p s).1 ≡ (if p.focused then focus_lost ∷ [] else [])
sample_focus p s h = elim (Bool-cases p.focused) [
  | inl k ↦ rw (sample_lost p s (left s.focused (rw k at h)) k, k) refl
  | inr k ↦ elim (Bool-cases s.focused) [
    | inl g ↦ rw (sample_gained p s g k, k) refl
    | inr g ↦ rw (sample_idle p s g k, k) refl
  ]
]
  where
    left : (b : Bool) → (b && true) ≡ false → b ≡ false
    left b g = ground arith

contains_self : (k : ℕ) (keys : List ℕ) → contains (k ∷ keys) k ≡ true
contains_self k keys = ground arith

IsIn-tail : (j : ℕ) (keys : List ℕ) (k : ℕ) → contains keys k ≡ true → contains (j ∷ keys) k ≡ true
IsIn-tail j keys k h = ground arith

subset-All :
    (xs ys : List ℕ)
    → ((k : ℕ) → contains ys k ≡ true → contains xs k ≡ true)
    → All (λ k. contains xs k ≡ true) ys
subset-All xs [] h = tt
subset-All xs (y ∷ ys) h =
    (h y (contains_self y ys), subset-All xs ys (λ k i. h k (IsIn-tail y ys k i)))

filter-none : (xs ys : List ℕ) → All (λ k. contains xs k ≡ true) ys → difference ys xs ≡ []
filter-none xs [] h = refl
filter-none xs (y ∷ ys) h = rw (h.0, filter-none xs ys h.1) refl

difference_self : (keys : List ℕ) → difference keys keys ≡ []
difference_self keys = filter-none keys keys (subset-All keys keys (λ k h. h))

edges_self : (p : FocusedInputPump) → edges p p.previously_down ≡ (p, [])
unfolding edges feed
edges_self p = rw (difference_self p.previously_down) refl

-- Once a focused snapshot is taken, it is what the pump remembers.
focused-again :
    (p : FocusedInputPump) (s : InputSnapshot)
    → s.focused ≡ true
    → p.focused ≡ true
    → p.previously_down ≡ observed p s
    → sample p s ≡ (p, [])
focused-again p s h k e = sample-edges p s h k ∙ ap (edges p) (sym e) ∙ edges_self p

-- For every pump and snapshot, the same snapshot again sends nothing, and leaves the pump as it
-- is: a key that stays down acts once.
pub sample_again :
    (p : FocusedInputPump) (s : InputSnapshot) → sample (sample p s).0 s ≡ ((sample p s).0, [])
unfolding edges
sample_again p s = elim (Bool-cases s.focused) [
  | inl h ↦ elim (Bool-cases p.focused) [
    | inl k ↦ rw (sample-edges p s h k) (focused-again (edges p (observed p s)).0 s h k refl)
    | inr k ↦ rw (sample_gained p s h k) (
        focused-again
          (record p {
            dispatcher = on_focus_gained p.dispatcher;
            previously_down = observed p s;
            focused = true;
          })
          s h refl refl)
  ]
  | inr h ↦ elim (Bool-cases p.focused) [
    | inl k ↦ rw (sample_lost p s h k) (sample_idle _ s h refl)
    | inr k ↦ rw (sample_idle p s h k) (sample_idle p s h k)
  ]
]

-- A new pump is in the invariant, if its dispatcher is as the compiler of hotkeys leaves it.
pub new-IsPump : (d : SpeedHotkeyDispatcher) → d.focused ≡ false → d.held ≡ none → IsPump (new d)
unfolding new
new-IsPump d h k = record { same_focus = h; unheld = λ e. k }
