-- ===== src/Speed/Window/Laws.antt =====
-- The choice of a window does not depend on the order of the candidates, and a switch from one window
-- to another resets the speed before the keys of the new one count (src/speed_window.rs).
use mathlib.Core.List.{Permᴰ}
use mathlib.Core.List.Permᴰ.{nil, cons, swap, trans}
use intimatr.Prelude.{
  ℕ, zero, suc, ◌+◌, ◌≡◌, refl, sym, ap, ◌∙◌, inl, inr, true, false, none, some, List, [], ◌∷◌,
  Result, ok, err, arith, filter, ◌==◌, Bool-cases, if◌then◌else◌,
}
use intimatr.Prelude.Threads.{total}
use intimatr.Speed.Session.{SpeedAction, focus_lost}
use intimatr.Speed.Input.{InputSnapshot, FocusedInputPump}
use intimatr.Speed.Input
use intimatr.Speed.Input.Focus.{sample_lost, sample_gained}
use intimatr.Speed.Window.{
  WindowCandidate, SelectionError, no_eligible_window, ambiguous_windows, eligible, select,
  choose_unique, FocusedWindowEpoch, no_input, observe,
}

-- A sum over a list does not depend on its order.
total-Perm {ℓ} : {A : Type ℓ} (w : A → ℕ) {xs ys : List A} → Permᴰ xs ys → total w xs ≡ total w ys
unfolding total
total-Perm w nil = refl
total-Perm w (cons e p) = omega (arith, ap w e, total-Perm w p)
total-Perm w (swap e f) = omega (arith, ap w e, ap w f)
total-Perm w (trans p q) = total-Perm w p ∙ total-Perm w q

-- How many of the windows are eligible, and their ids, as sums.
abbrev counted : WindowCandidate → ℕ
counted w = if eligible w then 1 else 0

abbrev counted_id : WindowCandidate → ℕ
counted_id w = if eligible w then w.id else 0

abbrev verdict : ℕ → ℕ → Result SelectionError ℕ
verdict zero id = err no_eligible_window
verdict (suc zero) id = ok id
verdict (suc (suc n)) id = err ambiguous_windows

selected :
    (id : ℕ) (cs : List WindowCandidate)
    → select (some id) (filter eligible cs)
      ≡ verdict (suc (total counted cs)) (id + total counted_id cs)
unfolding select total
selected id [] = ap ok (omega arith)
selected id (c ∷ cs) = elim (Bool-cases (eligible c)) [
  | inl fits ↦
      let more : suc (suc (total counted cs)) ≡ suc (1 + total counted cs) = omega arith in
      rw fits (ap (λ n. verdict n (id + (c.id + total counted_id cs))) more)
  | inr hidden ↦
      let same : suc (total counted cs) ≡ suc (0 + total counted cs) = omega arith in
      let same_id : id + total counted_id cs ≡ id + (0 + total counted_id cs) = omega arith in
      rw hidden (selected id cs ∙ rw (← same, ← same_id) refl)
]

chosen :
    (cs : List WindowCandidate)
    → select none (filter eligible cs) ≡ verdict (total counted cs) (total counted_id cs)
unfolding select total
chosen [] = refl
chosen (c ∷ cs) = elim (Bool-cases (eligible c)) [
  | inl fits ↦
      let more : suc (total counted cs) ≡ 1 + total counted cs = omega arith in
      rw fits (selected c.id cs ∙ ap (λ n. verdict n (c.id + total counted_id cs)) more)
  | inr hidden ↦
      let same : total counted cs ≡ 0 + total counted cs = omega arith in
      let same_id : total counted_id cs ≡ 0 + total counted_id cs = omega arith in
      rw hidden (chosen cs ∙ rw (← same, ← same_id) refl)
]

-- Candidates in any other order lead to the same window or to the same error.
pub choose_unique_any_order :
    (xs ys : List WindowCandidate) → Permᴰ xs ys → choose_unique xs ≡ choose_unique ys
unfolding choose_unique
choose_unique_any_order xs ys p =
    chosen xs ∙ rw (total-Perm counted p, total-Perm counted_id p) refl ∙ sym (chosen ys)

-- What the pump sends for what a window shows, after the epoch.
abbrev pub watch :
    FocusedWindowEpoch
    → FocusedInputPump
    → ℕ
    → InputSnapshot
    → (FocusedWindowEpoch × FocusedInputPump) × List SpeedAction
watch epoch pump window snapshot =
    let (epoch', shown) = observe epoch (some (window, snapshot)) in
    let (pump', actions) = Input.sample pump shown in ((epoch', pump'), actions)

observe-other :
    (epoch : FocusedWindowEpoch) (previous window : ℕ) (snapshot : InputSnapshot)
    → epoch.active_window ≡ some previous
    → (previous == window) ≡ false
    → (window == 0) ≡ false
    → snapshot.focused ≡ true
    → observe epoch (some (window, snapshot)) ≡ (record { active_window = some window }, no_input)
unfolding observe
observe-other epoch previous window snapshot active other named shown =
    rw (named, shown, active) (rw other refl)

observe-same :
    (window : ℕ) (snapshot : InputSnapshot)
    → (window == 0) ≡ false
    → snapshot.focused ≡ true
    → observe (record { active_window = some window }) (some (window, snapshot))
      ≡ (record { active_window = some window }, snapshot)
unfolding observe
observe-same window snapshot named shown =
    let again : (window == window) ≡ true = ground arith in rw (named, shown) (rw again refl)

-- Where a window has the focus of the pump, and another one with an id that is not zero takes it
-- over: its first snapshot sends exactly one loss of the focus whatever keys are down, and the
-- same snapshot again sends nothing, so that a key that is held through the switch does not act.
pub watch_switch :
    (epoch : FocusedWindowEpoch) (pump : FocusedInputPump) (previous window : ℕ)
    (snapshot : InputSnapshot)
    → epoch.active_window ≡ some previous
    → pump.focused ≡ true
    → (previous == window) ≡ false
    → (window == 0) ≡ false
    → snapshot.focused ≡ true
    → ((watch epoch pump window snapshot).1 ≡ focus_lost ∷ [])
      × ((watch
            (watch epoch pump window snapshot).0.0
            (watch epoch pump window snapshot).0.1
            window
            snapshot).1
          ≡ [])
watch_switch epoch pump previous window snapshot active focused other named shown =
    let first = observe-other epoch previous window snapshot active other named shown in
    let lost = sample_lost pump no_input refl focused in
    rw (first, lost)
      (
        refl,
        rw (observe-same window snapshot named shown)
            (ap (λ p. p.1) (sample_gained _ snapshot shown refl)),
      )
