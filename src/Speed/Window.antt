-- ===== src/Speed/Window.antt =====
-- src/speed_window.rs: which window is the game's, and the switch from one window to another. A text
-- is the list of its characters.
pub mod Laws
use intimatr.Prelude.{
  ℕ, Bool, true, false, not, ◌&&◌, ◌||◌, Option, none, some, List, [], ◌∷◌, Result, ok, err, filter,
  ◌==◌, if◌then◌else◌,
}
use intimatr.Speed.Input.{InputSnapshot}

pub record WindowCandidate : Type 0 where
  pub id : ℕ
  pub current_process : Bool
  pub top_level : Bool
  pub visible : Bool
  pub owned : Bool
  pub tool_window : Bool
  pub title : List ℕ

pub data SelectionError : Type 0 where
  no_eligible_window ambiguous_windows enumeration_failed : SelectionError

abbrev pub starts_with : List ℕ → List ℕ → Bool
starts_with text [] = true
starts_with [] (c ∷ prefix_) = false
starts_with (d ∷ text) (c ∷ prefix_) = d == c && starts_with text prefix_

-- "Intimatr — " and "Intimatr Debugger — "
unfoldable pub is_intimatr_tool_title : List ℕ → Bool
is_intimatr_tool_title title =
    starts_with title (73 ∷ 110 ∷ 116 ∷ 105 ∷ 109 ∷ 97 ∷ 116 ∷ 114 ∷ 32 ∷ 8212 ∷ 32 ∷ [])
    || starts_with title (
        73 ∷ 110 ∷ 116 ∷ 105 ∷ 109 ∷ 97 ∷ 116 ∷ 114 ∷ 32 ∷ 68 ∷ 101 ∷ 98 ∷ 117 ∷ 103 ∷ 103 ∷ 101
        ∷ 114 ∷ 32 ∷ 8212 ∷ 32 ∷ [])

unfoldable pub eligible : WindowCandidate → Bool
unfolding is_intimatr_tool_title
eligible w =
    not (w.id == 0)
    && w.current_process
    && w.top_level
    && w.visible
    && not w.owned
    && not w.tool_window
    && not (is_intimatr_tool_title w.title)

-- The loop over the eligible windows, with what it has selected.
unfoldable pub select : Option ℕ → List WindowCandidate → Result SelectionError ℕ
select none [] = err no_eligible_window
select (some id) [] = ok id
select none (w ∷ windows) = select (some w.id) windows
select (some id) (w ∷ windows) = err ambiguous_windows

unfoldable pub choose_unique : List WindowCandidate → Result SelectionError ℕ
unfolding select
choose_unique candidates = select none (filter eligible candidates)

pub record FocusedWindowEpoch : Type 0 where
  pub active_window : Option ℕ

-- `InputSnapshot::default()`
abbrev pub no_input : InputSnapshot
no_input = record { focused = false; down_keys = [] }

-- `is_some_and(|previous| previous != window)`
abbrev pub is_other : Option ℕ → ℕ → Bool
is_other none window = false
is_other (some previous) window = not (previous == window)

unfoldable pub observe :
    FocusedWindowEpoch → Option (ℕ × InputSnapshot) → FocusedWindowEpoch × InputSnapshot
observe epoch none = (record { active_window = none }, no_input)
observe epoch (some (window, snapshot)) =
    if window == 0 || not snapshot.focused then (record { active_window = none }, no_input) else (
      record { active_window = some window },
      if is_other epoch.active_window window then no_input else snapshot,
    )
