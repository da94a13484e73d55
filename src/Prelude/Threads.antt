-- ===== src/Prelude/Threads.antt =====
-- Threads that take steps on a shared state in any order, with a signal from outside, and what
-- carries over from one step of one thread to all.
use Prim.Native.Nat.{ℕ, zero, suc, ◌+◌, ◌≤◌, ◌<◌}
use mathlib.Core.Bool.{Bool, true, false, ◌||◌}
use mathlib.Core.Path.{◌≡◌, refl}
use mathlib.Core.List.{List, [], ◌∷◌, ◌++◌}
use native.Mathlib.Omega.{arith}
use intimatr.Prelude.Tests.{◌==◌}
use intimatr.Prelude.Lists.{All, All-map}

pub data Event : Type 0 where
  turn : ℕ → Event
  signal : Event

-- The sum of a weight over a list.
unfoldable pub total {ℓ} : {A : Type ℓ} → (A → ℕ) → List A → ℕ
total w [] = 0
total w (x ∷ xs) = w x + total w xs

pub total-append {ℓ} :
    {A : Type ℓ} (w : A → ℕ) (xs ys : List A) → total w (xs ++ ys) ≡ total w xs + total w ys
unfolding total
total-append w [] ys = omega arith
total-append w (x ∷ xs) ys = omega (arith, total-append w xs ys)

-- Events that are given in groups.
abbrev pub flatten {ℓ} : {A : Type ℓ} → List (List A) → List A
flatten [] = []
flatten (xs ∷ xss) = xs ++ flatten xss

-- Whether the thread at an index has a turn.
unfoldable pub gives_turn : ℕ → List Event → Bool
gives_turn i [] = false
gives_turn i (turn j ∷ events) = j == i || gives_turn i events
gives_turn i (signal ∷ events) = gives_turn i events

-- Events among which each of so many threads has a turn.
abbrev pub IsRound : ℕ → List Event → Type 0
IsRound n events = (i : ℕ) → i < n → gives_turn i events ≡ true

module _ {S T : Type 0} (step : S → T → S × T) (react : S → S) where
  -- The thread at an index takes one step.
  unfoldable pub step_at : ℕ → S → List T → S × List T
  step_at index s [] = (s, [])
  step_at zero s (t ∷ threads) = let (s', t') = step s t in (s', t' ∷ threads)
  step_at (suc index) s (t ∷ threads) = let (s', rest) = step_at index s threads in (s', t ∷ rest)

  unfoldable pub happen : Event → S → List T → S × List T
  unfolding step_at
  happen (turn index) s threads = step_at index s threads
  happen signal s threads = (react s, threads)

  -- An interleaving.
  unfoldable pub run_threads : List Event → S → List T → S × List T
  unfolding happen
  run_threads [] s threads = (s, threads)
  run_threads (event ∷ events) s threads =
      let (s', threads') = happen event s threads in run_threads events s' threads'

  module _ (f : S → ℕ) (g : T → ℕ) where
    -- What a step of one thread conserves, the step of one among others conserves.
    pub step_at-eq :
        (index : ℕ) (s : S) (threads : List T)
        → ((t : T) → f (step s t).0 + g (step s t).1 ≡ f s + g t)
        → f (step_at index s threads).0 + total g (step_at index s threads).1
          ≡ f s + total g threads
    unfolding step_at total
    step_at-eq index s [] h = refl
    step_at-eq zero s (t ∷ threads) h = omega (arith, h t)
    step_at-eq (suc index) s (t ∷ threads) h = omega (arith, step_at-eq index s threads h)

    pub step_at-le :
        (index : ℕ) (s : S) (threads : List T)
        → ((t : T) → f (step s t).0 + g (step s t).1 ≤ f s + g t)
        → f (step_at index s threads).0 + total g (step_at index s threads).1
          ≤ f s + total g threads
    unfolding step_at total
    step_at-le index s [] h = omega arith
    step_at-le zero s (t ∷ threads) h = omega (arith, h t)
    step_at-le (suc index) s (t ∷ threads) h = omega (arith, step_at-le index s threads h)

  -- A property of the state that every step keeps.
  pub step_at-keeps {κ} :
      (P : S → Type κ) (index : ℕ) (s : S) (threads : List T)
      → ((t : T) → P (step s t).0)
      → P s
      → P (step_at index s threads).0
  unfolding step_at
  step_at-keeps P index s [] h k = k
  step_at-keeps P zero s (t ∷ threads) h k = h t
  step_at-keeps P (suc index) s (t ∷ threads) h k = step_at-keeps P index s threads h k

  -- A property of the threads that a step gives to the one that takes it, and leaves to the others.
  pub step_at-All {κ} :
      (P : S → T → Type κ) (index : ℕ) (s : S) (threads : List T)
      → ((t : T) → P s t → P (step s t).0 (step s t).1)
      → ((t u : T) → P s u → P (step s t).0 u)
      → All (P s) threads
      → All (P (step_at index s threads).0) (step_at index s threads).1
  unfolding step_at
  step_at-All P index s [] own other h = tt
  step_at-All P zero s (t ∷ threads) own other h =
      (own t h.0, All-map (P s) (P (step s t).0) (λ u. other t u) threads h.1)
  step_at-All P (suc index) s (t ∷ threads) own other h = (
    step_at-keeps (λ s'. P s' t) index s threads (λ u. other u t h.0) h.0,
    step_at-All P index s threads own other h.1,
  )
