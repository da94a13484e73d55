-- ===== src/Scanner/Next/Progress.antt =====
-- What the workers of the next scan have left to do falls with every step of one that has not ended.
use native.Mathlib.Nat.{le_trans}
use intimatr.Prelude.{
  ℕ, zero, suc, ◌+◌, ◌-◌, ◌*◌, ◌^◌, ◌≤◌, ◌<◌, ◌≡◌, refl, inl, inr, Bool, true, false, not, ◌==◌,
  List, [], ◌∷◌, arith, length, take, drop, all, leb, Bool-cases,
}
use intimatr.Prelude.Threads.{Event, turn, signal, total, step_at, happen, run_threads, step_at-le}
use intimatr.Scanner.Memory.{MemorySource}
use intimatr.Scanner.Predicate.{ScanPredicate}
use intimatr.Scanner.Value.{ValueType}
use intimatr.Scanner.Engine.{ScanOptions}
use intimatr.Scanner.Next.{
  ScanCandidate, Shared, Worker, ready, taking, finished, in_batch, reserving, failed, Verdict,
  judge, settle, keep, take_batch, step, next_scan_batch, cancel, has_ended,
}
use intimatr.Scanner.Next.Weights.{settle-next}
use intimatr.Scanner.Next.Counters.{one_each, in_round}
use intimatr.Scanner.Next.Reached.{IsScan, next_fits, happen-IsScan}

length-take-drop {ℓ} :
    {A : Type ℓ} (n : ℕ) (xs : List A) → length (take n xs) + length (drop n xs) ≡ length xs
length-take-drop zero xs = omega arith
length-take-drop (suc n) [] = omega arith
length-take-drop (suc n) (x ∷ xs) = omega (arith, length-take-drop n xs)

length-drop {ℓ} : {A : Type ℓ} (n : ℕ) (xs : List A) → length (drop n xs) ≡ length xs - n
length-drop zero xs = omega arith
length-drop (suc n) [] = omega arith
length-drop (suc n) (x ∷ xs) = omega (arith, length-drop n xs)

-- The steps that a worker has left, if it takes no other batch.
abbrev pub steps_left : Worker → ℕ
steps_left (ready found) = 2
steps_left (taking found) = 1
steps_left (in_batch rest found) = 3 + 2 * length rest
steps_left (reserving c rest found) = 4 + 2 * length rest
steps_left (finished found) = 0
steps_left (failed e rest found) = 0

settle-left :
    (source : MemorySource) (t : ValueType) (p : ScanPredicate) (options : ScanOptions) (s : Shared)
    (verdict : Verdict) (rest found : List ScanCandidate)
    → steps_left (settle source t p options s verdict rest found).1 ≤ 4 + 2 * length rest
unfolding settle
settle-left source t p options s verdict rest found = ground arith

module _ (source : MemorySource) (value_type : ValueType) (p : ScanPredicate)
    (options : ScanOptions) (candidates : List ScanCandidate) where
  abbrev pub go : Shared → Worker → Shared × Worker
  go = step source value_type p options candidates

  -- A candidate that no worker has taken is good for six steps.
  abbrev pub batches_left : Shared → ℕ
  batches_left s = 6 * (length candidates - s.next_index)

  take_batch-falls :
      (s : Shared) (found : List ScanCandidate)
      → s.next_index + next_scan_batch < 2 ^ 64
      → batches_left (take_batch source value_type p options candidates s found).0
          + steps_left (take_batch source value_type p options candidates s found).1
        < batches_left s + 1
  unfolding take_batch
  take_batch-falls s found h = elim (Bool-cases (leb (length candidates) s.next_index)) [
    | inl over ↦ let past : length candidates ≤ s.next_index = ground arith in rw over (omega arith)
    | inr within ↦
        let before : s.next_index < length candidates = ground arith in
        rw within (
          omega (
            arith,
            length-drop s.next_index candidates,
            length-take-drop next_scan_batch (drop s.next_index candidates),
            length-drop next_scan_batch (drop s.next_index candidates),
          ))
  ]

  step-falls :
      (s : Shared) (t : Worker)
      → s.next_index + next_scan_batch < 2 ^ 64
      → has_ended t ≡ false
      → batches_left (go s t).0 + steps_left (go s t).1 < batches_left s + steps_left t
  unfolding step
  step-falls s (ready found) h r = ground arith
  step-falls s (taking found) h r = take_batch-falls s found h
  step-falls s (in_batch [] found) h r = omega arith
  step-falls s (in_batch (c ∷ rest) found) h r =
      let verdict = judge source value_type p options c in
      in_round source value_type p options candidates
        (λ r. batches_left r.0 + steps_left r.1 < batches_left s + (3 + 2 * suc (length rest))) s c
        rest found (omega arith)
        (rw (settle-next source value_type p options one_each s verdict rest found)
          (omega (arith, settle-left source value_type p options s verdict rest found)))
  step-falls s (reserving c rest found) h r = unfold keep in omega arith
  step-falls s (finished found) h r = absurd (ground arith)
  step-falls s (failed e rest found) h r = absurd (ground arith)

  step-le_left :
      (s : Shared) (t : Worker)
      → s.next_index + next_scan_batch < 2 ^ 64
      → batches_left (go s t).0 + steps_left (go s t).1 ≤ batches_left s + steps_left t
  step-le_left s (finished found) h = unfold step in omega arith
  step-le_left s (failed e rest found) h = unfold step in omega arith
  step-le_left s (ready found) h = omega (arith, step-falls s (ready found) h refl)
  step-le_left s (taking found) h = omega (arith, step-falls s (taking found) h refl)
  step-le_left s (in_batch rest found) h = omega (arith, step-falls s (in_batch rest found) h refl)
  step-le_left s (reserving c rest found) h =
      omega (arith, step-falls s (reserving c rest found) h refl)

  -- Whether there is a worker at an index that has not ended.
  unfoldable pub running_at : ℕ → List Worker → Bool
  running_at i [] = false
  running_at zero (t ∷ workers) = not (has_ended t)
  running_at (suc i) (t ∷ workers) = running_at i workers

  pub some_running :
      (workers : List Worker)
      → all has_ended workers ≡ false
      → (i : ℕ) × (i < length workers) × (running_at i workers ≡ true)
  unfolding running_at
  some_running [] h = absurd (ground arith)
  some_running (t ∷ workers) h = elim (Bool-cases (has_ended t)) [
    | inl ended ↦
        let (i, within, runs) = some_running workers (rw ended at h) in (suc i, omega arith, runs)
    | inr running ↦ (0, omega arith, rw running refl)
  ]

  pub running-falls :
      (i : ℕ) (s : Shared) (workers : List Worker)
      → s.next_index + next_scan_batch < 2 ^ 64
      → running_at i workers ≡ true
      → batches_left (step_at go cancel i s workers).0
          + total steps_left (step_at go cancel i s workers).1
        < batches_left s + total steps_left workers
  unfolding running_at step_at total
  running-falls i s [] h r = absurd (ground arith)
  running-falls zero s (t ∷ workers) h r = omega (arith, step-falls s t h (ground arith))
  running-falls (suc i) s (t ∷ workers) h r = omega (arith, running-falls i s workers h r)

  -- A step of another worker leaves a worker as it is.
  pub running_at-other :
      (i j : ℕ) (s : Shared) (workers : List Worker)
      → (j == i) ≡ false
      → running_at i (step_at go cancel j s workers).1 ≡ running_at i workers
  unfolding running_at step_at
  running_at-other i j s [] h = refl
  running_at-other zero zero s (t ∷ workers) h = absurd (ground arith)
  running_at-other zero (suc j) s (t ∷ workers) h = refl
  running_at-other (suc i) zero s (t ∷ workers) h = refl
  running_at-other (suc i) (suc j) s (t ∷ workers) h = running_at-other i j s workers (ground arith)

  step-ended : (s : Shared) (t : Worker) → has_ended t ≡ true → has_ended (go s t).1 ≡ true
  unfolding step
  step-ended s (finished found) h = refl
  step-ended s (failed e rest found) h = refl
  step-ended s (ready found) h = absurd (ground arith)
  step-ended s (taking found) h = absurd (ground arith)
  step-ended s (in_batch rest found) h = absurd (ground arith)
  step-ended s (reserving c rest found) h = absurd (ground arith)

  step_at-ended :
      (j : ℕ) (s : Shared) (workers : List Worker)
      → all has_ended workers ≡ true
      → all has_ended (step_at go cancel j s workers).1 ≡ true
  unfolding step_at
  step_at-ended j s [] h = refl
  step_at-ended zero s (t ∷ workers) h =
      let ended = step-ended s t (ground arith) in
      let others : all has_ended workers ≡ true = ground arith in rw (ended, others) refl
  step_at-ended (suc j) s (t ∷ workers) h =
      let ended : has_ended t ≡ true = ground arith in
      rw ended (step_at-ended j s workers (ground arith))

  pub run-ended :
      (events : List Event) (s : Shared) (workers : List Worker)
      → all has_ended workers ≡ true
      → all has_ended (run_threads go cancel events s workers).1 ≡ true
  unfolding run_threads happen
  run-ended [] s workers h = h
  run-ended (turn j ∷ events) s workers h =
      run-ended events (step_at go cancel j s workers).0 (step_at go cancel j s workers).1
        (step_at-ended j s workers h)
  run-ended (signal ∷ events) s workers h = run-ended events (cancel s) workers h

  abbrev pub all_left : Shared → List Worker → ℕ
  all_left s workers = batches_left s + total steps_left workers

  pub happen-le :
      (event : Event) (s : Shared) (workers : List Worker)
      → s.next_index + next_scan_batch < 2 ^ 64
      → all_left (happen go cancel event s workers).0 (happen go cancel event s workers).1
        ≤ all_left s workers
  unfolding happen
  happen-le (turn i) s workers h =
      step_at-le go cancel batches_left steps_left i s workers (λ t. step-le_left s t h)
  happen-le signal s workers h = omega arith

  pub run-le :
      (n : ℕ)
      → length candidates + 8192 + 4096 * n ≤ 2 ^ 64
      → (events : List Event) (s : Shared) (workers : List Worker)
      → IsScan source value_type p options candidates n s workers
      → all_left
          (run_threads go cancel events s workers).0
          (run_threads go cancel events s workers).1
        ≤ all_left s workers
  unfolding run_threads
  run-le n fits [] s workers k = omega arith
  run-le n fits (event ∷ events) s workers k =
      le_trans
        (run-le n fits events (happen go cancel event s workers).0
          (happen go cancel event s workers).1
          (happen-IsScan source value_type p options candidates n fits event k))
        (happen-le event s workers (next_fits source value_type p options candidates n fits k))
