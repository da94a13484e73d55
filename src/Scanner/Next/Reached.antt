-- ===== src/Scanner/Next/Reached.antt =====
-- The invariant of the next scan, in whatever order its workers take their steps.
use native.Mathlib.Nat.{le_trans}
use intimatr.Prelude.{
  ℕ, zero, suc, ◌+◌, ◌-◌, ◌*◌, ◌^◌, ◌≤◌, ◌<◌, ◌≡◌, refl, ◌∙◌, inl, inr, Bool, true, false, ◌||◌,
  List, [], ◌∷◌, arith, length, ltb, leb, Bool-cases, u64_max, All, All-map,
}
use intimatr.Prelude.Threads.{
  Event, turn, signal, total, step_at, happen, run_threads, step_at-eq, step_at-le, step_at-keeps,
  step_at-All,
}
use intimatr.Scanner.Memory.{MemorySource}
use intimatr.Scanner.Predicate.{ScanPredicate}
use intimatr.Scanner.Value.{ValueType}
use intimatr.Scanner.Engine.{ScanOptions, reserve_result_slot}
use intimatr.Scanner.Engine.Slots.{step-granted}
use intimatr.Scanner.Next.{
  ScanCandidate, Shared, Worker, ready, finished, step, halted, next_scan_batch, cancel,
  fresh_shared, replicate,
}
use intimatr.Scanner.Next.Weights.{kept, left, untaken, in_hand, step-eq, step-le}
use intimatr.Scanner.Next.Counters.{
  one_each, credit, found_of, IsSlotted, left_count, pending, reached, step-credit, step-IsSlotted,
  step-pending, step-found,
}
use intimatr.Scanner.Next.Flags.{HasReason, step-halted, HasReason-later, step-HasReason}

module _ (source : MemorySource) (value_type : ValueType) (p : ScanPredicate)
    (options : ScanOptions) (candidates : List ScanCandidate) where
  abbrev go : Shared → Worker → Shared × Worker
  go = step source value_type p options candidates

  -- What holds of the shared state and the workers of a scan at every point. `n` is their number.
  pub record IsScan (n : ℕ) (s : Shared) (workers : List Worker) : Type 0 where
    pub credits :
        reached source value_type p options candidates s + total credit workers
        ≤ length candidates + 4095 + 4096 * n
    pub slotted : IsSlotted options.max_results s.slots
    pub taken :
        s.slots.accepted_results
          + untaken source value_type p options one_each candidates s
          + total (pending source value_type p options) workers
        ≤ left_count source value_type p options candidates
    pub found :
        options.max_results - s.slots.accepted_results + total found_of workers
        ≡ options.max_results
    pub below :
        (w : ScanCandidate → ℕ)
        → untaken source value_type p options w candidates s
            + total (in_hand source value_type p options w) workers
          ≤ left source value_type p options w candidates
    pub whole :
        halted s ≡ false
        → (w : ScanCandidate → ℕ)
        → untaken source value_type p options w candidates s
            + total (in_hand source value_type p options w) workers
          ≡ left source value_type p options w candidates
    pub reasons : All (HasReason source value_type p options candidates s) workers
    pub size : total (λ (t : Worker). 1) workers ≡ n

  left_count-le : (cs : List ScanCandidate) → left_count source value_type p options cs ≤ length cs
  unfolding kept total
  left_count-le [] = omega arith
  left_count-le (c ∷ cs) = ground (arith, left_count-le cs)

  module _ (n : ℕ) (fits : length candidates + 8192 + 4096 * n ≤ 2 ^ 64) where
    pub next_fits :
        {s : Shared} {workers : List Worker}
        → IsScan n s workers
        → s.next_index + next_scan_batch < 2 ^ 64
    next_fits k = omega (arith, k.credits)

    slots_fit :
        {s : Shared} {workers : List Worker}
        → IsScan n s workers
        → s.slots.accepted_results < u64_max
    slots_fit k = omega (arith, k.taken, left_count-le candidates)

    -- A scan that is not halted has slots.
    granted :
        {s : Shared} {workers : List Worker}
        → IsScan n s workers
        → halted s ≡ false
        → (reserve_result_slot s.slots options.max_results).1 ≡ true
    granted {s} k h =
        step-granted s.slots options.max_results
        ∙ below_limit options.max_results s.slots.accepted_results s.slots.stop s.cancelled
            k.slotted.stops h
      where
        below_limit :
            (m a : ℕ) (stop cancelled : Bool)
            → stop ≡ leb m a
            → (cancelled || stop) ≡ false
            → ltb a m ≡ true
        below_limit m a stop cancelled e h = ground arith

    step_at-whole :
        (index : ℕ) {s : Shared} {workers : List Worker}
        → IsScan n s workers
        → halted (step_at go cancel index s workers).0 ≡ false
        → (w : ScanCandidate → ℕ)
        → untaken source value_type p options w candidates (step_at go cancel index s workers).0
            + total (in_hand source value_type p options w) (step_at go cancel index s workers).1
          ≡ left source value_type p options w candidates
    step_at-whole index {s} {workers} k h w = elim (Bool-cases (halted s)) [
      | inl stops ↦
          let still =
            step_at-keeps go cancel (λ s'. halted s' ≡ true) index s workers
              (λ t. step-halted source value_type p options candidates s t stops) stops in
          absurd (ground (arith, still))
      | inr goes ↦
          step_at-eq go cancel (untaken source value_type p options w candidates)
            (in_hand source value_type p options w) index s workers
            (λ t.
              step-eq source value_type p options w candidates s t (next_fits k) goes
                (granted k goes))
          ∙ k.whole goes w
    ]

    pub step_at-IsScan :
        (index : ℕ) {s : Shared} {workers : List Worker}
        → IsScan n s workers
        → IsScan n (step_at go cancel index s workers).0 (step_at go cancel index s workers).1
    step_at-IsScan index {s} {workers} k = record {
      credits =
          le_trans
            (step_at-le go cancel (reached source value_type p options candidates) credit index s
              workers (λ t. step-credit source value_type p options candidates s t))
            k.credits;
      slotted =
          step_at-keeps go cancel (λ s'. IsSlotted options.max_results s'.slots) index s workers
            (λ t. step-IsSlotted source value_type p options candidates s t (slots_fit k) k.slotted)
            k.slotted;
      taken =
          le_trans
            (step_at-le go cancel
              (λ s'.
                s'.slots.accepted_results
                + untaken source value_type p options one_each candidates s')
              (pending source value_type p options) index s workers
              (λ t.
                step-pending source value_type p options candidates s t (next_fits k)
                  (slots_fit k)))
            k.taken;
      found =
          step_at-eq go cancel (λ s'. options.max_results - s'.slots.accepted_results) found_of
            index s workers
            (λ t. step-found source value_type p options candidates s t (slots_fit k))
          ∙ k.found;
      below = λ w.
          le_trans
            (step_at-le go cancel (untaken source value_type p options w candidates)
              (in_hand source value_type p options w) index s workers
              (λ t. step-le source value_type p options w candidates s t (next_fits k)))
            (k.below w);
      whole = step_at-whole index k;
      reasons =
          step_at-All go cancel (HasReason source value_type p options candidates) index s workers
            (λ t r. step-HasReason source value_type p options candidates s t (next_fits k) r)
            (λ t u r. HasReason-later source value_type p options candidates s t u (next_fits k) r)
            k.reasons;
      size =
          omega (arith, step_at-eq go cancel (λ _. 0) (λ _. 1) index s workers (λ t. refl), k.size);
    }

    cancel-HasReason :
        (s : Shared) (workers : List Worker)
        → All (HasReason source value_type p options candidates s) workers
        → All (HasReason source value_type p options candidates (cancel s)) workers
    cancel-HasReason s workers =
        All-map (HasReason source value_type p options candidates s)
          (HasReason source value_type p options candidates (cancel s)) cancelled workers
      where
        cancelled :
            (t : Worker)
            → HasReason source value_type p options candidates s t
            → HasReason source value_type p options candidates (cancel s) t
        cancelled (finished found) k = inl refl
        cancelled _ k = tt

    pub happen-IsScan :
        (event : Event) {s : Shared} {workers : List Worker}
        → IsScan n s workers
        → IsScan n (happen go cancel event s workers).0 (happen go cancel event s workers).1
    unfolding happen
    happen-IsScan (turn index) k = step_at-IsScan index k
    happen-IsScan signal {s} {workers} k = record {
      credits = k.credits;
      slotted = k.slotted;
      taken = k.taken;
      found = k.found;
      below = k.below;
      whole = λ h. absurd (ground arith);
      reasons = cancel-HasReason s workers k.reasons;
      size = k.size;
    }

    -- Whatever order the workers take their steps in, and whenever the scan is cancelled.
    pub run-IsScan :
        (events : List Event) {s : Shared} {workers : List Worker}
        → IsScan n s workers
        → IsScan n
            (run_threads go cancel events s workers).0
            (run_threads go cancel events s workers).1
    unfolding run_threads
    run-IsScan [] k = k
    run-IsScan (event ∷ events) k = run-IsScan events (happen-IsScan event k)

  total-replicate :
      (g : Worker → ℕ) (k n : ℕ) → g (ready []) ≡ k → total g (replicate n (ready [])) ≡ k * n
  unfolding total
  total-replicate g k zero h = omega arith
  total-replicate g k (suc n) h = grind (arith, total-replicate g k n h)

  replicate-HasReason :
      (s : Shared) (n : ℕ)
      → All (HasReason source value_type p options candidates s) (replicate n (ready []))
  replicate-HasReason s zero = tt
  replicate-HasReason s (suc n) = (tt, replicate-HasReason s n)

  -- It holds at the start.
  pub fresh-IsScan :
      (n : ℕ) (cancelled : Bool)
      → 0 < options.max_results
      → IsScan n (fresh_shared cancelled) (replicate n (ready []))
  unfolding total
  fresh-IsScan n cancelled h = record {
    credits = omega (arith, total-replicate credit 4096 n refl);
    slotted = record { stops = ground arith; truncates = ground arith };
    taken = omega (arith, total-replicate (pending source value_type p options) 0 n refl);
    found = omega (arith, total-replicate found_of 0 n refl);
    below = λ w. omega (arith, total-replicate (in_hand source value_type p options w) 0 n refl);
    whole = λ _ w. omega (arith, total-replicate (in_hand source value_type p options w) 0 n refl);
    reasons = replicate-HasReason (fresh_shared cancelled) n;
    size = omega (arith, total-replicate (λ _. 1) 1 n refl);
  }
