-- ===== src/Scanner/Next/Counters.antt =====
-- The index and the slots that the workers of the next scan share: neither wraps, and the slots stop
-- the scan exactly at the limit.
use intimatr.Prelude.{
  ℕ, ◌+◌, ◌-◌, ◌^◌, ◌≤◌, ◌<◌, ◌≡◌, refl, ◌∙◌, inl, inr, ◌||◌, List, [], ◌∷◌, arith, length, ltb,
  leb, if◌then◌else◌, max, Bool-cases, ltb→lt, ltb→le, u64_max,
}
use intimatr.Prelude.Threads.{total, total-append}
use intimatr.Scanner.Memory.{MemorySource}
use intimatr.Scanner.Predicate.{ScanPredicate}
use intimatr.Scanner.Value.{ValueType}
use intimatr.Scanner.Engine.{ScanOptions, ResultSlots, reserve_result_slot}
use intimatr.Scanner.Engine.Slots.{step-count, step-granted, step-stop}
use intimatr.Scanner.Next.{
  ScanCandidate, Shared, Worker, ready, taking, finished, in_batch, reserving, failed, Verdict,
  judge, settle, take_batch, step, halted, next_scan_batch, has_ended,
}
use intimatr.Scanner.Next.Weights.{
  kept, left, untaken, in_hand, settle-next, settle-untaken, take_batch-eq,
}

abbrev pub one_each : ScanCandidate → ℕ
one_each c = 1

-- The batches that a worker may still take, in candidates.
abbrev pub credit : Worker → ℕ
credit t = if has_ended t then 0 else next_scan_batch

-- The results that a worker has.
abbrev pub found_of : Worker → ℕ
found_of (ready found) = total one_each found
found_of (taking found) = total one_each found
found_of (finished found) = total one_each found
found_of (in_batch rest found) = total one_each found
found_of (reserving c rest found) = total one_each found
found_of (failed e rest found) = total one_each found

total_one : (c : ScanCandidate) → total one_each (c ∷ []) ≡ 1
unfolding total
total_one c = refl

-- The slots stop the scan exactly at the limit.
pub record IsSlotted (max_results : ℕ) (slots : ResultSlots) : Type 0 where
  pub stops : slots.stop ≡ leb max_results slots.accepted_results
  pub truncates : slots.truncated ≡ leb max_results slots.accepted_results

reserve-IsSlotted :
    (m : ℕ) (slots : ResultSlots)
    → slots.accepted_results < u64_max
    → IsSlotted m slots
    → IsSlotted m (reserve_result_slot slots m).0
reserve-IsSlotted m slots h k = record {
  stops =
      (step-stop slots m).0 ∙ rw (step-count slots m h, k.stops) (widen m slots.accepted_results);
  truncates =
      (step-stop slots m).1
      ∙ rw (step-count slots m h, k.truncates) (widen m slots.accepted_results);
}
  where
    widen : (m a : ℕ) → (leb m a || leb m (a + 1)) ≡ leb m (a + 1)
    widen m a = ground arith

module _ (source : MemorySource) (value_type : ValueType) (p : ScanPredicate)
    (options : ScanOptions) where
  pub settle-slots :
      (s : Shared) (verdict : Verdict) (rest found : List ScanCandidate)
      → (settle source value_type p options s verdict rest found).0.slots ≡ s.slots
  unfolding settle
  settle-slots s verdict rest found = ground arith

  pub settle-cancelled :
      (s : Shared) (verdict : Verdict) (rest found : List ScanCandidate)
      → (settle source value_type p options s verdict rest found).0.cancelled ≡ s.cancelled
  unfolding settle
  settle-cancelled s verdict rest found = ground arith

  settle-running :
      (s : Shared) (verdict : Verdict) (rest found : List ScanCandidate)
      → (credit (settle source value_type p options s verdict rest found).1 ≤ next_scan_batch)
        × (found_of (settle source value_type p options s verdict rest found).1
            ≡ total one_each found)
  unfolding settle
  settle-running s verdict rest found = ground arith

  abbrev pub left_count : List ScanCandidate → ℕ
  left_count cs = left source value_type p options one_each cs

  -- The matches that a worker has in hand, without those that it has found.
  abbrev pub pending : Worker → ℕ
  pending (in_batch rest found) = left_count rest
  pending (reserving c rest found) = 1 + left_count rest
  pending _ = 0

  settle-pending :
      (s : Shared) (c : ScanCandidate) (rest found : List ScanCandidate)
      → pending
          (settle source value_type p options s (judge source value_type p options c) rest found).1
        ≤ left_count (c ∷ rest)
  unfolding settle kept total
  settle-pending s c rest found = ground arith

  module _ (candidates : List ScanCandidate) where
    abbrev go : Shared → Worker → Shared × Worker
    go = step source value_type p options candidates

    -- A round of the inner loop ends at its tests, or settles the verdict.
    pub in_round {κ} :
        (P : Shared × Worker → Type κ) (s : Shared) (c : ScanCandidate)
        (rest found : List ScanCandidate)
        → P (s, ready found)
        → P (settle source value_type p options s (judge source value_type p options c) rest found)
        → P (go s (in_batch (c ∷ rest) found))
    unfolding step
    in_round P s c rest found h k = elim (Bool-cases (halted s)) [
      | inl stops ↦ rw stops h
      | inr goes ↦ rw goes k
    ]

    abbrev pub reached : Shared → ℕ
    reached s = max s.next_index (length candidates + 4095)

    pub step-credit :
        (s : Shared) (t : Worker) → reached (go s t).0 + credit (go s t).1 ≤ reached s + credit t
    unfolding step
    step-credit s (ready found) = ground arith
    step-credit s (taking found) = elim (Bool-cases (leb (length candidates) s.next_index)) [
      | inl over ↦ rw over (omega arith)
      | inr within ↦
          let before : s.next_index < length candidates = ground arith in rw within (omega arith)
    ]
    step-credit s (in_batch [] found) = omega arith
    step-credit s (in_batch (c ∷ rest) found) =
        let verdict = judge source value_type p options c in
        in_round (λ r. reached r.0 + credit r.1 ≤ reached s + next_scan_batch) s c rest found
          (omega arith)
          (rw (settle-next source value_type p options one_each s verdict rest found)
            (omega (arith, (settle-running s verdict rest found).0)))
    step-credit s (reserving c rest found) = omega arith
    step-credit s (finished found) = omega arith
    step-credit s (failed e rest found) = omega arith

    pub step-IsSlotted :
        (s : Shared) (t : Worker)
        → s.slots.accepted_results < u64_max
        → IsSlotted options.max_results s.slots
        → IsSlotted options.max_results (go s t).0.slots
    unfolding step
    step-IsSlotted s (ready found) h k = k
    step-IsSlotted s (taking found) h k = k
    step-IsSlotted s (in_batch [] found) h k = k
    step-IsSlotted s (in_batch (c ∷ rest) found) h k =
        in_round (λ r. IsSlotted options.max_results r.0.slots) s c rest found k
          (rw (settle-slots s (judge source value_type p options c) rest found) k)
    step-IsSlotted s (reserving c rest found) h k =
        reserve-IsSlotted options.max_results s.slots h k
    step-IsSlotted s (finished found) h k = k
    step-IsSlotted s (failed e rest found) h k = k

    take-pending :
        (s : Shared) (found : List ScanCandidate)
        → pending (take_batch source value_type p options candidates s found).1
            + total one_each found
          ≡ in_hand source value_type p options one_each
              (take_batch source value_type p options candidates s found).1
    unfolding take_batch
    take-pending s found = ground arith

    -- The slots taken, and the matches that are still to take one, are at most the matches.
    pub step-pending :
        (s : Shared) (t : Worker)
        → s.next_index + next_scan_batch < 2 ^ 64
        → s.slots.accepted_results < u64_max
        → (go s t).0.slots.accepted_results
            + untaken source value_type p options one_each candidates (go s t).0
            + pending (go s t).1
          ≤ s.slots.accepted_results
            + untaken source value_type p options one_each candidates s
            + pending t
    unfolding step
    step-pending s (ready found) h a = elim (Bool-cases (halted s)) [
      | inl stops ↦ rw stops (omega arith)
      | inr goes ↦ rw goes (omega arith)
    ]
    step-pending s (taking found) h a = omega (
      arith,
      take-pending s found,
      take_batch-eq source value_type p options one_each candidates s found h,
    )
    step-pending s (in_batch [] found) h a = omega arith
    step-pending s (in_batch (c ∷ rest) found) h a =
        let verdict = judge source value_type p options c in
        in_round
          (λ r.
            r.0.slots.accepted_results
              + untaken source value_type p options one_each candidates r.0
              + pending r.1
            ≤ s.slots.accepted_results
              + untaken source value_type p options one_each candidates s
              + left_count (c ∷ rest))
          s c rest found (omega arith)
          (rw (settle-slots s verdict rest found) (
            omega (
              arith,
              settle-untaken source value_type p options one_each candidates s verdict rest found,
              settle-pending s c rest found,
            )))
    step-pending s (reserving c rest found) h a =
        omega (arith, step-count s.slots options.max_results a)
    step-pending s (finished found) h a = omega arith
    step-pending s (failed e rest found) h a = omega arith

    -- The slots taken, up to the limit, are the results found.
    pub step-found :
        (s : Shared) (t : Worker)
        → s.slots.accepted_results < u64_max
        → options.max_results - (go s t).0.slots.accepted_results + found_of (go s t).1
          ≡ options.max_results - s.slots.accepted_results + found_of t
    unfolding step
    step-found s (ready found) h = ground arith
    step-found s (taking found) h = ground arith
    step-found s (in_batch [] found) h = refl
    step-found s (in_batch (c ∷ rest) found) h =
        let verdict = judge source value_type p options c in
        in_round
          (λ r.
            options.max_results - r.0.slots.accepted_results + found_of r.1
            ≡ options.max_results - s.slots.accepted_results + total one_each found)
          s c rest found refl
          (rw (settle-slots s verdict rest found, (settle-running s verdict rest found).1) refl)
    step-found s (reserving c rest found) h =
        let a = s.slots.accepted_results in
        rw (step-count s.slots options.max_results h, step-granted s.slots options.max_results)
          (elim (Bool-cases (ltb a options.max_results)) [
            | inl below ↦
                rw (below, total-append one_each found (c ∷ []))
                  (omega (arith, ltb→lt a options.max_results below, total_one c))
            | inr full ↦ rw full (omega (arith, ltb→le a options.max_results full))
          ])
    step-found s (finished found) h = refl
    step-found s (failed e rest found) h = refl
