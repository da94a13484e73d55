-- ===== src/Scanner/Next/Flags.antt =====
-- When the workers of the next scan end: the flags that halt it, and the index that runs out.
use intimatr.Prelude.{
  ◌+◌, ◌^◌, ◌≤◌, ◌<◌, ◌≡◌, ◌⊎◌, inl, inr, true, List, [], ◌∷◌, arith, length, leb, Bool-cases,
}
use intimatr.Scanner.Memory.{MemorySource}
use intimatr.Scanner.Predicate.{ScanPredicate}
use intimatr.Scanner.Value.{ValueType}
use intimatr.Scanner.Engine.{ScanOptions}
use intimatr.Scanner.Engine.Slots.{step-stop}
use intimatr.Scanner.Next.{
  ScanCandidate, Shared, Worker, ready, taking, finished, in_batch, reserving, failed, Verdict,
  unreadable, rejected, undecodable, unmatched, accepted, judge, settle, keep, take_batch, step,
  halted, next_scan_batch,
}
use intimatr.Scanner.Next.Weights.{settle-next}
use intimatr.Scanner.Next.Counters.{one_each, settle-slots, settle-cancelled, in_round}

module _ (source : MemorySource) (value_type : ValueType) (p : ScanPredicate)
    (options : ScanOptions) (candidates : List ScanCandidate) where
  abbrev pub go : Shared → Worker → Shared × Worker
  go = step source value_type p options candidates

  -- A worker ends without an error only if the scan is halted or every candidate is taken.
  abbrev pub HasReason : Shared → Worker → Type 0
  HasReason s (finished found) = (halted s ≡ true) ⊎ (length candidates ≤ s.next_index)
  HasReason s _ = Unit

  pub step-halted : (s : Shared) (t : Worker) → halted s ≡ true → halted (go s t).0 ≡ true
  unfolding step
  step-halted s (ready found) h = h
  step-halted s (taking found) h = unfold take_batch in h
  step-halted s (in_batch [] found) h = h
  step-halted s (in_batch (c ∷ rest) found) h =
      let verdict = judge source value_type p options c in
      in_round source value_type p options candidates (λ r. halted r.0 ≡ true) s c rest found h
        (rw
          (
            settle-slots source value_type p options s verdict rest found,
            settle-cancelled source value_type p options s verdict rest found,
          )
          h)
  step-halted s (reserving c rest found) h =
      rw (step-stop s.slots options.max_results).0 (ground arith)
  step-halted s (finished found) h = h
  step-halted s (failed e rest found) h = h

  step-next :
      (s : Shared) (t : Worker)
      → s.next_index + next_scan_batch < 2 ^ 64
      → s.next_index ≤ (go s t).0.next_index
  unfolding step
  step-next s (ready found) h = omega arith
  step-next s (taking found) h = unfold take_batch in omega arith
  step-next s (in_batch [] found) h = omega arith
  step-next s (in_batch (c ∷ rest) found) h =
      let verdict = judge source value_type p options c in
      in_round source value_type p options candidates (λ r. s.next_index ≤ r.0.next_index) s c rest
        found (omega arith)
        (rw (settle-next source value_type p options one_each s verdict rest found) (omega arith))
  step-next s (reserving c rest found) h = unfold keep in omega arith
  step-next s (finished found) h = omega arith
  step-next s (failed e rest found) h = omega arith

  pub HasReason-later :
      (s : Shared) (t u : Worker)
      → s.next_index + next_scan_batch < 2 ^ 64
      → HasReason s u
      → HasReason (go s t).0 u
  HasReason-later s t (finished found) h (inl stops) = inl (step-halted s t stops)
  HasReason-later s t (finished found) h (inr past) = inr (omega (arith, step-next s t h))
  HasReason-later s t _ h k = tt

  settle-HasReason :
      (s : Shared) (verdict : Verdict) (rest found : List ScanCandidate)
      → HasReason
          (settle source value_type p options s verdict rest found).0
          (settle source value_type p options s verdict rest found).1
  unfolding settle
  settle-HasReason s unreadable rest found = tt
  settle-HasReason s rejected rest found = tt
  settle-HasReason s (undecodable e) rest found = tt
  settle-HasReason s (unmatched e) rest found = tt
  settle-HasReason s (accepted c) rest found = tt

  take_batch-HasReason :
      (s : Shared) (found : List ScanCandidate)
      → s.next_index + next_scan_batch < 2 ^ 64
      → HasReason
          (take_batch source value_type p options candidates s found).0
          (take_batch source value_type p options candidates s found).1
  unfolding take_batch
  take_batch-HasReason s found h = elim (Bool-cases (leb (length candidates) s.next_index)) [
    | inl over ↦
        let past : length candidates ≤ s.next_index = ground arith in rw over (inr (omega arith))
    | inr within ↦ rw within tt
  ]

  pub step-HasReason :
      (s : Shared) (t : Worker)
      → s.next_index + next_scan_batch < 2 ^ 64
      → HasReason s t
      → HasReason (go s t).0 (go s t).1
  unfolding step
  step-HasReason s (ready found) h k = elim (Bool-cases (halted s)) [
    | inl stops ↦ rw stops (inl stops)
    | inr goes ↦ rw goes tt
  ]
  step-HasReason s (taking found) h k = take_batch-HasReason s found h
  step-HasReason s (in_batch [] found) h k = tt
  step-HasReason s (in_batch (c ∷ rest) found) h k =
      in_round source value_type p options candidates (λ r. HasReason r.0 r.1) s c rest found tt
        (settle-HasReason s (judge source value_type p options c) rest found)
  step-HasReason s (reserving c rest found) h k = tt
  step-HasReason s (finished found) h k = k
  step-HasReason s (failed e rest found) h k = tt
