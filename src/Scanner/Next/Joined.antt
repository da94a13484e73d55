-- ===== src/Scanner/Next/Joined.antt =====
-- The joined results of workers that have ended are what a scan of the candidates one after the other
-- finds.
use mathlib.Core.Path.{subst}
use intimatr.Prelude.{
  ℕ, ◌+◌, ◌-◌, ◌≤◌, ◌<◌, ◌≡◌, refl, ap, ◌∙◌, inl, inr, true, false, Option, List, [], ◌∷◌, ◌++◌, ok,
  arith, length, all, leb, Bool-cases, ok-injective, >>=-eq-ok, All,
}
use intimatr.Prelude.Threads.{total, total-append}
use intimatr.Scanner.Memory.{MemorySource}
use intimatr.Scanner.Predicate.{ScanPredicate}
use intimatr.Scanner.Value.{ValueType}
use intimatr.Scanner.Engine.{ScanOptions, validate_options, resolve_worker_count}
use intimatr.Scanner.Next.{
  ScanCandidate, Shared, Worker, finished, failed, halted, has_ended, join_all,
}
use intimatr.Scanner.Next.Weights.{left, left_nil, untaken, in_hand, drop_all}
use intimatr.Scanner.Next.Counters.{one_each, found_of, left_count}
use intimatr.Scanner.Next.Reached.{IsScan}
use intimatr.Scanner.Next.Flags.{HasReason}

-- Joined results are what the workers have found.
total-join_all :
    (w : ScanCandidate → ℕ) (g : Worker → ℕ)
    → ((found : List ScanCandidate) → g (finished found) ≡ total w found)
    → (workers : List Worker) {merged : List ScanCandidate} → all has_ended workers ≡ true
    → join_all workers ≡ ok merged
    → total w merged ≡ total g workers
unfolding join_all total
total-join_all w g same [] h e = subst (λ m. total w m ≡ 0) (ok-injective e) refl
total-join_all w g same (finished found ∷ workers) h e =
    let (others, joined, made) = >>=-eq-ok (join_all workers) (λ others. ok (found ++ others)) e in
    subst (λ m. total w m ≡ g (finished found) + total g workers) (ok-injective made)
      (omega
        (arith, same found, total-append w found others, total-join_all w g same workers h joined))
total-join_all w g same (failed x rest found ∷ workers) h e = absurd (ground arith)
total-join_all w g same (_ ∷ workers) h e = absurd (ground arith)

pub length-total : (cs : List ScanCandidate) → total one_each cs ≡ length cs
unfolding total
length-total [] = refl
length-total (c ∷ cs) = omega (arith, length-total cs)

pub count-le :
    (options : ScanOptions) (available : Option ℕ) (items : ℕ)
    → (0 < resolve_worker_count available options.worker_threads items)
      × (resolve_worker_count available options.worker_threads items ≤ 64)
unfolding resolve_worker_count
count-le options available items = (omega arith, ground arith)

pub limit_pos : (options : ScanOptions) → validate_options options ≡ ok tt → 0 < options.max_results
unfolding validate_options
limit_pos options h = ground arith

first_taken :
    (source : MemorySource) (t : ValueType) (p : ScanPredicate) (options : ScanOptions)
    (candidates : List ScanCandidate) (s : Shared)
    → halted s ≡ false
    → (workers : List Worker) {merged : List ScanCandidate}
    → All (HasReason source t p options candidates s) workers
    → all has_ended workers ≡ true
    → join_all workers ≡ ok merged
    → 0 < total (λ (u : Worker). 1) workers
    → length candidates ≤ s.next_index
unfolding join_all total
first_taken source t p options candidates s h [] r e j z = absurd (omega arith)
first_taken source t p options candidates s h (finished found ∷ workers) r e j z = elim r.0 [
  | inl stops ↦ absurd (ground arith)
  | inr past ↦ past
]
first_taken source t p options candidates s h (failed x rest found ∷ workers) r e j z =
    absurd (ground arith)
first_taken source t p options candidates s h (_ ∷ workers) r e j z = absurd (ground arith)

module _ (source : MemorySource) (t : ValueType) (p : ScanPredicate) (options : ScanOptions)
    (candidates : List ScanCandidate) (n : ℕ) (some_workers : 0 < n) {s : Shared}
    {workers : List Worker} (k : IsScan source t p options candidates n s workers)
    (ended : all has_ended workers ≡ true) {merged : List ScanCandidate}
    (joined : join_all workers ≡ ok merged) where
  -- With an ended worker and nothing that halts the scan, every candidate was taken.
  all_taken : halted s ≡ false → length candidates ≤ s.next_index
  all_taken h =
      first_taken source t p options candidates s h workers k.reasons ended joined
        (omega (arith, k.size))

  pub merged-whole :
      halted s ≡ false
      → (w : ScanCandidate → ℕ) → total w merged ≡ left source t p options w candidates
  merged-whole h w =
      let nothing : untaken source t p options w candidates s ≡ 0 =
        ap (left source t p options w) (drop_all s.next_index candidates (all_taken h))
        ∙ left_nil source t p options w in
      omega (
        arith,
        k.whole h w,
        nothing,
        total-join_all w (in_hand source t p options w) (λ found. refl) workers ended joined,
      )

  pub merged-le : (w : ScanCandidate → ℕ) → total w merged ≤ left source t p options w candidates
  merged-le w = omega (
    arith,
    k.below w,
    total-join_all w (in_hand source t p options w) (λ found. refl) workers ended joined,
  )

  pub length-merged :
      options.max_results - s.slots.accepted_results + length merged ≡ options.max_results
  length-merged = omega (
    arith,
    k.found,
    length-total merged,
    total-join_all one_each found_of (λ found. refl) workers ended joined,
  )

  -- The scan is called truncated exactly if it has found as many matches as it may.
  pub merged-truncated :
      s.cancelled ≡ false
      → s.slots.truncated ≡ leb options.max_results (left_count source t p options candidates)
  merged-truncated h = elim (Bool-cases s.slots.stop) [
    | inl stops ↦
        let reached : options.max_results ≤ s.slots.accepted_results =
          ground (arith, k.slotted.stops) in
        let enough : options.max_results ≤ left_count source t p options candidates =
          omega (arith, k.taken) in
        ground (arith, k.slotted.stops, k.slotted.truncates)
    | inr goes ↦
        let below : s.slots.accepted_results < options.max_results =
          ground (arith, k.slotted.stops) in
        let whole = merged-whole (rw (h, goes) refl) one_each in
        let few : left_count source t p options candidates < options.max_results =
          omega (arith, length-merged, length-total merged, whole) in
        ground (arith, k.slotted.stops, k.slotted.truncates)
  ]
