-- ===== src/Scanner/Next/Complete.antt =====
-- What the next scan returns, in whatever order its workers take their steps, is what a scan of the
-- candidates one after the other finds.
use mathlib.Core.Path.{subst}
use intimatr.Prelude.{
  ℕ, ◌+◌, ◌*◌, ◌^◌, ◌≤◌, ◌<◌, ◌≡◌, refl, ap, sym, ◌∙◌, ◌⊎◌, inl, inr, Bool, true, false, Option,
  none, some, List, [], ◌∷◌, Result, ok, err, arith, length, take, all, leb, if◌then◌else◌,
  Bool-cases, Result-cases, ok-injective, >>=-eq-ok,
}
use intimatr.Prelude.Threads.{Event, total, run_threads}
use intimatr.Scanner.Memory.{MemorySource}
use intimatr.Scanner.Predicate.{ScanPredicate}
use intimatr.Scanner.Value.{ValueType}
use intimatr.Scanner.Engine.{ScanOptions, ScanError, validate_options, resolve_worker_count}
use intimatr.Scanner.Next.{
  ScanCandidate, ScanSession, Shared, Worker, ready, halted, step, cancel, fresh_shared, replicate,
  has_ended, join_all, gather, sort_by_address, stats_of, scan_candidates, next_scan,
}
use intimatr.Scanner.Next.Weights.{kept, left}
use intimatr.Scanner.Next.Counters.{one_each}
use intimatr.Scanner.Next.Reached.{IsScan, run-IsScan, fresh-IsScan}
use intimatr.Scanner.Next.Order.{kept-StrictlyRising}
use intimatr.Scanner.Next.Sorting.{
  Rising, StrictlyRising, total-sort_by_address, sort_by_address-Rising, eq_of_items, take_all,
}
use intimatr.Scanner.Next.Joined.{
  length-total, merged-whole, merged-le, length-merged, merged-truncated, count-le, limit_pos,
}

some-injective {ℓ} : {A : Type ℓ} {a b : A} → some a ≡ some b → a ≡ b
some-injective h = cc

-- What stands behind a result: the state and the workers that it was gathered from.
pub record Ran (source : MemorySource) (t : ValueType) (p : ScanPredicate) (options : ScanOptions)
    (candidates : List ScanCandidate) (result : ScanSession) : Type 0 where
  pub n : ℕ
  pub s : Shared
  pub workers : List Worker
  pub merged : List ScanCandidate
  pub some_workers : 0 < n
  pub invariant : IsScan source t p options candidates n s workers
  pub ended : all has_ended workers ≡ true
  pub joined : join_all workers ≡ ok merged
  pub gathered : take options.max_results (sort_by_address merged) ≡ result.candidates
  pub counted : stats_of s ≡ result.stats

gather-eq-ok :
    (options : ScanOptions) (t : ValueType) (s : Shared) (workers : List Worker)
    {result : ScanSession}
    → gather options t s workers ≡ ok result
    → (merged : List ScanCandidate) × (join_all workers ≡ ok merged)
      × (take options.max_results (sort_by_address merged) ≡ result.candidates)
      × (stats_of s ≡ result.stats)
unfolding gather
gather-eq-ok options t s workers h =
    let (merged, joined, made) = >>=-eq-ok (join_all workers) _ h in
    let same = ok-injective made in
    (merged, joined, ap (λ r. r.candidates) same, ap (λ r. r.stats) same)

ended-ok :
    (options : ScanOptions) (t : ValueType) (s : Shared) (workers : List Worker)
    {result : ScanSession}
    → (if all has_ended workers then some (gather options t s workers) else none) ≡ some (ok result)
    → (all has_ended workers ≡ true) × (gather options t s workers ≡ ok result)
ended-ok options t s workers h = elim (Bool-cases (all has_ended workers)) [
  | inl ended ↦ (ended, some-injective (rw ended at h))
  | inr running ↦ absurd (ground arith)
]

scan_candidates-Ran :
    (available : Option ℕ) (cancelled : Bool) (events : List Event) (source : MemorySource)
    (t : ValueType) (p : ScanPredicate) (options : ScanOptions) (c : ScanCandidate)
    (cs : List ScanCandidate) {result : ScanSession}
    → length (c ∷ cs) + 8192 + 4096 * 64 ≤ 2 ^ 64
    → 0 < options.max_results
    → scan_candidates available cancelled events source t p options (c ∷ cs) ≡ some (ok result)
    → Ran source t p options (c ∷ cs) result
unfolding scan_candidates
scan_candidates-Ran available cancelled events source t p options c cs fits pos h =
    let n = resolve_worker_count available options.worker_threads (length (c ∷ cs)) in
    let go = step source t p options (c ∷ cs) in
    let ran = run_threads go cancel events (fresh_shared cancelled) (replicate n (ready [])) in
    let (ended, gathers) = ended-ok options t ran.0 ran.1 h in
    let (merged, joined, gathered, counted) = gather-eq-ok options t ran.0 ran.1 gathers in
    record {
      n = n;
      s = ran.0;
      workers = ran.1;
      merged = merged;
      some_workers = (count-le options available (length (c ∷ cs))).0;
      invariant =
          run-IsScan source t p options (c ∷ cs) n
            (omega (arith, (count-le options available (length (c ∷ cs))).1)) events
            (fresh-IsScan source t p options (c ∷ cs) n cancelled pos);
      ended = ended;
      joined = joined;
      gathered = gathered;
      counted = counted;
    }

module _ {source : MemorySource} {t : ValueType} {p : ScanPredicate} {options : ScanOptions}
    {candidates : List ScanCandidate} {result : ScanSession}
    (r : Ran source t p options candidates result) where
  open r use {n, s, workers, merged, some_workers, invariant, ended, joined, gathered, counted}

  merged-bounded : length merged ≤ options.max_results
  merged-bounded =
      omega
        (arith, length-merged source t p options candidates n some_workers invariant ended joined)

  -- Nothing is cut off.
  candidates-sorted : result.candidates ≡ sort_by_address merged
  candidates-sorted =
      let same : length (sort_by_address merged) ≡ length merged =
        sym (length-total (sort_by_address merged))
        ∙ total-sort_by_address one_each merged
        ∙ length-total merged in
      sym gathered
      ∙ take_all options.max_results (sort_by_address merged) (omega (arith, same, merged-bounded))

  total-candidates : (w : ScanCandidate → ℕ) → total w result.candidates ≡ total w merged
  total-candidates w = ap (total w) candidates-sorted ∙ total-sort_by_address w merged

  ran-bounded : length result.candidates ≤ options.max_results
  ran-bounded = omega (
    arith,
    length-total result.candidates,
    total-candidates one_each,
    length-total merged,
    merged-bounded,
  )

  ran-Rising : Rising result.candidates
  ran-Rising = subst Rising (sym candidates-sorted) (sort_by_address-Rising merged)

  ran-le :
      (w : ScanCandidate → ℕ) → total w result.candidates ≤ left source t p options w candidates
  ran-le w = omega (
    arith,
    total-candidates w,
    merged-le source t p options candidates n some_workers invariant ended joined w,
  )

  ran-truncated :
      result.stats.cancelled ≡ false
      → result.stats.truncated
        ≡ leb options.max_results (length (kept source t p options candidates))
  ran-truncated h =
      ap (λ c. c.truncated) (sym counted)
      ∙ merged-truncated source t p options candidates n some_workers invariant ended joined
          (ap (λ c. c.cancelled) counted ∙ h)
      ∙ ap (leb options.max_results) (length-total (kept source t p options candidates))

  ran-whole :
      result.stats.cancelled ≡ false
      → length (kept source t p options candidates) < options.max_results
      → (w : ScanCandidate → ℕ) → total w result.candidates ≡ left source t p options w candidates
  ran-whole h few w =
      total-candidates w
      ∙ merged-whole source t p options candidates n some_workers invariant ended joined still w
    where
      still : halted s ≡ false
      still = ground (
        arith,
        ap (λ c. c.cancelled) counted,
        ap (λ c. c.truncated) counted,
        ran-truncated h,
        invariant.slotted.stops,
        invariant.slotted.truncates,
      )

-- What a result of the candidates is: nothing of none, or what workers have found.
Outcome :
    MemorySource
    → ValueType
    → ScanPredicate
    → ScanOptions
    → List ScanCandidate
    → ScanSession
    → Type 0
Outcome source t p options candidates result =
    ((candidates ≡ []) × (result.candidates ≡ []) × (result.stats.truncated ≡ false))
    ⊎ Ran source t p options candidates result

scan_candidates-Outcome :
    (available : Option ℕ) (cancelled : Bool) (events : List Event) (source : MemorySource)
    (t : ValueType) (p : ScanPredicate) (options : ScanOptions) (candidates : List ScanCandidate)
    {result : ScanSession}
    → length candidates + 8192 + 4096 * 64 ≤ 2 ^ 64
    → 0 < options.max_results
    → scan_candidates available cancelled events source t p options candidates ≡ some (ok result)
    → Outcome source t p options candidates result
unfolding Outcome scan_candidates
scan_candidates-Outcome available cancelled events source t p options [] fits pos h =
    let same = ok-injective (some-injective h) in
    inl (refl, ap (λ r. r.candidates) (sym same), ap (λ r. r.stats.truncated) (sym same))
scan_candidates-Outcome available cancelled events source t p options (c ∷ cs) fits pos h =
    inr (scan_candidates-Ran available cancelled events source t p options c cs fits pos h)

module _ (available : Option ℕ) (cancelled : Bool) (events : List Event) (source : MemorySource)
    (session : ScanSession) (p : ScanPredicate) (options : ScanOptions) (result : ScanSession)
    (fits : length session.candidates + 8192 + 4096 * 64 ≤ 2 ^ 64)
    (scanned : next_scan available cancelled events source session p options
      ≡ some (ok result)) where
  validated :
      (validate_options options ≡ ok tt)
      × (scan_candidates available cancelled events source session.value_type p options
            session.candidates
          ≡ some (ok result))
  unfolding next_scan
  validated = elim (Result-cases (validate_options options)) [
    | inl (done, valid) ↦ (valid, rw (next_scan, valid) at scanned)
    | inr (e, invalid) ↦ absurd (refuse (rw (next_scan, invalid) at scanned))
  ]
    where
      refuse :
          {e : ScanError}
          → ◌≡◌ {A = Option (Result ScanError ScanSession)} (some (err e)) (some (ok result))
          → ⊥
      refuse h = cc

  outcome : Outcome source session.value_type p options session.candidates result
  outcome =
      scan_candidates-Outcome available cancelled events source session.value_type p options
        session.candidates fits (limit_pos options validated.0) validated.1

  abbrev pub matching : List ScanCandidate
  matching = kept source session.value_type p options session.candidates

  -- For candidates whose number leaves room in a `usize` for the indices of 64 workers' batches:
  -- where the next scan returns and was not cancelled, it is called truncated exactly if a scan of
  -- one candidate after the other finds at least as many matches as the limit.
  pub next_scan_truncated :
      result.stats.cancelled ≡ false
      → result.stats.truncated ≡ leb options.max_results (length matching)
  unfolding Outcome kept total
  next_scan_truncated h = elim outcome [
    | inl (none_given, none_found, whole) ↦
        rw (whole, none_given) (ground (arith, limit_pos options validated.0))
    | inr r ↦ ran-truncated r h
  ]

  -- For candidates whose number leaves room in a `usize` for the indices of 64 workers' batches:
  -- where the next scan returns, cancelled, full or not, its candidates are in rising order of
  -- their addresses, are no more than the limit, and hold none more often than the matches of a
  -- scan of one candidate after the other do.
  pub next_scan_sound :
      Rising result.candidates
      × (length result.candidates ≤ options.max_results)
      × ((w : ScanCandidate → ℕ) → total w result.candidates ≤ total w matching)
  unfolding Outcome kept total
  next_scan_sound = elim outcome [
    | inl (none_given, none_found, whole) ↦
        rw (none_found, none_given) (tt, omega arith, λ w. omega arith)
    | inr r ↦ (ran-Rising r, ran-bounded r, ran-le r)
  ]

  -- For candidates in strictly rising order of their addresses, whose number leaves room in a
  -- `usize` for the indices of 64 workers' batches, and in whatever order the workers take their
  -- steps and a cancellation comes: where the next scan returns, was not cancelled, and the
  -- matches are fewer than the limit, its candidates are exactly the matches that a scan of one
  -- candidate after the other finds, in their order.
  pub next_scan_complete :
      StrictlyRising session.candidates
      → result.stats.cancelled ≡ false
      → length matching < options.max_results
      → (result.candidates ≡ matching)
  unfolding Outcome kept total
  next_scan_complete rising h few = elim outcome [
    | inl (none_given, none_found, whole) ↦
        none_found ∙ ap (kept source session.value_type p options) (sym none_given)
    | inr r ↦
        eq_of_items result.candidates matching (ran-Rising r)
          (kept-StrictlyRising source session.value_type p options session.candidates rising)
          (ran-whole r h few)
  ]
