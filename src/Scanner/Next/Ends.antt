-- ===== src/Scanner/Next/Ends.antt =====
-- The next scan ends, under every schedule that keeps giving each worker a turn.
use mathlib.Core.Path.{subst}
use intimatr.Prelude.{
  ℕ, zero, suc, ◌+◌, ◌*◌, ◌^◌, ◌≤◌, ◌<◌, ◌≡◌, refl, sym, ap, ◌∙◌, inl, inr, Bool, true, ◌==◌, All,
  Option, some, List, [], ◌∷◌, ◌++◌, Result, err, arith, length, all, Bool-cases, Result-cases,
}
use intimatr.Prelude.Threads.{
  Event, turn, signal, total, happen, run_threads, gives_turn, IsRound, flatten,
}
use intimatr.Scanner.Memory.{MemorySource}
use intimatr.Scanner.Predicate.{ScanPredicate}
use intimatr.Scanner.Value.{ValueType}
use intimatr.Scanner.Engine.{ScanOptions, ScanError, validate_options, resolve_worker_count}
use intimatr.Scanner.Next.{
  ScanCandidate, ScanSession, Shared, Worker, ready, step, next_scan_batch, cancel, fresh_shared,
  replicate, has_ended, gather, scan_candidates, next_scan,
}
use intimatr.Scanner.Next.Reached.{IsScan, run-IsScan, fresh-IsScan, next_fits, happen-IsScan}
use intimatr.Scanner.Next.Progress.{
  all_left, running_at, some_running, running-falls, running_at-other, run-ended, run-le, happen-le,
  steps_left,
}
use intimatr.Scanner.Next.Joined.{count-le, limit_pos}

run_threads-append :
    {S T : Type 0} (step : S → T → S × T) (react : S → S) (events more : List Event) (s : S)
    (threads : List T)
    → run_threads step react (events ++ more) s threads
      ≡ run_threads step react more
          (run_threads step react events s threads).0
          (run_threads step react events s threads).1
unfolding run_threads
run_threads-append step react [] more s threads = refl
run_threads-append step react (event ∷ events) more s threads =
    run_threads-append step react events more (happen step react event s threads).0
      (happen step react event s threads).1

length-ones : (workers : List Worker) → total (λ (t : Worker). 1) workers ≡ length workers
unfolding total
length-ones [] = refl
length-ones (t ∷ workers) = omega (arith, length-ones workers)

lt_of_le_of_lt : {a b c : ℕ} → a ≤ b → b < c → a < c
lt_of_le_of_lt h k = omega arith

lt_of_lt_of_le : {a b c : ℕ} → a < b → b ≤ c → a < c
lt_of_lt_of_le h k = omega arith

module _ (source : MemorySource) (value_type : ValueType) (p : ScanPredicate)
    (options : ScanOptions) (candidates : List ScanCandidate) (n : ℕ)
    (fits : length candidates + 8192 + 4096 * n ≤ 2 ^ 64) where
  abbrev go : Shared → Worker → Shared × Worker
  go = step source value_type p options candidates

  abbrev IsReached : Shared → List Worker → Type 0
  IsReached s workers = IsScan source value_type p options candidates n s workers

  abbrev left_to_do : Shared → List Worker → ℕ
  left_to_do = all_left source value_type p options candidates

  abbrev runs_at : ℕ → List Worker → Bool
  runs_at = running_at source value_type p options candidates

  room :
      {s : Shared} {workers : List Worker}
      → IsReached s workers
      → s.next_index + next_scan_batch < 2 ^ 64
  room k = next_fits source value_type p options candidates n fits k

  later :
      (event : Event) {s : Shared} {workers : List Worker}
      → IsReached s workers
      → IsReached (happen go cancel event s workers).0 (happen go cancel event s workers).1
  later event k = happen-IsScan source value_type p options candidates n fits event k

  in_range :
      {i : ℕ} {s : Shared} {workers : List Worker}
      → IsReached s workers
      → i < length workers
      → i < n
  in_range {i} {s} {workers} k h = omega (arith, length-ones workers, k.size)

  -- A worker that has not ended takes a step as soon as it has a turn.
  round-falls :
      (i : ℕ) (events : List Event) (s : Shared) (workers : List Worker)
      → IsReached s workers
      → runs_at i workers ≡ true
      → gives_turn i events ≡ true
      → left_to_do
          (run_threads go cancel events s workers).0
          (run_threads go cancel events s workers).1
        < left_to_do s workers
  unfolding run_threads happen gives_turn
  round-falls i [] s workers k r g = absurd (ground arith)
  round-falls i (turn j ∷ events) s workers k r g = elim (Bool-cases (j == i)) [
    | inl same ↦
        let here : j ≡ i = ground arith in
        lt_of_le_of_lt
          (run-le source value_type p options candidates n fits events _ _ (later (turn j) k))
          (running-falls source value_type p options candidates j s workers (room k)
            (subst (λ x. runs_at x workers ≡ true) (sym here) r))
    | inr other ↦
        lt_of_lt_of_le
          (round-falls i events _ _ (later (turn j) k)
            (running_at-other source value_type p options candidates i j s workers other ∙ r)
            (rw other at g))
          (happen-le source value_type p options candidates (turn j) s workers (room k))
  ]
  round-falls i (signal ∷ events) s workers k r g =
      lt_of_lt_of_le (round-falls i events (cancel s) workers (later signal k) r g)
        (happen-le source value_type p options candidates signal s workers (room k))

  -- As many rounds as there are steps left end all the workers.
  ends_after :
      (rounds : List (List Event)) (s : Shared) (workers : List Worker)
      → IsReached s workers
      → All (IsRound n) rounds
      → left_to_do s workers ≤ length rounds
      → all has_ended (run_threads go cancel (flatten rounds) s workers).1 ≡ true
  unfolding run_threads
  ends_after [] s workers k h few = elim (Bool-cases (all has_ended workers)) [
    | inl ended ↦ ended
    | inr running ↦
        let (i, within, runs) =
          some_running source value_type p options candidates workers running in
        absurd (
          omega (
            arith,
            running-falls source value_type p options candidates i s workers (room k) runs,
            few,
          ))
  ]
  ends_after (round ∷ rounds) s workers k h few = elim (Bool-cases (all has_ended workers)) [
    | inl ended ↦
        run-ended source value_type p options candidates (flatten (round ∷ rounds)) s workers ended
    | inr running ↦
        let (i, within, runs) =
          some_running source value_type p options candidates workers running in
        let falls = round-falls i round s workers k runs (h.0 i (in_range k within)) in
        ap (λ r. all has_ended r.1) (run_threads-append go cancel round (flatten rounds) s workers)
        ∙ ends_after rounds _ _ (run-IsScan source value_type p options candidates n fits round k)
            h.1 (omega (arith, falls, few))
  ]

start-left : (n : ℕ) → total steps_left (replicate n (ready [])) ≡ 2 * n
unfolding total
start-left zero = refl
start-left (suc n) = omega (arith, start-left n)

scan_candidates-ends :
    (available : Option ℕ) (cancelled : Bool) (source : MemorySource) (t : ValueType)
    (p : ScanPredicate) (options : ScanOptions) (candidates : List ScanCandidate)
    (rounds : List (List Event))
    → length candidates + 8192 + 4096 * 64 ≤ 2 ^ 64
    → 0 < options.max_results
    → All
        (IsRound (resolve_worker_count available options.worker_threads (length candidates)))
        rounds
    → 6 * length candidates + 128 ≤ length rounds
    → (r : Result ScanError ScanSession) × (scan_candidates available cancelled
          (flatten rounds)
          source
          t
          p
          options
          candidates
        ≡ some r)
unfolding scan_candidates
scan_candidates-ends available cancelled source t p options [] rounds fits pos h few = (_, refl)
scan_candidates-ends available cancelled source t p options (c ∷ cs) rounds fits pos h few =
    let n = resolve_worker_count available options.worker_threads (length (c ∷ cs)) in
    let go = step source t p options (c ∷ cs) in
    let start = fresh_shared cancelled in
    let workers = replicate n (ready []) in
    let bounded = (count-le options available (length (c ∷ cs))).1 in
    let fits' : length (c ∷ cs) + 8192 + 4096 * n ≤ 2 ^ 64 = omega (arith, bounded) in
    let ended =
      ends_after source t p options (c ∷ cs) n fits' rounds start workers
        (fresh-IsScan source t p options (c ∷ cs) n cancelled pos) h
        (omega (arith, start-left n, bounded, few)) in
    (
      gather options t (run_threads go cancel (flatten rounds) start workers).0
          (run_threads go cancel (flatten rounds) start workers).1,
      rw ended refl,
    )

-- For candidates whose number leaves room in a `usize` for the indices of 64 workers' batches,
-- whatever the options and the results of reads: under every schedule made of rounds in each of
-- which every worker has a turn, in any order and with further turns and cancellations anywhere,
-- the scan returns a session or an error if there are at least six rounds for each candidate and
-- 128 more.
pub next_scan_ends :
    (available : Option ℕ) (cancelled : Bool) (source : MemorySource) (session : ScanSession)
    (p : ScanPredicate) (options : ScanOptions) (rounds : List (List Event))
    → length session.candidates + 8192 + 4096 * 64 ≤ 2 ^ 64
    → All
        (IsRound
          (resolve_worker_count available options.worker_threads (length session.candidates)))
        rounds
    → 6 * length session.candidates + 128 ≤ length rounds
    → (r : Result ScanError ScanSession) × (next_scan available cancelled
          (flatten rounds)
          source
          session
          p
          options
        ≡ some r)
unfolding next_scan
next_scan_ends available cancelled source session p options rounds fits h few =
    elim (Result-cases (validate_options options)) [
      | inr (e, invalid) ↦ (err e, rw (next_scan, invalid) refl)
      | inl (done, valid) ↦
          let (r, scanned) =
            scan_candidates-ends available cancelled source session.value_type p options
              session.candidates rounds fits (limit_pos options valid) h few in
          (r, rw (next_scan, valid) scanned)
    ]
