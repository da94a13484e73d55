-- ===== src/Examples/Next.antt =====
-- Runs of the theorems on the next scan: two candidates, of which the first has risen.
use intimatr.Prelude.{
  All, zero, suc, ◌≤◌, ◌≡◌, refl, ℕ, true, false, none, some, List, [], ◌∷◌, ok, arith, length, leb,
  Result,
}
use intimatr.Prelude.Threads.{
  IsRound, gives_turn, flatten, Event, turn, run_threads, total, happen, step_at,
}
use intimatr.Float
use intimatr.Scanner.Memory.{MemorySource}
use intimatr.Scanner.Predicate.{unsigned, increased, matches, evaluate}
use intimatr.Scanner.Value.{u8, byte_width, decode, value_of, from_le_bytes}
use intimatr.Scanner.Engine.{
  ScanOptions, ScanError, validate_options, resolve_worker_count, reserve_result_slot,
}
use intimatr.Scanner.Next.{
  replicate, ScanCandidate, ScanSession, empty_stats, next_scan, scan_candidates, step, judge,
  judge_value, settle, keep, take_batch, gather, join_all, sort_by_address, insert_by_address,
}
use intimatr.Scanner.Next.Complete.{
  next_scan_complete, next_scan_truncated, next_scan_sound, matching,
}
use intimatr.Scanner.Next.Weights.{kept}
use intimatr.Scanner.Next.Sorting.{Rising}
use intimatr.Scanner.Next.Ends.{next_scan_ends}

-- A memory of which every byte is 7.
abbrev sevens : MemorySource
sevens = record { regions = ok []; read_exact = λ address width. ok (7 ∷ []) }

abbrev pub options : ScanOptions
options = record {
  chunk_size_bytes = 4096;
  worker_threads = 1;
  alignment = 1;
  max_results = 5;
  float_epsilon = Float.zero;
  region_filter = record {
    require_readable = true;
    require_writable = true;
    require_executable = false;
    include_guard_pages = false;
  };
}

abbrev risen : ScanCandidate
risen = record { address = 16; current = unsigned 7; previous = some (unsigned 3) }

abbrev found_before : ScanSession
found_before = record {
  value_type = u8;
  candidates =
      record { address = 16; current = unsigned 3; previous = none }
      ∷ record { address = 32; current = unsigned 7; previous = none }
      ∷ [];
  stats = empty_stats;
}

abbrev turns : List Event
turns = turn 0 ∷ turn 0 ∷ turn 0 ∷ turn 0 ∷ turn 0 ∷ turn 0 ∷ turn 0 ∷ turn 0 ∷ turn 0 ∷ turn 0 ∷ []

abbrev found_now : ScanSession
found_now = record {
  value_type = u8;
  candidates = risen ∷ [];
  stats = record {
    regions_considered = 0;
    regions_scanned = 0;
    bytes_scanned = 2;
    bytes_read = 2;
    candidates_evaluated = 2;
    read_failures = 0;
    truncated = false;
    cancelled = false;
  };
}

scanned : next_scan none false turns sevens found_before increased options ≡ some (ok found_now)
unfolding next_scan scan_candidates step judge judge_value settle keep take_batch gather join_all
    sort_by_address insert_by_address run_threads happen step_at validate_options
    resolve_worker_count reserve_result_slot matches evaluate byte_width decode value_of
    from_le_bytes
scanned = refl

few :
    length (
      matching none false turns sevens found_before increased options found_now
        (omega arith)
        scanned)
    ≡ 1
unfolding kept judge judge_value matches evaluate byte_width decode value_of from_le_bytes
few = refl

next_scan_complete_example :
    found_now.candidates
    ≡ matching none false turns sevens found_before increased options found_now
        (omega arith)
        scanned
next_scan_complete_example =
    next_scan_complete none false turns sevens found_before increased options found_now
      (omega arith) scanned ((omega arith, tt), (tt, tt)) refl (omega (arith, few))

next_scan_truncated_example :
    false
    ≡ leb 5 (
        length (
          matching none false turns sevens found_before increased options found_now
            (omega arith)
            scanned))
next_scan_truncated_example =
    next_scan_truncated none false turns sevens found_before increased options found_now
      (omega arith) scanned refl

next_scan_sound_example :
    Rising found_now.candidates
    × (length found_now.candidates ≤ 5)
    × ((w : ScanCandidate → ℕ)
        → total w found_now.candidates
          ≤ total w (
              matching none false turns sevens found_before increased options found_now
                (omega arith)
                scanned))
next_scan_sound_example =
    next_scan_sound none false turns sevens found_before increased options found_now (omega arith)
      scanned

-- 140 rounds of one worker.
rounds-IsRound : (n : ℕ) → All (IsRound (resolve_worker_count none 1 2)) (replicate n (turn 0 ∷ []))
unfolding resolve_worker_count gives_turn
rounds-IsRound zero = tt
rounds-IsRound (suc n) = ((λ i h. ground arith), rounds-IsRound n)

next_scan_ends_example :
    (r : Result ScanError ScanSession) × (next_scan none false
        (flatten (replicate 140 (turn 0 ∷ [])))
        sevens
        found_before
        increased
        options
      ≡ some r)
next_scan_ends_example =
    next_scan_ends none false sevens found_before increased options (replicate 140 (turn 0 ∷ []))
      (omega arith) (rounds-IsRound 140) (omega arith)
