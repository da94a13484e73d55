-- ===== src/Scanner/Next.antt =====
-- `ScanSession::next_scan_with_progress` of src/scanner/engine.rs: workers that take batches of the
-- candidates of the last scan, and what is made of their results. A step of a worker takes a batch,
-- reads the token, judges a candidate or reserves a slot; the reservation with the two flags it may
-- set, and the additions to the counts that no worker reads, are one step. The memory does not change
-- while the scan runs; the log, the clock and the reports of progress are left out.
pub mod Weights
pub mod Counters
pub mod Flags
pub mod Reached
pub mod Sorting
pub mod Order
pub mod Joined
pub mod Complete
pub mod Progress
pub mod Ends
use intimatr.Prelude.{
  ℕ, zero, suc, ◌+◌, ◌*◌, ◌%◌, ◌^◌, Bool, true, false, ◌||◌, Option, none, some, List, [], ◌∷◌,
  ◌++◌, Result, ok, err, ◌>>=◌, ◌>>◌, length, take, drop, all, leb, if◌then◌else◌,
}
use intimatr.Prelude.Threads.{Event, run_threads}
use intimatr.Scanner.Memory.{MemorySource}
use intimatr.Scanner.Predicate.{ScalarValue, ScanPredicate, matches}
use intimatr.Scanner.Value.{ValueType, byte_width, decode}
use intimatr.Scanner.Engine.{
  ScanOptions, ScanError, predicate, value, ResultSlots, reserve_result_slot, validate_options,
  resolve_worker_count,
}

pub record ScanCandidate : Type 0 where
  pub address : ℕ
  pub current : ScalarValue
  pub previous : Option ScalarValue

pub record ScanStats : Type 0 where
  pub regions_considered : ℕ
  pub regions_scanned : ℕ
  pub bytes_scanned : ℕ
  pub bytes_read : ℕ
  pub candidates_evaluated : ℕ
  pub read_failures : ℕ
  pub truncated : Bool
  pub cancelled : Bool

pub record ScanSession : Type 0 where
  pub value_type : ValueType
  pub candidates : List ScanCandidate
  pub stats : ScanStats

-- What the workers share: the index of the next batch, the counters, the slots and the token.
pub record Shared : Type 0 where
  pub next_index : ℕ
  pub bytes_scanned : ℕ
  pub bytes_read : ℕ
  pub candidates_evaluated : ℕ
  pub read_failures : ℕ
  pub slots : ResultSlots
  pub cancelled : Bool

-- Where a worker is: at the head of its loop, past the tests there, in a batch with the candidates
-- that are left, about to reserve a slot for a match, or ended. Each has its results.
pub data Worker : Type 0 where
  ready taking finished : List ScanCandidate → Worker
  in_batch : List ScanCandidate → List ScanCandidate → Worker
  reserving : ScanCandidate → List ScanCandidate → List ScanCandidate → Worker
  failed : ScanError → List ScanCandidate → List ScanCandidate → Worker

abbrev pub next_scan_batch : ℕ
next_scan_batch = 4096

-- `AtomicU64::fetch_add` and `AtomicUsize::fetch_add`, which wrap.
abbrev pub fetch_add : ℕ → ℕ → ℕ
fetch_add a n = (a + n) % 2 ^ 64

-- `cancellation.is_cancelled() || stop.load(..)`
abbrev pub halted : Shared → Bool
halted s = s.cancelled || s.slots.stop

-- What comes of a candidate.
pub data Verdict : Type 0 where
  unreadable rejected : Verdict
  undecodable unmatched : ScanError → Verdict
  accepted : ScanCandidate → Verdict

abbrev pub verdict_of : Result ScanError Bool → ScanCandidate → Verdict
verdict_of (err e) candidate = unmatched e
verdict_of (ok true) candidate = accepted candidate
verdict_of (ok false) candidate = rejected

-- `predicate.matches(..)?`
abbrev pub lift {ℓ} : {E : Type ℓ} → (E → ScanError) → Result E Bool → Result ScanError Bool
lift f (ok b) = ok b
lift f (err e) = err (f e)

module _ (source : MemorySource) (value_type : ValueType) (p : ScanPredicate)
    (options : ScanOptions) where
  unfoldable pub judge_value : ScanCandidate → ScalarValue → Verdict
  judge_value before current =
      verdict_of (lift predicate (matches p current (some before.current) options.float_epsilon))
        (record { address = before.address; current = current; previous = some before.current })

  unfoldable pub judge : ScanCandidate → Verdict
  unfolding judge_value
  judge before = elim (source.read_exact before.address (byte_width value_type)) [
    | err e ↦ unreadable
    | ok bytes ↦ elim (decode value_type bytes) [
      | err e ↦ undecodable (value e)
      | ok current ↦ judge_value before current
    ]
  ]

  -- The end of a round of the inner loop: what a verdict counts, and where the worker then is.
  unfoldable pub settle :
      Shared → Verdict → List ScanCandidate → List ScanCandidate → Shared × Worker
  settle s verdict rest found =
      let width = byte_width value_type in
      let read = record s { bytes_read = fetch_add s.bytes_read width } in
      let evaluated = record read { candidates_evaluated = fetch_add s.candidates_evaluated 1 } in
      elim verdict [
        | unreadable ↦ (
          record s {
            read_failures = fetch_add s.read_failures 1;
            bytes_scanned = fetch_add s.bytes_scanned width;
          },
          in_batch rest found,
        )
        | undecodable e ↦ (read, failed e rest found)
        | unmatched e ↦ (evaluated, failed e rest found)
        | rejected ↦ (
          record evaluated { bytes_scanned = fetch_add s.bytes_scanned width },
          in_batch rest found,
        )
        | accepted candidate ↦ (evaluated, reserving candidate rest found)
      ]

  -- A slot for a match, and the end of its round.
  unfoldable pub keep :
      Shared → ScanCandidate → List ScanCandidate → List ScanCandidate → Shared × Worker
  keep s candidate rest found =
      let (slots, granted) = reserve_result_slot s.slots options.max_results in
      (
        record s {
          slots = slots;
          bytes_scanned = fetch_add s.bytes_scanned (byte_width value_type);
        },
        in_batch rest (if granted then found ++ (candidate ∷ []) else found),
      )

  module _ (candidates : List ScanCandidate) where
    unfoldable pub take_batch : Shared → List ScanCandidate → Shared × Worker
    take_batch s found =
        let start = s.next_index in
        (
          record s { next_index = fetch_add start next_scan_batch },
          if leb (length candidates) start
              then finished found
              else in_batch (take next_scan_batch (drop start candidates)) found,
        )

    unfoldable pub step : Shared → Worker → Shared × Worker
    unfolding judge settle keep take_batch
    step s (ready found) = (s, if halted s then finished found else taking found)
    step s (taking found) = take_batch s found
    step s (in_batch [] found) = (s, ready found)
    step s (in_batch (before ∷ rest) found) =
        if halted s then (s, ready found) else settle s (judge before) rest found
    step s (reserving candidate rest found) = keep s candidate rest found
    step s (finished found) = (s, finished found)
    step s (failed e rest found) = (s, failed e rest found)

abbrev pub cancel : Shared → Shared
cancel s = record s { cancelled = true }

abbrev pub fresh_shared : Bool → Shared
fresh_shared cancelled = record {
  next_index = 0;
  bytes_scanned = 0;
  bytes_read = 0;
  candidates_evaluated = 0;
  read_failures = 0;
  slots = record { accepted_results = 0; truncated = false; stop = false };
  cancelled = cancelled;
}

abbrev pub has_ended : Worker → Bool
has_ended (finished found) = true
has_ended (failed e rest found) = true
has_ended _ = false

-- `handle.join()??` over the handles, once every worker has ended.
unfoldable pub join_all : List Worker → Result ScanError (List ScanCandidate)
join_all [] = ok []
join_all (failed e rest found ∷ workers) = err e
join_all (finished found ∷ workers) = do others ← join_all workers; ok (found ++ others)
join_all (_ ∷ workers) = join_all workers

-- `sort_unstable_by_key(|candidate| candidate.address)`
unfoldable pub insert_by_address : ScanCandidate → List ScanCandidate → List ScanCandidate
insert_by_address c [] = c ∷ []
insert_by_address c (d ∷ ds) =
    let rest = insert_by_address c ds in if leb c.address d.address then c ∷ d ∷ ds else d ∷ rest

unfoldable pub sort_by_address : List ScanCandidate → List ScanCandidate
unfolding insert_by_address
sort_by_address [] = []
sort_by_address (c ∷ cs) = insert_by_address c (sort_by_address cs)

abbrev pub replicate {ℓ} : {A : Type ℓ} → ℕ → A → List A
replicate zero a = []
replicate (suc n) a = a ∷ replicate n a

abbrev pub empty_stats : ScanStats
empty_stats = record {
  regions_considered = 0;
  regions_scanned = 0;
  bytes_scanned = 0;
  bytes_read = 0;
  candidates_evaluated = 0;
  read_failures = 0;
  truncated = false;
  cancelled = false;
}

abbrev pub stats_of : Shared → ScanStats
stats_of s = record {
  regions_considered = 0;
  regions_scanned = 0;
  bytes_scanned = s.bytes_scanned;
  bytes_read = s.bytes_read;
  candidates_evaluated = s.candidates_evaluated;
  read_failures = s.read_failures;
  truncated = s.slots.truncated;
  cancelled = s.cancelled;
}

-- The session that the joined results make.
unfoldable pub gather :
    ScanOptions → ValueType → Shared → List Worker → Result ScanError ScanSession
unfolding join_all sort_by_address
gather options value_type s workers = do
  merged ← join_all workers
  ok (record {
    value_type = value_type;
    candidates = take options.max_results (sort_by_address merged);
    stats = stats_of s;
  })

-- A scan of the candidates of valid options, for the parallelism that the system reports, a token
-- that may be cancelled at the start, and an order of steps: `none` while a worker has not ended.
unfoldable pub scan_candidates :
    Option ℕ
    → Bool
    → List Event
    → MemorySource
    → ValueType
    → ScanPredicate
    → ScanOptions
    → List ScanCandidate
    → Option (Result ScanError ScanSession)
unfolding resolve_worker_count step gather
scan_candidates available cancelled events source value_type p options [] =
    some (ok (record { value_type = value_type; candidates = []; stats = empty_stats }))
scan_candidates available cancelled events source value_type p options (c ∷ cs) =
    let count = resolve_worker_count available options.worker_threads (length (c ∷ cs)) in
    let (s, workers) =
      run_threads (step source value_type p options (c ∷ cs)) cancel events (fresh_shared cancelled)
        (replicate count (ready [])) in
    if all has_ended workers then some (gather options value_type s workers) else none

unfoldable pub next_scan :
    Option ℕ
    → Bool
    → List Event
    → MemorySource
    → ScanSession
    → ScanPredicate
    → ScanOptions
    → Option (Result ScanError ScanSession)
unfolding validate_options scan_candidates
next_scan available cancelled events source session p options = elim (validate_options options) [
  | err e ↦ some (err e)
  | ok done ↦
      scan_candidates available cancelled events source session.value_type p options
        session.candidates
]
