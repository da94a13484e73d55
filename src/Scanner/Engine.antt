-- ===== src/Scanner/Engine.antt =====
-- src/scanner/engine.rs: the options, the chunks that the first scan cuts regions into, and the slots
-- for results. The threads that take the chunks are not modelled.
pub mod Chunks
pub mod Slots
use intimatr.Prelude.{
  ℕ, zero, suc, ◌+◌, ◌-◌, ◌*◌, ◌/◌, ◌%◌, ◌^◌, min, max, Bool, true, false, not, ◌||◌, Option, none,
  some, List, [], ◌∷◌, ◌++◌, Result, ok, ◌>>=◌, ◌>>◌, fail_if, ok_or, map_err, ltb, leb, ◌==◌,
  if◌then◌else◌, checked_add_u64, saturating_add, u64_max,
}
use intimatr.Float.{F64, is_finite, lt}
use intimatr.Float
use intimatr.Scanner.Memory.{MemoryRegion, MemoryError, RegionFilter, end, is_scannable}
use intimatr.Scanner.Predicate.{PredicateError}
use intimatr.Scanner.Value.{ValueError}

pub record ScanOptions : Type 0 where
  pub chunk_size_bytes : ℕ
  pub worker_threads : ℕ
  pub alignment : ℕ
  pub max_results : ℕ
  pub float_epsilon : F64
  pub region_filter : RegionFilter

pub data OptionError : Type 0 where
  zero_chunk_size too_many_workers zero_alignment zero_results bad_epsilon : OptionError

pub data ScanError : Type 0 where
  memory : MemoryError → ScanError
  predicate : PredicateError → ScanError
  value : ValueError → ScanError
  invalid_options : OptionError → ScanError
  first_scan_requires_previous address_overflow worker_panicked : ScanError

abbrev pub max_scanner_workers : ℕ
max_scanner_workers = 64

abbrev pub auto_scanner_worker_cap : ℕ
auto_scanner_worker_cap = 16

unfoldable pub validate_options : ScanOptions → Result ScanError (Unit {0})
validate_options options = do
  fail_if (options.chunk_size_bytes == 0) (invalid_options zero_chunk_size)
  fail_if (ltb max_scanner_workers options.worker_threads) (invalid_options too_many_workers)
  fail_if (options.alignment == 0) (invalid_options zero_alignment)
  fail_if (options.max_results == 0) (invalid_options zero_results)
  fail_if (not (is_finite options.float_epsilon) || lt options.float_epsilon Float.zero)
      (invalid_options bad_epsilon)
  ok tt

-- `checked_mul`
abbrev pub checked_mul : ℕ → ℕ → Option ℕ
checked_mul a b = if leb (a * b) u64_max then some (a * b) else none

unfoldable pub aligned_scan_span : ℕ → ℕ → Result ScanError ℕ
aligned_scan_span chunk_size alignment =
    let units = max (chunk_size / alignment) 1 in
    ok_or (checked_mul units alignment) address_overflow

-- `available` is what the system reports, if it does.
unfoldable pub resolve_worker_count : Option ℕ → ℕ → ℕ → ℕ
resolve_worker_count available configured work_items =
    let automatic =
      min (elim available [ some count ↦ count | none ↦ 1 ]) auto_scanner_worker_cap in
    let requested = if configured == 0 then automatic else min configured max_scanner_workers in
    min (max requested 1) (max work_items 1)

pub record ScanChunk : Type 0 where
  pub region_index : ℕ
  pub address : ℕ
  pub logical_span : ℕ
  pub read_len : ℕ

-- The chunk at a cursor.
abbrev pub chunk_at : ℕ → ℕ → ℕ → ℕ → ℕ → ScanChunk
chunk_at index width scan_span region_end cursor =
    let remaining = region_end - cursor in
    let logical_span = min scan_span remaining in
    record {
      region_index = index;
      address = cursor;
      logical_span = logical_span;
      read_len = min remaining (saturating_add logical_span (width - 1));
    }

-- `cursor.checked_add(width).is_some_and(|end| end <= region_end)`
abbrev pub room : ℕ → ℕ → ℕ → Bool
room width region_end cursor = elim (checked_add_u64 cursor width) [
  | none ↦ false
  | some e ↦ leb e region_end
]

-- The loop over one region, for at most `fuel` rounds.
unfoldable pub cut : ℕ → ℕ → ℕ → ℕ → ℕ → ℕ → Result ScanError (List ScanChunk)
cut zero index width scan_span region_end cursor = ok []
cut (suc fuel) index width scan_span region_end cursor =
    let chunk = chunk_at index width scan_span region_end cursor in
    elim (room width region_end cursor) [
      | false ↦ ok []
      | true ↦ do
        next ← ok_or (checked_add_u64 cursor chunk.logical_span) address_overflow
        rest ← cut fuel index width scan_span region_end next
        ok (chunk ∷ rest)
    ]

-- The chunks of the regions from an index on. A region has no more rounds than bytes.
unfoldable pub chunks_from :
    RegionFilter → ℕ → ℕ → ℕ → List MemoryRegion → Result ScanError (List ScanChunk)
unfolding cut
chunks_from filter width scan_span index [] = ok []
chunks_from filter width scan_span index (region ∷ regions) =
    let rest = chunks_from filter width scan_span (suc index) regions in
    if not (is_scannable region filter) then rest else do
      region_end ← map_err memory (end region)
      first ← cut (suc region.size) index width scan_span region_end region.base
      others ← rest
      ok (first ++ others)

-- The atomics that the workers share.
pub record ResultSlots : Type 0 where
  pub accepted_results : ℕ
  pub truncated : Bool
  pub stop : Bool

-- `reserve_result_slot`, whose counter wraps at a `usize`.
unfoldable pub reserve_result_slot : ResultSlots → ℕ → ResultSlots × Bool
reserve_result_slot s max_results =
    let slot = s.accepted_results in
    let counted = record s { accepted_results = (slot + 1) % 2 ^ 64 } in
    if ltb slot max_results
    then (
      if leb max_results (slot + 1)
          then record counted { truncated = true; stop = true }
          else counted,
      true,
    )
    else (record counted { truncated = true; stop = true }, false)
