-- ===== src/Analysis.antt =====
-- `scan_pattern` of src/analysis.rs: the search for a pattern of bytes in the regions of a memory. A text
-- is the list of its characters, the configuration of the scanner is that of a scan's options, and the
-- text of the pattern is left out of the result.
pub mod Hits
pub mod Offsets
pub mod Chunks
pub mod Whole
use intimatr.Prelude.{
  ℕ, zero, suc, ◌+◌, ◌-◌, ◌*◌, ◌/◌, ◌%◌, min, max, Bool, true, false, not, ◌&&◌, ◌||◌, List, [],
  ◌∷◌, ◌++◌, Result, ok, err, ◌>>=◌, ◌>>◌, fail_if, map_err, length, drop, leb, ltb, ◌==◌,
  if◌then◌else◌, saturating_add,
}
use intimatr.Speed.Identity.{is_whitespace, is_empty}
use intimatr.Scanner.Memory.{MemorySource, MemoryRegion, MemoryError, is_scannable, end}
use intimatr.Scanner.Engine.{ScanOptions}

pub record PatternByte : Type 0 where
  pub value : ℕ
  pub mask : ℕ

-- `a & b`, for numbers of that many bits.
abbrev pub bit_and : ℕ → ℕ → ℕ → ℕ
bit_and zero a b = 0
bit_and (suc bits) a b = (a % 2) * (b % 2) + 2 * bit_and bits (a / 2) (b / 2)

abbrev pub BytePattern : Type 0
BytePattern = List PatternByte

unfoldable pub matches : PatternByte → ℕ → Bool
matches expected byte = bit_and 8 byte expected.mask == bit_and 8 expected.value expected.mask

-- The bytes of a haystack from an offset on; the callers leave room for the whole pattern.
unfoldable pub matches_from : BytePattern → List ℕ → Bool
unfolding matches
matches_from [] haystack = true
matches_from (expected ∷ pattern) [] = false
matches_from (expected ∷ pattern) (byte ∷ haystack) =
    matches expected byte && matches_from pattern haystack

unfoldable pub matches_at : BytePattern → List ℕ → ℕ → Bool
unfolding matches_from
matches_at pattern haystack offset = matches_from pattern (drop offset haystack)

pub record PatternScanOptions : Type 0 where
  pub alignment : ℕ
  pub max_results : ℕ

-- The result of a scan, which is built up as it goes.
pub record PatternScanResult : Type 0 where
  pub addresses : List ℕ
  pub truncated : Bool
  pub read_failures : ℕ

-- The errors of a search for a pattern.
pub data AnalysisError : Type 0 where
  invalid_alignment invalid_max_results empty_pattern : AnalysisError
  invalid_pattern_token : List ℕ → AnalysisError
  memory : MemoryError → AnalysisError

-- `split_whitespace`, with the word that is being read.
abbrev pub words : List ℕ → List ℕ → List (List ℕ)
words word [] = if is_empty word then [] else word ∷ []
words word (c ∷ text) = elim (is_whitespace c) [
  | true ↦ if is_empty word then words [] text else word ∷ words [] text
  | false ↦ words (word ++ (c ∷ [])) text
]

-- A nibble's value and its mask; `?` is any.
unfoldable pub parse_pattern_nibble : ℕ → List ℕ → Result AnalysisError (ℕ × ℕ)
parse_pattern_nibble c token =
    if c == 63
    then ok (0, 0)
    else if leb 48 c && leb c 57
    then ok (c - 48, 15)
    else if leb 97 c && leb c 102
    then ok (c - 97 + 10, 15)
    else if leb 65 c && leb c 70
    then ok (c - 65 + 10, 15)
    else err (invalid_pattern_token token)

-- A token of two characters; one with others in it is none of two bytes that parse.
unfoldable pub parse_token : List ℕ → Result AnalysisError PatternByte
unfolding parse_pattern_nibble
parse_token (a ∷ b ∷ []) = do
  high ← parse_pattern_nibble a (a ∷ b ∷ [])
  low ← parse_pattern_nibble b (a ∷ b ∷ [])
  ok (record { value = 16 * high.0 + low.0; mask = 16 * high.1 + low.1 })
parse_token token = err (invalid_pattern_token token)

unfoldable pub parse_bytes : List (List ℕ) → Result AnalysisError BytePattern
unfolding parse_token
parse_bytes [] = ok []
parse_bytes (token ∷ tokens) = do
  byte ← parse_token token
  bytes ← parse_bytes tokens
  ok (byte ∷ bytes)

unfoldable pub parse : List ℕ → Result AnalysisError BytePattern
unfolding parse_bytes
parse input = do
  bytes ← parse_bytes (words [] input)
  fail_if (is_empty bytes) empty_pattern
  ok bytes

module _ (source : MemorySource) (pattern : BytePattern) (chunk_size : ℕ)
    (options : PatternScanOptions) where
  abbrev pub push : ℕ → PatternScanResult → PatternScanResult
  push address r = record r { addresses = r.addresses ++ (address ∷ []) }

  -- The loop over the offsets of a chunk, of which so many are left.
  unfoldable pub scan_offsets : ℕ → ℕ → ℕ → List ℕ → ℕ → PatternScanResult → PatternScanResult
  unfolding matches_at
  scan_offsets zero base cursor buffer offset r = r
  scan_offsets (suc left) base cursor buffer offset r =
      let address = saturating_add cursor offset in
      elim ((address - base) % options.alignment == 0 && matches_at pattern buffer offset) [
        | false ↦ scan_offsets left base cursor buffer (suc offset) r
        | true ↦ elim (leb options.max_results (length (push address r).addresses)) [
          | true ↦ record r { addresses = r.addresses ++ (address ∷ []); truncated = true }
          | false ↦ scan_offsets left base cursor buffer (suc offset) (push address r)
        ]
      ]

  -- The loop over the chunks of a region.
  unfoldable pub scan_chunks : ℕ → ℕ → ℕ → ℕ → PatternScanResult → PatternScanResult
  unfolding scan_offsets
  scan_chunks zero base region_end cursor r = r
  scan_chunks (suc fuel) base region_end cursor r =
      let overlap = length pattern - 1 in
      let read_len = min (region_end - cursor) (saturating_add chunk_size overlap) in
      let next = saturating_add cursor chunk_size in
      elim (not (ltb cursor region_end) || ltb read_len (length pattern)) [
        | true ↦ r
        | false ↦ elim (source.read_exact cursor read_len) [
          | err e ↦
              scan_chunks fuel base region_end next
                (record r { read_failures = saturating_add r.read_failures 1 })
          | ok buffer ↦
              (let r' = scan_offsets (suc (read_len - length pattern)) base cursor buffer 0 r in
                elim r'.truncated [ true ↦ r' | false ↦ scan_chunks fuel base region_end next r' ])
        ]
      ]

  -- The loop over the regions.
  unfoldable pub scan_regions :
      ScanOptions → List MemoryRegion → PatternScanResult → Result AnalysisError PatternScanResult
  unfolding scan_chunks is_scannable end
  scan_regions config [] r = ok r
  scan_regions config (region ∷ regions) r =
      elim (not (is_scannable region config.region_filter) || ltb region.size (length pattern)) [
        | true ↦ scan_regions config regions r
        | false ↦ elim (end region) [
          | err e ↦ err (memory e)
          | ok region_end ↦
              (let r' = scan_chunks (suc region.size) region.base region_end region.base r in
                elim r'.truncated [ true ↦ ok r' | false ↦ scan_regions config regions r' ])
        ]
      ]

-- `sort_unstable_by_key(|region| region.base)`
abbrev pub insert_by_base : MemoryRegion → List MemoryRegion → List MemoryRegion
insert_by_base r [] = r ∷ []
insert_by_base r (s ∷ regions) =
    let rest = insert_by_base r regions in if leb r.base s.base then r ∷ s ∷ regions else s ∷ rest

abbrev pub sort_by_base : List MemoryRegion → List MemoryRegion
sort_by_base [] = []
sort_by_base (r ∷ regions) = insert_by_base r (sort_by_base regions)

unfoldable pub scan_pattern :
    MemorySource
    → List ℕ
    → ScanOptions
    → PatternScanOptions
    → Result AnalysisError PatternScanResult
unfolding scan_regions parse
scan_pattern source pattern_text config options = do
  fail_if (options.alignment == 0) invalid_alignment
  fail_if (options.max_results == 0 || ltb config.max_results options.max_results)
      invalid_max_results
  pattern ← parse pattern_text
  regions ← map_err memory source.regions
  scan_regions source pattern (max config.chunk_size_bytes (length pattern)) options config
      (sort_by_base regions) (record { addresses = []; truncated = false; read_failures = 0 })
