-- ===== src/Examples/Analysis.antt =====
-- A run of the theorem on the search for a pattern: the byte 7 and any byte after it, in two regions of
-- a memory that counts up.
use intimatr.Prelude.{
  List, ℕ, ◌%◌, ◌≡◌, refl, true, false, [], ◌∷◌, ok, arith, length, take, leb, All,
}
use intimatr.Scanner.Memory.{MemorySource, MemoryRegion}
use intimatr.Analysis.{
  BytePattern, parse, parse_bytes, parse_token, parse_pattern_nibble, PatternScanOptions,
  scan_pattern, sort_by_base,
}
use intimatr.Analysis.Offsets.{window}
use intimatr.Analysis.Whole.{IsReadable, all_matches, scan_pattern_whole}
use intimatr.Examples.Next.{options}

abbrev counting_up : ℕ → ℕ
counting_up address = address % 256

abbrev high : MemoryRegion
high = record {
  base = 4096;
  size = 300;
  committed = true;
  readable = true;
  writable = true;
  executable = false;
  guard = false;
}

abbrev low : MemoryRegion
low = record high { base = 1024; size = 16 }

abbrev source : MemorySource
source = record {
  regions = ok (high ∷ low ∷ []);
  read_exact = λ address n. ok (window counting_up address n);
}

abbrev pattern : BytePattern
pattern = record { value = 7; mask = 255 } ∷ record { value = 0; mask = 0 } ∷ []

-- "07 ??"
abbrev text : List ℕ
text = 48 ∷ 55 ∷ 32 ∷ 63 ∷ 63 ∷ []

parsed : parse text ≡ ok pattern
unfolding parse parse_bytes parse_token parse_pattern_nibble
parsed = refl

abbrev every_address : PatternScanOptions
every_address = record { alignment = 1; max_results = 3 }

readable : All (IsReadable counting_up source pattern options every_address) (high ∷ low ∷ [])
readable = (
  record { bounded = omega arith; reads = λ address n h k. refl },
  (record { bounded = omega arith; reads = λ address n h k. refl }, tt),
)

scan_pattern_whole_example :
    scan_pattern source text options every_address
    ≡ ok (record {
      addresses = take 3 (
          all_matches counting_up source pattern options every_address
            (sort_by_base (high ∷ low ∷ [])));
      truncated = leb 3 (
          length (
            all_matches counting_up source pattern options every_address
              (sort_by_base (high ∷ low ∷ []))));
      read_failures = 0;
    })
scan_pattern_whole_example =
    scan_pattern_whole counting_up source pattern options every_address text (high ∷ low ∷ [])
      parsed (omega arith) (omega arith) (omega arith) refl readable
