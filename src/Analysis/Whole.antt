-- ===== src/Analysis/Whole.antt =====
-- The whole search finds the matches of all the regions in the order of their addresses, up to the
-- limit (`scan_pattern` of src/analysis.rs).
use intimatr.Prelude.{
  fail_if, >>=-eq-ok, >>-eq-ok, ok-injective, ℕ, suc, ◌+◌, ◌-◌, ◌≤◌, ◌<◌, ◌≡◌, refl, sym, ap, ◌∙◌,
  inl, inr, Bool, true, false, not, ◌||◌, List, [], ◌∷◌, ◌++◌, Result, ok, err, arith, max, length,
  take, leb, ltb, ◌==◌, All, Bool-cases, if◌then◌else◌, u64_max,
}
use mathlib.Core.Path.{subst}
use intimatr.Speed.Identity.{is_empty}
use intimatr.Scanner.Memory.{MemorySource, MemoryRegion, MemoryError, is_scannable, end}
use intimatr.Scanner.Engine.{ScanOptions}
use intimatr.Analysis.{
  BytePattern, parse, parse_bytes, words, empty_pattern, PatternScanOptions, PatternScanResult,
  AnalysisError, memory, scan_chunks, scan_regions, insert_by_base, sort_by_base, scan_pattern,
}
use intimatr.Analysis.Hits.{hits, push_all, push_all-append, push_all-take}
use intimatr.Analysis.Offsets.{window, is_match}
use intimatr.Analysis.Chunks.{scan_chunks-hits}

All-insert_by_base :
    (P : MemoryRegion → Type 0) (r : MemoryRegion) (regions : List MemoryRegion)
    → P r
    → All P regions
    → All P (insert_by_base r regions)
All-insert_by_base P r [] h k = (h, tt)
All-insert_by_base P r (s ∷ regions) h k = elim (Bool-cases (leb r.base s.base)) [
  | inl first ↦ rw first (h, k)
  | inr later ↦ rw later (k.0, All-insert_by_base P r regions h k.1)
]

All-sort_by_base :
    (P : MemoryRegion → Type 0) (regions : List MemoryRegion)
    → All P regions
    → All P (sort_by_base regions)
All-sort_by_base P [] h = tt
All-sort_by_base P (r ∷ regions) h =
    All-insert_by_base P r (sort_by_base regions) h.0 (All-sort_by_base P regions h.1)

-- A pattern that is parsed is not empty.
parse-some : (text : List ℕ) (pattern : BytePattern) → parse text ≡ ok pattern → 0 < length pattern
unfolding parse
parse-some text pattern h =
    let (bytes, tokens, h1) = >>=-eq-ok (parse_bytes (words [] text)) _ h in
    let (some_bytes, h2) = >>-eq-ok _ _ h1 in
    subst (λ (l : BytePattern). 0 < length l) (ok-injective h2) (not_empty bytes some_bytes)
  where
    not_empty : (l : BytePattern) → fail_if (is_empty l) empty_pattern ≡ ok tt → 0 < length l
    not_empty [] h = cc
    not_empty (x ∷ l) h = omega arith

module _ (bytes : ℕ → ℕ) (source : MemorySource) (pattern : BytePattern) (config : ScanOptions)
    (options : PatternScanOptions) where
  -- A region that is not looked at.
  abbrev skipped : MemoryRegion → Bool
  skipped region =
      not (is_scannable region config.region_filter) || ltb region.size (length pattern)

  abbrev found : MemoryRegion → List ℕ
  found region =
      hits (is_match bytes pattern options region.base) region.base
        (suc region.size - length pattern)

  abbrev region_matches : MemoryRegion → List ℕ
  region_matches region = if skipped region then [] else found region

  -- The matches in the regions, one region after the other.
  abbrev pub all_matches : List MemoryRegion → List ℕ
  all_matches [] = []
  all_matches (region ∷ regions) = region_matches region ++ all_matches regions

  -- A region that does not wrap, and whose bytes can be read.
  pub record IsReadable (region : MemoryRegion) : Type 0 where
    pub bounded : region.base + region.size ≤ u64_max
    pub reads :
        (address n : ℕ)
        → region.base ≤ address
        → address + n ≤ region.base + region.size
        → source.read_exact address n ≡ ok (window bytes address n)

  module _ (chunk_size : ℕ) (some_bytes : 0 < length pattern) (some_chunk : 0 < chunk_size) where
    abbrev go : List MemoryRegion → PatternScanResult → Result AnalysisError PatternScanResult
    go = scan_regions source pattern chunk_size options config

    -- What follows the search of a region, and a region.
    abbrev after_region :
        List MemoryRegion → PatternScanResult → Bool → Result AnalysisError PatternScanResult
    after_region regions r stopped = elim stopped [ true ↦ ok r | false ↦ go regions r ]

    abbrev on_end :
        MemoryRegion
        → List MemoryRegion
        → PatternScanResult
        → Result MemoryError ℕ
        → Result AnalysisError PatternScanResult
    on_end region regions r ends = elim ends [
      | err e ↦ err (memory e)
      | ok region_end ↦
          (let r' =
              scan_chunks source pattern chunk_size options (suc region.size) region.base region_end
                region.base r in
            after_region regions r' r'.truncated)
    ]

    abbrev on_region :
        MemoryRegion
        → List MemoryRegion
        → PatternScanResult
        → Bool
        → Result AnalysisError PatternScanResult
    on_region region regions r skip = elim skip [
      | true ↦ go regions r
      | false ↦ on_end region regions r (end region)
    ]

    end-ok :
        (region : MemoryRegion) → IsReadable region → end region ≡ ok (region.base + region.size)
    unfolding end
    end-ok region v = let fits = v.bounded in ground arith

    -- A region and what follows it, from what follows it.
    region-matches :
        (region : MemoryRegion) (regions : List MemoryRegion) (r : PatternScanResult)
        → IsReadable region
        → r.truncated ≡ false
        → ((q : PatternScanResult)
            → q.truncated ≡ false
            → go regions q ≡ ok (push_all options.max_results q (all_matches regions)))
        → on_end region regions r (end region)
          ≡ ok (push_all options.max_results r (found region ++ all_matches regions))
    region-matches region regions r v t next =
        let first = push_all options.max_results r (found region) in
        let count : suc (region.base + region.size) - (region.base + length pattern)
            ≡ suc region.size - length pattern =
          omega arith in
        let scanned =
          scan_chunks-hits bytes source pattern chunk_size options region.base
            (region.base + region.size) v.bounded some_bytes some_chunk v.reads (suc region.size)
            region.base r (omega arith) (omega arith) t
          ∙ ap
              (λ n.
                push_all options.max_results r
                  (hits (is_match bytes pattern options region.base) region.base n))
              count in
        let whole = push_all-append options.max_results r (found region) (all_matches regions) t in
        let rest = push_all options.max_results first (all_matches regions) in
        ap (on_end region regions r) (end-ok region v)
        ∙ ap (λ (q : PatternScanResult). after_region regions q q.truncated) scanned
        ∙ elim (Bool-cases first.truncated) [
          | inl stopped ↦
              ap (after_region regions first) stopped
              ∙ ap ok (sym (whole ∙ ap (λ b. if b then first else rest) stopped))
          | inr open_ ↦
              ap (after_region regions first) open_
              ∙ next first open_
              ∙ ap ok (sym (whole ∙ ap (λ b. if b then first else rest) open_))
        ]

    -- The result for a region that is skipped or not, and what follows it.
    abbrev with_region :
        MemoryRegion
        → List MemoryRegion
        → PatternScanResult
        → Bool
        → Result AnalysisError PatternScanResult
    with_region region regions r skip = ok (
        push_all options.max_results r ((if skip then [] else found region) ++ all_matches regions))

    scan_regions-matches :
        (regions : List MemoryRegion) (r : PatternScanResult)
        → All IsReadable regions
        → r.truncated ≡ false
        → go regions r ≡ ok (push_all options.max_results r (all_matches regions))
    unfolding scan_regions push_all
    scan_regions-matches [] r v t = refl
    scan_regions-matches (region ∷ regions) r v t =
        let made = with_region region regions r in
        elim (Bool-cases (skipped region)) [
          | inl skip ↦
              ap (on_region region regions r) skip
              ∙ scan_regions-matches regions r v.1 t
              ∙ ap made (sym skip)
          | inr look ↦
              ap (on_region region regions r) look
              ∙ region-matches region regions r v.0 t (λ q u. scan_regions-matches regions q v.1 u)
              ∙ ap made (sym look)
        ]

  abbrev nothing_yet : PatternScanResult
  nothing_yet = record { addresses = []; truncated = false; read_failures = 0 }

  starts :
      (text : List ℕ) (regions : List MemoryRegion)
      → parse text ≡ ok pattern
      → (options.alignment == 0) ≡ false
      → (options.max_results == 0 || ltb config.max_results options.max_results) ≡ false
      → source.regions ≡ ok regions
      → scan_pattern source text config options
        ≡ scan_regions source pattern
            (max config.chunk_size_bytes (length pattern))
            options
            config
            (sort_by_base regions)
            nothing_yet
  unfolding scan_pattern
  starts text regions parsed aligned limited listed =
      rw (scan_pattern, aligned) (rw limited (rw parsed (rw listed refl)))

  same_result :
      (r : PatternScanResult) {addresses : List ℕ} {truncated : Bool} {read_failures : ℕ}
      → r.addresses ≡ addresses
      → r.truncated ≡ truncated
      → r.read_failures ≡ read_failures
      → r ≡ record { addresses = addresses; truncated = truncated; read_failures = read_failures }
  same_result r {addresses} {truncated} a t f =
      ap (λ x. record r { addresses = x }) a
      ∙ ap (λ x. record r { addresses = addresses; truncated = x }) t
      ∙ ap (λ x. record { addresses = addresses; truncated = truncated; read_failures = x }) f

  -- For a text that parses to a pattern, an alignment and a limit that are not zero, a limit
  -- within the configuration's, and a memory whose listed regions do not wrap and can be read: the
  -- search returns, in the order of the regions' bases and of the addresses in each, the addresses
  -- at multiples of the alignment from the base where the pattern matches within a scannable
  -- region, cut off at the limit; it is called truncated exactly if at least that many match, and
  -- counts no failure. How the regions are cut into chunks does not matter.
  pub scan_pattern_whole :
      (text : List ℕ) (regions : List MemoryRegion)
      → parse text ≡ ok pattern
      → (0 < options.alignment)
      → (0 < options.max_results)
      → options.max_results ≤ config.max_results
      → source.regions ≡ ok regions
      → All IsReadable regions
      → let matches = all_matches (sort_by_base regions) in
        scan_pattern source text config options
        ≡ ok (record {
          addresses = take options.max_results matches;
          truncated = leb options.max_results (length matches);
          read_failures = 0;
        })
  scan_pattern_whole text regions parsed aligned some_results few listed v =
      let some_bytes = parse-some text pattern parsed in
      let sorted = sort_by_base regions in
      let matches = all_matches sorted in
      let (addresses, truncated, failures) =
        push_all-take options.max_results nothing_yet matches refl some_results in
      let room : options.max_results - 0 ≡ options.max_results = omega arith in
      starts text regions parsed (ground arith) (ground arith) listed
      ∙ scan_regions-matches (max config.chunk_size_bytes (length pattern)) some_bytes (omega arith)
          sorted nothing_yet (All-sort_by_base IsReadable regions v) refl
      ∙ ap ok (
          same_result (push_all options.max_results nothing_yet matches)
            (addresses ∙ ap (λ n. take n matches) room)
            (truncated ∙ ap (λ n. leb n (length matches)) room) failures)
