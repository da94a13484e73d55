-- ===== src/Analysis/Chunks.antt =====
-- The chunks of a region, which overlap, find each match once, whatever their size (`scan_pattern` of
-- src/analysis.rs).
use intimatr.Prelude.{
  ℕ, zero, suc, ◌+◌, ◌-◌, ◌≤◌, ◌<◌, ◌≡◌, refl, sym, ap, ◌∙◌, ◌⊎◌, inl, inr, Bool, true, false, not,
  ◌||◌, List, ◌++◌, ok, arith, min, length, leb, ltb, Bool-cases, ltb→le, Result, err,
  if◌then◌else◌, saturating_add, u64_max,
}
use intimatr.Scanner.Memory.{MemorySource, MemoryError}
use intimatr.Analysis.{
  BytePattern, PatternScanOptions, PatternScanResult, scan_offsets, scan_chunks,
}
use intimatr.Analysis.Offsets.{window, is_match, hits_at, scan_offsets-hits}
use intimatr.Analysis.Hits.{hits, hits-split, push_all, push_all-append}

module _ (bytes : ℕ → ℕ) (source : MemorySource) (pattern : BytePattern) (chunk_size : ℕ)
    (options : PatternScanOptions) (base : ℕ) where
  abbrev is_hit : ℕ → Bool
  is_hit = is_match bytes pattern options base

  module _ (region_end : ℕ) (bounded : region_end ≤ u64_max) (some_bytes : 0 < length pattern)
      (some_chunk : 0 < chunk_size)
      (reads : (address n : ℕ)
        → base ≤ address
        → address + n ≤ region_end
        → source.read_exact address n ≡ ok (window bytes address n)) where
    -- How many addresses are left, of those where the pattern fits in the region.
    abbrev left_from : ℕ → ℕ
    left_from cursor = suc region_end - (cursor + length pattern)

    abbrev read_len : ℕ → ℕ
    read_len cursor = min (region_end - cursor) (saturating_add chunk_size (length pattern - 1))

    leb→le : (a b : ℕ) → leb a b ≡ true → a ≤ b
    leb→le a b h = ground arith

    leb→lt : (a b : ℕ) → leb a b ≡ false → b < a
    leb→lt a b h = ground arith

    or-left : (a b : Bool) → (a || b) ≡ false → a ≡ false
    or-left a b h = ground arith

    or-right : (a b : Bool) → (a || b) ≡ false → b ≡ false
    or-right a b h = ground arith

    not_ltb→lt : (a b : ℕ) → not (ltb a b) ≡ false → a < b
    not_ltb→lt a b h = ground arith

    farther :
        (cursor : ℕ) → base ≤ cursor → cursor < region_end → base ≤ saturating_add cursor chunk_size
    farther cursor h k = omega arith

    later :
        (fuel cursor : ℕ)
        → region_end < cursor + suc fuel
        → cursor < region_end
        → region_end < saturating_add cursor chunk_size + fuel
    later fuel cursor h k = omega arith

    stride :
        (cursor : ℕ)
        → length pattern ≤ read_len cursor
        → (left_from cursor
            ≡ suc (read_len cursor - length pattern) + left_from (saturating_add cursor chunk_size))
          × ((cursor + suc (read_len cursor - length pattern) ≡ saturating_add cursor chunk_size)
              ⊎ (left_from (saturating_add cursor chunk_size) ≡ 0))
    stride cursor h = (
      omega arith,
      elim (Bool-cases (leb (region_end - cursor) (chunk_size + (length pattern - 1)))) [
        | inl last ↦ let le = leb→le _ _ last in inr (omega arith)
        | inr more ↦ let lt = leb→lt _ _ more in inl (omega arith)
      ],
    )

    -- What follows the read of a chunk, and the search in it.
    abbrev after_chunk : ℕ → ℕ → PatternScanResult → Bool → PatternScanResult
    after_chunk fuel cursor r stopped = elim stopped [
      | true ↦ r
      | false ↦
          scan_chunks source pattern chunk_size options fuel base region_end
            (saturating_add cursor chunk_size) r
    ]

    abbrev on_read : ℕ → ℕ → PatternScanResult → Result MemoryError (List ℕ) → PatternScanResult
    on_read fuel cursor r result = elim result [
      | err e ↦
          scan_chunks source pattern chunk_size options fuel base region_end
            (saturating_add cursor chunk_size)
            (record r { read_failures = saturating_add r.read_failures 1 })
      | ok buffer ↦
          (let r' =
              scan_offsets source pattern chunk_size options
                (suc (read_len cursor - length pattern)) base cursor buffer 0 r in
            after_chunk fuel cursor r' r'.truncated)
    ]

    abbrev round : ℕ → ℕ → PatternScanResult → Bool → PatternScanResult
    round fuel cursor r over = elim over [
      | true ↦ r
      | false ↦ on_read fuel cursor r (source.read_exact cursor (read_len cursor))
    ]

    nothing :
        (cursor : ℕ) (r : PatternScanResult)
        → r ≡ push_all options.max_results r (hits is_hit cursor 0)
    unfolding push_all hits
    nothing cursor r = refl

    -- A chunk and what follows it, from what follows it.
    chunk-hits :
        (fuel cursor : ℕ) (r : PatternScanResult)
        → base ≤ cursor
        → cursor < region_end
        → length pattern ≤ read_len cursor
        → r.truncated ≡ false
        → ((q : PatternScanResult)
            → q.truncated ≡ false
            → scan_chunks source pattern chunk_size options fuel base region_end
                (saturating_add cursor chunk_size)
                q
              ≡ push_all options.max_results q (
                  hits is_hit
                    (saturating_add cursor chunk_size)
                    (left_from (saturating_add cursor chunk_size))))
        → on_read fuel cursor r (source.read_exact cursor (read_len cursor))
          ≡ push_all options.max_results r (hits is_hit cursor (left_from cursor))
    chunk-hits fuel cursor r h inside long t go =
        let count = suc (read_len cursor - length pattern) in
        let next = saturating_add cursor chunk_size in
        let first = push_all options.max_results r (hits is_hit cursor count) in
        let rest = hits is_hit next (left_from next) in
        let (counts, meets) = stride cursor long in
        let here : cursor + 0 ≡ cursor = omega arith in
        let searched =
          scan_offsets-hits bytes source pattern chunk_size options base count cursor
            (read_len cursor) 0 r (omega arith) (omega arith) t
          ∙ ap (λ a. push_all options.max_results r (hits is_hit a count)) here in
        let split =
          ap (hits is_hit cursor) counts
          ∙ hits-split is_hit cursor count (left_from next)
          ∙ ap (λ l. hits is_hit cursor count ++ l)
              (hits_at is_hit (cursor + count) next (left_from next) meets) in
        let whole =
          ap (push_all options.max_results r) split
          ∙ push_all-append options.max_results r (hits is_hit cursor count) rest t in
        ap (on_read fuel cursor r) (reads cursor (read_len cursor) h (omega arith))
        ∙ ap (λ (q : PatternScanResult). after_chunk fuel cursor q q.truncated) searched
        ∙ elim (Bool-cases first.truncated) [
          | inl stopped ↦
              ap (after_chunk fuel cursor first) stopped
              ∙ sym (
                  whole
                  ∙ ap (λ b. if b then first else push_all options.max_results first rest) stopped)
          | inr open_ ↦
              ap (after_chunk fuel cursor first) open_
              ∙ go first open_
              ∙ sym (
                  whole
                  ∙ ap (λ b. if b then first else push_all options.max_results first rest) open_)
        ]

    pub scan_chunks-hits :
        (fuel cursor : ℕ) (r : PatternScanResult)
        → base ≤ cursor
        → region_end < cursor + fuel
        → r.truncated ≡ false
        → scan_chunks source pattern chunk_size options fuel base region_end cursor r
          ≡ push_all options.max_results r (hits is_hit cursor (left_from cursor))
    unfolding scan_chunks
    scan_chunks-hits zero cursor r h k t =
        let none_ : left_from cursor ≡ 0 = omega arith in rw none_ (nothing cursor r)
    scan_chunks-hits (suc fuel) cursor r h k t =
        elim (Bool-cases (not (ltb cursor region_end) || ltb (read_len cursor) (length pattern))) [
          | inl over ↦
              let none_ : left_from cursor ≡ 0 = ground arith in
              ap (round fuel cursor r) over ∙ rw none_ (nothing cursor r)
          | inr more ↦
              let inside : not (ltb cursor region_end) ≡ false = or-left _ _ more in
              let long : length pattern ≤ read_len cursor = ltb→le _ _ (or-right _ _ more) in
              ap (round fuel cursor r) more
              ∙ chunk-hits fuel cursor r h (not_ltb→lt cursor region_end inside) long t (λ q u.
                scan_chunks-hits fuel (saturating_add cursor chunk_size) q
                  (farther cursor h (not_ltb→lt cursor region_end inside))
                  (later fuel cursor k (not_ltb→lt cursor region_end inside)) u)
        ]
