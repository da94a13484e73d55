-- ===== src/Analysis/Offsets.antt =====
-- The search in one chunk finds the matches in it (`scan_pattern` of src/analysis.rs).
use intimatr.Prelude.{
  ℕ, zero, suc, ◌+◌, ◌-◌, ◌%◌, ◌≤◌, ◌≡◌, refl, ap, ◌∙◌, ◌⊎◌, inl, inr, Bool, true, false, ◌&&◌,
  List, [], ◌∷◌, ◌++◌, arith, length, drop, leb, ◌==◌, Bool-cases, saturating_add, u64_max,
}
use intimatr.Scanner.Memory.{MemorySource}
use intimatr.Analysis.{
  BytePattern, PatternScanOptions, PatternScanResult, matches, matches_from, matches_at, push,
  scan_offsets,
}
use intimatr.Analysis.Hits.{hits, push_all}

-- The bytes from an address on.
abbrev pub window : (ℕ → ℕ) → ℕ → ℕ → List ℕ
window bytes address zero = []
window bytes address (suc n) = bytes address ∷ window bytes (suc address) n

drop-window :
    (bytes : ℕ → ℕ) (address offset n : ℕ)
    → offset ≤ n
    → drop offset (window bytes address n) ≡ window bytes (address + offset) (n - offset)
drop-window bytes address zero n h =
    let same : address ≡ address + 0 = omega arith in
    let all_ : n ≡ n - 0 = omega arith in
    ap (λ a. window bytes a n) same ∙ ap (window bytes (address + 0)) all_
drop-window bytes address (suc offset) zero h = absurd (omega arith)
drop-window bytes address (suc offset) (suc n) h =
    let same : suc address + offset ≡ address + suc offset = omega arith in
    let left : n - offset ≡ suc n - suc offset = omega arith in
    drop-window bytes (suc address) offset n (omega arith)
    ∙ ap (λ a. window bytes a (n - offset)) same
    ∙ ap (window bytes (address + suc offset)) left

matches_from-window :
    (pattern : BytePattern) (bytes : ℕ → ℕ) (address n : ℕ)
    → length pattern ≤ n
    → matches_from pattern (window bytes address n)
      ≡ matches_from pattern (window bytes address (length pattern))
unfolding matches_from
matches_from-window [] bytes address n h = refl
matches_from-window (e ∷ pattern) bytes address zero h = absurd (omega arith)
matches_from-window (e ∷ pattern) bytes address (suc n) h =
    ap (λ b. matches e (bytes address) && b)
      (matches_from-window pattern bytes (suc address) n (omega arith))

pub hits_at : (hit : ℕ → Bool) (a b n : ℕ) → (a ≡ b) ⊎ (n ≡ 0) → hits hit a n ≡ hits hit b n
unfolding hits
hits_at hit a b n (inl same) = ap (λ c. hits hit c n) same
hits_at hit a b n (inr none_) = rw none_ refl

-- An aligned address whose bytes match.
abbrev pub is_match : (ℕ → ℕ) → BytePattern → PatternScanOptions → ℕ → ℕ → Bool
is_match bytes pattern options base address =
    (address - base) % options.alignment == 0
    && matches_from pattern (window bytes address (length pattern))

module _ (bytes : ℕ → ℕ) (source : MemorySource) (pattern : BytePattern) (chunk_size : ℕ)
    (options : PatternScanOptions) (base : ℕ) where
  abbrev is_hit : ℕ → Bool
  is_hit = is_match bytes pattern options base

  matches_at-window :
      (cursor len offset : ℕ)
      → offset + length pattern ≤ len
      → matches_at pattern (window bytes cursor len) offset
        ≡ matches_from pattern (window bytes (cursor + offset) (length pattern))
  unfolding matches_at
  matches_at-window cursor len offset h =
      ap (matches_from pattern) (drop-window bytes cursor offset len (omega arith))
      ∙ matches_from-window pattern bytes (cursor + offset) (len - offset) (omega arith)

  -- A round of the loop over the offsets, with its test and its address.
  abbrev visit : ℕ → ℕ → List ℕ → ℕ → PatternScanResult → Bool → ℕ → PatternScanResult
  visit left cursor buffer offset r test address =
      let go =
        scan_offsets source pattern chunk_size options left base cursor buffer (suc offset) in
      let pushed = push source pattern chunk_size options address r in
      elim test [
        | false ↦ go r
        | true ↦ elim (leb options.max_results (length pushed.addresses)) [
          | true ↦ record r { addresses = r.addresses ++ (address ∷ []); truncated = true }
          | false ↦ go pushed
        ]
      ]

  pub scan_offsets-hits :
      (left cursor len offset : ℕ) (r : PatternScanResult)
      → left + offset + length pattern ≤ len + 1
      → cursor + len ≤ u64_max
      → r.truncated ≡ false
      → scan_offsets source pattern chunk_size options left base cursor
          (window bytes cursor len)
          offset
          r
        ≡ push_all options.max_results r (hits is_hit (cursor + offset) left)
  unfolding scan_offsets hits push_all
  scan_offsets-hits zero cursor len offset r h k t = refl
  scan_offsets-hits (suc left) cursor len offset r h k t =
      let clear : saturating_add cursor offset ≡ cursor + offset = omega arith in
      let same = matches_at-window cursor len offset (omega arith) in
      let next : cursor + suc offset ≡ suc (cursor + offset) = omega arith in
      let round = visit left cursor (window bytes cursor len) offset r in
      let go = λ (q : PatternScanResult) (u : q.truncated ≡ false).
        scan_offsets-hits left cursor len (suc offset) q (omega arith) k u
        ∙ ap (λ a. push_all options.max_results q (hits is_hit a left)) next in
      ap
        (λ a.
          round
            ((a - base) % options.alignment == 0
              && matches_at pattern (window bytes cursor len) offset)
            a)
        clear
      ∙ ap (λ b. round ((cursor + offset - base) % options.alignment == 0 && b) (cursor + offset))
          same
      ∙ elim (Bool-cases (is_hit (cursor + offset))) [
        | inr miss ↦ rw miss (go r t)
        | inl found ↦
            elim (Bool-cases
              (leb options.max_results (length (r.addresses ++ ((cursor + offset) ∷ []))))) [
                | inl full ↦ rw found (rw (visit, full) refl)
                | inr room ↦ rw found (
                    rw (visit, room)
                      (go (record r { addresses = r.addresses ++ ((cursor + offset) ∷ []) }) t))
              ]
      ]
