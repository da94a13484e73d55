-- ===== src/Scanner/Next/Weights.antt =====
-- How the workers of the next scan share out the matches: whatever a match weighs, the weight that the
-- workers have found, have in hand and have not taken stays what it was, as long as nothing stops the
-- scan, and never grows.
use intimatr.Prelude.{
  ℕ, zero, suc, ◌+◌, ◌%◌, ◌^◌, ◌≤◌, ◌<◌, ◌≡◌, refl, ap, sym, ◌∙◌, inl, inr, true, false, List, [],
  ◌∷◌, arith, length, take, drop, leb, Bool-cases,
}
use intimatr.Prelude.Threads.{total, total-append}
use intimatr.Scanner.Memory.{MemorySource}
use intimatr.Scanner.Predicate.{ScanPredicate}
use intimatr.Scanner.Value.{ValueType}
use intimatr.Scanner.Engine.{ScanOptions, reserve_result_slot}
use intimatr.Scanner.Next.{
  ScanCandidate, Shared, Worker, ready, taking, finished, in_batch, reserving, failed, Verdict,
  accepted, judge, settle, keep, take_batch, step, halted, next_scan_batch,
}

pub drop_all {ℓ} : {A : Type ℓ} (n : ℕ) (xs : List A) → length xs ≤ n → drop n xs ≡ []
drop_all zero [] h = refl
drop_all zero (x ∷ xs) h = absurd (omega arith)
drop_all (suc n) [] h = refl
drop_all (suc n) (x ∷ xs) h = drop_all n xs (omega arith)

pub drop_add {ℓ} : {A : Type ℓ} (m n : ℕ) (xs : List A) → drop n (drop m xs) ≡ drop (m + n) xs
drop_add zero n xs = let e : 0 + n ≡ n = omega arith in rw e refl
drop_add (suc m) n [] = drop_all n [] (omega arith) ∙ sym (drop_all (suc m + n) [] (omega arith))
drop_add (suc m) n (x ∷ xs) =
    let e : suc m + n ≡ suc (m + n) = omega arith in rw e (drop_add m n xs)

abbrev pub with_found : Verdict → List ScanCandidate → List ScanCandidate
with_found (accepted c) rest = c ∷ rest
with_found _ rest = rest

module _ (source : MemorySource) (value_type : ValueType) (p : ScanPredicate)
    (options : ScanOptions) where
  -- What a scan of the candidates one after the other finds.
  unfoldable pub kept : List ScanCandidate → List ScanCandidate
  kept [] = []
  kept (c ∷ cs) = with_found (judge source value_type p options c) (kept cs)

  module _ (w : ScanCandidate → ℕ) where
    abbrev pub left : List ScanCandidate → ℕ
    left cs = total w (kept cs)

    pub left_nil : left [] ≡ 0
    unfolding kept total
    left_nil = refl

    pub left-take-drop :
        (n : ℕ) (cs : List ScanCandidate) → left (take n cs) + left (drop n cs) ≡ left cs
    unfolding kept total
    left-take-drop zero cs = omega arith
    left-take-drop (suc n) [] = omega arith
    left-take-drop (suc n) (c ∷ cs) = ground (arith, left-take-drop n cs)

    -- The weight of what a worker has found and of the matches that it has in hand.
    abbrev pub in_hand : Worker → ℕ
    in_hand (ready found) = total w found
    in_hand (taking found) = total w found
    in_hand (finished found) = total w found
    in_hand (in_batch rest found) = total w found + left rest
    in_hand (reserving c rest found) = total w found + (w c + left rest)
    in_hand (failed e rest found) = total w found + left rest

    pub settle-in_hand :
        (s : Shared) (c : ScanCandidate) (rest found : List ScanCandidate)
        → in_hand
            (settle source value_type p options s
              (judge source value_type p options c)
              rest
              found).1
          ≡ total w found + left (c ∷ rest)
    unfolding settle kept total
    settle-in_hand s c rest found = ground arith

    pub settle-next :
        (s : Shared) (verdict : Verdict) (rest found : List ScanCandidate)
        → (settle source value_type p options s verdict rest found).0.next_index ≡ s.next_index
    unfolding settle
    settle-next s verdict rest found = ground arith

    pub keep-next :
        (s : Shared) (c : ScanCandidate) (rest found : List ScanCandidate)
        → (keep source value_type p options s c rest found).0.next_index ≡ s.next_index
    unfolding keep
    keep-next s c rest found = refl

    -- A slot that is granted keeps the match; one that is denied drops it.
    keep-granted :
        (s : Shared) (c : ScanCandidate) (rest found : List ScanCandidate)
        → (reserve_result_slot s.slots options.max_results).1 ≡ true
        → in_hand (keep source value_type p options s c rest found).1
          ≡ total w found + (w c + left rest)
    unfolding keep
    keep-granted s c rest found h =
        rw h (rw (total-append w found (c ∷ [])) (unfold total in omega arith))

    keep-le :
        (s : Shared) (c : ScanCandidate) (rest found : List ScanCandidate)
        → in_hand (keep source value_type p options s c rest found).1
          ≤ total w found + (w c + left rest)
    unfolding keep
    keep-le s c rest found = elim (Bool-cases (reserve_result_slot s.slots options.max_results).1) [
      | inl granted ↦ omega (arith, keep-granted s c rest found granted)
      | inr denied ↦ rw denied (omega arith)
    ]

    module _ (candidates : List ScanCandidate) where
      -- The weight of the matches that no worker has taken.
      abbrev pub untaken : Shared → ℕ
      untaken s = left (drop s.next_index candidates)

      pub take_batch-eq :
          (s : Shared) (found : List ScanCandidate)
          → s.next_index + next_scan_batch < 2 ^ 64
          → untaken (take_batch source value_type p options candidates s found).0
              + in_hand (take_batch source value_type p options candidates s found).1
            ≡ untaken s + total w found
      unfolding take_batch
      take_batch-eq s found h =
          let whole : (s.next_index + next_scan_batch) % 2 ^ 64 ≡ s.next_index + next_scan_batch =
            omega arith in
          rw whole (elim (Bool-cases (leb (length candidates) s.next_index)) [
            | inl over ↦
                let past : length candidates ≤ s.next_index = ground arith in
                rw
                  (
                    over,
                    drop_all s.next_index candidates past,
                    drop_all (s.next_index + next_scan_batch) candidates (omega arith),
                  )
                  refl
            | inr within ↦
                rw (within, ← drop_add s.next_index next_scan_batch candidates)
                  (omega (arith, left-take-drop next_scan_batch (drop s.next_index candidates)))
          ])

      pub settle-untaken :
          (s : Shared) (verdict : Verdict) (rest found : List ScanCandidate)
          → untaken (settle source value_type p options s verdict rest found).0 ≡ untaken s
      settle-untaken s verdict rest found =
          ap (λ n. left (drop n candidates)) (settle-next s verdict rest found)

      -- While nothing stops the scan, a step keeps the weight of all matches.
      pub step-eq :
          (s : Shared) (t : Worker)
          → s.next_index + next_scan_batch < 2 ^ 64
          → halted s ≡ false
          → (reserve_result_slot s.slots options.max_results).1 ≡ true
          → untaken (step source value_type p options candidates s t).0
              + in_hand (step source value_type p options candidates s t).1
            ≡ untaken s + in_hand t
      unfolding step
      step-eq s (ready found) h k g = rw k refl
      step-eq s (taking found) h k g = take_batch-eq s found h
      step-eq s (in_batch [] found) h k g = omega (arith, left_nil)
      step-eq s (in_batch (c ∷ rest) found) h k g =
          let verdict = judge source value_type p options c in
          rw k (omega (arith, settle-untaken s verdict rest found, settle-in_hand s c rest found))
      step-eq s (reserving c rest found) h k g =
          ap (λ n. untaken s + n) (keep-granted s c rest found g)
      step-eq s (finished found) h k g = refl
      step-eq s (failed e rest found) h k g = refl

      -- A step never adds to it.
      pub step-le :
          (s : Shared) (t : Worker)
          → s.next_index + next_scan_batch < 2 ^ 64
          → untaken (step source value_type p options candidates s t).0
              + in_hand (step source value_type p options candidates s t).1
            ≤ untaken s + in_hand t
      unfolding step
      step-le s (ready found) h = ground arith
      step-le s (taking found) h = omega (arith, take_batch-eq s found h)
      step-le s (in_batch [] found) h = omega (arith, left_nil)
      step-le s (in_batch (c ∷ rest) found) h =
          let verdict = judge source value_type p options c in
          elim (Bool-cases (halted s)) [
            | inl stops ↦ rw stops (omega arith)
            | inr goes ↦
                rw goes (
                  omega (arith, settle-untaken s verdict rest found, settle-in_hand s c rest found))
          ]
      step-le s (reserving c rest found) h = omega (arith, keep-le s c rest found)
      step-le s (finished found) h = omega arith
      step-le s (failed e rest found) h = omega arith
