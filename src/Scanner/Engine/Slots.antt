-- ===== src/Scanner/Engine/Slots.antt =====
-- Workers that reserve slots for results (`reserve_result_slot` of src/scanner/engine.rs), in whatever
-- order their atomic additions come.
use intimatr.Prelude.{
  ℕ, zero, suc, ◌+◌, ◌-◌, ◌≤◌, ◌<◌, ◌≡◌, ◌∙◌, min, false, ◌&&◌, ◌||◌, arith, u64_max, ltb, leb,
  if◌then◌else◌,
}
use intimatr.Scanner.Engine.{ResultSlots, reserve_result_slot}

-- A number of attempts, and how many of them are granted.
unfoldable pub attempts : ℕ → ResultSlots → ℕ → ResultSlots × ℕ
attempts zero s max_results = (s, 0)
attempts (suc n) s max_results =
    let (s', granted) = reserve_result_slot s max_results in
    let (s'', rest) = attempts n s' max_results in (s'', (if granted then 1 else 0) + rest)

abbrev pub fresh : ResultSlots
fresh = record { accepted_results = 0; truncated = false; stop = false }

pub step-count :
    (s : ResultSlots) (m : ℕ)
    → s.accepted_results < u64_max
    → (reserve_result_slot s m).0.accepted_results ≡ s.accepted_results + 1
unfolding reserve_result_slot
step-count s m h = ground arith

pub step-granted :
    (s : ResultSlots) (m : ℕ) → (reserve_result_slot s m).1 ≡ ltb s.accepted_results m
unfolding reserve_result_slot
step-granted s m = ground arith

pub step-stop :
    (s : ResultSlots) (m : ℕ)
    → ((reserve_result_slot s m).0.stop ≡ (s.stop || leb m (s.accepted_results + 1)))
      × ((reserve_result_slot s m).0.truncated ≡ (s.truncated || leb m (s.accepted_results + 1)))
unfolding reserve_result_slot
step-stop s m = (ground arith, ground arith)

granted_from :
    (n : ℕ) (s : ResultSlots) (m : ℕ)
    → s.accepted_results + n ≤ u64_max
    → (attempts n s m).1 ≡ min n (m - s.accepted_results)
unfolding attempts
granted_from zero s m h = omega arith
granted_from (suc n) s m h =
    let count = step-count s m (omega arith) in
    let rest = granted_from n (reserve_result_slot s m).0 m (omega (arith, count)) in
    rw (step-granted s m) (ground (arith, rest, count))

flags_from :
    (n : ℕ) (s : ResultSlots) (m : ℕ)
    → s.accepted_results + n ≤ u64_max
    → ((attempts n s m).0.stop ≡ (s.stop || (ltb 0 n && leb m (s.accepted_results + n))))
      × ((attempts n s m).0.truncated
          ≡ (s.truncated || (ltb 0 n && leb m (s.accepted_results + n))))
unfolding attempts
flags_from zero s m h = (ground arith, ground arith)
flags_from (suc n) s m h =
    let count = step-count s m (omega arith) in
    let (stop, truncated) = step-stop s m in
    let (stops, truncates) = flags_from n (reserve_result_slot s m).0 m (omega (arith, count)) in
    (stops ∙ rw (stop, count) (ground arith), truncates ∙ rw (truncated, count) (ground arith))

-- Of n attempts from a fresh start, for n in u64 and a limit above zero, exactly as many are
-- granted as the limit allows; and the scan is stopped, and called truncated, exactly if at least
-- that many attempts are made.
pub slots_granted :
    (n max_results : ℕ)
    → n ≤ u64_max
    → 0 < max_results
    → ((attempts n fresh max_results).1 ≡ min n max_results)
      × ((attempts n fresh max_results).0.stop ≡ leb max_results n)
      × ((attempts n fresh max_results).0.truncated ≡ leb max_results n)
slots_granted n m h k =
    let (stops, truncates) = flags_from n fresh m (omega (arith, h)) in
    (
      granted_from n fresh m (omega (arith, h)) ∙ omega arith,
      stops ∙ flag n m k,
      truncates ∙ flag n m k,
    )
  where
    flag : (n m : ℕ) → 0 < m → (false || (ltb 0 n && leb m (0 + n))) ≡ leb m n
    flag n m k = ground arith
