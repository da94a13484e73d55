-- ===== src/Speed/Clock/Changes.antt =====
-- Speed changes of the virtual clock (src/speed.rs): which are accepted, and what they do to virtual
-- time.
use intimatr.Prelude.{
  ℕ, ◌+◌, ◌-◌, ◌^◌, ◌≡◌, ◌≤◌, ◌<◌, refl, sym, ap, ◌∙◌, ◌↔◌, true, max, arith, u64_max,
  saturating_add, ok, err,
}
use intimatr.Float.{F64, one, zero, is_finite, lt}
use intimatr.Speed.Clock.{
  VirtualClock, invalid_multiplier, scaled, sample, reanchor, set_multiplier, reset,
}
use intimatr.Speed.Clock.Scaled.{IsSpeed, one-IsSpeed, scaled-zero, scaled-one}
use intimatr.Speed.Clock.Laws.{
  IsClock, reading, reading-le, sample-reading, anchored_at, anchored_at-IsClock, reanchor-state,
}

-- What `set_multiplier` accepts.
pub set_multiplier-IsSpeed :
    (c : VirtualClock) (r : ℕ) (m : F64) → IsSpeed m → set_multiplier c r m ≡ ok (reanchor c r m)
unfolding set_multiplier
set_multiplier-IsSpeed c r m s = ground arith

pub IsSpeed-set_multiplier :
    (c : VirtualClock) (r : ℕ) (m : F64) {p : VirtualClock × ℕ}
    → set_multiplier c r m ≡ ok p
    → IsSpeed m × (p ≡ reanchor c r m)
unfolding set_multiplier
IsSpeed-set_multiplier c r m h = ground arith

-- For every clock and time, `set_multiplier` fails exactly for a speed that is not both finite and
-- above zero.
pub set_multiplier_rejects :
    (c : VirtualClock) (r : ℕ) (m : F64)
    → (set_multiplier c r m ≡ err invalid_multiplier) ↔ ¬ IsSpeed m
unfolding set_multiplier
set_multiplier_rejects c r m = (
  λ h s. cc (sym h ∙ set_multiplier-IsSpeed c r m s),
  λ n. rejects (λ b p. n (record { bounded = b; positive = p })),
)
  where
    rejects :
        (is_finite m ≡ true → lt zero m ≡ true → ⊥) → set_multiplier c r m ≡ err invalid_multiplier
    rejects n = ground arith

-- A reset is the speed change to 1x, which is never rejected.
pub set_multiplier-one : (c : VirtualClock) (r : ℕ) → set_multiplier c r one ≡ ok (reset c r)
unfolding reset
set_multiplier-one c r = set_multiplier-IsSpeed c r one one-IsSpeed

sample-anchored_at :
    (r t : ℕ) (m : F64) (q : ℕ)
    → IsClock (anchored_at r t m)
    → (sample (anchored_at r t m) q).1 ≡ saturating_add t (scaled (max r q - r) m)
sample-anchored_at r t m q v = unfold reading in sample-reading (anchored_at r t m) q v

changed :
    (c : VirtualClock) (r : ℕ) (m : F64) (c' : VirtualClock) (t : ℕ)
    → IsClock c
    → set_multiplier c r m ≡ ok (c', t)
    → IsSpeed m × (t ≡ (sample c r).1) × (t ≤ u64_max) × (c' ≡ anchored_at (max c.last_real r) t m)
changed c r m c' t v h =
    let (s, e) = IsSpeed-set_multiplier c r m h in
    let shown : t ≡ reading c (max c.last_real r) =
      ap (λ (p : VirtualClock × ℕ). p.1) e ∙ unfold reanchor sample in sample-reading c r v in
    (
      s,
      shown ∙ sym (sample-reading c r v),
      rw shown (reading-le c (max c.last_real r)),
      rw shown (ap (λ (p : VirtualClock × ℕ). p.0) e ∙ reanchor-state c r m v),
    )

-- For a clock in its invariant and a speed change accepted at a time r in u64: the change returns
-- what `sample` would have returned, and the clock then shows that time at every real time up to
-- r.
pub change_continuity :
    (c : VirtualClock) (r : ℕ) (m : F64) (c' : VirtualClock) (t q : ℕ)
    → r ≤ u64_max
    → IsClock c
    → set_multiplier c r m ≡ ok (c', t)
    → q ≤ r
    → (t ≡ (sample c r).1) × ((sample c' q).1 ≡ t)
change_continuity c r m c' t q hr v h hq =
    let (s, e, fits, state) = changed c r m c' t v h in
    let l = max c.last_real r in
    let gap : max l q - l ≡ 0 = omega arith in
    (
      e,
      rw
          (
            state,
            sample-anchored_at l t m q
                (anchored_at-IsClock l t m (omega (arith, v.real_fits)) fits s),
            gap,
            scaled-zero m s,
          )
          (omega arith),
    )

-- For a clock in its invariant and a speed change accepted at a time in u64 that is not before the
-- last one seen: d ticks later the clock shows the time of the change and d scaled by the new
-- speed, up to the u64 limit.
pub change_rate :
    (c : VirtualClock) (r : ℕ) (m : F64) (c' : VirtualClock) (t d : ℕ)
    → r ≤ u64_max
    → IsClock c
    → c.last_real ≤ r
    → set_multiplier c r m ≡ ok (c', t)
    → (sample c' (r + d)).1 ≡ saturating_add t (scaled d m)
change_rate c r m c' t d hr v l h =
    let (s, e, fits, state) = changed c r m c' t v h in
    let now : max c.last_real r ≡ r = omega arith in
    let gap : max r (r + d) - r ≡ d = omega arith in
    rw (state, now, sample-anchored_at r t m (r + d) (anchored_at-IsClock r t m hr fits s), gap)
      refl

reset-time : (c : VirtualClock) (r : ℕ) → (reset c r).1 ≡ (sample c r).1
unfolding reset
reset-time c r = refl

-- For a clock in its invariant and a reset at a time in u64 that is not before the last one seen:
-- d ticks later virtual time has advanced by exactly d, if d is below 2^53 and the sum fits a u64.
pub reset_rate :
    (c : VirtualClock) (r d : ℕ)
    → r ≤ u64_max
    → IsClock c
    → c.last_real ≤ r
    → d < 2 ^ 53
    → (sample c r).1 + d ≤ u64_max
    → (sample (reset c r).0 (r + d)).1 ≡ (sample c r).1 + d
reset_rate c r d hr v l h k =
    change_rate c r one (reset c r).0 (reset c r).1 d hr v l (set_multiplier-one c r)
    ∙ rw (scaled-one d h, reset-time c r) (omega arith)
