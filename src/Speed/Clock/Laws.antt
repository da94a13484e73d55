-- ===== src/Speed/Clock/Laws.antt =====
-- The laws of the virtual clock (src/speed.rs): its invariant, and what a reading is.
use intimatr.Prelude.{ℕ, ◌-◌, ◌≡◌, ◌≤◌, refl, sym, ap, ◌∙◌, max, arith, u64_max, saturating_add}
use intimatr.Float.{F64}
use intimatr.Speed.Clock.{VirtualClock, new, scaled, sample, reanchor}
use intimatr.Speed.Clock.Scaled.{IsSpeed, one-IsSpeed, scaled-zero, scaled_mono}

-- The virtual time that a clock shows at a real time that is not before its anchor.
unfoldable pub reading : VirtualClock → ℕ → ℕ
reading c real = saturating_add c.anchor_virtual (scaled (real - c.anchor_real) c.multiplier)

-- Every clock that the program builds: u64 fields, an accepted speed, and a last reading that is the
-- one of the last real time.
pub record IsClock (c : VirtualClock) : Type 0 where
  pub anchored : c.anchor_real ≤ c.last_real
  pub real_fits : c.last_real ≤ u64_max
  pub origin_fits : c.anchor_virtual ≤ u64_max
  pub speed : IsSpeed c.multiplier
  pub current : c.last_virtual ≡ reading c c.last_real

reading-origin :
    (c : VirtualClock)
    → IsSpeed c.multiplier
    → c.anchor_virtual ≤ u64_max
    → reading c c.anchor_real ≡ c.anchor_virtual
unfolding reading
reading-origin c s h =
    let e : c.anchor_real - c.anchor_real ≡ 0 = omega arith in
    rw (e, scaled-zero c.multiplier s) (omega arith)

reading_mono :
    (c : VirtualClock) → IsSpeed c.multiplier → (a b : ℕ) → a ≤ b → reading c a ≤ reading c b
unfolding reading
reading_mono c s a b h =
    omega (arith, scaled_mono c.multiplier s (a - c.anchor_real) (b - c.anchor_real) (omega arith))

pub reading-le : (c : VirtualClock) (r : ℕ) → reading c r ≤ u64_max
unfolding reading
reading-le c r = omega arith

pub new-IsClock : (r v : ℕ) → r ≤ u64_max → v ≤ u64_max → IsClock (new r v)
unfolding new
new-IsClock r v hr hv = record {
  anchored = omega arith;
  real_fits = hr;
  origin_fits = hv;
  speed = one-IsSpeed;
  current = sym (reading-origin (new r v) one-IsSpeed hv);
}

pub le-sample : (c : VirtualClock) (r : ℕ) → c.last_virtual ≤ (sample c r).1
unfolding sample
le-sample c r = omega arith

pub last_virtual-sample : (c : VirtualClock) (r : ℕ) → (sample c r).0.last_virtual ≡ (sample c r).1
unfolding sample
last_virtual-sample c r = refl

-- A second sample at the same time shows the same.
pub sample-again : (c : VirtualClock) (r : ℕ) → (sample (sample c r).0 r).1 ≡ (sample c r).1
unfolding sample
sample-again c r =
    let e : max (max c.last_real r) r ≡ max c.last_real r = omega arith in rw e (omega arith)

-- The result of `sample` is the reading at the latest real time seen.
pub sample-reading :
    (c : VirtualClock) (r : ℕ) → IsClock c → (sample c r).1 ≡ reading c (max c.last_real r)
unfolding sample reading
sample-reading c r v =
    omega (arith, reading_mono c v.speed c.last_real (max c.last_real r) (omega arith), v.current)

pub sample-state :
    (c : VirtualClock) (r : ℕ)
    → IsClock c
    → (sample c r).0
      ≡ record c { last_real = max c.last_real r; last_virtual = reading c (max c.last_real r) }
unfolding sample reading
sample-state c r v =
    ap (λ (t : ℕ). record c { last_real = max c.last_real r; last_virtual = t })
      (sample-reading c r v)

pub sample-IsClock : (c : VirtualClock) (r : ℕ) → r ≤ u64_max → IsClock c → IsClock (sample c r).0
sample-IsClock c r h v = rw (sample-state c r v) (record {
  anchored = omega arith;
  real_fits = omega arith;
  origin_fits = v.origin_fits;
  speed = v.speed;
  current = unfold reading in refl;
})

-- Polling at one time and then at another leaves the clock of one poll at the later time.
pub sample-sample :
    (c : VirtualClock) (a b : ℕ)
    → a ≤ u64_max
    → IsClock c
    → (sample (sample c a).0 b).0 ≡ (sample c (max a b)).0
sample-sample c a b h v =
    let e : max (max c.last_real a) b ≡ max c.last_real (max a b) = omega arith in
    sample-state (sample c a).0 b (sample-IsClock c a h v)
    ∙ rw (sample-state c a v, sample-state c (max a b) v, e) (unfold reading in refl)

-- The clock that runs at `m` from real time `r` and virtual time `t` on.
abbrev pub anchored_at : ℕ → ℕ → F64 → VirtualClock
anchored_at r t m = record {
  anchor_real = r;
  anchor_virtual = t;
  last_real = r;
  last_virtual = t;
  multiplier = m;
}

pub anchored_at-IsClock :
    (r t : ℕ) (m : F64) → r ≤ u64_max → t ≤ u64_max → IsSpeed m → IsClock (anchored_at r t m)
anchored_at-IsClock r t m hr ht s = record {
  anchored = omega arith;
  real_fits = hr;
  origin_fits = ht;
  speed = s;
  current = sym (reading-origin (anchored_at r t m) s ht);
}

pub reanchor-state :
    (c : VirtualClock) (r : ℕ) (m : F64)
    → IsClock c
    → (reanchor c r m).0 ≡ anchored_at (max c.last_real r) (reading c (max c.last_real r)) m
unfolding reanchor reading
reanchor-state c r m v = ap (λ (t : ℕ). anchored_at (max c.last_real r) t m) (sample-reading c r v)

pub reanchor-IsClock :
    (c : VirtualClock) (r : ℕ) (m : F64)
    → r ≤ u64_max
    → IsSpeed m
    → IsClock c
    → IsClock (reanchor c r m).0
reanchor-IsClock c r m h s v = rw (reanchor-state c r m v) (
    anchored_at-IsClock (max c.last_real r) (reading c (max c.last_real r)) m
      (omega (arith, v.real_fits)) (reading-le c (max c.last_real r)) s)

-- A poll before a speed change makes no difference to it.
pub reanchor-sample :
    (c : VirtualClock) (p d : ℕ) (m : F64)
    → p ≤ d
    → p ≤ u64_max
    → IsClock c
    → (reanchor (sample c p).0 d m).0 ≡ (reanchor c d m).0
reanchor-sample c p d m h hp v =
    let e : max (max c.last_real p) d ≡ max c.last_real d = omega arith in
    reanchor-state (sample c p).0 d m (sample-IsClock c p hp v)
    ∙ rw (sample-state c p v, reanchor-state c d m v, e) (unfold reading in refl)
