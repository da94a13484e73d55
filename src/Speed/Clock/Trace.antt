-- ===== src/Speed/Clock/Trace.antt =====
-- Sequences of calls on one clock (src/speed.rs), as the threads of a game make them one at a time.
use intimatr.Prelude.{
  ℕ, ◌≡◌, ◌≤◌, refl, Option, none, some, List, [], ◌∷◌, arith, u64_max, ok, err, All, inl, inr,
  Result-cases,
}
use intimatr.Float.{F64}
use intimatr.Speed.Clock.{VirtualClock, sample, set_multiplier, reset}
use intimatr.Speed.Clock.Scaled.{one-IsSpeed}
use intimatr.Speed.Clock.Laws.{IsClock, sample-IsClock, reanchor-IsClock}
use intimatr.Speed.Clock.Changes.{IsSpeed-set_multiplier}

pub data Call : Type 0 where
  samples : ℕ → Call
  changes : ℕ → F64 → Call
  resets : ℕ → Call

-- The clock after a call, and the virtual time that the call returned: none if it was rejected.
pub outcome : VirtualClock → Call → VirtualClock × Option ℕ
outcome c (samples r) = let (c', t) = sample c r in (c', some t)
outcome c (changes r m) = elim (set_multiplier c r m) [ ok p ↦ (p.0, some p.1) | err e ↦ (c, none) ]
outcome c (resets r) = let (c', t) = reset c r in (c', some t)

pub run : VirtualClock → List Call → VirtualClock
run c [] = c
run c (a ∷ calls) = run (outcome c a).0 calls

abbrev collect : Option ℕ → List ℕ → List ℕ
collect none ts = ts
collect (some t) ts = t ∷ ts

-- The virtual times that the calls return, in order.
pub times : VirtualClock → List Call → List ℕ
times c [] = []
times c (a ∷ calls) = collect (outcome c a).1 (times (outcome c a).0 calls)

-- No time in the list is before the one in front of it, or before `lo`.
abbrev pub Rising : ℕ → List ℕ → Type 0
Rising lo [] = Unit {0}
Rising lo (t ∷ ts) = (lo ≤ t) × Rising t ts

abbrev pub InU64 : Call → Type 0
InU64 (samples r) = r ≤ u64_max
InU64 (changes r m) = r ≤ u64_max
InU64 (resets r) = r ≤ u64_max

outcome-IsClock : (c : VirtualClock) (a : Call) → InU64 a → IsClock c → IsClock (outcome c a).0
unfolding outcome
outcome-IsClock c (samples r) h v = sample-IsClock c r h v
outcome-IsClock c (changes r m) h v = elim (Result-cases (set_multiplier c r m)) [
  | inl (p, e) ↦
      let (s, q) = IsSpeed-set_multiplier c r m e in
      rw (e, outcome, q) (reanchor-IsClock c r m h s v)
  | inr (x, e) ↦ rw (e, outcome) v
]
outcome-IsClock c (resets r) h v = unfold reset in reanchor-IsClock c r _ h one-IsSpeed v

-- A returned time is not before the last one, and becomes the last one.
abbrev Advances : VirtualClock → VirtualClock × Option ℕ → Type 0
Advances c (c', none) = c' ≡ c
Advances c (c', some t) = (c.last_virtual ≤ t) × (c'.last_virtual ≡ t)

Rising-collect :
    (c : VirtualClock) (p : VirtualClock × Option ℕ) (ts : List ℕ)
    → Advances c p
    → Rising p.0.last_virtual ts
    → Rising c.last_virtual (collect p.1 ts)
Rising-collect c (c', none) ts h k = rw (← h) k
Rising-collect c (c', some t) ts h k = (h.0, rw (← h.1) k)

outcome-Advances : (c : VirtualClock) (a : Call) → Advances c (outcome c a)
unfolding outcome sample reset set_multiplier
outcome-Advances c (samples r) = (omega arith, refl)
outcome-Advances c (changes r m) = ground arith
outcome-Advances c (resets r) = (omega arith, refl)

-- Whatever calls are made on a clock, accepted or rejected, with real times in any order, the
-- virtual times that they return never fall.
pub times-Rising : (c : VirtualClock) (calls : List Call) → Rising c.last_virtual (times c calls)
unfolding times
times-Rising c [] = tt
times-Rising c (a ∷ calls) =
    Rising-collect c (outcome c a) _ (outcome-Advances c a) (times-Rising (outcome c a).0 calls)

-- And the clock stays well formed.
pub run-IsClock :
    (c : VirtualClock) (calls : List Call) → All InU64 calls → IsClock c → IsClock (run c calls)
unfolding run
run-IsClock c [] h v = v
run-IsClock c (a ∷ calls) h v = run-IsClock (outcome c a).0 calls h.1 (outcome-IsClock c a h.0 v)
