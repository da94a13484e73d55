-- ===== src/Speed/Timers/Laws.antt =====
-- The laws of the projected timers (src/speed_timers.rs).
use intimatr.Prelude.{
  ℕ, ◌-◌, ◌%◌, ◌^◌, ◌≤◌, ◌<◌, ◌≡◌, refl, sym, ap, ◌∙◌, max, arith, u64_max, ok, Bool-cases, ◌+◌,
  saturating_add, ◌==◌, inl, inr, >>=-eq-ok, ok-injective,
}
use intimatr.Float.{F64, one}
use intimatr.Speed.Clock.{VirtualClock, ClockError}
use intimatr.Speed.Clock
use intimatr.Speed.Clock.Scaled.{IsSpeed}
use intimatr.Speed.Clock.Laws.{
  sample-sample as poll-poll, reanchor-sample, IsClock, sample-IsClock, sample-again,
  reanchor-IsClock, new-IsClock,
}
use intimatr.Speed.Clock.Changes.{set_multiplier-one, set_multiplier-IsSpeed, change_continuity}
use intimatr.Speed.Timers.{
  WindowsTimers, TimerSnapshot, new, elapsed_ms, project, sample, set_multiplier, reset,
}

pub record IsTimers (t : WindowsTimers) : Type 0 where
  pub clock_valid : IsClock t.clock
  pub frequency : 0 < t.qpc_frequency

-- The whole milliseconds by which one snapshot's counter is ahead of another's.
abbrev pub passed_ms : WindowsTimers → TimerSnapshot → TimerSnapshot → ℕ
passed_ms t a b = elapsed_ms t b.performance_counter - elapsed_ms t a.performance_counter

-- How a second snapshot follows a first one: the counter and the 64-bit tick count are not before,
-- the milliseconds that the counter has passed have passed for the tick count, up to the u64 limit,
-- and for the multimedia timer, which wraps, and the 32-bit tick count is the lower half.
pub record Follows (t : WindowsTimers) (a b : TimerSnapshot) : Type 0 where
  pub counter : a.performance_counter ≤ b.performance_counter
  pub ticks : a.tick_count64 ≤ b.tick_count64
  pub ticks_pass : b.tick_count64 ≡ saturating_add a.tick_count64 (passed_ms t a b)
  pub low_ticks : b.tick_count ≡ b.tick_count64 % 2 ^ 32
  pub time_passes : b.time_get_time ≡ (a.time_get_time + passed_ms t a b) % 2 ^ 32

set_multiplier-inv :
    (t : WindowsTimers) (r : ℕ) (m : F64) {q : WindowsTimers × TimerSnapshot}
    → set_multiplier t r m ≡ ok q
    → (p : VirtualClock × ℕ) × (Clock.set_multiplier t.clock r m ≡ ok p)
      × (q ≡ sample (record t { clock = p.0 }) r)
unfolding set_multiplier
set_multiplier-inv t r m e =
    let (p, changed, sampled) = >>=-eq-ok (Clock.set_multiplier t.clock r m) _ e in
    (p, changed, sym (ok-injective sampled))

sample-same :
    (t : WindowsTimers) (c : VirtualClock) (r : ℕ)
    → (Clock.sample c r).1 ≡ (Clock.sample t.clock r).1
    → (sample (record t { clock = c }) r).1 ≡ (sample t r).1
unfolding sample project elapsed_ms
sample-same t c r e = rw e

timers-again : (t : WindowsTimers) (r : ℕ) → (sample (sample t r).0 r).1 ≡ (sample t r).1
unfolding sample project elapsed_ms
timers-again t r = rw (sample-again t.clock r)

-- For timers in their invariant and a speed change accepted at a time in u64: the change returns
-- the snapshot that `sample` would have returned, and the timers then show it again at the same
-- time.
pub change_no_jump :
    (t : WindowsTimers) (r : ℕ) (m : F64) (t' : WindowsTimers) (s : TimerSnapshot)
    → r ≤ u64_max
    → IsTimers t
    → set_multiplier t r m ≡ ok (t', s)
    → (s ≡ (sample t r).1) × ((sample t' r).1 ≡ s)
change_no_jump t r m t' s h v e =
    let (p, changed, sampled) = set_multiplier-inv t r m e in
    let (same, rest) =
      change_continuity t.clock r m p.0 p.1 r h v.clock_valid changed (omega arith) in
    let again = rest ∙ same in
    let shown : s ≡ (sample t r).1 =
      ap (λ (q : WindowsTimers × TimerSnapshot). q.1) sampled ∙ sample-same t p.0 r again in
    let state : t' ≡ (sample (record t { clock = p.0 }) r).0 =
      ap (λ (q : WindowsTimers × TimerSnapshot). q.0) sampled in
    (
      shown,
      rw state (
          timers-again (record t { clock = p.0 }) r
          ∙ sym (ap (λ (q : WindowsTimers × TimerSnapshot). q.1) sampled)),
    )

-- For timers in their invariant, a reset at a time in u64 returns the snapshot that `sample` would
-- have returned, and is the change to 1x, which is accepted.
pub reset_no_jump :
    (t : WindowsTimers) (r : ℕ)
    → r ≤ u64_max
    → IsTimers t
    → ((reset t r).1 ≡ (sample t r).1) × (set_multiplier t r one ≡ ok (reset t r))
unfolding reset
reset_no_jump t r h v =
    let accepted : set_multiplier t r one ≡ ok (reset t r) =
      unfold set_multiplier in rw (set_multiplier-one t.clock r) in
    ((change_no_jump t r one (reset t r).0 (reset t r).1 h v accepted).0, accepted)

pub new-IsTimers :
    (origin frequency ticks time : ℕ) {t : WindowsTimers}
    → origin ≤ u64_max
    → new origin frequency ticks time ≡ ok t
    → IsTimers t
unfolding new
new-IsTimers origin frequency ticks time {t} h e =
    let valid = new-IsClock origin origin h h in
    elim (Bool-cases (frequency == 0)) [
      | inl zero ↦ absurd (ground arith)
      | inr nonzero ↦
          rw (← ok-injective (rw nonzero at e))
            (record { clock_valid = valid; frequency = ground arith })
    ]

pub sample-IsTimers :
    (t : WindowsTimers) (r : ℕ) → r ≤ u64_max → IsTimers t → IsTimers (sample t r).0
unfolding sample
sample-IsTimers t r h v = record {
  clock_valid = sample-IsClock t.clock r h v.clock_valid;
  frequency = v.frequency;
}

pub multiplier-sample :
    (t : WindowsTimers) (r : ℕ) → (sample t r).0.clock.multiplier ≡ t.clock.multiplier
unfolding sample Clock.sample
multiplier-sample t r = refl

-- A speed that the clock accepts is in force afterwards.
pub set_multiplier-IsTimers :
    (t : WindowsTimers) (r : ℕ) (m : F64)
    → r ≤ u64_max
    → IsSpeed m
    → IsTimers t
    → (q : WindowsTimers × TimerSnapshot) × (set_multiplier t r m ≡ ok q)
      × IsTimers q.0
      × (q.0.clock.multiplier ≡ m)
      × (q.0.qpc_frequency ≡ t.qpc_frequency)
set_multiplier-IsTimers t r m h s v =
    let t' = record t { clock = (Clock.reanchor t.clock r m).0 } in
    (
      sample t' r,
      unfold set_multiplier in rw (set_multiplier-IsSpeed t.clock r m s),
      sample-IsTimers t' r h (record {
        clock_valid = reanchor-IsClock t.clock r m h s v.clock_valid;
        frequency = v.frequency;
      }),
      unfold sample Clock.sample Clock.reanchor in refl,
      unfold sample in refl,
    )

-- Polling first at `p` and then at `q` leaves and shows what polling at `q` does.
pub sample-sample :
    (t : WindowsTimers) (p q : ℕ)
    → p ≤ q
    → p ≤ u64_max
    → IsTimers t
    → sample (sample t p).0 q ≡ sample t q
unfolding sample project elapsed_ms Clock.sample
sample-sample t p q h hp v =
    ap (λ (c : VirtualClock). (record t { clock = c }, project t c.last_virtual)) same
  where
    same : (Clock.sample (Clock.sample t.clock p).0 q).0 ≡ (Clock.sample t.clock q).0
    same =
        let e : max p q ≡ q = omega arith in
        poll-poll t.clock p q hp v.clock_valid ∙ ap (λ r. (Clock.sample t.clock r).0) e

set_multiplier-ok :
    (t : WindowsTimers) (d : ℕ) (m : F64)
    → IsSpeed m
    → set_multiplier t d m ≡ ok (sample (record t { clock = (Clock.reanchor t.clock d m).0 }) d)
unfolding set_multiplier
set_multiplier-ok t d m s = rw (set_multiplier-IsSpeed t.clock d m s)

-- Nor does a poll before a speed change make a difference to it.
pub set_multiplier-sample :
    (t : WindowsTimers) (p d : ℕ) (m : F64)
    → p ≤ d
    → p ≤ u64_max
    → IsSpeed m
    → IsTimers t
    → set_multiplier (sample t p).0 d m ≡ set_multiplier t d m
set_multiplier-sample t p d m h hp s v =
    set_multiplier-ok (sample t p).0 d m s
    ∙ unfold sample in
      ap (λ (c : VirtualClock). ok (sample (record t { clock = c }) d))
        (reanchor-sample t.clock p d m h hp v.clock_valid)
      ∙ sym (set_multiplier-ok t d m s)
