-- ===== src/Speed/Session/Polling.antt =====
-- How often a session is polled makes no difference (src/speed_session.rs): deadlines act at their
-- own time, so late or missing polls neither extend nor shorten a temporary speed.
use intimatr.Prelude.{
  ℕ, zero, suc, ◌+◌, ◌≤◌, ◌<◌, ◌≡◌, refl, sym, ap, ◌∙◌, inl, inr, Bool, true, false, Option, none,
  some, ok, arith, u64_max, ltb, le→ltb, ltb→lt, ltb→le, Bool-cases, Option-cases,
}
use intimatr.Float.{F64}
use intimatr.Speed.Clock.Scaled.{IsSpeed}
use intimatr.Speed.Timers.{WindowsTimers, TimerSnapshot}
use intimatr.Speed.Timers
use intimatr.Speed.Timers.Laws.{
  IsTimers, sample-sample, set_multiplier-sample, set_multiplier-IsTimers,
}
use intimatr.Speed.Controls
use intimatr.Speed.Session.{SpeedSession, restore, expire, advance, advance_deadlines, sample}
use intimatr.Speed.Session.Rounds.{
  pending, advance-none, advance_early, advance_due, advance_induction,
}
use intimatr.Speed.Session.Laws.{IsSession, expire-IsSession, IsSettled-IsSpeed, pending-fits}
use intimatr.Speed.Controls.Settled.{reset-IsSettled, end_hold-IsSettled}
use intimatr.Speed.Session.Deadlines.{waits, deadlines, deadlines-expire}

-- The session once its timers are sampled.
polled : ℕ → SpeedSession → SpeedSession
polled p s = record s { timers = (Timers.sample s.timers p).0 }

deadlines-expire_le : (s : SpeedSession) (d : ℕ) (b : Bool) → deadlines (expire s d b) ≤ deadlines s
unfolding expire
deadlines-expire_le s d true = omega arith
deadlines-expire_le s d false = ground arith

deadlines-advance : (f : ℕ) (s : SpeedSession) (r : ℕ) → deadlines (advance f s r) ≤ deadlines s
deadlines-advance f s r =
    advance_induction (λ t. deadlines t ≤ deadlines s) r
      (λ t d b e h k. omega (arith, deadlines-expire_le t d b, k)) f s (omega arith)

-- Fuel beyond the deadlines is not used.
advance-fuel :
    (f : ℕ) (s : SpeedSession) (r : ℕ) → deadlines s < f → advance (suc f) s r ≡ advance f s r
advance-fuel zero s r h = elim h [ ]
advance-fuel (suc f) s r h = elim (Option-cases (pending s)) [
  | inl e ↦ advance-none (suc (suc f)) s r e ∙ sym (advance-none (suc f) s r e)
  | inr (p, e) ↦ elim (Bool-cases (ltb r p.0)) [
    | inl early ↦
        advance_early (suc (suc f)) s r p.0 p.1 e early
        ∙ sym (advance_early (suc f) s r p.0 p.1 e early)
    | inr due ↦
        advance_due (suc f) s r p.0 p.1 e due
        ∙ advance-fuel f (expire s p.0 p.1) r (omega (arith, deadlines-expire s p.0 p.1 e))
        ∙ sym (advance_due f s r p.0 p.1 e due)
  ]
]

-- `sample`, for a number of rounds.
sample_in : ℕ → SpeedSession → ℕ → SpeedSession × TimerSnapshot
sample_in f s q = let s' = advance f s q in (polled q s', (Timers.sample s'.timers q).1)

restore-lem :
    (t : WindowsTimers) (d : ℕ) (m : F64) (q : WindowsTimers × TimerSnapshot)
    → Timers.set_multiplier t d m ≡ ok q
    → restore t d m ≡ q.0
unfolding restore
restore-lem t d m q e = rw (e, restore) refl

restore-sample :
    (t : WindowsTimers) (p d : ℕ) (m : F64)
    → p ≤ d
    → d ≤ u64_max
    → IsSpeed m
    → IsTimers t
    → restore (Timers.sample t p).0 d m ≡ restore t d m
restore-sample t p d m h k s v =
    let (q, e, valid, force, same) = set_multiplier-IsTimers t d m k s v in
    restore-lem _ d m q (set_multiplier-sample t p d m h (omega arith) s v ∙ e)
    ∙ sym (restore-lem t d m q e)

module _ (lo hi : F64) (low : IsSpeed lo) (p q : ℕ) (h : p ≤ q) (fits : q ≤ u64_max) where
  -- An expiry after a poll is the expiry without it.
  expire-polled :
      (s : SpeedSession) (d : ℕ) (b : Bool)
      → p ≤ d
      → d ≤ u64_max
      → IsSession lo hi s
      → expire (polled p s) d b ≡ expire s d b
  unfolding polled expire
  expire-polled s d true l k v =
      let speed =
        IsSettled-IsSpeed lo hi low (Controls.reset s.controls)
          (reset-IsSettled lo hi s.controls v.controls) in
      ap
        (λ (t : WindowsTimers). record s {
          controls = (Controls.reset s.controls).0;
          timers = t;
          hold_deadline_qpc = none;
          startup_deadline_qpc = none;
        })
        (restore-sample s.timers p d (Controls.reset s.controls).1 l k speed v.timers)
  expire-polled s d false l k v =
      let speed =
        IsSettled-IsSpeed lo hi low (Controls.end_hold s.controls)
          (end_hold-IsSettled lo hi s.controls v.controls) in
      ap
        (λ (t : WindowsTimers). record s {
          controls = (Controls.end_hold s.controls).0;
          timers = t;
          hold_deadline_qpc = none;
        })
        (restore-sample s.timers p d (Controls.end_hold s.controls).1 l k speed v.timers)

  -- Where no deadline is due, the timers alone are polled.
  idle-polled :
      (f : ℕ) (s : SpeedSession)
      → advance f s q ≡ s
      → advance f (polled p s) q ≡ polled p s
      → IsSession lo hi s
      → sample_in f (polled p s) q ≡ sample_in f s q
  unfolding sample_in polled
  idle-polled f s e e' v =
      rw (e, e')
        (ap (λ (t : WindowsTimers × TimerSnapshot). (record s { timers = t.0 }, t.1))
          (sample-sample s.timers p q h (omega arith) v.timers))

  sample_in-cong :
      (f g : ℕ) (s t : SpeedSession)
      → advance f s q ≡ advance g t q
      → sample_in f s q ≡ sample_in g t q
  unfolding sample_in
  sample_in-cong f g s t e = rw e refl

  pending-polled :
      (s : SpeedSession) (o : Option (ℕ × Bool)) → pending s ≡ o → pending (polled p s) ≡ o
  unfolding polled
  pending-polled s o e = e

  deadlines-polled :
      (f : ℕ) (s t : SpeedSession)
      → deadlines s < suc f
      → deadlines t < deadlines s
      → deadlines (polled p (advance f t p)) < f
  unfolding polled
  deadlines-polled f s t k fewer = omega (arith, deadlines-advance f t p, k, fewer)

  sample_in-polled :
      (f : ℕ) (s : SpeedSession)
      → deadlines s < f
      → IsSession lo hi s
      → sample_in f (polled p (advance f s p)) q ≡ sample_in f s q
  sample_in-polled zero s k v = elim k [ ]
  sample_in-polled (suc f) s k v = elim (Option-cases (pending s)) [
    | inl e ↦ rw (advance-none (suc f) s p e) (
        idle-polled (suc f) s (advance-none (suc f) s q e)
          (advance-none (suc f) (polled p s) q (pending-polled s _ e)) v)
    | inr (c, e) ↦ elim (Bool-cases (ltb p c.0)) [
      | inl early ↦ rw (advance_early (suc f) s p c.0 c.1 e early) (waiting f s c.0 c.1 e early v)
      | inr due ↦
          let t = expire s c.0 c.1 in
          let fewer = deadlines-expire s c.0 c.1 e in
          rw (advance_due f s p c.0 c.1 e due) (
            sample_in-cong (suc f) f _ _
              (advance-fuel f (polled p (advance f t p)) q (deadlines-polled f s t k fewer))
            ∙ sample_in-polled f t (omega (arith, fewer))
                (expire-IsSession lo hi low s c.0 c.1 (pending-fits lo hi low s c.0 c.1 v e) v)
            ∙ sym (
                sample_in-cong (suc f) f s t (
                  advance_due f s q c.0 c.1 e (le→ltb q c.0 (omega (arith, ltb→le p c.0 due, h))))))
    ]
  ]
    where
      waiting :
          (f : ℕ) (s : SpeedSession) (d : ℕ) (b : Bool)
          → pending s ≡ some (d, b)
          → ltb p d ≡ true
          → IsSession lo hi s
          → sample_in (suc f) (polled p s) q ≡ sample_in (suc f) s q
      waiting f s d b e early v = elim (Bool-cases (ltb q d)) [
        | inl later ↦
            idle-polled (suc f) s (advance_early (suc f) s q d b e later)
              (advance_early (suc f) (polled p s) q d b (pending-polled s _ e) later) v
        | inr due ↦
            let k = pending-fits lo hi low s d b v e in
            sample_in-cong (suc f) f (polled p s) (expire s d b) (
              advance_due f (polled p s) q d b (pending-polled s _ e) due
              ∙ ap (λ t. advance f t q) (expire-polled s d b (omega (arith, ltb→lt p d early)) k v))
            ∙ sym (sample_in-cong (suc f) f s (expire s d b) (advance_due f s q d b e due))
      ]

  deadlines_lt : (s : SpeedSession) → deadlines s < 3
  deadlines_lt s = waits_lt s.startup_deadline_qpc s.hold_deadline_qpc
    where
      waits_lt : (a b : Option ℕ) → waits a + waits b < 3
      waits_lt none none = omega arith
      waits_lt none (some b) = omega arith
      waits_lt (some a) none = omega arith
      waits_lt (some a) (some b) = omega arith

  -- For a session in its invariant, of a profile whose least speed is positive, and times p ≤ q in
  -- u64: sampling at p and then at q leaves the session and answers the snapshot that sampling at
  -- q alone does, whatever deadlines lie before p, between the two, or after q.
  pub sample_poll : (s : SpeedSession) → IsSession lo hi s → sample (sample s p).0 q ≡ sample s q
  unfolding sample advance_deadlines sample_in polled
  sample_poll s v = sample_in-polled 3 s (deadlines_lt s) v
