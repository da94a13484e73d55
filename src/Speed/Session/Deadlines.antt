-- ===== src/Speed/Session/Deadlines.antt =====
-- Temporary speeds end (the deadlines of src/speed_session.rs).
use intimatr.Prelude.{
  ℕ, zero, suc, ◌+◌, ◌≤◌, ◌<◌, ◌≡◌, refl, sym, ap, ◌∙◌, ◌⊎◌, inl, inr, Bool, true, false, Option,
  none, some, arith, is_some, u64_max, ltb, leb, ltb→lt, Bool-cases, Option-cases,
}
use intimatr.Float.{F64, one}
use intimatr.Speed.Clock.Scaled.{IsSpeed}
use intimatr.Speed.Controls.{effective_multiplier}
use intimatr.Speed.Controls
use intimatr.Speed.Controls.Found.{OnSome}
use intimatr.Speed.Session.{
  SpeedSession, multiplier, next_deadline, expire, advance, advance_deadlines, sample,
}
use intimatr.Speed.Session.Rounds.{
  pending, advance-none, advance_early, advance_due, advance_induction,
}
use intimatr.Speed.Session.Laws.{IsSession, sample-IsSession}

abbrev pub waits : Option ℕ → ℕ
waits none = 0
waits (some d) = 1

-- The deadlines that a session waits for.
abbrev pub deadlines : SpeedSession → ℕ
deadlines s = waits s.startup_deadline_qpc + waits s.hold_deadline_qpc

pub deadlines-expire :
    (s : SpeedSession) (d : ℕ) (b : Bool)
    → pending s ≡ some (d, b)
    → deadlines (expire s d b) < deadlines s
unfolding expire next_deadline
deadlines-expire s d true e = ground arith
deadlines-expire s d false e = ground arith

advance-future :
    (f : ℕ) (s : SpeedSession) (r : ℕ)
    → deadlines s < f
    → OnSome (λ (p : ℕ × Bool). r < p.0) (pending (advance f s r))
advance-future zero s r h = elim h [ ]
advance-future (suc f) s r h = elim (Option-cases (pending s)) [
  | inl e ↦ rw (advance-none (suc f) s r e, e) tt
  | inr (p, e) ↦ elim (Bool-cases (ltb r p.0)) [
    | inl early ↦ rw (advance_early (suc f) s r p.0 p.1 e early, e) (ltb→lt r p.0 early)
    | inr due ↦
        rw (advance_due f s r p.0 p.1 e due)
          (advance-future f (expire s p.0 p.1) r (omega (arith, deadlines-expire s p.0 p.1 e)))
  ]
]

future-each :
    (r : ℕ) (a b : Option ℕ)
    → OnSome (λ (p : ℕ × Bool). r < p.0) (next_deadline a b)
    → OnSome (λ d. r < d) a × OnSome (λ d. r < d) b
unfolding next_deadline
future-each r none none h = (tt, tt)
future-each r none (some b) h = (tt, h)
future-each r (some a) none h = (h, tt)
future-each r (some a) (some b) h = elim (Bool-cases (leb a b)) [
  | inl e ↦ let h' : r < a = rw e at h in (h', ground arith)
  | inr e ↦ let h' : r < b = rw e at h in (ground arith, h')
]

-- After a sample, for any session and time, each deadline that is left lies after the time of the
-- sample: the rounds of the loop are always enough.
pub sample_clears :
    (s : SpeedSession) (r : ℕ)
    → OnSome (λ d. r < d) (sample s r).0.startup_deadline_qpc
      × OnSome (λ d. r < d) (sample s r).0.hold_deadline_qpc
unfolding sample advance_deadlines
sample_clears s r =
    future-each r _ _ (advance-future 3 s r (few s.startup_deadline_qpc s.hold_deadline_qpc))
  where
    few : (a b : Option ℕ) → waits a + waits b < 3
    few a b = ground arith

-- A deadline is never moved.
abbrev Kept : Option ℕ → Option ℕ → Type 0
Kept o = OnSome (λ d. o ≡ some d)

Kept-self : (o : Option ℕ) → Kept o o
Kept-self none = tt
Kept-self (some d) = refl

expire-Kept :
    (o : Option ℕ) (s : SpeedSession) (d : ℕ) (b : Bool)
    → Kept o s.hold_deadline_qpc
    → Kept o (expire s d b).hold_deadline_qpc
unfolding expire
expire-Kept o s d true k = tt
expire-Kept o s d false k = tt

hold-Kept : (s : SpeedSession) (r : ℕ) → Kept s.hold_deadline_qpc (sample s r).0.hold_deadline_qpc
unfolding sample advance_deadlines
hold-Kept s r =
    advance_induction (λ t. Kept s.hold_deadline_qpc t.hold_deadline_qpc) r
      (λ t d b e h k. expire-Kept s.hold_deadline_qpc t d b k) 3 s (Kept-self s.hold_deadline_qpc)

-- A kept deadline that must lie in the future, and has passed, is gone.
gone :
    (o o' : Option ℕ) (d q : ℕ)
    → o ≡ some d
    → d ≤ q
    → Kept o o'
    → OnSome (λ c. q < c) o'
    → o' ≡ none
gone o none d q e h k f = refl
gone o (some c) d q e h k f = let same : d ≡ c = cc in absurd (omega arith)

-- Before the startup deadline, or after its reset.
abbrev Started : ℕ → SpeedSession → Type 0
Started d s =
    (s.startup_deadline_qpc ≡ some d)
    ⊎ ((s.controls.bypassed ≡ true)
        × (s.controls.held_multiplier ≡ none)
        × (s.startup_deadline_qpc ≡ none)
        × (s.hold_deadline_qpc ≡ none))

expire-Started :
    (d : ℕ) (s : SpeedSession) (d' : ℕ) (b : Bool)
    → pending s ≡ some (d', b)
    → Started d s
    → Started d (expire s d' b)
unfolding expire Controls.reset next_deadline
expire-Started d s d' true e k = inr (refl, refl, refl, refl)
expire-Started d s d' false e (inl k) = inl k
expire-Started d s d' false e (inr k) = absurd (ground arith)

sample-Started : (d : ℕ) (s : SpeedSession) (r : ℕ) → Started d s → Started d (sample s r).0
unfolding sample advance_deadlines
sample-Started d s r k =
    advance_induction (Started d) r (λ t d' b e h w. expire-Started d t d' b e w) 3 s k

future-clash : (o : Option ℕ) (d q : ℕ) → o ≡ some d → d ≤ q → OnSome (λ c. q < c) o → ⊥
future-clash none d q e h f = cc
future-clash (some c) d q e h f = let same : c ≡ d = cc in omega arith

pub effective-bypassed :
    (s : SpeedSession)
    → s.controls.bypassed ≡ true
    → s.controls.held_multiplier ≡ none
    → effective_multiplier s.controls ≡ one
unfolding effective_multiplier
effective-bypassed s b h = rw (h, effective_multiplier) (rw b refl)

module _ (lo hi : F64) (low : IsSpeed lo) (s : SpeedSession) (v : IsSession lo hi s) where
  -- For a session in its invariant, of a profile whose least speed is positive, that has a hold
  -- deadline: a sample in u64 at or after that deadline leaves no hold, however late it comes.
  pub hold_ends :
      (d q : ℕ)
      → s.hold_deadline_qpc ≡ some d
      → d ≤ q
      → q ≤ u64_max
      → (sample s q).0.controls.held_multiplier ≡ none
  hold_ends d q e h fits =
      let over =
        gone _ (sample s q).0.hold_deadline_qpc d q e h (hold-Kept s q) (sample_clears s q).1 in
      let w = sample-IsSession lo hi low s q fits v in
      is_some-false (sample s q).0.controls.held_multiplier (sym w.lease ∙ ap is_some over)
    where
      is_some-false : (o : Option F64) → is_some o ≡ false → o ≡ none
      is_some-false o k = ground arith

  -- For a session in its invariant, of a profile whose least speed is positive, that has a startup
  -- deadline: a sample in u64 at or after that deadline leaves the clock at 1x.
  pub startup_ends :
      (d q : ℕ)
      → s.startup_deadline_qpc ≡ some d
      → d ≤ q
      → q ≤ u64_max
      → multiplier (sample s q).0 ≡ one
  startup_ends d q e h fits = elim (sample-Started d s q (inl e)) [
    | inl k ↦
        absurd (future-clash (sample s q).0.startup_deadline_qpc d q k h (sample_clears s q).0)
    | inr k ↦
        (sample-IsSession lo hi low s q fits v).in_force ∙ effective-bypassed (sample s q).0 k.0 k.1
  ]
