-- ===== src/Speed/Session/Rounds.antt =====
-- The rounds of the deadline loop (`advance_deadlines` in src/speed_session.rs), one lemma for each
-- way a round goes, and the induction over them.
use intimatr.Prelude.{
  ℕ, zero, suc, ◌≤◌, ◌≡◌, refl, Bool, true, false, Option, none, some, inl, inr, ltb, ltb→le,
  Bool-cases, Option-cases,
}
use intimatr.Speed.Session.{SpeedSession, next_deadline, expire, advance}

abbrev pub pending : SpeedSession → Option (ℕ × Bool)
pending s = next_deadline s.startup_deadline_qpc s.hold_deadline_qpc

pub advance-none : (f : ℕ) (s : SpeedSession) (r : ℕ) → pending s ≡ none → advance f s r ≡ s
unfolding advance
advance-none zero s r e = refl
advance-none (suc f) s r e = rw (e, advance) refl

pub advance_early :
    (f : ℕ) (s : SpeedSession) (r d : ℕ) (b : Bool)
    → pending s ≡ some (d, b)
    → ltb r d ≡ true
    → advance f s r ≡ s
unfolding advance
advance_early zero s r d b e h = refl
advance_early (suc f) s r d b e h = rw (e, advance) (rw h refl)

pub advance_due :
    (f : ℕ) (s : SpeedSession) (r d : ℕ) (b : Bool)
    → pending s ≡ some (d, b)
    → ltb r d ≡ false
    → advance (suc f) s r ≡ advance f (expire s d b) r
unfolding advance
advance_due f s r d b e h = rw (e, advance) (rw h refl)

-- What every expiry of a passed deadline keeps, the loop keeps.
pub advance_induction {ℓ} :
    (P : SpeedSession → Type ℓ) (r : ℕ)
    → ((s : SpeedSession) (d : ℕ) (b : Bool)
        → pending s ≡ some (d, b)
        → d ≤ r
        → P s
        → P (expire s d b))
    → (f : ℕ) (s : SpeedSession) → P s
    → P (advance f s r)
advance_induction P r keep zero s h = unfold advance in h
advance_induction P r keep (suc f) s h = elim (Option-cases (pending s)) [
  | inl e ↦ rw (advance-none (suc f) s r e) h
  | inr (p, e) ↦ elim (Bool-cases (ltb r p.0)) [
    | inl early ↦ rw (advance_early (suc f) s r p.0 p.1 e early) h
    | inr due ↦
        rw (advance_due f s r p.0 p.1 e due)
          (advance_induction P r keep f (expire s p.0 p.1) (keep s p.0 p.1 e (ltb→le r p.0 due) h))
  ]
]
