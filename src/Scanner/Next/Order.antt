-- ===== src/Scanner/Next/Order.antt =====
-- What a scan of the candidates one after the other finds has their addresses, in their order.
use mathlib.Core.Path.{subst}
use intimatr.Prelude.{
  ℕ, ◌<◌, ◌≡◌, refl, sym, inl, inr, Bool, true, false, List, [], ◌∷◌, Result, ok, err, Result-cases,
  All,
}
use intimatr.Scanner.Memory.{MemorySource}
use intimatr.Scanner.Predicate.{ScanPredicate}
use intimatr.Scanner.Value.{ValueType, byte_width, decode}
use intimatr.Scanner.Engine.{ScanOptions, ScanError, value}
use intimatr.Scanner.Next.{
  ScanCandidate, Verdict, unreadable, rejected, undecodable, unmatched, accepted, verdict_of, judge,
  judge_value,
}
use intimatr.Scanner.Next.Weights.{with_found, kept}
use intimatr.Scanner.Next.Sorting.{StrictlyRising}

-- A match stands at that address.
abbrev StandsAt : ℕ → Verdict → Type 0
StandsAt a (accepted d) = d.address ≡ a
StandsAt a _ = Unit

verdict_of-StandsAt :
    (r : Result ScanError Bool) (d : ScanCandidate) → StandsAt d.address (verdict_of r d)
verdict_of-StandsAt (err e) d = tt
verdict_of-StandsAt (ok true) d = refl
verdict_of-StandsAt (ok false) d = tt

with_found-above :
    (a b : ℕ) (v : Verdict) (rest : List ScanCandidate)
    → StandsAt b v
    → a < b
    → All (λ (d : ScanCandidate). a < d.address) rest
    → All (λ (d : ScanCandidate). a < d.address) (with_found v rest)
with_found-above a b (accepted d) rest e h k = (rw e h, k)
with_found-above a b unreadable rest e h k = k
with_found-above a b rejected rest e h k = k
with_found-above a b (undecodable x) rest e h k = k
with_found-above a b (unmatched x) rest e h k = k

with_found-StrictlyRising :
    (a : ℕ) (v : Verdict) (rest : List ScanCandidate)
    → StandsAt a v
    → All (λ (d : ScanCandidate). a < d.address) rest
    → StrictlyRising rest
    → StrictlyRising (with_found v rest)
with_found-StrictlyRising a (accepted d) rest e h k = (rw e h, k)
with_found-StrictlyRising a unreadable rest e h k = k
with_found-StrictlyRising a rejected rest e h k = k
with_found-StrictlyRising a (undecodable x) rest e h k = k
with_found-StrictlyRising a (unmatched x) rest e h k = k

module _ (source : MemorySource) (t : ValueType) (p : ScanPredicate) (options : ScanOptions) where
  judge-StandsAt : (c : ScanCandidate) → StandsAt c.address (judge source t p options c)
  unfolding judge judge_value
  judge-StandsAt c = elim (Result-cases (source.read_exact c.address (byte_width t))) [
    | inr (e, unread) ↦
        let same : judge source t p options c ≡ unreadable = rw (judge, unread) refl in
        subst (StandsAt c.address) (sym same) tt
    | inl (bytes, read) ↦ elim (Result-cases (decode t bytes)) [
      | inr (e, undecoded) ↦
          let same : judge source t p options c ≡ undecodable (value e) =
            rw (judge, read) (rw undecoded refl) in
          subst (StandsAt c.address) (sym same) tt
      | inl (v, decoded) ↦
          let same : judge source t p options c ≡ judge_value source t p options c v =
            rw (judge, read) (rw decoded refl) in
          subst (StandsAt c.address) (sym same) (verdict_of-StandsAt _ _)
    ]
  ]

  kept-above :
      (a : ℕ) (cs : List ScanCandidate)
      → All (λ (d : ScanCandidate). a < d.address) cs
      → All (λ (d : ScanCandidate). a < d.address) (kept source t p options cs)
  unfolding kept
  kept-above a [] h = tt
  kept-above a (c ∷ cs) h =
      with_found-above a c.address (judge source t p options c) (kept source t p options cs)
        (judge-StandsAt c) h.0 (kept-above a cs h.1)

  pub kept-StrictlyRising :
      (cs : List ScanCandidate) → StrictlyRising cs → StrictlyRising (kept source t p options cs)
  unfolding kept
  kept-StrictlyRising [] h = tt
  kept-StrictlyRising (c ∷ cs) h =
      with_found-StrictlyRising c.address (judge source t p options c) (kept source t p options cs)
        (judge-StandsAt c) (kept-above c.address cs h.0) (kept-StrictlyRising cs h.1)
