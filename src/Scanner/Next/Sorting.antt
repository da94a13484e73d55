-- ===== src/Scanner/Next/Sorting.antt =====
-- The results of the next scan, sorted by address: a strictly rising list is what its items are.
use mathlib.Core.Path.{subst}
use mathlib.Core.Logic.{ite, if_pos, if_neg}
use native.Mathlib.Decide.{ℕ_discrete}
use intimatr.Float.{F64}
use intimatr.Scanner.Predicate.{ScalarValue}
use intimatr.Prelude.{
  ℤ, ℕ, zero, suc, ◌+◌, ◌≤◌, ◌<◌, ◌≡◌, refl, ap, sym, ◌∙◌, inl, inr, List, [], ◌∷◌, arith, length,
  take, leb, ◌≢◌, Bool-cases, All, All-map,
}
use intimatr.Prelude.Threads.{total}
use intimatr.Scanner.Next.{ScanCandidate, insert_by_address, sort_by_address}

abbrev pub Rising : List ScanCandidate → Type 0
Rising [] = Unit
Rising (c ∷ cs) = All (λ (d : ScanCandidate). c.address ≤ d.address) cs × Rising cs

abbrev pub StrictlyRising : List ScanCandidate → Type 0
StrictlyRising [] = Unit
StrictlyRising (c ∷ cs) = All (λ (d : ScanCandidate). c.address < d.address) cs × StrictlyRising cs

total-insert_by_address :
    (w : ScanCandidate → ℕ) (c : ScanCandidate) (ds : List ScanCandidate)
    → total w (insert_by_address c ds) ≡ w c + total w ds
unfolding total insert_by_address
total-insert_by_address w c [] = refl
total-insert_by_address w c (d ∷ ds) = ground (arith, total-insert_by_address w c ds)

pub total-sort_by_address :
    (w : ScanCandidate → ℕ) (cs : List ScanCandidate) → total w (sort_by_address cs) ≡ total w cs
unfolding total sort_by_address
total-sort_by_address w [] = refl
total-sort_by_address w (c ∷ cs) =
    total-insert_by_address w c (sort_by_address cs)
    ∙ ap (λ n. w c + n) (total-sort_by_address w cs)

All-insert_by_address :
    (a : ℕ) (c : ScanCandidate) (ds : List ScanCandidate)
    → a ≤ c.address
    → All (λ (d : ScanCandidate). a ≤ d.address) ds
    → All (λ (d : ScanCandidate). a ≤ d.address) (insert_by_address c ds)
unfolding insert_by_address
All-insert_by_address a c [] h k = (h, tt)
All-insert_by_address a c (d ∷ ds) h k = elim (Bool-cases (leb c.address d.address)) [
  | inl first ↦ rw first (h, k)
  | inr later ↦ rw later (k.0, All-insert_by_address a c ds h k.1)
]

insert_by_address-Rising :
    (c : ScanCandidate) (ds : List ScanCandidate) → Rising ds → Rising (insert_by_address c ds)
unfolding insert_by_address
insert_by_address-Rising c [] h = (tt, tt)
insert_by_address-Rising c (d ∷ ds) h = elim (Bool-cases (leb c.address d.address)) [
  | inl first ↦
      let le : c.address ≤ d.address = ground arith in
      rw first (
        (
          le,
          All-map (λ (x : ScanCandidate). d.address ≤ x.address)
              (λ (x : ScanCandidate). c.address ≤ x.address) (λ x h'. omega arith) ds h.0,
        ),
        h,
      )
  | inr later ↦
      let le : d.address ≤ c.address = ground arith in
      rw later (All-insert_by_address d.address c ds le h.0, insert_by_address-Rising c ds h.1)
]

pub sort_by_address-Rising : (cs : List ScanCandidate) → Rising (sort_by_address cs)
unfolding sort_by_address
sort_by_address-Rising [] = tt
sort_by_address-Rising (c ∷ cs) =
    insert_by_address-Rising c (sort_by_address cs) (sort_by_address-Rising cs)

ℤ-discrete : Discrete ℤ
ℤ-discrete = hlevel ℕ_discrete

F64-discrete : Discrete F64
F64-discrete = hlevel ℕ_discrete

ScalarValue-discrete : Discrete ScalarValue
ScalarValue-discrete = hlevel (ℕ_discrete, ℤ-discrete, F64-discrete)

ScanCandidate-discrete : Discrete ScanCandidate
ScanCandidate-discrete = hlevel (ℕ_discrete, ScalarValue-discrete)

-- The weight that counts one candidate.
count_of : ScanCandidate → ScanCandidate → ℕ
count_of c d = ite (ScanCandidate-discrete c d) 1 0

count_of_self : (c : ScanCandidate) → count_of c c ≡ 1
unfolding count_of
count_of_self c = rw (if_pos (ScanCandidate-discrete c c) refl) refl

count_of_ne : (c d : ScanCandidate) → c ≢ d → count_of c d ≡ 0
unfolding count_of
count_of_ne c d h = rw (if_neg (ScanCandidate-discrete c d) h) refl

-- What is counted in a list is in it.
All-counted {κ} :
    (P : ScanCandidate → Type κ) (c : ScanCandidate) (ds : List ScanCandidate)
    → All P ds
    → 0 < total (count_of c) ds
    → P c
unfolding total
All-counted P c [] h k = absurd (omega arith)
All-counted P c (d ∷ ds) h k = elim (ScanCandidate-discrete c d) [
  | yes same ↦ subst P (sym same) h.0
  | no other ↦ All-counted P c ds h.1 (omega (arith, count_of_ne c d other))
]

-- Two heads of lists with the same items, of which one rises and the other rises strictly.
heads-eq :
    (c d : ScanCandidate) (cs ds : List ScanCandidate)
    → Rising (c ∷ cs)
    → StrictlyRising (d ∷ ds)
    → ((w : ScanCandidate → ℕ) → total w (c ∷ cs) ≡ total w (d ∷ ds))
    → c ≡ d
unfolding total
heads-eq c d cs ds h k e = elim (ScanCandidate-discrete c d) [
  | yes same ↦ same
  | no other ↦
      let above : d.address < c.address =
        All-counted (λ (x : ScanCandidate). d.address < x.address) c ds k.0
          (omega (arith, e (count_of c), count_of_self c, count_of_ne c d other)) in
      let below : c.address ≤ d.address =
        All-counted (λ (x : ScanCandidate). c.address ≤ x.address) d cs h.0
          (omega (arith, e (count_of d), count_of_self d, count_of_ne d c (λ q. other (sym q)))) in
      absurd (omega arith)
]

-- They are the same list.
pub eq_of_items :
    (cs ds : List ScanCandidate)
    → Rising cs
    → StrictlyRising ds
    → ((w : ScanCandidate → ℕ) → total w cs ≡ total w ds)
    → cs ≡ ds
unfolding total
eq_of_items [] [] h k e = refl
eq_of_items [] (d ∷ ds) h k e = absurd (omega (arith, e (λ c. 1)))
eq_of_items (c ∷ cs) [] h k e = absurd (omega (arith, e (λ c. 1)))
eq_of_items (c ∷ cs) (d ∷ ds) h k e =
    let head = heads-eq c d cs ds h k e in
    let tail = eq_of_items cs ds h.1 k.1 (λ w. omega (arith, e w, ap w head)) in cc (head, tail)

pub take_all {ℓ} : {A : Type ℓ} (n : ℕ) (xs : List A) → length xs ≤ n → take n xs ≡ xs
take_all zero [] h = refl
take_all zero (x ∷ xs) h = absurd (omega arith)
take_all (suc n) [] h = refl
take_all (suc n) (x ∷ xs) h = ap (λ ys. x ∷ ys) (take_all n xs (omega arith))
