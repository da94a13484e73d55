-- ===== src/Analysis/Hits.antt =====
-- The addresses of a range that pass a test, and what is kept of them when a search stops at a limit.
use intimatr.Prelude.{
  ℕ, zero, suc, ◌+◌, ◌-◌, ◌<◌, ◌≡◌, refl, sym, ap, ◌∙◌, inl, inr, Bool, true, false, List, [], ◌∷◌,
  ◌++◌, arith, length, length-append, take, leb, if◌then◌else◌, Bool-cases,
}
use mathlib.Core.List.{append_assoc, append-nil}
use intimatr.Analysis.{PatternScanResult}

-- The addresses from the first on, of so many, that pass.
unfoldable pub hits : (ℕ → Bool) → ℕ → ℕ → List ℕ
hits hit address zero = []
hits hit address (suc n) =
    let rest = hits hit (suc address) n in if hit address then address ∷ rest else rest

pub hits-split :
    (hit : ℕ → Bool) (address n m : ℕ)
    → hits hit address (n + m) ≡ hits hit address n ++ hits hit (address + n) m
unfolding hits
hits-split hit address zero m =
    let first : 0 + m ≡ m = omega arith in
    let at_ : address ≡ address + 0 = omega arith in
    ap (hits hit address) first ∙ ap (λ a. hits hit a m) at_
hits-split hit address (suc n) m =
    let more : suc n + m ≡ suc (n + m) = omega arith in
    let at_ : suc address + n ≡ address + suc n = omega arith in
    let rest : hits hit (suc address) (n + m)
        ≡ hits hit (suc address) n ++ hits hit (address + suc n) m =
      hits-split hit (suc address) n m ∙ ap (λ a. hits hit (suc address) n ++ hits hit a m) at_ in
    ap (hits hit address) more ∙ split_first rest
  where
    split_first :
        hits hit (suc address) (n + m) ≡ hits hit (suc address) n ++ hits hit (address + suc n) m
        → hits hit address (suc (n + m)) ≡ hits hit address (suc n) ++ hits hit (address + suc n) m
    split_first e = elim (Bool-cases (hit address)) [
      | inl found ↦ rw found (ap (λ (l : List ℕ). address ∷ l) e)
      | inr other ↦ rw other e
    ]

-- The addresses taken one after the other, up to the limit.
unfoldable pub push_all : ℕ → PatternScanResult → List ℕ → PatternScanResult
push_all limit r [] = r
push_all limit r (a ∷ rest) =
    let more = push_all limit (record r { addresses = r.addresses ++ (a ∷ []) }) rest in
    if leb limit (length (r.addresses ++ (a ∷ [])))
    then record r { addresses = r.addresses ++ (a ∷ []); truncated = true }
    else more

pub push_all-append :
    (limit : ℕ) (r : PatternScanResult) (xs ys : List ℕ)
    → r.truncated ≡ false
    → push_all limit r (xs ++ ys) ≡ (
        if (push_all limit r xs).truncated
        then push_all limit r xs
        else push_all limit (push_all limit r xs) ys)
unfolding push_all
push_all-append limit r [] ys h = rw h refl
push_all-append limit r (x ∷ xs) ys h =
    elim (Bool-cases (leb limit (length (r.addresses ++ (x ∷ []))))) [
      | inl full ↦ rw full refl
      | inr room ↦
          rw room (push_all-append limit (record r { addresses = r.addresses ++ (x ∷ []) }) xs ys h)
    ]

take_nil : (n : ℕ) → take {A = ℕ} n [] ≡ []
take_nil zero = refl
take_nil (suc n) = refl

le→leb_false : (n : ℕ) → 0 < n → leb n 0 ≡ false
le→leb_false n h = ground arith

pub push_all-take :
    (limit : ℕ) (r : PatternScanResult) (xs : List ℕ)
    → r.truncated ≡ false
    → length r.addresses < limit
    → ((push_all limit r xs).addresses ≡ r.addresses ++ take (limit - length r.addresses) xs)
      × ((push_all limit r xs).truncated ≡ leb (limit - length r.addresses) (length xs))
      × ((push_all limit r xs).read_failures ≡ r.read_failures)
unfolding push_all
push_all-take limit r [] h few = (
  sym (append-nil r.addresses) ∙ ap (λ l. r.addresses ++ l) (sym (take_nil _)),
  h ∙ sym (le→leb_false _ (omega arith)),
  refl,
)
push_all-take limit r (x ∷ xs) h few =
    elim (Bool-cases (leb limit (length (r.addresses ++ (x ∷ []))))) [
      | inl full ↦
          let longer = length-append r.addresses (x ∷ []) in
          let last : limit - length r.addresses ≡ 1 = ground (arith, longer) in
          rw full (rw last (refl, ground arith, refl))
      | inr room ↦
          let longer = length-append r.addresses (x ∷ []) in
          let more : limit - length r.addresses ≡ suc (limit - length (r.addresses ++ (x ∷ []))) =
            ground (arith, longer) in
          let (all_, whole, failures) =
            push_all-take limit (record r { addresses = r.addresses ++ (x ∷ []) }) xs h
              (ground (arith, longer)) in
          rw room (
            rw more (
              all_
                  ∙ append_assoc r.addresses (x ∷ [])
                      (take (limit - length (r.addresses ++ (x ∷ []))) xs),
              whole ∙ ground arith,
              failures,
            ))
    ]
