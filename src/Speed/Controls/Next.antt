-- ===== src/Speed/Controls/Next.antt =====
-- The preset next to a speed (the searches of `increase` and `decrease` in src/speed_controls.rs).
use intimatr.Prelude.{
  ◌≡◌, refl, sym, ◌⊎◌, inl, inr, Bool, true, false, none, some, List, [], ◌∷◌, arith, All, All-map,
  find, Bool-cases, Option-cases,
}
use intimatr.Float.{F64, is_finite, lt, le}
use mathlib.Core.Path.{subst}
use intimatr.Float.Order.{le_refl, lt-le_trans, le_of_lt}
use intimatr.Speed.Config.Laws.{Increasing}
use intimatr.Speed.Controls.{find_last}

-- An element of the list, by its value.
abbrev pub Member : F64 → List F64 → Type 0
Member m [] = ⊥
Member m (x ∷ xs) = (m ≡ x) ⊎ Member m xs

-- `m` is the slowest preset that is faster than `current`.
abbrev pub IsNextAbove : List F64 → F64 → F64 → Type 0
IsNextAbove steps current m =
    Member m steps × (lt current m ≡ true) × All (λ s. (lt current s ≡ true → le m s ≡ true)) steps

-- `m` is the fastest preset that is slower than `current`.
abbrev pub IsNextBelow : List F64 → F64 → F64 → Type 0
IsNextBelow steps current m =
    Member m steps × (lt m current ≡ true) × All (λ s. (lt s current ≡ true → le s m ≡ true)) steps

-- `next` is the slowest preset that is faster than `current`, or `current` if there is none.
abbrev pub NextAbove : List F64 → F64 → F64 → Type 0
NextAbove steps current next =
    IsNextAbove steps current next ⊎ ((next ≡ current) × All (λ s. lt current s ≡ false) steps)

-- `next` is the fastest preset that is slower than `current`, or `current` if there is none.
abbrev pub NextBelow : List F64 → F64 → F64 → Type 0
NextBelow steps current next =
    IsNextBelow steps current next ⊎ ((next ≡ current) × All (λ s. lt s current ≡ false) steps)

pub find-none : (p : F64 → Bool) (xs : List F64) → find p xs ≡ none → All (λ s. p s ≡ false) xs
find-none p [] h = tt
find-none p (x ∷ xs) h = elim (Bool-cases (p x)) [
  | inl e ↦ absurd (ground arith)
  | inr e ↦ (e, find-none p xs (ground arith))
]

pub find_last-none :
    (p : F64 → Bool) (xs : List F64) → find_last p xs ≡ none → All (λ s. p s ≡ false) xs
find_last-none p [] h = tt
find_last-none p (x ∷ xs) h = (ground arith, find_last-none p xs (ground arith))

Increasing-tail : (x : F64) (xs : List F64) → Increasing (x ∷ xs) → Increasing xs
Increasing-tail x [] i = tt
Increasing-tail x (y ∷ xs) i = i.1

-- Every later preset is faster than an earlier one.
Increasing-above : (x : F64) (xs : List F64) → Increasing (x ∷ xs) → All (λ s. lt x s ≡ true) xs
Increasing-above x [] i = tt
Increasing-above x (y ∷ xs) i = (
  i.0,
  All-map _ _ (λ s h. lt-le_trans x y s i.0 (le_of_lt y s h)) xs (Increasing-above y xs i.1),
)

bool_clash : {b : Bool} → b ≡ false → b ≡ true → ⊥
bool_clash k l = cc

pub find-above :
    (current : F64) (xs : List F64) {m : F64}
    → Increasing xs
    → All (λ s. is_finite s ≡ true) xs
    → find (λ s. lt current s) xs ≡ some m
    → IsNextAbove xs current m
find-above current [] i f h = absurd (ground arith)
find-above current (x ∷ xs) {m} i f h = elim (Bool-cases (lt current x)) [
  | inl e ↦
      let q : x ≡ m = ground arith in
      subst (IsNextAbove (x ∷ xs) current) q (
        inl refl,
        e,
        (λ _. le_refl x f.0, All-map _ _ (λ s k _. le_of_lt x s k) xs (Increasing-above x xs i)),
      )
  | inr e ↦
      let (member, above, least) =
        find-above current xs (Increasing-tail x xs i) f.1 (ground arith) in
      (inr member, above, (λ k. absurd (bool_clash e k), least))
]

Member-All : (P : F64 → Type 0) (m : F64) (xs : List F64) → All P xs → Member m xs → P m
Member-All P m [] h k = absurd k
Member-All P m (x ∷ xs) h (inl e) = subst P (sym e) h.0
Member-All P m (x ∷ xs) h (inr k) = Member-All P m xs h.1 k

pub find_last-below :
    (current : F64) (xs : List F64) {m : F64}
    → Increasing xs
    → All (λ s. is_finite s ≡ true) xs
    → find_last (λ s. lt s current) xs ≡ some m
    → IsNextBelow xs current m
find_last-below current [] i f h = absurd (ground arith)
find_last-below current (x ∷ xs) {m} i f h =
    elim (Option-cases (find_last (λ s. lt s current) xs)) [
      | inr (k, e) ↦
          let q : k ≡ m = ground arith in
          let (member, below, greatest) =
            find_last-below current xs {m = m} (Increasing-tail x xs i) f.1 (rw q at e) in
          (
            inr member,
            below,
            (λ _. le_of_lt x m (Member-All _ m xs (Increasing-above x xs i) member), greatest),
          )
      | inl e ↦
          let q : x ≡ m = ground arith in
          let hit : lt x current ≡ true = ground arith in
          subst (IsNextBelow (x ∷ xs) current) q (
            inl refl,
            hit,
            (
              λ _. le_refl x f.0,
              All-map _ _ (λ s k l. absurd (bool_clash k l)) xs (find_last-none _ xs e),
            ),
          )
    ]
