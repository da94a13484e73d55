-- ===== src/Speed/Controls/Found.antt =====
-- What a search through the presets finds (`find` and `rev().find` in src/speed_controls.rs).
use mathlib.Core.Path.{subst}
use intimatr.Prelude.{
  ◌≡◌, refl, Bool, true, false, Option, none, some, List, [], ◌∷◌, All, find, if◌then◌else◌, arith,
}
use intimatr.Speed.Controls.{or_else, find_last}

-- A property of the value of an option, if it has one.
abbrev pub OnSome {ℓ} : {A : Type ℓ} → (A → Type 0) → Option A → Type 0
OnSome P none = Unit
OnSome P (some a) = P a

module _ {ℓ} {A : Type ℓ} (P : A → Type 0) where
  pub OnSome-if :
      (b : Bool) (o o' : Option A)
      → (b ≡ true → OnSome P o)
      → (b ≡ false → OnSome P o')
      → OnSome P (if b then o else o')
  OnSome-if true o o' h k = h refl
  OnSome-if false o o' h k = k refl

  pub OnSome-or_else : (o o' : Option A) → OnSome P o → OnSome P o' → OnSome P (or_else o o')
  OnSome-or_else none o' h k = k
  OnSome-or_else (some a) o' h k = h

  pub OnSome-elim : (o : Option A) {a : A} → OnSome P o → o ≡ some a → P a
  OnSome-elim none h e = absurd (ground arith)
  OnSome-elim (some b) {a} h e = let q : b ≡ a = cc in subst P q h

  pub OnSome-map :
      (Q : A → Type 0) → ((a : A) → P a → Q a) → (o : Option A) → OnSome P o → OnSome Q o
  OnSome-map Q f none h = tt
  OnSome-map Q f (some a) h = f a h

  pub find-OnSome :
      (p : A → Bool) (xs : List A) → All P xs → OnSome (λ a. P a × (p a ≡ true)) (find p xs)
  find-OnSome p [] h = tt
  find-OnSome p (x ∷ xs) h = found (p x) refl (find-OnSome p xs h.1)
    where
      found :
          (b : Bool)
          → p x ≡ b
          → OnSome (λ a. P a × (p a ≡ true)) (find p xs)
          → OnSome (λ a. P a × (p a ≡ true)) (if b then some x else find p xs)
      found true e k = (h.0, e)
      found false e k = k

  pub find_last-OnSome :
      (p : A → Bool) (xs : List A) → All P xs → OnSome (λ a. P a × (p a ≡ true)) (find_last p xs)
  find_last-OnSome p [] h = tt
  find_last-OnSome p (x ∷ xs) h = found (find_last p xs) (p x) refl (find_last-OnSome p xs h.1)
    where
      found :
          (o : Option A) (b : Bool)
          → p x ≡ b
          → OnSome (λ a. P a × (p a ≡ true)) o
          → OnSome (λ a. P a × (p a ≡ true)) (or_else o (if b then some x else none))
      found (some a) b e k = k
      found none true e k = (h.0, e)
      found none false e k = tt
