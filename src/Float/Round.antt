-- ===== src/Float/Round.antt =====
-- Rounding to nearest, ties to even, on magnitudes: the rounding of every `f64` operation.
use native.Mathlib.Nat.{
  pow-suc, pow-le-pow_right, mul-div_left, mul-mod_left, zero-add, suc-add, mul_right_comm,
  mul_assoc, sub-add_cancel,
}
use native.Mathlib.Decide.{dec_lt}
use intimatr.Prelude.{
  ℕ, zero, suc, ◌+◌, ◌-◌, ◌*◌, ◌/◌, ◌%◌, ◌^◌, ◌≤◌, ◌<◌, ◌≡◌, refl, sym, ap, ◌∙◌, ◌⊎◌, inl, inr,
  true, false, ◌&&◌, ◌||◌, arith, ltb, ◌==◌, if◌then◌else◌, max, Bool-cases, ltb→lt, ltb→le,
}

-- The least `s` with `n < 2 ^ (53 + s)`, found in at most `fuel` halvings.
excess : ℕ → ℕ → ℕ
excess zero n = 0
excess (suc f) n = elim (ltb n (2 ^ 53)) [ true ↦ 0 | false ↦ suc (excess f (n / 2)) ]

-- The quotient of a division by `p`, `q` with the rest `r`, rounded to nearest, ties to even.
unfoldable pub nearest : ℕ → ℕ → ℕ → ℕ
nearest p q r = if ltb p (2 * r) || (p == 2 * r && (q % 2 == 1)) then q + 1 else q

-- The multiple of `p` nearest to `n`.
round_by : ℕ → ℕ → ℕ
unfolding nearest
round_by p n = nearest p (n / p) (n % p) * p

-- The binary places that rounding drops: as many as leave 53 bits, and at least `c`.
shift : ℕ → ℕ → ℕ
unfolding excess
shift c n = max c (excess n n)

-- `n` rounded to 53 significant bits, and to a multiple of `2 ^ c`.
unfoldable pub round : ℕ → ℕ → ℕ
unfolding shift round_by
round c n = round_by (2 ^ shift c n) n

nearest_mono : (p q r q' r' : ℕ) → q ≤ q' → (q ≡ q' → r ≤ r') → nearest p q r ≤ nearest p q' r'
unfolding nearest
nearest_mono p q r q' r' h k = ground arith

nearest-le : (p q r : ℕ) → nearest p q r ≤ q + 1
unfolding nearest
nearest-le p q r = ground arith

le-nearest : (p q r : ℕ) → q ≤ nearest p q r
unfolding nearest
le-nearest p q r = ground arith

pub times-lt : (a b p : ℕ) → a < b → 0 < p → a * p < b * p
times-lt a b p h k = grind arith

pub div_mono : (p n m : ℕ) → 0 < p → n ≤ m → n / p ≤ m / p
div_mono p n m pos h = grind arith

mod_mono : (p n m : ℕ) → 0 < p → n ≤ m → n / p ≡ m / p → n % p ≤ m % p
mod_mono p n m pos h e = grind arith

div-lt : (p k n : ℕ) → 0 < p → n < k * p → n / p < k
div-lt p k n pos h = grind arith

le-div : (p k n : ℕ) → 0 < p → k * p ≤ n → k ≤ n / p
le-div p k n pos h = grind arith

pub times_mono : (a b p : ℕ) → a ≤ b → a * p ≤ b * p
times_mono a b p h = grind arith

round_by_mono : (p n m : ℕ) → 0 < p → n ≤ m → round_by p n ≤ round_by p m
unfolding round_by
round_by_mono p n m pos h =
    times_mono _ _ p
      (nearest_mono p (n / p) (n % p) (m / p) (m % p) (div_mono p n m pos h) (mod_mono p n m pos h))

round_by-le : (p k n : ℕ) → 0 < p → n < k * p → round_by p n ≤ k * p
unfolding round_by
round_by-le p k n pos h =
    times_mono _ _ p (omega (arith, nearest-le p (n / p) (n % p), div-lt p k n pos h))

le-round_by : (p k n : ℕ) → 0 < p → k * p ≤ n → k * p ≤ round_by p n
unfolding round_by
le-round_by p k n pos h =
    times_mono _ _ p (omega (arith, le-nearest p (n / p) (n % p), le-div p k n pos h))

excess-small : (f n : ℕ) → n < 2 ^ 53 → excess f n ≡ 0
unfolding excess
excess-small zero n h = refl
excess-small (suc f) n h = ground arith

excess-large : (f n : ℕ) → 2 ^ 53 ≤ n → excess (suc f) n ≡ suc (excess f (n / 2))
unfolding excess
excess-large f n h = ground arith

lt-excess : (f n : ℕ) → n < 2 ^ 53 * 2 ^ f → n < 2 ^ 53 * 2 ^ excess f n
lt-excess zero n h = unfold excess in h
lt-excess (suc f) n h = elim (Bool-cases (ltb n (2 ^ 53))) [
  | inl small ↦
      rw (excess-small (suc f) n (ltb→lt _ _ small)) (omega (arith, ltb→lt n (2 ^ 53) small))
  | inr large ↦
      rw (excess-large f n (ltb→le _ _ large), pow-suc 2 (excess f (n / 2)))
        (omega (arith, pow-suc 2 f, lt-excess f (n / 2) (omega (arith, pow-suc 2 f))))
]

excess-le : (f n : ℕ) → (excess f n ≡ 0) ⊎ (2 ^ 52 * 2 ^ excess f n ≤ n)
excess-le zero n = inl (unfold excess in refl)
excess-le (suc f) n = elim (Bool-cases (ltb n (2 ^ 53))) [
  | inl small ↦ inl (excess-small (suc f) n (ltb→lt _ _ small))
  | inr large ↦ inr (
      rw (excess-large f n (ltb→le _ _ large), pow-suc 2 (excess f (n / 2)))
        (elim (excess-le f (n / 2)) [
          | inl e ↦ rw e (omega (arith, ltb→le n (2 ^ 53) large))
          | inr l ↦ omega arith
        ]))
]

pub lt-pow : (n : ℕ) → n < 2 ^ n
lt-pow zero = omega arith
lt-pow (suc n) = omega (arith, pow-suc 2 n, lt-pow n)

lt-shift : (c n : ℕ) → n < 2 ^ 53 * 2 ^ shift c n
unfolding shift
lt-shift c n = omega (
  arith,
  lt-excess n n (omega (arith, lt-pow n)),
  pow-le-pow_right {n = 2} (omega arith) {i = excess n n} {j = max c (excess n n)} (omega arith),
)

-- Where more than `c` places are dropped, all 53 bits above them are there.
shift-cases : (c n : ℕ) → (shift c n ≡ c) ⊎ ((c < shift c n) × (2 ^ 52 * 2 ^ shift c n ≤ n))
unfolding shift
shift-cases c n = elim (excess-le n n) [
  | inl e ↦ inl (omega (arith, e))
  | inr l ↦ elim (dec_lt c (excess n n)) [
    | yes more ↦ inr (omega arith, let e : max c (excess n n) ≡ excess n n = omega arith in rw e l)
    | no less ↦ inl (omega arith)
  ]
]

pow-pos : (n : ℕ) → 0 < 2 ^ n
pow-pos n = omega (arith, lt-pow n)

pow-gap : (s t : ℕ) → s < t → 2 ^ 53 * 2 ^ s ≤ 2 ^ 52 * 2 ^ t
pow-gap s t h =
    omega (arith, pow-suc 2 s, pow-le-pow_right {n = 2} (omega arith) {i = suc s} {j = t} h)

fills-shift : (c m s : ℕ) → s < shift c m → c ≤ s → 2 ^ 52 * 2 ^ shift c m ≤ m
fills-shift c m s h k = elim (shift-cases c m) [ inl e ↦ absurd (omega arith) | inr l ↦ l.1 ]

c-le-shift : (c n : ℕ) → c ≤ shift c n
unfolding shift
c-le-shift c n = omega arith

round-mono_gap : (c n m : ℕ) → shift c n < shift c m → round c n ≤ round c m
unfolding round
round-mono_gap c n m gap = omega (
  arith,
  round_by-le (2 ^ shift c n) (2 ^ 53) n (pow-pos (shift c n)) (lt-shift c n),
  pow-gap (shift c n) (shift c m) gap,
  le-round_by (2 ^ shift c m) (2 ^ 52) m (pow-pos (shift c m))
      (fills-shift c m (shift c n) gap (c-le-shift c n)),
)

round-mono_same : (c n m : ℕ) → n ≤ m → shift c n ≡ shift c m → round c n ≤ round c m
unfolding round
round-mono_same c n m h e = rw e (round_by_mono (2 ^ shift c m) n m (pow-pos (shift c m)) h)

-- A smaller value drops no more places.
shift_mono : (c n m : ℕ) → n ≤ m → shift c n ≤ shift c m
shift_mono c n m h = elim (dec_lt (shift c m) (shift c n)) [
  | yes gap ↦ absurd (
      omega (
        arith,
        fills-shift c n (shift c m) gap (c-le-shift c m),
        pow-gap (shift c m) (shift c n) gap,
        lt-shift c m,
      ))
  | no le ↦ omega arith
]

-- Rounding never swaps two values.
pub round_mono : (c n m : ℕ) → n ≤ m → round c n ≤ round c m
round_mono c n m h = elim (dec_lt (shift c n) (shift c m)) [
  | yes gap ↦ round-mono_gap c n m gap
  | no none ↦ round-mono_same c n m h (omega (arith, shift_mono c n m h))
]

round_by-exact : (p b : ℕ) → 0 < p → round_by p (b * p) ≡ b * p
unfolding round_by nearest
round_by-exact p b h = rw (mul-div_left b h, mul-mod_left b p) (ground arith)

shift-le : (c a k : ℕ) → a < 2 ^ 53 → c ≤ k → shift c (a * 2 ^ k) ≤ k
shift-le c a k h l = elim (dec_lt k (shift c (a * 2 ^ k))) [
  | yes gap ↦ absurd (
      omega (
        arith,
        fills-shift c (a * 2 ^ k) k gap l,
        pow-gap k (shift c (a * 2 ^ k)) gap,
        times-lt a (2 ^ 53) (2 ^ k) h (pow-pos k),
      ))
  | no le ↦ omega arith
]

pow-add : (d s : ℕ) → 2 ^ (d + s) ≡ 2 ^ d * 2 ^ s
pow-add zero s = rw zero-add (omega arith)
pow-add (suc d) s =
    rw (suc-add, pow-suc 2 (d + s), pow-suc 2 d, pow-add d s) (mul_right_comm (2 ^ d) (2 ^ s) 2)

pow-split : (k s : ℕ) → s ≤ k → 2 ^ k ≡ 2 ^ (k - s) * 2 ^ s
pow-split k s h = rw (← pow-add (k - s) s, sub-add_cancel h)

round_by-multiple : (p b n : ℕ) → 0 < p → n ≡ b * p → round_by p n ≡ n
round_by-multiple p b n h e = rw e (round_by-exact p b h)

-- What fits 53 bits is kept.
pub round-exact : (c a k : ℕ) → a < 2 ^ 53 → c ≤ k → round c (a * 2 ^ k) ≡ a * 2 ^ k
unfolding round
round-exact c a k h l =
    round_by-multiple _ (a * 2 ^ (k - shift c (a * 2 ^ k))) (a * 2 ^ k)
      (pow-pos (shift c (a * 2 ^ k)))
      (ap (λ t. a * t) (pow-split k (shift c (a * 2 ^ k)) (shift-le c a k h l))
        ∙ sym (mul_assoc a _ _))
