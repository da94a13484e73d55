-- ===== src/Float/Bits.antt =====
-- The bytes of Rust's floats: `f64::from_le_bytes`, `f64::to_le_bytes`, and those of an `f32`, with the
-- conversions between the two types, on the bits as one number.
use native.Mathlib.Nat.{pow-suc, mul-div_left, mul-mod_left}
use intimatr.Prelude.{
  ℕ, zero, suc, ◌+◌, ◌-◌, ◌*◌, ◌/◌, ◌%◌, ◌^◌, ◌≤◌, ◌<◌, ◌≡◌, refl, ap, ◌∙◌, inl, inr, Bool, true,
  false, arith, ltb, leb, ◌==◌, if◌then◌else◌, min, max, Bool-cases, ltb→lt, ltb→le,
}
use intimatr.Float.{F64, nan, infinite, finite, is_nan}
use intimatr.Float.Round.{nearest, lt-pow}

-- The least `s` with `n < limit * 2 ^ s`, found in at most `fuel` halvings.
unfoldable pub places : ℕ → ℕ → ℕ → ℕ
places limit zero n = 0
places limit (suc f) n = elim (ltb n limit) [ true ↦ 0 | false ↦ suc (places limit f (n / 2)) ]

-- A sign bit at a place.
abbrev sign_bit : Bool → ℕ → ℕ
sign_bit s top = if s then top else 0

-- The bits of an `f64`. Those of a NaN are of `f64::NAN`.
unfoldable pub f64_bits : F64 → ℕ
unfolding places
f64_bits nan = 2047 * 2 ^ 52 + 2 ^ 51
f64_bits (infinite s) = sign_bit s (2 ^ 63) + 2047 * 2 ^ 52
f64_bits (finite s m) =
    let k = places (2 ^ 53) m m in sign_bit s (2 ^ 63) + (k * 2 ^ 52 + m / 2 ^ k)

-- An `f64` from its sign, exponent and fraction.
unfoldable pub f64_of_fields : Bool → ℕ → ℕ → F64
f64_of_fields s e f =
    if e == 2047
    then if f == 0 then infinite s else nan
    else if e == 0
    then finite s f
    else finite s ((2 ^ 52 + f) * 2 ^ (e - 1))

unfoldable pub f64_of_bits : ℕ → F64
unfolding f64_of_fields
f64_of_bits n = f64_of_fields (leb (2 ^ 63) n) (n / 2 ^ 52 % 2048) (n % 2 ^ 52)

-- The bits of `value as f32`, which rounds to nearest, ties to even, and overflows to an infinity. The
-- least positive `f32` is 2 ^ 925 units.
unfoldable pub f32_bits : F64 → ℕ
unfolding places nearest
f32_bits nan = 255 * 2 ^ 23 + 2 ^ 22
f32_bits (infinite s) = sign_bit s (2 ^ 31) + 255 * 2 ^ 23
f32_bits (finite s m) =
    let k = max 925 (places (2 ^ 24) m m) in
    let rounded = nearest (2 ^ k) (m / 2 ^ k) (m % 2 ^ k) in
    sign_bit s (2 ^ 31) + min ((k - 925) * 2 ^ 23 + rounded) (255 * 2 ^ 23)

-- An `f32` as an `f64`, which is exact.
unfoldable pub f32_of_fields : Bool → ℕ → ℕ → F64
f32_of_fields s e f =
    if e == 255
    then if f == 0 then infinite s else nan
    else if e == 0
    then finite s (f * 2 ^ 925)
    else finite s ((2 ^ 23 + f) * 2 ^ (e - 1 + 925))

unfoldable pub f32_of_bits : ℕ → F64
unfolding f32_of_fields
f32_of_bits n = f32_of_fields (leb (2 ^ 31) n) (n / 2 ^ 23 % 256) (n % 2 ^ 23)

pow_pos : (k : ℕ) → 0 < 2 ^ k
pow_pos k = omega (arith, lt-pow k)

times-ge : (q p : ℕ) → 0 < q → p ≤ q * p
times-ge q p h = grind arith

double : (q k : ℕ) → q * 2 ^ suc k ≡ 2 * (q * 2 ^ k)
double q k = grind (arith, pow-suc 2 k)

places-small : (limit n f : ℕ) → n < limit → places limit f n ≡ 0
unfolding places
places-small limit n zero h = refl
places-small limit n (suc f) h = ground arith

places-large : (limit n f : ℕ) → limit ≤ n → places limit (suc f) n ≡ suc (places limit f (n / 2))
unfolding places
places-large limit n f h = ground arith

-- A number of as many places as the limit allows, shifted: the shift is found.
places-shifted :
    (limit q k f : ℕ) → q < limit → limit ≤ 2 * q → k ≤ f → places limit f (q * 2 ^ k) ≡ k
places-shifted limit q zero f h l r = places-small limit _ f (omega arith)
places-shifted limit q (suc k) zero h l r = absurd (omega arith)
places-shifted limit q (suc k) (suc f) h l r =
    let large : limit ≤ q * 2 ^ suc k = grind (arith, double q k, pow_pos k, times-ge q (2 ^ k)) in
    let half : q * 2 ^ suc k / 2 ≡ q * 2 ^ k = omega (arith, double q k) in
    places-large limit _ f large
    ∙ ap suc (ap (places limit f) half ∙ places-shifted limit q k f h l (omega arith))

places-le : (limit n k f : ℕ) → n < limit * 2 ^ k → places limit f n ≤ k
places-le limit n k zero h = unfold places in omega arith
places-le limit n zero (suc f) h = rw (places-small limit n (suc f) (omega arith)) (omega arith)
places-le limit n (suc k) (suc f) h = elim (Bool-cases (ltb n limit)) [
  | inl small ↦ rw (places-small limit n (suc f) (ltb→lt n limit small)) (omega arith)
  | inr large ↦
      rw (places-large limit n f (ltb→le n limit large))
        (omega (arith, places-le limit (n / 2) k f (omega (arith, double limit k))))
]

k-le-shifted : (q k : ℕ) → 0 < q → k ≤ q * 2 ^ k
k-le-shifted q k h = omega (arith, lt-pow k, times-ge q (2 ^ k) h)

-- The bits of a magnitude of 53 significant bits.
normal-bits :
    (s : Bool) (q k : ℕ)
    → 2 ^ 52 ≤ q
    → q < 2 ^ 53
    → f64_bits (finite s (q * 2 ^ k)) ≡ sign_bit s (2 ^ 63) + (k * 2 ^ 52 + q)
unfolding f64_bits
normal-bits s q k h l =
    rw
      (
        places-shifted (2 ^ 53) q k (q * 2 ^ k) l (omega arith) (k-le-shifted q k (omega arith)),
        mul-div_left q (pow_pos k),
      )
      refl

subnormal-bits : (s : Bool) (f : ℕ) → f < 2 ^ 53 → f64_bits (finite s f) ≡ sign_bit s (2 ^ 63) + f
unfolding f64_bits
subnormal-bits s f h = rw (places-small (2 ^ 53) f f h) (omega arith)

-- A pattern is its sign, exponent and fraction.
f64_fields :
    (n : ℕ)
    → n < 2 ^ 64
    → sign_bit (leb (2 ^ 63) n) (2 ^ 63) + (n / 2 ^ 52 % 2048 * 2 ^ 52 + n % 2 ^ 52) ≡ n
f64_fields n h = elim (Bool-cases (leb (2 ^ 63) n)) [
  | inl high ↦ rw high (let l : 2 ^ 63 ≤ n = ground arith in omega arith)
  | inr low ↦ rw low (let l : n < 2 ^ 63 = ground arith in omega arith)
]

f64_bits-f64_of_fields :
    (s : Bool) (e f : ℕ)
    → f < 2 ^ 52
    → is_nan (f64_of_fields s e f) ≡ false
    → f64_bits (f64_of_fields s e f) ≡ sign_bit s (2 ^ 63) + (e * 2 ^ 52 + f)
unfolding f64_of_fields
f64_bits-f64_of_fields s e f h k = elim (Bool-cases (e == 2047)) [
  | inl top ↦ elim (Bool-cases (f == 0)) [
    | inl none_left ↦
        let e' : e ≡ 2047 = ground arith in
        let f' : f ≡ 0 = ground arith in rw (top, none_left) (unfold f64_bits in omega arith)
    | inr some_left ↦ absurd (ground arith)
  ]
  | inr below ↦ elim (Bool-cases (e == 0)) [
    | inl none_left ↦
        let e' : e ≡ 0 = ground arith in
        rw (below, none_left) (subnormal-bits s f (omega arith) ∙ omega arith)
    | inr some_left ↦
        let e' : 0 < e = ground arith in
        rw (below, some_left)
          (normal-bits s (2 ^ 52 + f) (e - 1) (omega arith) (omega arith) ∙ omega arith)
  ]
]

-- Every bit pattern of an `f64` but a NaN's is read back.
pub f64_bits-f64_of_bits :
    (n : ℕ) → n < 2 ^ 64 → is_nan (f64_of_bits n) ≡ false → f64_bits (f64_of_bits n) ≡ n
unfolding f64_of_bits
f64_bits-f64_of_bits n h k =
    f64_bits-f64_of_fields (leb (2 ^ 63) n) (n / 2 ^ 52 % 2048) (n % 2 ^ 52) (omega arith) k
    ∙ f64_fields n h

nearest_exact : (p q : ℕ) → 0 < p → nearest p q 0 ≡ q
unfolding nearest
nearest_exact p q h = ground arith

-- Rounding to an `f32` keeps what has at most 24 significant bits.
f32-shifted :
    (s : Bool) (q k : ℕ)
    → max 925 (places (2 ^ 24) (q * 2 ^ k) (q * 2 ^ k)) ≡ k
    → f32_bits (finite s (q * 2 ^ k))
      ≡ sign_bit s (2 ^ 31) + min ((k - 925) * 2 ^ 23 + q) (255 * 2 ^ 23)
unfolding f32_bits
f32-shifted s q k e =
    rw (e, mul-div_left q (pow_pos k), mul-mod_left q (2 ^ k), nearest_exact (2 ^ k) q (pow_pos k))
      refl

normal-f32_bits :
    (s : Bool) (q k : ℕ)
    → 2 ^ 23 ≤ q
    → q < 2 ^ 24
    → k < 254
    → f32_bits (finite s (q * 2 ^ (k + 925))) ≡ sign_bit s (2 ^ 31) + (k * 2 ^ 23 + q)
normal-f32_bits s q k h l top =
    f32-shifted s q (k + 925) (
      rw
        (places-shifted (2 ^ 24) q (k + 925) (q * 2 ^ (k + 925)) l (omega arith)
          (k-le-shifted q (k + 925) (omega arith)))
        (omega arith))
    ∙ omega arith

subnormal-f32_bits :
    (s : Bool) (f : ℕ) → f < 2 ^ 23 → f32_bits (finite s (f * 2 ^ 925)) ≡ sign_bit s (2 ^ 31) + f
subnormal-f32_bits s f h =
    f32-shifted s f 925
      (omega (arith, places-le (2 ^ 24) (f * 2 ^ 925) 925 (f * 2 ^ 925) (omega arith)))
    ∙ omega arith

f32_fields :
    (n : ℕ)
    → n < 2 ^ 32
    → sign_bit (leb (2 ^ 31) n) (2 ^ 31) + (n / 2 ^ 23 % 256 * 2 ^ 23 + n % 2 ^ 23) ≡ n
f32_fields n h = elim (Bool-cases (leb (2 ^ 31) n)) [
  | inl high ↦ rw high (let l : 2 ^ 31 ≤ n = ground arith in omega arith)
  | inr low ↦ rw low (let l : n < 2 ^ 31 = ground arith in omega arith)
]

f32_bits-f32_of_fields :
    (s : Bool) (e f : ℕ)
    → e < 256
    → f < 2 ^ 23
    → is_nan (f32_of_fields s e f) ≡ false
    → f32_bits (f32_of_fields s e f) ≡ sign_bit s (2 ^ 31) + (e * 2 ^ 23 + f)
unfolding f32_of_fields
f32_bits-f32_of_fields s e f b h k = elim (Bool-cases (e == 255)) [
  | inl top ↦ elim (Bool-cases (f == 0)) [
    | inl none_left ↦
        let e' : e ≡ 255 = ground arith in
        let f' : f ≡ 0 = ground arith in rw (top, none_left) (unfold f32_bits in omega arith)
    | inr some_left ↦ absurd (ground arith)
  ]
  | inr below ↦ elim (Bool-cases (e == 0)) [
    | inl none_left ↦
        let e' : e ≡ 0 = ground arith in
        rw (below, none_left) (subnormal-f32_bits s f h ∙ omega arith)
    | inr some_left ↦
        let e' : 0 < e = ground arith in
        let e'' : e < 255 = ground arith in
        rw (below, some_left)
          (normal-f32_bits s (2 ^ 23 + f) (e - 1) (omega arith) (omega arith) (omega arith)
            ∙ omega arith)
  ]
]

-- So is every bit pattern of an `f32`, through the `f64` that it is.
pub f32_bits-f32_of_bits :
    (n : ℕ) → n < 2 ^ 32 → is_nan (f32_of_bits n) ≡ false → f32_bits (f32_of_bits n) ≡ n
unfolding f32_of_bits
f32_bits-f32_of_bits n h k =
    f32_bits-f32_of_fields (leb (2 ^ 31) n) (n / 2 ^ 23 % 256) (n % 2 ^ 23) (omega arith)
      (omega arith) k
    ∙ f32_fields n h
