-- ===== src/Float.antt =====
-- Rust's `f64`, which is IEEE 754 binary64: a finite value is a sign and a magnitude in units of
-- 2^-1074, the least subnormal, so that each one is represented exactly. One NaN stands for all.
pub mod Round
pub mod Order
pub mod Bits
use intimatr.Prelude.{
  ℕ, ◌+◌, ◌-◌, ◌*◌, ◌/◌, ◌^◌, Bool, true, false, not, ◌&&◌, ◌||◌, Option, none, some, compare,
  Ordering, leb, ◌==◌, if◌then◌else◌, min, u64_max,
}
use Round.{round}

-- In `infinite s` and `finite s m` the sign `s` is true for a negative value.
pub data F64 : Type 0 where
  nan : F64
  infinite : Bool → F64
  finite : Bool → ℕ → F64

-- 1.0, and the first magnitude that is not finite, in units.
unfoldable pub unit : ℕ
unit = 2 ^ 1074

unfoldable pub overflow : ℕ
overflow = 2 ^ 2098

unfoldable pub one : F64
unfolding unit
one = finite false unit

abbrev pub zero : F64
zero = finite false 0

abbrev pub is_finite : F64 → Bool
is_finite (finite s m) = true
is_finite _ = false

abbrev pub is_nan : F64 → Bool
is_nan nan = true
is_nan _ = false

-- The parts above and below zero.
abbrev pub above : Bool → ℕ → ℕ
above s m = if s then 0 else m

abbrev pub below : Bool → ℕ → ℕ
below s m = if s then m else 0

-- `partial_cmp`
abbrev pub partial_cmp : F64 → F64 → Option Ordering
partial_cmp nan b = none
partial_cmp (infinite s) nan = none
partial_cmp (infinite true) (infinite true) = some Ordering.eq
partial_cmp (infinite true) b = some Ordering.lt
partial_cmp (infinite false) (infinite false) = some Ordering.eq
partial_cmp (infinite false) b = some Ordering.gt
partial_cmp (finite s m) nan = none
partial_cmp (finite s m) (infinite true) = some Ordering.gt
partial_cmp (finite s m) (infinite false) = some Ordering.lt
partial_cmp (finite s m) (finite t n) =
    some (compare (above s m + below t n) (above t n + below s m))

-- `a < b`, `a <= b` and `a == b`, all false at a NaN; `a > b` is `b < a`.
abbrev pub lt : F64 → F64 → Bool
lt a b = elim (partial_cmp a b) [ some o ↦ elim o [ Ordering.lt ↦ true | _ ↦ false ] | _ ↦ false ]

abbrev pub le : F64 → F64 → Bool
le a b = elim (partial_cmp a b) [ some o ↦ elim o [ Ordering.gt ↦ false | _ ↦ true ] | _ ↦ false ]

abbrev pub eq : F64 → F64 → Bool
eq a b = elim (partial_cmp a b) [ some o ↦ elim o [ Ordering.eq ↦ true | _ ↦ false ] | _ ↦ false ]

-- A rounded magnitude as a value.
unfoldable pub pack : Bool → ℕ → F64
unfolding overflow
pack s m = if leb overflow m then infinite s else finite s m

abbrev pub xor : Bool → Bool → Bool
xor true b = not b
xor false b = b

-- `n as f64`
unfoldable pub of_u64 : ℕ → F64
unfolding unit round
of_u64 n = finite false (round 0 n * unit)

-- `a * b`: the product of two magnitudes is in units of 2^-2148.
unfoldable pub mul : F64 → F64 → F64
unfolding unit round pack
mul (finite s m) (finite t n) = pack (xor s t) (round 1074 (m * n) / unit)
mul nan b = nan
mul (infinite s) nan = nan
mul (infinite s) (infinite t) = infinite (xor s t)
mul (infinite s) (finite t n) = if n == 0 then nan else infinite (xor s t)
mul (finite s m) nan = nan
mul (finite s m) (infinite t) = if m == 0 then nan else infinite (xor s t)

-- `a + b`: a sum of magnitudes is exact before it is rounded; x + (-x) is +0.
unfoldable pub add : F64 → F64 → F64
unfolding round pack
add (finite s m) (finite t n) =
    if (s && t) || (not s && not t)
    then pack s (round 0 (m + n))
    else if leb (below s m + below t n) (above s m + above t n)
    then pack false (round 0 (above s m + above t n - (below s m + below t n)))
    else pack true (round 0 (below s m + below t n - (above s m + above t n)))
add nan b = nan
add (infinite s) nan = nan
add (infinite true) (infinite false) = nan
add (infinite false) (infinite true) = nan
add (infinite s) b = infinite s
add (finite s m) nan = nan
add (finite s m) (infinite t) = infinite t

abbrev pub neg : F64 → F64
neg nan = nan
neg (infinite s) = infinite (not s)
neg (finite s m) = finite (not s) m

-- `a - b`
unfoldable pub sub : F64 → F64 → F64
unfolding add
sub a b = add a (neg b)

abbrev pub abs : F64 → F64
abs nan = nan
abs (infinite s) = infinite false
abs (finite s m) = finite false m

-- `a.floor()`
unfoldable pub floor : F64 → F64
unfolding unit
floor nan = nan
floor (infinite s) = infinite s
floor (finite false m) = finite false (m / unit * unit)
floor (finite true m) = finite true ((m + (unit - 1)) / unit * unit)

-- `a as u64`, which saturates, and takes a NaN to 0.
unfoldable pub to_u64 : F64 → ℕ
unfolding unit
to_u64 nan = 0
to_u64 (infinite true) = 0
to_u64 (infinite false) = u64_max
to_u64 (finite true m) = 0
to_u64 (finite false m) = min (m / unit) u64_max
