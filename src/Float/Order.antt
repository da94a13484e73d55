-- ===== src/Float/Order.antt =====
-- The order of the finite values.
use intimatr.Prelude.{◌≡◌, true, false, arith}
use intimatr.Float.{F64, zero, is_finite, is_nan, lt, le, eq}

pub lt_irrefl : (a : F64) → lt a a ≡ false
lt_irrefl a = ground arith

pub lt-le_trans : (a b c : F64) → lt a b ≡ true → le b c ≡ true → lt a c ≡ true
lt-le_trans a b c h k = ground arith

pub le-lt_trans : (a b c : F64) → le a b ≡ true → lt b c ≡ true → lt a c ≡ true
le-lt_trans a b c h k = ground arith

pub le_trans : (a b c : F64) → le a b ≡ true → le b c ≡ true → le a c ≡ true
le_trans a b c h k = ground arith

pub le_of_lt : (a b : F64) → lt a b ≡ true → le a b ≡ true
le_of_lt a b h = ground arith

-- For values that are no NaN, `!(a < b)` is `b <= a`.
pub le-not-lt : (a b : F64) → is_nan a ≡ false → is_nan b ≡ false → lt a b ≡ false → le b a ≡ true
le-not-lt a b ha hb h = ground arith

pub eq_comm : (a b : F64) → eq a b ≡ eq b a
eq_comm a b = ground arith

pub eq-le : (a b c : F64) → eq a b ≡ true → le a c ≡ true → le b c ≡ true
eq-le a b c h k = ground arith

pub le-eq : (a b c : F64) → eq a b ≡ true → le c a ≡ true → le c b ≡ true
le-eq a b c h k = ground arith

pub eq-finite : (a b : F64) → eq a b ≡ true → is_finite a ≡ true → is_finite b ≡ true
eq-finite a b h k = ground arith

pub le-finite :
    (a b c : F64)
    → is_finite a ≡ true
    → is_finite c ≡ true
    → le a b ≡ true
    → le b c ≡ true
    → is_finite b ≡ true
le-finite a b c ha hc h k = ground arith

pub le_of_not-lt :
    (a b : F64) → is_finite a ≡ true → is_finite b ≡ true → lt b a ≡ false → le a b ≡ true
le_of_not-lt a b ha hb h = ground arith

pub not-lt_of_le : (a b : F64) → le a b ≡ true → lt b a ≡ false
not-lt_of_le a b h = ground arith

pub not-le_of_lt : (a b : F64) → lt a b ≡ true → le b a ≡ false
not-le_of_lt a b h = ground arith

pub lt_of_not-le :
    (a b : F64) → is_finite a ≡ true → is_finite b ≡ true → le b a ≡ false → lt a b ≡ true
lt_of_not-le a b ha hb h = ground arith

-- Equal values above zero are one value.
pub eq_of_positive : (a b : F64) → lt zero a ≡ true → eq a b ≡ true → a ≡ b
eq_of_positive a b p h = ground arith

pub eq_refl : (a : F64) → is_finite a ≡ true → eq a a ≡ true
eq_refl a h = ground arith

pub ne_of_lt : (a b : F64) → lt a b ≡ true → eq a b ≡ false
ne_of_lt a b h = ground arith

pub ne_of_gt : (a b : F64) → lt a b ≡ true → eq b a ≡ false
ne_of_gt a b h = ground arith

pub le_refl : (a : F64) → is_finite a ≡ true → le a a ≡ true
le_refl a h = ground arith
