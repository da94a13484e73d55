-- ===== src/Scanner/Predicate.antt =====
-- src/scanner/predicate.rs: what a scan compares, and when a value matches. An i64 is an integer and
-- a u64 a number; the logging is left out.
pub mod Laws
use intimatr.Prelude.{
  ℕ, ◌≤◌, compare, Ordering, Bool, true, false, not, ◌&&◌, ◌||◌, Option, none, some, Result, ok,
  err, ◌>>=◌, ◌>>◌, fail_if, ok_or, ◌==◌, if◌then◌else◌, ℤ, pos, negsuc, compare_ℤ, checked_add_i64,
  checked_sub_i64, checked_add_u64, checked_sub_u64,
}
use intimatr.Float.{F64, zero, is_finite, partial_cmp, lt, le, eq, add, sub, abs}

pub data ScalarValue : Type 0 where
  signed : ℤ → ScalarValue
  unsigned : ℕ → ScalarValue
  float : F64 → ScalarValue

-- The names of the kinds.
pub data Kind : Type 0 where
  signed unsigned float : Kind

abbrev pub kind : ScalarValue → Kind
kind (signed v) = Kind.signed
kind (unsigned v) = Kind.unsigned
kind (float v) = Kind.float

abbrev pub kind_eq : Kind → Kind → Bool
kind_eq Kind.signed Kind.signed = true
kind_eq Kind.unsigned Kind.unsigned = true
kind_eq Kind.float Kind.float = true
kind_eq _ _ = false

pub data PredicateError : Type 0 where
  missing_previous : PredicateError
  type_mismatch : Kind → Kind → PredicateError
  invalid_range invalid_delta : PredicateError
  invalid_float_epsilon : F64 → PredicateError

pub data ScanPredicate : Type 0 where
  unknown_initial_value : ScanPredicate
  exact not_equal greater_than greater_or_equal less_than less_or_equal :
      ScalarValue → ScanPredicate
  between_inclusive : ScalarValue → ScalarValue → ScanPredicate
  changed unchanged increased decreased : ScanPredicate
  increased_by decreased_by : ScalarValue → ScanPredicate

unfoldable pub float_eq : F64 → F64 → F64 → Bool
float_eq left right epsilon =
    eq left right || (is_finite left && is_finite right && le (abs (sub left right)) epsilon)

abbrev pub ordering_is_equal : Ordering → Bool
ordering_is_equal Ordering.eq = true
ordering_is_equal _ = false

unfoldable pub equals : ScalarValue → ScalarValue → F64 → Result PredicateError Bool
unfolding float_eq
equals (signed left) (signed right) epsilon = ok (ordering_is_equal (compare_ℤ left right))
equals (unsigned left) (unsigned right) epsilon = ok (left == right)
equals (float left) (float right) epsilon = ok (float_eq left right epsilon)
equals left right epsilon = err (type_mismatch (kind left) (kind right))

unfoldable pub compare_scalar : ScalarValue → ScalarValue → Result PredicateError (Option Ordering)
compare_scalar (signed left) (signed right) = ok (some (compare_ℤ left right))
compare_scalar (unsigned left) (unsigned right) = ok (some (compare left right))
compare_scalar (float left) (float right) = ok (partial_cmp left right)
compare_scalar left right = err (type_mismatch (kind left) (kind right))

unfoldable pub is_non_negative : ScalarValue → Bool
is_non_negative (signed (pos n)) = true
is_non_negative (signed (negsuc n)) = false
is_non_negative (unsigned v) = true
is_non_negative (float v) = is_finite v && le zero v

unfoldable pub requires_previous : ScanPredicate → Bool
requires_previous changed = true
requires_previous unchanged = true
requires_previous increased = true
requires_previous decreased = true
requires_previous (increased_by delta) = true
requires_previous (decreased_by delta) = true
requires_previous _ = false

abbrev pub is_greater : Option Ordering → Bool
is_greater (some Ordering.gt) = true
is_greater _ = false

abbrev pub is_less : Option Ordering → Bool
is_less (some Ordering.lt) = true
is_less _ = false

abbrev pub is_greater_or_equal : Option Ordering → Bool
is_greater_or_equal none = false
is_greater_or_equal (some Ordering.lt) = false
is_greater_or_equal (some o) = true

abbrev pub is_less_or_equal : Option Ordering → Bool
is_less_or_equal none = false
is_less_or_equal (some Ordering.gt) = false
is_less_or_equal (some o) = true

-- `expected == Some(current)`
abbrev pub is_int : Option ℤ → ℤ → Bool
is_int none current = false
is_int (some expected) current = ordering_is_equal (compare_ℤ expected current)

abbrev pub is_number : Option ℕ → ℕ → Bool
is_number none current = false
is_number (some expected) current = expected == current

-- `difference_matches`, past the test of the delta.
unfoldable pub difference_of :
    ScalarValue → ScalarValue → ScalarValue → F64 → Bool → Result PredicateError Bool
unfolding float_eq
difference_of (signed current) (signed previous) (signed delta) epsilon increasing = ok (
    is_int (if increasing then checked_add_i64 previous delta else checked_sub_i64 previous delta)
      current)
difference_of (unsigned current) (unsigned previous) (unsigned delta) epsilon increasing = ok (
    is_number
      (if increasing then checked_add_u64 previous delta else checked_sub_u64 previous delta)
      current)
difference_of (float current) (float previous) (float delta) epsilon increasing =
    ok (float_eq current (if increasing then add previous delta else sub previous delta) epsilon)
difference_of current previous delta epsilon increasing = err (
    type_mismatch (kind current)
      (if not (kind_eq (kind previous) (kind current)) then kind previous else kind delta))

unfoldable pub difference_matches :
    ScalarValue → ScalarValue → ScalarValue → F64 → Bool → Result PredicateError Bool
unfolding is_non_negative difference_of
difference_matches current previous delta epsilon increasing = do
  fail_if (not (is_non_negative delta)) invalid_delta
  difference_of current previous delta epsilon increasing

abbrev invalid_epsilon : F64 → Bool
invalid_epsilon epsilon = not (is_finite epsilon) || lt epsilon zero

-- `matches`, past the test of the epsilon.
unfoldable pub evaluate :
    ScanPredicate → ScalarValue → Option ScalarValue → F64 → Result PredicateError Bool
unfolding equals compare_scalar difference_matches
evaluate unknown_initial_value current previous epsilon = ok true
evaluate (exact expected) current previous epsilon = equals current expected epsilon
evaluate (not_equal expected) current previous epsilon = do
  same ← equals current expected epsilon
  ok (not same)
evaluate (greater_than expected) current previous epsilon = do
  order ← compare_scalar current expected
  ok (is_greater order)
evaluate (greater_or_equal expected) current previous epsilon = do
  order ← compare_scalar current expected
  ok (is_greater_or_equal order)
evaluate (less_than expected) current previous epsilon = do
  order ← compare_scalar current expected
  ok (is_less order)
evaluate (less_or_equal expected) current previous epsilon = do
  order ← compare_scalar current expected
  ok (is_less_or_equal order)
evaluate (between_inclusive min max) current previous epsilon = do
  range_order ← compare_scalar min max
  fail_if (not (is_less_or_equal range_order)) invalid_range
  lower ← compare_scalar current min
  upper ← compare_scalar current max
  ok (is_greater_or_equal lower && is_less_or_equal upper)
evaluate changed current previous epsilon = do
  before ← ok_or previous missing_previous
  same ← equals current before epsilon
  ok (not same)
evaluate unchanged current previous epsilon = do
  before ← ok_or previous missing_previous
  equals current before epsilon
evaluate increased current previous epsilon = do
  before ← ok_or previous missing_previous
  order ← compare_scalar current before
  ok (is_greater order)
evaluate decreased current previous epsilon = do
  before ← ok_or previous missing_previous
  order ← compare_scalar current before
  ok (is_less order)
evaluate (increased_by delta) current previous epsilon = do
  before ← ok_or previous missing_previous
  difference_matches current before delta epsilon true
evaluate (decreased_by delta) current previous epsilon = do
  before ← ok_or previous missing_previous
  difference_matches current before delta epsilon false

unfoldable pub matches :
    ScanPredicate → ScalarValue → Option ScalarValue → F64 → Result PredicateError Bool
unfolding evaluate
matches predicate current previous float_epsilon = do
  fail_if (invalid_epsilon float_epsilon) (invalid_float_epsilon float_epsilon)
  evaluate predicate current previous float_epsilon
