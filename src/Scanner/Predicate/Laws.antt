-- ===== src/Scanner/Predicate/Laws.antt =====
-- What the predicates of src/scanner/predicate.rs mean.
use intimatr.Prelude.{
  ℕ, ◌+◌, ◌≤◌, ◌≡◌, ◌≢◌, refl, sym, ap, ◌∙◌, ◌↔◌, inl, inr, Bool, true, false, not, Option, none,
  some, Result, ok, err, arith, u64_max, Bool-cases, ℤ, pos, ◌+ℤ◌, ◌-ℤ◌, in_i64, ◌>>=◌, ◌>>◌,
  fail_if, ok-injective, checked_add_u64, checked_sub_u64, checked_add_i64, checked_sub_i64,
}
use intimatr.Float.{F64, is_finite, lt}
use intimatr.Float
use intimatr.Scanner.Predicate.{
  ScalarValue, signed, unsigned, ScanPredicate, unknown_initial_value, exact, not_equal,
  greater_than, greater_or_equal, less_than, less_or_equal, between_inclusive, changed, unchanged,
  increased, decreased, increased_by, decreased_by, PredicateError, missing_previous, equals,
  compare_scalar, difference_matches, difference_of, is_non_negative, requires_previous, evaluate,
  matches, is_number, is_int,
}

-- A float epsilon that `matches` takes: finite and not negative.
pub record IsEpsilon (e : F64) : Type 0 where
  pub bounded : is_finite e ≡ true
  pub nonnegative : lt e Float.zero ≡ false

valid-evaluate :
    (p : ScanPredicate) (c : ScalarValue) (o : Option ScalarValue) (e : F64)
    → IsEpsilon e
    → matches p c o e ≡ evaluate p c o e
unfolding matches
valid-evaluate p c o e v = rw (v.bounded, v.nonnegative) refl

-- The opposite answer, or the same error.
abbrev pub opposite : Result PredicateError Bool → Result PredicateError Bool
opposite (ok b) = ok (not b)
opposite (err e) = err e

opposite-bind : (r : Result PredicateError Bool) → (r >>= λ b. ok (not b)) ≡ opposite r
opposite-bind (ok b) = refl
opposite-bind (err e) = refl

guarded-opposite :
    (b : Bool) (e : PredicateError) (r s : Result PredicateError Bool)
    → r ≡ opposite s
    → (fail_if b e >> r) ≡ opposite (fail_if b e >> s)
guarded-opposite true e r s h = refl
guarded-opposite false e r s h = h

changed-opposite :
    (c : ScalarValue) (o : Option ScalarValue) (e : F64)
    → evaluate changed c o e ≡ opposite (evaluate unchanged c o e)
unfolding evaluate
changed-opposite c none e = refl
changed-opposite c (some v) e = opposite-bind (equals c v e)

-- A value is not equal, or changed, exactly where it is not equal, or not unchanged: the two fail
-- with the same error, or give opposite answers. That goes for each kind of values, an epsilon out of
-- range, and a missing previous value.
pub matches-opposite :
    (x c : ScalarValue) (o : Option ScalarValue) (e : F64)
    → (matches (not_equal x) c o e ≡ opposite (matches (exact x) c o e))
      × (matches changed c o e ≡ opposite (matches unchanged c o e))
unfolding matches
matches-opposite x c o e = (
  guarded-opposite _ _ _ _ (unfold evaluate in opposite-bind (equals c x e)),
  guarded-opposite _ _ _ _ (changed-opposite c o e),
)

-- The comparison of two values of one kind never fails for lack of a previous value.
equals-previous : (c x : ScalarValue) (e : F64) → equals c x e ≢ err missing_previous
unfolding equals
equals-previous c x e h = ground arith

compare-previous : (c x : ScalarValue) → compare_scalar c x ≢ err missing_previous
unfolding compare_scalar
compare-previous c x h = ground arith

bind-previous :
    {A B : Type 0} (r : Result PredicateError A) (k : A → Result PredicateError B)
    → r ≢ err missing_previous
    → ((a : A) → k a ≢ err missing_previous)
    → (r >>= k) ≢ err missing_previous
bind-previous (ok a) k n m h = m a h
bind-previous (err e) k n m h = n cc

answer-previous : (b : Bool) → ◌≢◌ {A = Result PredicateError Bool} (ok b) (err missing_previous)
answer-previous b h = cc

guard-previous :
    {A : Type 0} (b : Bool) (e : PredicateError) (r : Result PredicateError A)
    → e ≢ missing_previous
    → r ≢ err missing_previous
    → (fail_if b e >> r) ≢ err missing_previous
guard-previous true e r n m h = n cc
guard-previous false e r n m h = m h

range-previous : PredicateError.invalid_range ≢ missing_previous
range-previous h = cc

-- What a predicate that requires no previous value answers, it answers without one.
answers :
    (p : ScanPredicate) (c : ScalarValue) (e : F64)
    → requires_previous p ≡ false
    → evaluate p c none e ≢ err missing_previous
unfolding evaluate requires_previous
answers unknown_initial_value c e h = answer-previous true
answers (exact x) c e h = equals-previous c x e
answers (not_equal x) c e h = bind-previous _ _ (equals-previous c x e) (λ b. answer-previous _)
answers (greater_than x) c e h = bind-previous _ _ (compare-previous c x) (λ b. answer-previous _)
answers (greater_or_equal x) c e h =
    bind-previous _ _ (compare-previous c x) (λ b. answer-previous _)
answers (less_than x) c e h = bind-previous _ _ (compare-previous c x) (λ b. answer-previous _)
answers (less_or_equal x) c e h = bind-previous _ _ (compare-previous c x) (λ b. answer-previous _)
answers (between_inclusive x y) c e h = bind-previous _ _ (compare-previous x y) (λ r.
    guard-previous _ _ _ range-previous (
      bind-previous _ _ (compare-previous c x)
        (λ l. bind-previous _ _ (compare-previous c y) (λ u. answer-previous _))))
answers changed c e h = absurd (ground arith)
answers unchanged c e h = absurd (ground arith)
answers increased c e h = absurd (ground arith)
answers decreased c e h = absurd (ground arith)
answers (increased_by d) c e h = absurd (ground arith)
answers (decreased_by d) c e h = absurd (ground arith)

-- With a valid epsilon and no previous value, a predicate fails for lack of one exactly if
-- `requires_previous` holds of it.
pub requires_previous_iff :
    (p : ScanPredicate) (c : ScalarValue) (e : F64)
    → IsEpsilon e
    → (requires_previous p ≡ true) ↔ (matches p c none e ≡ err missing_previous)
requires_previous_iff p c e v = (
  λ h. valid-evaluate p c none e v ∙ lacks p h,
  λ h. demands p (sym (valid-evaluate p c none e v) ∙ h),
)
  where
    lacks :
        (p : ScanPredicate)
        → requires_previous p ≡ true
        → evaluate p c none e ≡ err missing_previous
    lacks changed h = unfold evaluate in refl
    lacks unchanged h = unfold evaluate in refl
    lacks increased h = unfold evaluate in refl
    lacks decreased h = unfold evaluate in refl
    lacks (increased_by d) h = unfold evaluate in refl
    lacks (decreased_by d) h = unfold evaluate in refl
    lacks unknown_initial_value h = absurd (unfold requires_previous in ground arith)
    lacks _ h = absurd (unfold requires_previous in ground arith)

    demands :
        (p : ScanPredicate)
        → evaluate p c none e ≡ err missing_previous
        → requires_previous p ≡ true
    demands p h = elim (Bool-cases (requires_previous p)) [
      | inl needs ↦ needs
      | inr frees ↦ absurd (answers p c e frees h)
    ]

added : (c p d : ℕ) → c ≤ u64_max → (is_number (checked_add_u64 p d) c ≡ true) ↔ (c ≡ p + d)
added c p d h = (λ k. ground arith, λ k. ground arith)

subtracted : (c p d : ℕ) → (is_number (checked_sub_u64 p d) c ≡ true) ↔ (c + d ≡ p)
subtracted c p d = (λ k. ground arith, λ k. ground arith)

added_int : (c p d : ℤ) → in_i64 c ≡ true → (is_int (checked_add_i64 p d) c ≡ true) ↔ (c ≡ p +ℤ d)
unfolding ◌+ℤ◌
added_int c p d h = (λ k. ground arith, λ k. ground arith)

subtracted_int :
    (c p d : ℤ) → in_i64 c ≡ true → (is_int (checked_sub_i64 p d) c ≡ true) ↔ (c ≡ p -ℤ d)
unfolding ◌-ℤ◌
subtracted_int c p d h = (λ k. ground arith, λ k. ground arith)

ok_iff :
    {b : Bool} {P : Type 0}
    → (b ≡ true) ↔ P
    → (◌≡◌ {A = Result PredicateError Bool} (ok b) (ok true)) ↔ P
ok_iff h = (λ k. h.0 (ok-injective k), λ q. ap ok (h.1 q))

-- With a valid epsilon, a u64 value matches an increase by a delta exactly if it is the previous
-- value plus the delta, and a decrease exactly if it is the previous value less the delta, as
-- numbers without a bound.
pub unsigned_difference :
    (current previous delta : ℕ) (e : F64)
    → IsEpsilon e
    → current ≤ u64_max
    → ((matches (increased_by (unsigned delta)) (unsigned current) (some (unsigned previous)) e
          ≡ ok true)
        ↔ (current ≡ previous + delta))
      × ((matches (decreased_by (unsigned delta)) (unsigned current) (some (unsigned previous)) e
            ≡ ok true)
          ↔ (current + delta ≡ previous))
unfolding evaluate difference_matches difference_of is_non_negative
unsigned_difference current previous delta e v h =
    rw
      (
        valid-evaluate (increased_by (unsigned delta)) (unsigned current) (some (unsigned previous))
            e v,
        valid-evaluate (decreased_by (unsigned delta)) (unsigned current) (some (unsigned previous))
            e v,
      )
      (ok_iff (added current previous delta h), ok_iff (subtracted current previous delta))

-- With a valid epsilon and a delta that is not negative, an i64 value matches an increase by the
-- delta exactly if it is the previous value plus the delta, and a decrease exactly if it is the
-- previous value less the delta, as integers without a bound.
pub signed_difference :
    (current previous : ℤ) (delta : ℕ) (e : F64)
    → IsEpsilon e
    → in_i64 current ≡ true
    → ((matches (increased_by (signed (pos delta))) (signed current) (some (signed previous)) e
          ≡ ok true)
        ↔ (current ≡ previous +ℤ pos delta))
      × ((matches (decreased_by (signed (pos delta))) (signed current) (some (signed previous)) e
            ≡ ok true)
          ↔ (current ≡ previous -ℤ pos delta))
unfolding evaluate difference_matches difference_of is_non_negative
signed_difference current previous delta e v h =
    rw
      (
        valid-evaluate (increased_by (signed (pos delta))) (signed current) (some (signed previous))
            e v,
        valid-evaluate (decreased_by (signed (pos delta))) (signed current) (some (signed previous))
            e v,
      )
      (
        ok_iff (added_int current previous (pos delta) h),
        ok_iff (subtracted_int current previous (pos delta) h),
      )
