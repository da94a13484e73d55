-- ===== src/Speed/Config/Laws.antt =====
-- What a valid speed profile is (src/speed_config.rs), and that `validate` decides it.
use intimatr.Prelude.{
  ◌≤◌, ◌≡◌, refl, ◌↔◌, Bool, true, false, not, ◌||◌, List, [], ◌∷◌, Result, ok, arith, All, any,
  fail_if, ltb, ◌>>◌,
}
use intimatr.Float.{F64, one, zero, is_finite, lt, le}
use intimatr.Float.Order.{le_of_not-lt, not-lt_of_le, lt-le_trans}
use intimatr.Speed.Clock.Scaled.{IsSpeed, one-IsSpeed}
use intimatr.Speed.Config.{SpeedSettings, invalid, is_empty, contains, any_falling, validate}

-- A speed in the range from `lo` to `hi`.
pub record InRange (lo hi m : F64) : Type 0 where
  pub bounded : is_finite m ≡ true
  pub at_least : le lo m ≡ true
  pub at_most : le m hi ≡ true

-- Each speed is below the next.
abbrev pub Increasing : List F64 → Type 0
Increasing [] = Unit
Increasing (a ∷ []) = Unit
Increasing (a ∷ b ∷ rest) = (lt a b ≡ true) × Increasing (b ∷ rest)

pub record IsSettings (s : SpeedSettings) : Type 0 where
  pub min_positive : IsSpeed s.min_multiplier
  pub max_finite : is_finite s.max_multiplier ≡ true
  pub min_le_one : le s.min_multiplier one ≡ true
  pub one_le_max : le one s.max_multiplier ≡ true
  pub initial : InRange s.min_multiplier s.max_multiplier s.initial_multiplier
  pub startup : s.startup_duration_ms ≤ 60000
  pub in_range : All (InRange s.min_multiplier s.max_multiplier) s.steps
  pub increasing : Increasing s.steps
  pub has_one : contains s.steps one ≡ true

ranged : F64 → F64 → F64 → Bool
ranged lo hi v = not (is_finite v) || lt v lo || lt hi v

ranged-InRange :
    (lo hi v : F64)
    → is_finite lo ≡ true
    → is_finite hi ≡ true
    → ranged lo hi v ≡ false
    → InRange lo hi v
unfolding ranged
ranged-InRange lo hi v a b h = record {
  bounded = ground arith;
  at_least = ground arith;
  at_most = ground arith;
}

InRange-ranged : (lo hi v : F64) → InRange lo hi v → ranged lo hi v ≡ false
unfolding ranged
InRange-ranged lo hi v r = ground arith

any-InRange :
    (lo hi : F64) (xs : List F64)
    → is_finite lo ≡ true
    → is_finite hi ≡ true
    → any (ranged lo hi) xs ≡ false
    → All (InRange lo hi) xs
any-InRange lo hi [] a b h = tt
any-InRange lo hi (x ∷ xs) a b h =
    (ranged-InRange lo hi x a b (ground arith), any-InRange lo hi xs a b (ground arith))

InRange-any : (lo hi : F64) (xs : List F64) → All (InRange lo hi) xs → any (ranged lo hi) xs ≡ false
InRange-any lo hi [] h = refl
InRange-any lo hi (x ∷ xs) h = rw (InRange-ranged lo hi x h.0, InRange-any lo hi xs h.1)

falling-Increasing :
    (lo hi : F64) (xs : List F64) → All (InRange lo hi) xs → any_falling xs ≡ false → Increasing xs
unfolding any_falling
falling-Increasing lo hi [] r h = tt
falling-Increasing lo hi (a ∷ []) r h = tt
falling-Increasing lo hi (a ∷ b ∷ rest) r h =
    (ground arith, falling-Increasing lo hi (b ∷ rest) r.1 (ground arith))

Increasing-falling : (xs : List F64) → Increasing xs → any_falling xs ≡ false
unfolding any_falling
Increasing-falling [] h = refl
Increasing-falling (a ∷ []) h = refl
Increasing-falling (a ∷ b ∷ rest) h = ground (arith, Increasing-falling (b ∷ rest) h.1)

-- The eight tests of `validate`, none of which fires.
record Passes (s : SpeedSettings) : Type 0 where
  positive :
      any
        (λ v. not (is_finite v) || le v zero)
        (s.initial_multiplier ∷ s.min_multiplier ∷ s.max_multiplier ∷ [])
      ≡ false
  spans_one : (lt one s.min_multiplier || lt s.max_multiplier one) ≡ false
  initial :
      (lt s.initial_multiplier s.min_multiplier || lt s.max_multiplier s.initial_multiplier) ≡ false
  startup : ltb 60000 s.startup_duration_ms ≡ false
  nonempty : is_empty s.steps ≡ false
  steps_ranged : any (ranged s.min_multiplier s.max_multiplier) s.steps ≡ false
  rising : any_falling s.steps ≡ false
  has_one : contains s.steps one ≡ true

fail_if-eq-ok :
    {E B : Type 0} (b : Bool) (e : E) (k : Result E B) {x : B}
    → (fail_if b e >> k) ≡ ok x
    → (b ≡ false) × (k ≡ ok x)
fail_if-eq-ok true e k h = absurd (ground arith)
fail_if-eq-ok false e k h = (refl, h)

not-eq-false : (b : Bool) → not b ≡ false → b ≡ true
not-eq-false b h = ground arith

validate-Passes : (s : SpeedSettings) → validate s ≡ ok tt → Passes s
unfolding validate ranged
validate-Passes s h =
    let (a, h1) = fail_if-eq-ok _ _ _ h in
    let (b, h2) = fail_if-eq-ok _ _ _ h1 in
    let (c, h3) = fail_if-eq-ok _ _ _ h2 in
    let (d, h4) = fail_if-eq-ok _ _ _ h3 in
    let (e, h5) = fail_if-eq-ok _ _ _ h4 in
    let (f, h6) = fail_if-eq-ok _ _ _ h5 in
    let (g, h7) = fail_if-eq-ok _ _ _ h6 in
    let (i, h8) =
      fail_if-eq-ok (not (contains s.steps one))
        (invalid "speed steps must include reset speed 1.0") (ok tt) h7 in
    record {
      positive = a;
      spans_one = b;
      initial = c;
      startup = d;
      nonempty = e;
      steps_ranged = f;
      rising = g;
      has_one = not-eq-false _ i;
    }

Passes-validate : (s : SpeedSettings) → Passes s → validate s ≡ ok tt
unfolding validate ranged
Passes-validate s p =
    rw (
      p.positive, p.spans_one, p.initial, p.startup, p.nonempty, p.steps_ranged, p.rising,
      p.has_one,
    )

Passes-IsSettings : (s : SpeedSettings) → Passes s → IsSettings s
Passes-IsSettings s p =
    let min_positive : IsSpeed s.min_multiplier = record {
      bounded = ground arith;
      positive = ground arith;
    } in
    let max_finite : is_finite s.max_multiplier ≡ true = ground arith in
    let in_range =
      any-InRange s.min_multiplier s.max_multiplier s.steps min_positive.bounded max_finite
        p.steps_ranged in
    record {
      min_positive = min_positive;
      max_finite = max_finite;
      min_le_one = le_of_not-lt _ _ min_positive.bounded one-IsSpeed.bounded (ground arith);
      one_le_max = le_of_not-lt _ _ one-IsSpeed.bounded max_finite (ground arith);
      initial =
          ranged-InRange s.min_multiplier s.max_multiplier s.initial_multiplier min_positive.bounded
            max_finite (unfold ranged in ground arith);
      startup = ground arith;
      in_range = in_range;
      increasing = falling-Increasing s.min_multiplier s.max_multiplier s.steps in_range p.rising;
      has_one = p.has_one;
    }

neither : (a b : Bool) → a ≡ false → b ≡ false → (a || b) ≡ false
neither a b h k = rw (h, k) refl

IsSpeed-test : (m : F64) → IsSpeed m → (not (is_finite m) || le m zero) ≡ false
IsSpeed-test m s = ground arith

-- What lies in a range of speeds is a speed.
pub InRange-IsSpeed : (lo hi m : F64) → IsSpeed lo → InRange lo hi m → IsSpeed m
InRange-IsSpeed lo hi m s r = record {
  bounded = r.bounded;
  positive = lt-le_trans zero lo m s.positive r.at_least;
}

max-IsSpeed : (s : SpeedSettings) → IsSettings s → IsSpeed s.max_multiplier
max-IsSpeed s v = record {
  bounded = v.max_finite;
  positive = lt-le_trans zero one s.max_multiplier one-IsSpeed.positive v.one_le_max;
}

pub one-InRange : (s : SpeedSettings) → IsSettings s → InRange s.min_multiplier s.max_multiplier one
one-InRange s v = record {
  bounded = one-IsSpeed.bounded;
  at_least = v.min_le_one;
  at_most = v.one_le_max;
}

IsSettings-Passes : (s : SpeedSettings) → IsSettings s → Passes s
IsSettings-Passes s v = record {
  positive =
      rw
        (
          IsSpeed-test _ (InRange-IsSpeed _ _ _ v.min_positive v.initial),
          IsSpeed-test _ v.min_positive,
          IsSpeed-test _ (max-IsSpeed s v),
        )
        refl;
  spans_one =
      neither _ _ (not-lt_of_le s.min_multiplier one v.min_le_one)
        (not-lt_of_le one s.max_multiplier v.one_le_max);
  initial =
      neither _ _ (not-lt_of_le s.min_multiplier s.initial_multiplier v.initial.at_least)
        (not-lt_of_le s.initial_multiplier s.max_multiplier v.initial.at_most);
  startup = ground arith;
  nonempty = ground arith;
  steps_ranged = InRange-any s.min_multiplier s.max_multiplier s.steps v.in_range;
  rising = Increasing-falling s.steps v.increasing;
  has_one = v.has_one;
}

-- `validate` accepts exactly the valid settings: a finite range of positive speeds around 1x, an
-- initial speed in it, at most a minute of startup, and presets in it that rise strictly and
-- include 1x.
pub validate_iff : (s : SpeedSettings) → (validate s ≡ ok tt) ↔ IsSettings s
validate_iff s =
    (λ h. Passes-IsSettings s (validate-Passes s h), λ v. Passes-validate s (IsSettings-Passes s v))
