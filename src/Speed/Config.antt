-- ===== src/Speed/Config.antt =====
-- src/speed_config.rs: the speed settings and their validation. An error carries its message.
pub mod Laws
use Prim.Native.String.{String}
use intimatr.Prelude.{
  ℕ, Bool, true, false, not, ◌&&◌, ◌||◌, List, [], ◌∷◌, Result, ok, ◌>>◌, fail_if, any, ltb,
}
use intimatr.Float.{F64, one, zero, is_finite, lt, le, eq}

-- The TOML reader's own errors come with its message.
pub data SpeedProfileError : Type 0 where
  parse : String → SpeedProfileError
  invalid : String → SpeedProfileError

pub record SpeedSettings : Type 0 where
  pub enabled : Bool
  pub initial_multiplier : F64
  pub startup_duration_ms : ℕ
  pub min_multiplier : F64
  pub max_multiplier : F64
  pub steps : List F64

abbrev is_empty : List F64 → Bool
is_empty [] = true
is_empty (a ∷ rest) = false

-- `steps.contains(&m)`
abbrev pub contains : List F64 → F64 → Bool
contains steps m = any (λ s. eq s m) steps

-- `steps.windows(2).any(|pair| pair[0] >= pair[1])`
unfoldable pub any_falling : List F64 → Bool
any_falling [] = false
any_falling (a ∷ []) = false
any_falling (a ∷ b ∷ rest) = le b a || any_falling (b ∷ rest)

unfoldable pub validate : SpeedSettings → Result SpeedProfileError (Unit {0})
unfolding any_falling
validate s = do
  fail_if
      (any (λ v. not (is_finite v) || le v zero)
        (s.initial_multiplier ∷ s.min_multiplier ∷ s.max_multiplier ∷ []))
      (invalid "speed multipliers must be finite and positive")
  fail_if (lt one s.min_multiplier || lt s.max_multiplier one)
      (invalid "speed range must include reset speed 1.0")
  fail_if (lt s.initial_multiplier s.min_multiplier || lt s.max_multiplier s.initial_multiplier)
      (invalid "initial multiplier must lie within speed range")
  fail_if (ltb 60000 s.startup_duration_ms)
      (invalid "startup duration must be at most 60000 milliseconds")
  fail_if (is_empty s.steps) (invalid "speed steps cannot be empty")
  fail_if (any (λ v. not (is_finite v) || lt v s.min_multiplier || lt s.max_multiplier v) s.steps)
      (invalid "all speed steps must be finite and within speed range")
  fail_if (any_falling s.steps) (invalid "speed steps must be strictly increasing")
  fail_if (not (contains s.steps one)) (invalid "speed steps must include reset speed 1.0")
  ok tt
