-- ===== src/Scanner/Value/RoundTrip.antt =====
-- Bytes that are decoded encode to themselves, and the other way round (src/scanner/value.rs).
use intimatr.Prelude.{
  ℕ, zero, suc, ◌+◌, ◌*◌, ◌/◌, ◌%◌, ◌^◌, ◌<◌, ◌≡◌, refl, sym, ◌∙◌, ap, inl, inr, Bool-cases, ltb→lt,
  lt→ltb, ok-injective, true, false, List, [], ◌∷◌, ok, arith, length, All, ltb, ℤ, pos, negsuc,
  in_i64,
}
use native.Mathlib.Nat.{pow-suc}
use mathlib.Core.Path.{subst}
use intimatr.Float.{is_nan}
use intimatr.Float.Bits.{f64_bits-f64_of_bits, f32_bits-f32_of_bits}
use intimatr.Scanner.Predicate.{ScalarValue, signed, unsigned, float}
use intimatr.Scanner.Value.{
  ValueType, i8, i16, i32, i64, u8, u16, u32, u64, f32, f64, byte_width, from_le_bytes, to_le_bytes,
  to_signed, of_signed, in_signed, narrow_signed, narrow_unsigned, value_of, decode, encode,
}

abbrev pub IsByte : ℕ → Type 0
IsByte b = b < 256

from_le_bytes-lt : (bytes : List ℕ) → All IsByte bytes → from_le_bytes bytes < 256 ^ length bytes
unfolding from_le_bytes
from_le_bytes-lt [] h = omega arith
from_le_bytes-lt (b ∷ bytes) h =
    omega (arith, pow-suc 256 (length bytes), h.0, from_le_bytes-lt bytes h.1)

to_le_bytes-from_le_bytes :
    (bytes : List ℕ) → All IsByte bytes → to_le_bytes (length bytes) (from_le_bytes bytes) ≡ bytes
unfolding from_le_bytes to_le_bytes
to_le_bytes-from_le_bytes [] h = refl
to_le_bytes-from_le_bytes (b ∷ bytes) h =
    let low : (b + 256 * from_le_bytes bytes) % 256 ≡ b = omega (arith, h.0) in
    let rest : (b + 256 * from_le_bytes bytes) / 256 ≡ from_le_bytes bytes = omega (arith, h.0) in
    rw (low, rest, to_le_bytes-from_le_bytes bytes h.1) refl

length-to_le_bytes : (width n : ℕ) → length (to_le_bytes width n) ≡ width
unfolding to_le_bytes
length-to_le_bytes zero n = refl
length-to_le_bytes (suc width) n = ap suc (length-to_le_bytes width (n / 256))

from_le_bytes-to_le_bytes :
    (width n : ℕ) → n < 256 ^ width → from_le_bytes (to_le_bytes width n) ≡ n
unfolding from_le_bytes to_le_bytes
from_le_bytes-to_le_bytes zero n h = omega arith
from_le_bytes-to_le_bytes (suc width) n h =
    omega (arith, from_le_bytes-to_le_bytes width (n / 256) (omega (arith, pow-suc 256 width)))

of_signed-to_signed : (half n : ℕ) → n < 2 * half → of_signed half (to_signed half n) ≡ n
of_signed-to_signed half n h = ground arith

to_signed-in_signed : (half n : ℕ) → n < 2 * half → in_signed half (to_signed half n) ≡ true
to_signed-in_signed half n h = ground arith

to_signed-of_signed :
    (half : ℕ) (v : ℤ) → in_signed half v ≡ true → to_signed half (of_signed half v) ≡ v
to_signed-of_signed half (pos n) h = ground arith
to_signed-of_signed half (negsuc n) h = ground arith

of_signed-lt : (half : ℕ) (v : ℤ) → in_signed half v ≡ true → of_signed half v < 2 * half
of_signed-lt half (pos n) h = ground arith
of_signed-lt half (negsuc n) h = ground arith

-- A value that is not a NaN.
abbrev pub IsNumber : ScalarValue → Type 0
IsNumber (signed v) = Unit
IsNumber (unsigned v) = Unit
IsNumber (float v) = is_nan v ≡ false

-- An integer of its machine type.
abbrev pub IsInteger : ScalarValue → Type 0
IsInteger (signed v) = in_i64 v ≡ true
IsInteger (unsigned v) = v < 2 ^ 64
IsInteger (float v) = ⊥

-- The bytes that a number of the type has, read as one number.
encode-value_of :
    (t : ValueType) (n : ℕ)
    → n < 256 ^ byte_width t
    → IsNumber (value_of t n)
    → encode t (value_of t n) ≡ ok (to_le_bytes (byte_width t) n)
unfolding byte_width value_of encode
encode-value_of i8 n h k =
    rw (to_signed-in_signed (2 ^ 7) n (omega arith), of_signed-to_signed (2 ^ 7) n (omega arith))
      refl
encode-value_of i16 n h k =
    rw (to_signed-in_signed (2 ^ 15) n (omega arith), of_signed-to_signed (2 ^ 15) n (omega arith))
      refl
encode-value_of i32 n h k =
    rw (to_signed-in_signed (2 ^ 31) n (omega arith), of_signed-to_signed (2 ^ 31) n (omega arith))
      refl
encode-value_of i64 n h k = rw (of_signed-to_signed (2 ^ 63) n (omega arith)) refl
encode-value_of u8 n h k = ground arith
encode-value_of u16 n h k = ground arith
encode-value_of u32 n h k = ground arith
encode-value_of u64 n h k = refl
encode-value_of f32 n h k = rw (f32_bits-f32_of_bits n (omega arith) k) refl
encode-value_of f64 n h k = rw (f64_bits-f64_of_bits n (omega arith) k) refl

decode-of_length :
    (t : ValueType) (bytes : List ℕ)
    → length bytes ≡ byte_width t
    → decode t bytes ≡ ok (value_of t (from_le_bytes bytes))
unfolding decode
decode-of_length t bytes h = ground arith

pub decode-length :
    (t : ValueType) (bytes : List ℕ) (v : ScalarValue)
    → decode t bytes ≡ ok v
    → (length bytes ≡ byte_width t) × (value_of t (from_le_bytes bytes) ≡ v)
unfolding decode
decode-length t bytes v h = (ground arith, ground arith)

-- For each of the ten types: bytes that decode to a value that is not a NaN are what that value
-- encodes to.
pub encode-decode :
    (t : ValueType) (bytes : List ℕ) (v : ScalarValue)
    → All IsByte bytes
    → decode t bytes ≡ ok v
    → IsNumber v
    → encode t v ≡ ok bytes
encode-decode t bytes v h e k =
    let (width, value) = decode-length t bytes v e in
    subst (λ w. IsNumber w → encode t w ≡ ok bytes) value
      (λ n.
        encode-value_of t (from_le_bytes bytes)
          (subst (λ w. from_le_bytes bytes < 256 ^ w) width (from_le_bytes-lt bytes h)) n
        ∙ ap (λ w. ok (to_le_bytes w (from_le_bytes bytes))) (sym width)
        ∙ ap ok (to_le_bytes-from_le_bytes bytes h))
      k

value_of-le_bytes :
    (t : ValueType) (n : ℕ) (v : ScalarValue)
    → n < 256 ^ byte_width t
    → value_of t n ≡ v
    → decode t (to_le_bytes (byte_width t) n) ≡ ok v
value_of-le_bytes t n v h e =
    decode-of_length t _ (length-to_le_bytes (byte_width t) n)
    ∙ ap ok (ap (value_of t) (from_le_bytes-to_le_bytes (byte_width t) n h) ∙ e)

decode-narrow_signed :
    (t : ValueType) (half : ℕ) (v : ℤ) (bytes : List ℕ)
    → 256 ^ byte_width t ≡ 2 * half
    → ((n : ℕ) → value_of t n ≡ signed (to_signed half n))
    → narrow_signed t (byte_width t) half v ≡ ok bytes
    → decode t bytes ≡ ok (signed v)
decode-narrow_signed t half v bytes wide reads e = elim (Bool-cases (in_signed half v)) [
  | inl fits ↦
      subst (λ b. decode t b ≡ ok (signed v)) (ok-injective (rw fits at e))
        (value_of-le_bytes t (of_signed half v) (signed v) (rw wide (of_signed-lt half v fits))
          (reads (of_signed half v) ∙ ap signed (to_signed-of_signed half v fits)))
  | inr big ↦ absurd (ground arith)
]

decode-narrow_unsigned :
    (t : ValueType) (v : ℕ) (bytes : List ℕ)
    → ((n : ℕ) → value_of t n ≡ unsigned n)
    → narrow_unsigned t (byte_width t) v ≡ ok bytes
    → decode t bytes ≡ ok (unsigned v)
decode-narrow_unsigned t v bytes reads e = elim (Bool-cases (ltb v (256 ^ byte_width t))) [
  | inl fits ↦
      subst (λ b. decode t b ≡ ok (unsigned v)) (ok-injective (rw fits at e))
        (value_of-le_bytes t v (unsigned v) (ltb→lt _ _ fits) (reads v))
  | inr big ↦ absurd (ground arith)
]

pub decode-encode :
    (t : ValueType) (v : ScalarValue) (bytes : List ℕ)
    → IsInteger v
    → encode t v ≡ ok bytes
    → decode t bytes ≡ ok v
unfolding encode byte_width value_of
decode-encode i8 (signed v) bytes h e = decode-narrow_signed i8 (2 ^ 7) v bytes refl (λ n. refl) e
decode-encode i16 (signed v) bytes h e =
    decode-narrow_signed i16 (2 ^ 15) v bytes refl (λ n. refl) e
decode-encode i32 (signed v) bytes h e =
    decode-narrow_signed i32 (2 ^ 31) v bytes refl (λ n. refl) e
decode-encode i64 (signed (pos n)) bytes h e =
    decode-narrow_signed i64 (2 ^ 63) (pos n) bytes refl (λ n. refl) (rw h e)
decode-encode i64 (signed (negsuc n)) bytes h e =
    decode-narrow_signed i64 (2 ^ 63) (negsuc n) bytes refl (λ n. refl) (rw h e)
decode-encode u8 (unsigned v) bytes h e = decode-narrow_unsigned u8 v bytes (λ n. refl) e
decode-encode u16 (unsigned v) bytes h e = decode-narrow_unsigned u16 v bytes (λ n. refl) e
decode-encode u32 (unsigned v) bytes h e = decode-narrow_unsigned u32 v bytes (λ n. refl) e
decode-encode u64 (unsigned v) bytes h e =
    decode-narrow_unsigned u64 v bytes (λ n. refl) (rw (lt→ltb _ _ h) e)
decode-encode _ (float v) bytes h e = absurd h
decode-encode _ _ bytes h e = cc
