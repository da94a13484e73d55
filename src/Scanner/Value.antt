-- ===== src/Scanner/Value.antt =====
-- src/scanner/value.rs: the types of values, and their little-endian bytes. A byte is a number below
-- 256, and a slice of bytes a list.
pub mod RoundTrip
use intimatr.Prelude.{
  ℕ, zero, suc, ◌+◌, ◌-◌, ◌*◌, ◌/◌, ◌%◌, ◌^◌, Bool, not, List, [], ◌∷◌, Result, ok, err, length,
  ltb, ◌==◌, if◌then◌else◌, ℤ, pos, negsuc,
}
use intimatr.Float.Bits.{f64_bits, f64_of_bits, f32_bits, f32_of_bits}
use intimatr.Scanner.Predicate.{ScalarValue, signed, unsigned, float, Kind, kind}

pub data ValueType : Type 0 where
  i8 i16 i32 i64 u8 u16 u32 u64 f32 f64 : ValueType

pub data ValueError : Type 0 where
  wrong_width : ValueType → ℕ → ℕ → ValueError
  out_of_range : ValueType → ValueError
  kind_mismatch : ValueType → Kind → ValueError

unfoldable pub byte_width : ValueType → ℕ
byte_width i8 = 1
byte_width u8 = 1
byte_width i16 = 2
byte_width u16 = 2
byte_width i32 = 4
byte_width u32 = 4
byte_width f32 = 4
byte_width i64 = 8
byte_width u64 = 8
byte_width f64 = 8

-- `from_le_bytes` of an unsigned integer
unfoldable pub from_le_bytes : List ℕ → ℕ
from_le_bytes [] = 0
from_le_bytes (b ∷ bytes) = b + 256 * from_le_bytes bytes

-- `to_le_bytes` of an unsigned integer of that many bytes
unfoldable pub to_le_bytes : ℕ → ℕ → List ℕ
to_le_bytes zero n = []
to_le_bytes (suc width) n = n % 256 ∷ to_le_bytes width (n / 256)

-- A signed integer in two's complement, of which `half` is the sign bit.
abbrev pub to_signed : ℕ → ℕ → ℤ
to_signed half n = if ltb n half then pos n else negsuc (2 * half - 1 - n)

abbrev pub of_signed : ℕ → ℤ → ℕ
of_signed half (pos n) = n
of_signed half (negsuc n) = 2 * half - 1 - n

-- Whether an integer is of the signed type of which `half` is the sign bit.
abbrev pub in_signed : ℕ → ℤ → Bool
in_signed half (pos n) = ltb n half
in_signed half (negsuc n) = ltb n half

-- The value of the right number of bytes, read as one number.
unfoldable pub value_of : ValueType → ℕ → ScalarValue
value_of i8 n = signed (to_signed (2 ^ 7) n)
value_of i16 n = signed (to_signed (2 ^ 15) n)
value_of i32 n = signed (to_signed (2 ^ 31) n)
value_of i64 n = signed (to_signed (2 ^ 63) n)
value_of u8 n = unsigned n
value_of u16 n = unsigned n
value_of u32 n = unsigned n
value_of u64 n = unsigned n
value_of f32 n = float (f32_of_bits n)
value_of f64 n = float (f64_of_bits n)

unfoldable pub decode : ValueType → List ℕ → Result ValueError ScalarValue
unfolding byte_width from_le_bytes value_of
decode value_type bytes =
    let expected = byte_width value_type in
    if not (length bytes == expected)
    then err (wrong_width value_type expected (length bytes))
    else ok (value_of value_type (from_le_bytes bytes))

-- `i8::try_from(value)` and the like, and the bytes.
abbrev pub narrow_signed : ValueType → ℕ → ℕ → ℤ → Result ValueError (List ℕ)
narrow_signed value_type width half value =
    if in_signed half value
    then ok (to_le_bytes width (of_signed half value))
    else err (out_of_range value_type)

abbrev pub narrow_unsigned : ValueType → ℕ → ℕ → Result ValueError (List ℕ)
narrow_unsigned value_type width value =
    if ltb value (256 ^ width) then ok (to_le_bytes width value) else err (out_of_range value_type)

unfoldable pub encode : ValueType → ScalarValue → Result ValueError (List ℕ)
unfolding to_le_bytes
encode i8 (signed value) = narrow_signed i8 1 (2 ^ 7) value
encode i16 (signed value) = narrow_signed i16 2 (2 ^ 15) value
encode i32 (signed value) = narrow_signed i32 4 (2 ^ 31) value
encode i64 (signed value) = ok (to_le_bytes 8 (of_signed (2 ^ 63) value))
encode u8 (unsigned value) = narrow_unsigned u8 1 value
encode u16 (unsigned value) = narrow_unsigned u16 2 value
encode u32 (unsigned value) = narrow_unsigned u32 4 value
encode u64 (unsigned value) = ok (to_le_bytes 8 value)
encode f32 (float value) = ok (to_le_bytes 4 (f32_bits value))
encode f64 (float value) = ok (to_le_bytes 8 (f64_bits value))
encode value_type value = err (kind_mismatch value_type (kind value))
