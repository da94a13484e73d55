-- ===== src/Examples/Values.antt =====
-- Runs of the theorems on values and their bytes, on a memory that is one list of bytes.
use intimatr.Prelude.{
  ℕ, ◌≡◌, refl, inl, inr, true, false, List, [], ◌∷◌, Result, ok, err, arith, length, All,
  if◌then◌else◌, negsuc, Bool-cases, Bool, ltb, ◌&&◌, ◌==◌, all, ok-injective, ap, sym, ◌∙◌,
}
use mathlib.Core.Path.{subst}
use intimatr.Scanner.Predicate.{signed}
use intimatr.Scanner.Value.{i16, decode, encode, value_of, from_le_bytes, to_le_bytes, byte_width}
use intimatr.Scanner.Value.RoundTrip.{encode-decode, IsByte}
use intimatr.Scanner.Memory.{
  MemoryError, MemoryTarget, WritePolicy, region_not_found, write_denied, read_scalar, write_scalar,
}
use intimatr.Scanner.Memory.Scalars.{IsMemory, read_scalar-write_scalar}

decoded : decode i16 (254 ∷ 255 ∷ []) ≡ ok (signed (negsuc 1))
unfolding decode value_of from_le_bytes byte_width
decoded = refl

encode-decode_example : encode i16 (signed (negsuc 1)) ≡ ok (254 ∷ 255 ∷ [])
encode-decode_example =
    encode-decode i16 (254 ∷ 255 ∷ []) (signed (negsuc 1)) (omega arith, (omega arith, tt)) decoded
      tt

encoded : encode i16 (signed (negsuc 1)) ≡ ok (254 ∷ 255 ∷ [])
unfolding encode to_le_bytes
encoded = refl

-- A memory that holds what was written last, with its address.
abbrev is_byte : ℕ → Bool
is_byte b = ltb b 256

all_bytes : (bytes : List ℕ) → all is_byte bytes ≡ true → All IsByte bytes
all_bytes [] h = tt
all_bytes (b ∷ bytes) h = (ground arith, all_bytes bytes (ground arith))

abbrev holds : ℕ × List ℕ → ℕ → ℕ → Bool
holds m address width = all is_byte m.1 && (m.0 == address) && (length m.1 == width)

abbrev read_cell : ℕ × List ℕ → ℕ → ℕ → Result MemoryError (List ℕ)
read_cell m address width =
    if holds m address width then ok m.1 else err (region_not_found address width)

abbrev write_cell :
    ℕ × List ℕ → ℕ → List ℕ → WritePolicy → (ℕ × List ℕ) × Result MemoryError (Unit {0})
write_cell m address bytes policy =
    if policy.allow_memory_write && all is_byte bytes
    then ((address, bytes), ok tt)
    else (m, err write_denied)

abbrev cell : MemoryTarget (ℕ × List ℕ)
cell = record {
  source = λ m. record { regions = ok []; read_exact = read_cell m };
  write_exact = write_cell;
}

cell_fills :
    (m : ℕ × List ℕ) (address width : ℕ) (bytes : List ℕ)
    → read_cell m address width ≡ ok bytes
    → All IsByte bytes × (length bytes ≡ width)
cell_fills m address width bytes e = elim (Bool-cases (holds m address width)) [
  | inl held ↦
      subst (λ b. All IsByte b × (length b ≡ width)) (ok-injective (rw held at e))
        (all_bytes m.1 (ground arith), ground arith)
  | inr other ↦ absurd (ground arith)
]

written_cell :
    (m m' : ℕ × List ℕ) (address : ℕ) (bytes : List ℕ) (policy : WritePolicy)
    → write_cell m address bytes policy ≡ (m', ok tt)
    → read_cell m' address (length bytes) ≡ ok bytes
written_cell m m' address bytes policy e =
    elim (Bool-cases (policy.allow_memory_write && all is_byte bytes)) [
      | inl allowed ↦
          subst (λ (n : ℕ × List ℕ). read_cell n address (length bytes) ≡ ok bytes)
            (ap (λ p. p.0) (rw allowed at e)) (ground arith)
      | inr refused ↦ absurd (ground arith)
    ]

cell_keeps :
    (m m' : ℕ × List ℕ) (address : ℕ) (bytes read : List ℕ) (policy : WritePolicy)
    → write_cell m address bytes policy ≡ (m', ok tt)
    → read_cell m' address (length bytes) ≡ ok read
    → read ≡ bytes
cell_keeps m m' address bytes read policy e filled =
    ok-injective (sym filled ∙ written_cell m m' address bytes policy e)

cell-IsMemory : IsMemory cell
cell-IsMemory = record { fills = cell_fills; keeps = cell_keeps }

abbrev writable : WritePolicy
writable = record { allow_memory_write = true; allow_code_patch = false }

abbrev stored : ℕ × List ℕ
stored = (16, 1 ∷ 2 ∷ [])

wrote : write_scalar cell stored 32 i16 (signed (negsuc 1)) writable ≡ ((32, 254 ∷ 255 ∷ []), ok tt)
unfolding write_scalar encode to_le_bytes
wrote = refl

reread : read_cell (32, 254 ∷ 255 ∷ []) 32 (byte_width i16) ≡ ok (254 ∷ 255 ∷ [])
unfolding byte_width
reread = refl

read_scalar-write_scalar_example :
    read_scalar (cell.source (32, 254 ∷ 255 ∷ [])) 32 i16 ≡ ok (signed (negsuc 1))
read_scalar-write_scalar_example =
    read_scalar-write_scalar cell cell-IsMemory stored 32 i16 writable (32, 254 ∷ 255 ∷ [])
      (signed (negsuc 1)) (254 ∷ 255 ∷ []) refl wrote reread
