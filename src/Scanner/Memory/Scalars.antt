-- ===== src/Scanner/Memory/Scalars.antt =====
-- Typed reads and writes of a memory (`read_scalar` and `write_scalar` of src/memory.rs).
use intimatr.Prelude.{ℕ, ◌≡◌, refl, inl, inr, List, ok, arith, length, All, Result-cases, map_err}
use intimatr.Scanner.Predicate.{ScalarValue}
use intimatr.Scanner.Value.{ValueType, byte_width, decode, encode}
use intimatr.Scanner.Value.RoundTrip.{
  IsByte, IsNumber, IsInteger, encode-decode, decode-encode, decode-length,
}
use intimatr.Scanner.Memory.{MemoryTarget, WritePolicy, value, read_scalar, write_scalar}

-- What a platform promises of its memory: a read that succeeds fills the buffer with bytes, and one
-- of what a write that succeeds has just written fills it with those bytes. Such a read may fail:
-- the Windows memory writes to pages that cannot be read.
pub record IsMemory {M : Type 0} (target : MemoryTarget M) : Type 0 where
  pub fills :
      (m : M) (address width : ℕ) (bytes : List ℕ)
      → (target.source m).read_exact address width ≡ ok bytes
      → All IsByte bytes × (length bytes ≡ width)
  pub keeps :
      (m m' : M) (address : ℕ) (bytes read : List ℕ) (policy : WritePolicy)
      → target.write_exact m address bytes policy ≡ (m', ok tt)
      → (target.source m').read_exact address (length bytes) ≡ ok read
      → read ≡ bytes

module _ {M : Type 0} (target : MemoryTarget M) (law : IsMemory target) (m : M) (address : ℕ)
    (t : ValueType) (policy : WritePolicy) where
  read_bytes :
      (m' : M) (v : ScalarValue) (bytes : List ℕ)
      → (target.source m').read_exact address (byte_width t) ≡ ok bytes
      → decode t bytes ≡ ok v
      → read_scalar (target.source m') address t ≡ ok v
  unfolding read_scalar
  read_bytes m' v bytes read e = rw read (rw e refl)

  written :
      (v : ScalarValue) (bytes : List ℕ)
      → encode t v ≡ ok bytes
      → write_scalar target m address t v policy ≡ target.write_exact m address bytes policy
  unfolding write_scalar
  written v bytes made = rw (write_scalar, made) refl

  -- On a memory that fills what it reads, and where a successful read of what a successful write
  -- has just written returns those bytes: where the write of an integer of its machine type
  -- succeeds and the bytes at its address can then be read, the typed read returns the integer.
  pub read_scalar-write_scalar :
      (m' : M) (v : ScalarValue) (read : List ℕ)
      → IsInteger v
      → write_scalar target m address t v policy ≡ (m', ok tt)
      → (target.source m').read_exact address (byte_width t) ≡ ok read
      → read_scalar (target.source m') address t ≡ ok v
  unfolding write_scalar
  read_scalar-write_scalar m' v read h e filled = elim (Result-cases (encode t v)) [
    | inl (bytes, made) ↦
        let decoded = decode-encode t v bytes h made in
        let width = (decode-length t bytes v decoded).0 in
        let same =
          law.keeps m m' address bytes read policy (rw (← written v bytes made) e)
            (rw width filled) in
        read_bytes m' v read filled (rw same decoded)
    | inr (wrong, made) ↦ absurd (ground arith)
  ]

  -- On a memory that fills what it reads: a value that is not a NaN and was read from some bytes
  -- is written back, at the same address and type, as a write of those very bytes.
  pub write_scalar-read_scalar :
      (v : ScalarValue) (bytes : List ℕ)
      → (target.source m).read_exact address (byte_width t) ≡ ok bytes
      → read_scalar (target.source m) address t ≡ ok v
      → IsNumber v
      → write_scalar target m address t v policy ≡ target.write_exact m address bytes policy
  unfolding read_scalar write_scalar
  write_scalar-read_scalar v bytes read e k =
      let decoded : decode t bytes ≡ ok v = value_decoded (rw read at e) in
      let made =
        encode-decode t bytes v (law.fills m address (byte_width t) bytes read).0 decoded k in
      written v bytes made
    where
      value_decoded : map_err value (decode t bytes) ≡ ok v → decode t bytes ≡ ok v
      value_decoded h = ground arith
