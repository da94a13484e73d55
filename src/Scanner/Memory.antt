-- ===== src/Scanner/Memory.antt =====
-- The platform-neutral part of src/memory.rs: regions, the filter of the scanner, and typed reads and
-- writes of a memory that the platform implements.
pub mod Scalars
use Prim.Native.String.{String}
use intimatr.Prelude.{
  ℕ, ◌+◌, ◌≤◌, ◌≡◌, ◌↔◌, Bool, true, false, not, ◌&&◌, ◌||◌, none, some, List, Result, ok, err,
  ◌>>=◌, arith, leb, ok_or, map_err, checked_add_u64, u64_max,
}
use intimatr.Scanner.Predicate.{ScalarValue}
use intimatr.Scanner.Value.{ValueType, ValueError, byte_width, decode, encode}

pub record MemoryRegion : Type 0 where
  pub base : ℕ
  pub size : ℕ
  pub committed : Bool
  pub readable : Bool
  pub writable : Bool
  pub executable : Bool
  pub guard : Bool

pub data MemoryError : Type 0 where
  platform : String → ℕ → MemoryError
  partial_transfer : ℕ → ℕ → ℕ → MemoryError
  address_range_overflow : ℕ → ℕ → MemoryError
  region_not_found : ℕ → ℕ → MemoryError
  write_denied code_patch_denied guard_page_denied : MemoryError
  protection_restore_failed : ℕ → MemoryError
  value : ValueError → MemoryError

pub record RegionFilter : Type 0 where
  pub require_readable : Bool
  pub require_writable : Bool
  pub require_executable : Bool
  pub include_guard_pages : Bool

-- A `usize` is of 64 bits.
unfoldable pub end : MemoryRegion → Result MemoryError ℕ
end r = ok_or (checked_add_u64 r.base r.size) (address_range_overflow r.base r.size)

unfoldable pub contains_range : MemoryRegion → ℕ → ℕ → Bool
contains_range r address size = elim (checked_add_u64 r.base r.size) [
  | none ↦ false
  | some region_end ↦ elim (checked_add_u64 address size) [
    | none ↦ false
    | some range_end ↦ leb r.base address && leb range_end region_end
  ]
]

unfoldable pub is_scannable : MemoryRegion → RegionFilter → Bool
is_scannable r filter =
    r.committed
    && (not filter.require_readable || r.readable)
    && (not filter.require_writable || r.writable)
    && (not filter.require_executable || r.executable)
    && (filter.include_guard_pages || not r.guard)

-- A region contains a range exactly if neither wraps and the one lies within the other.
pub contains_range_iff :
    (r : MemoryRegion) (address size : ℕ)
    → (contains_range r address size ≡ true)
      ↔ ((r.base + r.size ≤ u64_max) × (r.base ≤ address) × (address + size ≤ r.base + r.size))
unfolding contains_range
contains_range_iff r address size =
    (λ h. (ground arith, ground arith, ground arith), λ h. ground arith)

pub record WritePolicy : Type 0 where
  pub allow_memory_write : Bool
  pub allow_code_patch : Bool

-- A memory at one instant, which fills a buffer of the length that is asked for.
pub record MemorySource : Type 0 where
  pub regions : Result MemoryError (List MemoryRegion)
  pub read_exact : ℕ → ℕ → Result MemoryError (List ℕ)

-- A memory with its states.
pub record MemoryTarget (M : Type 0) : Type 0 where
  pub source : M → MemorySource
  pub write_exact : M → ℕ → List ℕ → WritePolicy → M × Result MemoryError (Unit {0})

unfoldable pub read_scalar : MemorySource → ℕ → ValueType → Result MemoryError ScalarValue
read_scalar source address value_type = do
  bytes ← source.read_exact address (byte_width value_type)
  map_err value (decode value_type bytes)

unfoldable pub write_scalar :
    {M : Type 0}
    → MemoryTarget M
    → M
    → ℕ
    → ValueType
    → ScalarValue
    → WritePolicy
    → M × Result MemoryError (Unit {0})
write_scalar target m address value_type scalar policy = elim (encode value_type scalar) [
  | err e ↦ (m, err (value e))
  | ok bytes ↦ target.write_exact m address bytes policy
]
