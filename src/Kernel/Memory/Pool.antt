-- ===== src/Kernel/Memory/Pool.antt =====
-- kernel/memory.rs, `MemoryPool`: objects of one size in one vector. The free list is a stack, whose
-- list starts with its top. usize has 64 bits; what the constructor asserts, and a vector of 2^63
-- bytes, panics, which is `none`. There are as many flags as slots.
pub mod Slots
pub mod History
mod Tests
use Prim.Native.Nat.{min}
use axebergos.Prelude.{
  ℕ, zero, suc, ◌+◌, ◌*◌, ◌-◌, ◌/◌, ◌%◌, Bool, true, false, not, ◌||◌, ◌==◌, number_key, List, [],
  ◌∷◌, Option, none, some, leb, if◌then◌else◌, length, get_elem?, set, take, drop, replicate,
}
use axebergos.Prelude.Words.{u64_mod, i64_half}
use axebergos.Kernel.Object.File.{copy_at}

pub record MemoryPool : Type 0 where
  pub id : ℕ
  pub object_size : ℕ
  pub capacity : ℕ
  pub bytes : List ℕ
  pub allocated : List Bool
  pub alloc_count : ℕ
  pub free_list : List ℕ

-- `start, start + 1, ...`, `n` numbers.
abbrev pub range : ℕ → ℕ → List ℕ
range start zero = []
range start (suc n) = start ∷ range (start + 1) n

unfoldable pub new_pool : ℕ → ℕ → ℕ → Option MemoryPool
new_pool id object_size capacity =
    let total_size = object_size * capacity % u64_mod in
    if object_size == 0 || (capacity == 0 || leb i64_half total_size)
    then none
    else some (record {
      id = id;
      object_size = object_size;
      capacity = capacity;
      bytes = replicate total_size 0;
      allocated = replicate capacity false;
      alloc_count = 0;
      free_list = range 0 capacity;
    })

unfoldable pub alloc : MemoryPool → MemoryPool × Option ℕ
alloc p = elim p.free_list [
  | [] ↦ (p, none)
  | slot ∷ rest ↦ (
    record p {
      allocated = set p.allocated slot true;
      alloc_count = p.alloc_count + 1;
      free_list = rest;
    },
    some (slot * p.object_size),
  )
]

-- `slot >= self.capacity || !self.allocated[slot]`.
abbrev pub is_unallocated : MemoryPool → ℕ → Bool
is_unallocated p slot = elim (get_elem? p.allocated slot) [
  | none ↦ true
  | some taken ↦ leb p.capacity slot || not taken
]

unfoldable pub free : MemoryPool → ℕ → MemoryPool × Bool
free p offset =
    let slot = offset / p.object_size in
    if not (offset % p.object_size == 0) || is_unallocated p slot then (p, false) else (
      record p {
        bytes = copy_at p.bytes (slot * p.object_size) (replicate p.object_size 0);
        allocated = set p.allocated slot false;
        alloc_count = p.alloc_count - 1;
        free_list = slot ∷ p.free_list;
      },
      true,
    )

-- The bytes that a read copies to its buffer, of which it is given the length.
unfoldable pub read : MemoryPool → ℕ → ℕ → Option (List ℕ)
read p offset n =
    let slot = offset / p.object_size in
    if is_unallocated p slot
    then none
    else let available = (slot + 1) * p.object_size - offset in
      some (take (min n available) (drop offset p.bytes))

unfoldable pub write : MemoryPool → ℕ → List ℕ → MemoryPool × Option ℕ
write p offset buf =
    let slot = offset / p.object_size in
    if is_unallocated p slot
    then (p, none)
    else let available = (slot + 1) * p.object_size - offset in
      let to_write = min (length buf) available in
      (record p { bytes = copy_at p.bytes offset (take to_write buf) }, some to_write)

unfoldable pub reset : MemoryPool → MemoryPool
reset p = record p {
  bytes = replicate (length p.bytes) 0;
  allocated = replicate (length p.allocated) false;
  alloc_count = 0;
  free_list = range 0 p.capacity;
}
