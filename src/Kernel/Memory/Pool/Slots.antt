-- ===== src/Kernel/Memory/Pool/Slots.antt =====
-- The slots of a pool: each is free or allocated, and stands once in the free list or not at all.
use native.Mathlib.Nat.{mul-le-mul_right, mul_comm, suc-mul}
use axebergos.Prelude.{
  ℕ, zero, suc, ◌+◌, ◌*◌, ◌-◌, ◌/◌, ◌%◌, ◌≤◌, ◌<◌, ◌≡◌, refl, ap, ◌∙◌, Bool, true, false, not, ◌||◌,
  ◌==◌, number_key, List, [], ◌∷◌, Option, none, some, inl, inr, leb, ltb, if◌then◌else◌, length,
  get_elem?, set, replicate, get_elem?-set, length-set, length-replicate, Bool-cases, Option-cases,
  arith,
}
use axebergos.Prelude.Slices.{get_elem?-replicate, get_elem?-none, List-cases}
use axebergos.Kernel.Object.File.{copy_at}
use axebergos.Kernel.Memory.Cow.Owners.{one_if, occurs, occurs-cons}
use axebergos.Kernel.Memory.Cow.Page.{length-copy_at}
use axebergos.Kernel.Memory.Pool.{MemoryPool, range, alloc, is_unallocated, free}

-- How often a free slot is listed.
abbrev listed_times : Option Bool → ℕ
listed_times none = 0
listed_times (some taken) = if taken then 0 else 1

-- How many flags are up.
unfoldable pub trues : List Bool → ℕ
trues [] = 0
trues (b ∷ flags) = one_if b + trues flags

trues-set :
    (flags : List Bool) (i : ℕ) (b v : Bool)
    → get_elem? flags i ≡ some b
    → trues (set flags i v) + one_if b ≡ trues flags + one_if v
unfolding trues
trues-set [] i b v e = ground (arith, e)
trues-set (c ∷ flags) zero b v e = ground (arith, e)
trues-set (c ∷ flags) (suc i) b v e = omega (arith, trues-set flags i b v e)

pub trues-replicate : (n : ℕ) → trues (replicate n false) ≡ 0
unfolding trues
trues-replicate zero = refl
trues-replicate (suc n) = omega (arith, trues-replicate n)

pub record IsSound (p : MemoryPool) : Type 0 where
  pub positive : 0 < p.object_size
  pub sized : length p.bytes ≡ p.object_size * p.capacity
  pub flagged : length p.allocated ≡ p.capacity
  pub counted : p.alloc_count ≡ trues p.allocated
  pub listed : (i : ℕ) → occurs i p.free_list ≡ listed_times (get_elem? p.allocated i)

occurs-range :
    (i start n : ℕ)
    → occurs i (range start n) ≡ one_if (if leb start i then ltb i (start + n) else false)
unfolding occurs
occurs-range i start zero = ground arith
occurs-range i start (suc n) = ground (arith, occurs-range i (start + 1) n)

pub length-range : (start n : ℕ) → length (range start n) ≡ n
length-range start zero = refl
length-range start (suc n) = ap suc (length-range (start + 1) n)

pub all_free : (n i : ℕ) → occurs i (range 0 n) ≡ listed_times (get_elem? (replicate n false) i)
all_free n i = ground (arith, occurs-range i 0 n, get_elem?-replicate n false i)

pub alloc-none_eq : (p : MemoryPool) → p.free_list ≡ [] → alloc p ≡ (p, none)
unfolding alloc
alloc-none_eq p e = simp (alloc, e)

pub alloc-some_eq :
    (p : MemoryPool) (slot : ℕ) (rest : List ℕ)
    → p.free_list ≡ slot ∷ rest
    → alloc p ≡ (
      record p {
        allocated = set p.allocated slot true;
        alloc_count = p.alloc_count + 1;
        free_list = rest;
      },
      some (slot * p.object_size),
    )
unfolding alloc
alloc-some_eq p slot rest e = rw (alloc, e) refl

listed_free :
    (flags : List Bool) (slot : ℕ)
    → 0 < listed_times (get_elem? flags slot)
    → get_elem? flags slot ≡ some false
listed_free flags slot h = elim (Option-cases (get_elem? flags slot)) [
  | inl e ↦ ground (arith, e, h)
  | inr (true, e) ↦ ground (arith, e, h)
  | inr (false, e) ↦ e
]

-- The slot on the top of the free list is free.
pub top_free :
    (p : MemoryPool) (slot : ℕ) (rest : List ℕ)
    → IsSound p
    → p.free_list ≡ slot ∷ rest
    → get_elem? p.allocated slot ≡ some false
top_free p slot rest h e =
    let one : occurs slot p.free_list ≡ 1 + occurs slot rest =
      ap (occurs slot) e ∙ ground (arith, occurs-cons slot slot rest) in
    listed_free p.allocated slot (omega (arith, one, h.listed slot))

pub alloc-IsSound : (p : MemoryPool) → IsSound p → IsSound (alloc p).0
alloc-IsSound p h = elim (List-cases p.free_list) [
  | inl e ↦ rw (alloc-none_eq p e) h
  | inr (slot, rest, e) ↦
      let split : (i : ℕ) → occurs i p.free_list ≡ one_if (slot == i) + occurs i rest =
        λ i. ap (occurs i) e ∙ occurs-cons i slot rest in
      rw (alloc-some_eq p slot rest e) (record {
        positive = h.positive;
        sized = h.sized;
        flagged = length-set p.allocated slot true ∙ h.flagged;
        counted =
            omega
              (arith, h.counted, trues-set p.allocated slot false true (top_free p slot rest h e));
        listed = λ i. ground (
          arith,
          split i,
          h.listed i,
          top_free p slot rest h e,
          get_elem?-set p.allocated slot i true,
        );
      })
]

pub suc_mul : (n slot : ℕ) → (slot + 1) * n ≡ slot * n + n
suc_mul n slot = let same : slot + 1 ≡ suc slot = omega arith in rw (same, suc-mul slot n) refl

-- A slot with a flag lies in the vector.
pub slot_fits :
    (p : MemoryPool) (slot : ℕ) (b : Bool)
    → IsSound p
    → get_elem? p.allocated slot ≡ some b
    → (slot + 1) * p.object_size ≤ length p.bytes
slot_fits p slot b h e = elim (Bool-cases (ltb slot p.capacity)) [
  | inl lt ↦
      let le : slot + 1 ≤ p.capacity = ground (arith, lt) in
      omega (arith, h.sized, mul-le-mul_right p.object_size le, mul_comm p.object_size p.capacity)
  | inr past ↦ ground (arith, e, get_elem?-none p.allocated slot (ground (arith, past, h.flagged)))
]

free_no :
    (p : MemoryPool) (offset : ℕ)
    → (not (offset % p.object_size == 0) || is_unallocated p (offset / p.object_size)) ≡ true
    → free p offset ≡ (p, false)
unfolding free
free_no p offset e = rw (free, e) refl

free_yes :
    (p : MemoryPool) (offset slot : ℕ)
    → offset / p.object_size ≡ slot
    → (not (offset % p.object_size == 0) || is_unallocated p slot) ≡ false
    → free p offset ≡ (
      record p {
        bytes = copy_at p.bytes (slot * p.object_size) (replicate p.object_size 0);
        allocated = set p.allocated slot false;
        alloc_count = p.alloc_count - 1;
        free_list = slot ∷ p.free_list;
      },
      true,
    )
unfolding free
free_yes p offset slot s e = rw (free, s, e) refl

-- The slot of an offset that `free` accepts.
pub free_slot :
    (p : MemoryPool) (slot : ℕ) (b : Bool)
    → (b || is_unallocated p slot) ≡ false
    → get_elem? p.allocated slot ≡ some true
free_slot p slot true e = ground (arith, e)
free_slot p slot false e = elim (Option-cases (get_elem? p.allocated slot)) [
  | inl n ↦ ground (arith, e, n)
  | inr (true, n) ↦ n
  | inr (false, n) ↦ ground (arith, e, n)
]

pub free-IsSound : (p : MemoryPool) (offset : ℕ) → IsSound p → IsSound (free p offset).0
free-IsSound p offset h =
    let slot = offset / p.object_size in
    let test = not (offset % p.object_size == 0) || is_unallocated p slot in
    elim (Bool-cases test) [
      | inl e ↦ rw (free_no p offset e) h
      | inr e ↦
          let taken : get_elem? p.allocated slot ≡ some true =
            free_slot p slot (not (offset % p.object_size == 0)) e in
          rw (free_yes p offset slot refl e) (record {
            positive = h.positive;
            sized =
                length-copy_at p.bytes (replicate p.object_size 0) (slot * p.object_size) (
                  omega (
                    arith,
                    slot_fits p slot true h taken,
                    length-replicate {A = ℕ} p.object_size 0,
                    suc_mul p.object_size slot,
                  ))
                ∙ h.sized;
            flagged = length-set p.allocated slot false ∙ h.flagged;
            counted = omega (arith, h.counted, trues-set p.allocated slot true false taken);
            listed = λ i. ground (
              arith,
              occurs-cons i slot p.free_list,
              h.listed i,
              taken,
              get_elem?-set p.allocated slot i false,
            );
          })
    ]
