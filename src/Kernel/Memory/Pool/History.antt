-- ===== src/Kernel/Memory/Pool/History.antt =====
-- Histories of calls on a pool, and what it hands out after them.
use Prim.Native.Nat.{min}
use native.Mathlib.Nat.{lt-div-mul-add}
use axebergos.Prelude.{
  ℕ, ◌+◌, ◌*◌, ◌-◌, ◌/◌, ◌%◌, ◌≤◌, ◌<◌, ◌≡◌, ◌⊎◌, refl, sym, ap, subst, ◌∙◌, true, false, ◌||◌,
  ◌==◌, number_key, List, [], ◌∷◌, none, some, inl, inr, leb, length, get_elem?, take, replicate,
  get_elem?-set, length-replicate, length-take, Bool-cases, arith,
}
use axebergos.Prelude.Words.{u64_mod, i64_half}
use axebergos.Prelude.Slices.{get_elem?-some, List-cases}
use axebergos.Kernel.Memory.Cow.Owners.{occurs, occurs-nil}
use axebergos.Kernel.Memory.Cow.Page.{length-copy_at}
use axebergos.Kernel.Memory.Pool
use axebergos.Kernel.Memory.Pool.{MemoryPool, new_pool, range, alloc, is_unallocated, free, reset}
use axebergos.Kernel.Memory.Pool.Slots.{
  IsSound, trues-replicate, all_free, alloc-none_eq, alloc-some_eq, top_free, alloc-IsSound,
  suc_mul, slot_fits, free_slot, free-IsSound,
}

-- The calls that change a pool.
pub data Call : Type 0 where
  allocs resets : Call
  frees : ℕ → Call
  writes : ℕ → List ℕ → Call

unfoldable pub step : MemoryPool → Call → MemoryPool
step p allocs = (alloc p).0
step p resets = reset p
step p (frees offset) = (free p offset).0
step p (writes offset buf) = (Pool.write p offset buf).0

unfoldable pub run : MemoryPool → List Call → MemoryPool
run p [] = p
run p (c ∷ cs) = run (step p c) cs

write-IsSound :
    (p : MemoryPool) (offset : ℕ) (buf : List ℕ) → IsSound p → IsSound (Pool.write p offset buf).0
unfolding Pool.write
write-IsSound p offset buf h = elim (Bool-cases (is_unallocated p (offset / p.object_size))) [
  | inl e ↦ simp (Pool.write, e) h
  | inr e ↦
      let slot = offset / p.object_size in
      let n = min (length buf) ((slot + 1) * p.object_size - offset) in
      let fits = slot_fits p slot true h (free_slot p slot false e) in
      let last : offset < slot * p.object_size + p.object_size = lt-div-mul-add h.positive in
      rw (Pool.write, e)
        (record {
          positive = h.positive;
          sized =
              length-copy_at p.bytes (take n buf) offset
                (omega (arith, fits, last, length-take n buf, suc_mul p.object_size slot))
              ∙ h.sized;
          flagged = h.flagged;
          counted = h.counted;
          listed = h.listed;
        })
]

reset-IsSound : (p : MemoryPool) → IsSound p → IsSound (reset p)
unfolding reset
reset-IsSound p h = record {
  positive = h.positive;
  sized = length-replicate {A = ℕ} (length p.bytes) 0 ∙ h.sized;
  flagged = length-replicate (length p.allocated) false ∙ h.flagged;
  counted = sym (trues-replicate (length p.allocated));
  listed = λ i. rw h.flagged (all_free p.capacity i);
}

-- A new pool, when its size does not overflow.
abbrev fresh_pool : ℕ → ℕ → ℕ → MemoryPool
fresh_pool id object_size capacity = record {
  id = id;
  object_size = object_size;
  capacity = capacity;
  bytes = replicate (object_size * capacity) 0;
  allocated = replicate capacity false;
  alloc_count = 0;
  free_list = range 0 capacity;
}

new_pool_eq :
    (id object_size capacity : ℕ) (p : MemoryPool)
    → new_pool id object_size capacity ≡ some p
    → object_size * capacity < u64_mod
    → (0 < object_size) × (fresh_pool id object_size capacity ≡ p)
unfolding new_pool
new_pool_eq id object_size capacity p e small =
    let total = object_size * capacity in
    let same : total % u64_mod ≡ total = omega (arith, small) in
    elim (Bool-cases (object_size == 0 || (capacity == 0 || leb i64_half total))) [
      | inl t ↦ let broken : none ≡ some p = rw (same, t) at e in absurd (ground (arith, broken))
      | inr t ↦
          let made : some (fresh_pool id object_size capacity) ≡ some p = rw (same, t) at e in
          (ground (arith, t), ground (arith, made))
    ]

fresh_pool-IsSound :
    (id object_size capacity : ℕ) → 0 < object_size → IsSound (fresh_pool id object_size capacity)
fresh_pool-IsSound id object_size capacity pos = record {
  positive = pos;
  sized = length-replicate {A = ℕ} (object_size * capacity) 0;
  flagged = length-replicate capacity false;
  counted = sym (trues-replicate capacity);
  listed = λ i. all_free capacity i;
}

alloc_fixed :
    (p : MemoryPool)
    → ((alloc p).0.object_size ≡ p.object_size) × ((alloc p).0.capacity ≡ p.capacity)
alloc_fixed p = elim (List-cases p.free_list) [
  | inl e ↦ rw (alloc-none_eq p e) (refl, refl)
  | inr (slot, rest, e) ↦ rw (alloc-some_eq p slot rest e) (refl, refl)
]

step-IsSound :
    (p : MemoryPool) (c : Call)
    → IsSound p
    → IsSound (step p c)
      × ((step p c).object_size ≡ p.object_size)
      × ((step p c).capacity ≡ p.capacity)
unfolding step reset alloc free Pool.write
step-IsSound p allocs h = (alloc-IsSound p h, (alloc_fixed p).0, (alloc_fixed p).1)
step-IsSound p resets h = (reset-IsSound p h, refl, refl)
step-IsSound p (frees offset) h = (free-IsSound p offset h, ground arith, ground arith)
step-IsSound p (writes offset buf) h = (write-IsSound p offset buf h, ground arith, ground arith)

run-IsSound :
    (cs : List Call) (p : MemoryPool)
    → IsSound p
    → IsSound (run p cs)
      × ((run p cs).object_size ≡ p.object_size)
      × ((run p cs).capacity ≡ p.capacity)
unfolding run
run-IsSound [] p h = (h, refl, refl)
run-IsSound (c ∷ cs) p h =
    let (h', size_is, capacity_is) = step-IsSound p c h in
    let (h'', size_was, capacity_was) = run-IsSound cs (step p c) h' in
    (h'', size_was ∙ size_is, capacity_was ∙ capacity_is)

-- What `alloc` does: it answers the offset of a slot that was free, which lies in the vector and is
-- allocated then; or nothing, when every slot is allocated.
abbrev pub Allots : MemoryPool → Type 0
Allots p =
    ((alloc p).1 ≡ none) × ((i : ℕ) → i < p.capacity → get_elem? p.allocated i ≡ some true)
    ⊎ ((slot : ℕ) × ((alloc p).1 ≡ some (slot * p.object_size))
        × (slot * p.object_size + p.object_size ≤ length p.bytes)
        × (get_elem? p.allocated slot ≡ some false)
        × (get_elem? (alloc p).0.allocated slot ≡ some true))

all_taken :
    (p : MemoryPool) (i : ℕ)
    → IsSound p
    → p.free_list ≡ []
    → i < p.capacity
    → get_elem? p.allocated i ≡ some true
all_taken p i h e lt =
    let unlisted : occurs i p.free_list ≡ 0 = ap (occurs i) e ∙ occurs-nil i in
    let (flag, at) = get_elem?-some p.allocated i (omega (arith, lt, h.flagged)) in
    elim (Bool-cases flag) [
      | inl t ↦ at ∙ ap some t
      | inr f ↦ ground (arith, at, f, unlisted, h.listed i)
    ]

alloc-Allots : (p : MemoryPool) → IsSound p → Allots p
alloc-Allots p h = elim (List-cases p.free_list) [
  | inl e ↦ inl (ap (λ r. r.1) (alloc-none_eq p e), λ i lt. all_taken p i h e lt)
  | inr (slot, rest, e) ↦
      let was = top_free p slot rest h e in
      inr (
        slot,
        ap (λ r. r.1) (alloc-some_eq p slot rest e),
        omega (arith, slot_fits p slot false h was, suc_mul p.object_size slot),
        was,
        ap (λ r. get_elem? (r.0).allocated slot) (alloc-some_eq p slot rest e)
            ∙ ground (arith, get_elem?-set p.allocated slot slot true, was),
      )
]

-- After any calls on a new pool of fewer than 2^64 bytes, `alloc` answers the offset of a slot that
-- was free, with room for an object in the pool's bytes, and marks it as allocated; or it answers
-- nothing, and then every slot is allocated.
pub run-new_pool-Allots :
    (cs : List Call) (id object_size capacity : ℕ) (p : MemoryPool)
    → new_pool id object_size capacity ≡ some p
    → object_size * capacity < u64_mod
    → Allots (run p cs)
run-new_pool-Allots cs id object_size capacity p e small =
    let (pos, made) = new_pool_eq id object_size capacity p e small in
    alloc-Allots (run p cs)
      (run-IsSound cs p (subst IsSound made (fresh_pool-IsSound id object_size capacity pos))).0
