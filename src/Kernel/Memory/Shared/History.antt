-- ===== src/Kernel/Memory/Shared/History.antt =====
-- Histories of calls on the shared segments.
use axebergos.Prelude.{
  ℕ, ◌+◌, ◌%◌, ◌≤◌, ◌<◌, ◌≡◌, ◌⊎◌, refl, ap, subst, false, ◌&&◌, ◌==◌, number_key, List, [], ◌∷◌,
  Option, none, some, Result, inl, inr, ltb, leb, length, replicate, length-replicate, Bool-cases,
  Option-cases, arith,
}
use axebergos.Prelude.Words.{u64_mod, i64_half}
use axebergos.Prelude.Table
use axebergos.Prelude.Table.{Table, get-insert, get-remove}
use axebergos.Prelude.Totals.{HasDistinctKeys-insert, total_of-insert_new}
use axebergos.Kernel.Memory.Cow.Owners.{occurs-nil}
use axebergos.Kernel.Memory.Shared.{
  MemoryError, SharedMemory, MemoryManager, new_manager, shmget, shmat, shmdt, shm_sync,
}
use axebergos.Kernel.Memory.Shared.Segments.{IsSegment}
use axebergos.Kernel.Memory.Shared.Within.{
  size_of, IsWithin, new_manager-IsWithin, Keeps, shmat-Keeps, shmdt-Keeps, shm_sync-Keeps,
}

-- The calls that change the segments.
pub data Call : Type 0 where
  gets attaches detaches : ℕ → ℕ → Call
  syncs : ℕ → List ℕ → Call

abbrev state_of : Option (MemoryManager × Result ℕ MemoryError) → Option MemoryManager
state_of none = none
state_of (some r) = some r.0

unfoldable pub step : MemoryManager → Call → Option MemoryManager
step m (gets size creator) = state_of (shmget m size creator)
step m (attaches id pid) = some (shmat m id pid).0
step m (detaches id pid) = some (shmdt m id pid).0
step m (syncs id content) = some (shm_sync m id content).0

-- A panic ends the run.
unfoldable pub run : MemoryManager → List Call → Option MemoryManager
run m [] = some m
run m (c ∷ cs) = elim (step m c) [ none ↦ none | some m' ↦ run m' cs ]

-- A new segment, which fits.
abbrev new_segment : MemoryManager → ℕ → ℕ → SharedMemory
new_segment m size creator = record {
  id = m.next_shm_id;
  size = size;
  bytes = replicate size 0;
  attached = [];
  creator = creator;
  refcount = 0;
}

abbrev with_segment : MemoryManager → ℕ → ℕ → MemoryManager
with_segment m size creator = record m {
  next_shm_id = (m.next_shm_id + 1) % u64_mod;
  shared_segments = Table.insert m.next_shm_id (new_segment m size creator) m.shared_segments;
  total_allocated = (m.total_allocated + size) % u64_mod;
}

state_of-shmget :
    (m m' : MemoryManager) (size creator : ℕ)
    → state_of (shmget m size creator) ≡ some m'
    → (m ≡ m')
      ⊎ ((with_segment m size creator ≡ m')
          × ((ltb 0 m.system_limit && ltb m.system_limit ((m.total_allocated + size) % u64_mod))
              ≡ false)
          × (size < i64_half))
unfolding shmget
state_of-shmget m m' size creator e = elim (Bool-cases (size == 0)) [
  | inl z ↦ inl (let k : some m ≡ some m' = rw (shmget, z) at e in ground (arith, k))
  | inr z ↦
      elim (Bool-cases
        (ltb 0 m.system_limit && ltb m.system_limit ((m.total_allocated + size) % u64_mod))) [
          | inl l ↦ inl (let k : some m ≡ some m' = rw (shmget, z, l) at e in ground (arith, k))
          | inr l ↦ elim (Bool-cases (leb i64_half size)) [
            | inl p ↦
                let k : none ≡ some m' = rw (shmget, z, l, p) at e in absurd (ground (arith, k))
            | inr p ↦
                let k : some (with_segment m size creator) ≡ some m' = rw (shmget, z, l, p) at e in
                inr (ground (arith, k), l, ground (arith, p))
          ]
        ]
]

new_segment-IsWithin :
    (limit : ℕ) (m : MemoryManager) (size creator : ℕ)
    → IsWithin limit m
    → 0 < limit
    → limit ≤ i64_half
    → m.next_shm_id + 1 < u64_mod
    → (ltb 0 m.system_limit && ltb m.system_limit ((m.total_allocated + size) % u64_mod)) ≡ false
    → size < i64_half
    → IsWithin limit (with_segment m size creator)
new_segment-IsWithin limit m size creator h pos small next ok_size short =
    let shm = new_segment m size creator in
    let sum : (m.total_allocated + size) % u64_mod ≡ m.total_allocated + size =
      omega (arith, h.bounded, small, short) in
    let on : (m.next_shm_id + 1) % u64_mod ≡ m.next_shm_id + 1 = omega (arith, next) in
    let room : m.total_allocated + size ≤ limit = ground (arith, pos, h.limited, sum, ok_size) in
    let free : Table.get m.next_shm_id m.shared_segments ≡ none =
      h.fresh m.next_shm_id (omega arith) in
    let more = total_of-insert_new size_of m.next_shm_id shm m.shared_segments free in
    record {
      limited = h.limited;
      totalled = omega (arith, h.totalled, sum, more);
      bounded = omega (arith, sum, room);
      distinct = HasDistinctKeys-insert m.next_shm_id shm m.shared_segments h.distinct;
      segments = λ i t g. elim (Bool-cases (m.next_shm_id == i)) [
        | inl q ↦
            let is : shm ≡ t =
              ground (arith, g, q, get-insert m.next_shm_id i shm m.shared_segments) in
            subst IsSegment is (record {
              counted = refl;
              once = λ x. omega (arith, occurs-nil x);
              sized = length-replicate {A = ℕ} size 0;
            })
        | inr q ↦
            h.segments i t (ground (arith, g, q, get-insert m.next_shm_id i shm m.shared_segments))
      ];
      fresh =
          λ i n. ground (arith, n, on, h.fresh i, get-insert m.next_shm_id i shm m.shared_segments);
    }

step-IsWithin :
    (limit : ℕ) (m m' : MemoryManager) (c : Call)
    → IsWithin limit m
    → 0 < limit
    → limit ≤ i64_half
    → m.next_shm_id + 1 < u64_mod
    → step m c ≡ some m'
    → Keeps limit m m'
unfolding step
step-IsWithin limit m m' (gets size creator) h pos small next e =
    elim (state_of-shmget m m' size creator e) [
      | inl same ↦ (subst (IsWithin limit) same h, ground (arith, ap (λ x. x.next_shm_id) same))
      | inr (made, ok_size, short) ↦ (
        subst (IsWithin limit) made
            (new_segment-IsWithin limit m size creator h pos small next ok_size short),
        ground (arith, next, ap (λ x. x.next_shm_id) made),
      )
    ]
step-IsWithin limit m m' (attaches id pid) h pos small next e =
    subst (Keeps limit m) (ground (arith, e)) (shmat-Keeps limit m id pid h)
step-IsWithin limit m m' (detaches id pid) h pos small next e =
    subst (Keeps limit m) (ground (arith, e)) (shmdt-Keeps limit m id pid h)
step-IsWithin limit m m' (syncs id content) h pos small next e =
    subst (Keeps limit m) (ground (arith, e)) (shm_sync-Keeps limit m id content h)

run-IsWithin :
    (limit : ℕ) (cs : List Call) (m m' : MemoryManager)
    → IsWithin limit m
    → 0 < limit
    → limit ≤ i64_half
    → m.next_shm_id + length cs < u64_mod
    → run m cs ≡ some m'
    → IsWithin limit m'
unfolding run
run-IsWithin limit [] m m' h pos small next e = subst (IsWithin limit) (ground (arith, e)) h
run-IsWithin limit (c ∷ cs) m m' h pos small next e = elim (Option-cases (step m c)) [
  | inl q ↦ let k : none ≡ some m' = rw (run, q) at e in absurd (ground (arith, k))
  | inr (n, q) ↦
      let (h', near) = step-IsWithin limit m n c h pos small (omega (arith, next)) q in
      run-IsWithin limit cs n m' h' pos small (omega (arith, next, near)) (rw (run, q) at e)
]

-- Under a system limit of 1 to 2^63 bytes, after any calls on a new manager, fewer than 2^64 - 1 of
-- them, and unless one of them panics: `total_allocated` is the sum of the segments' sizes and at most
-- the limit; each segment counts the processes attached to it, each of them once, and holds as many
-- bytes as its size; and the ids to come are free.
pub run-new_manager-IsWithin :
    (limit : ℕ) (cs : List Call) (m : MemoryManager)
    → 0 < limit
    → limit ≤ i64_half
    → length cs + 1 < u64_mod
    → run (new_manager limit) cs ≡ some m
    → IsWithin limit m
unfolding new_manager
run-new_manager-IsWithin limit cs m pos small few e =
    run-IsWithin limit cs (new_manager limit) m (new_manager-IsWithin limit) pos small
      (omega (arith, few)) e
