-- ===== src/Kernel/Memory/Shared/Within.antt =====
-- The segments in order, and their bytes within the limit.
use axebergos.Prelude.{
  ℕ, ◌+◌, ◌-◌, ◌≤◌, ◌≡◌, refl, ◌==◌, number_key, List, none, some, inl, inr, length, Bool-cases,
  Option-cases, arith,
}
use axebergos.Prelude.Table
use axebergos.Prelude.Table.{Table, get-insert, get-remove}
use axebergos.Prelude.Totals.{
  total_of, HasDistinctKeys, HasDistinctKeys-insert, HasDistinctKeys-remove, total_of-insert_old,
  total_of-remove,
}
use axebergos.Kernel.Memory.Shared.{
  SharedMemory, attach, detach, MemoryManager, new_manager, shmat, shmdt, shm_sync,
}
use axebergos.Kernel.Memory.Shared.Segments.{IsSegment, attach-IsSegment, detach-IsSegment}

-- The bytes of a segment.
abbrev pub size_of : SharedMemory → ℕ
size_of shm = shm.size

-- The segments are in order, and their bytes are within the limit.
pub record IsWithin (limit : ℕ) (m : MemoryManager) : Type 0 where
  pub limited : m.system_limit ≡ limit
  pub totalled : m.total_allocated ≡ total_of size_of m.shared_segments
  pub bounded : m.total_allocated ≤ limit
  pub distinct : HasDistinctKeys m.shared_segments
  pub segments :
      (id : ℕ) (shm : SharedMemory) → Table.get id m.shared_segments ≡ some shm → IsSegment shm
  pub fresh : (id : ℕ) → m.next_shm_id ≤ id → Table.get id m.shared_segments ≡ none

pub new_manager-IsWithin : (limit : ℕ) → IsWithin limit (new_manager limit)
unfolding new_manager total_of Table.get
new_manager-IsWithin limit = record {
  limited = refl;
  totalled = refl;
  bounded = omega arith;
  distinct = tt;
  segments = λ id shm e. ground (arith, e);
  fresh = λ id n. refl;
}

-- A segment changes and keeps its size.
pub update-IsWithin :
    (limit : ℕ) (m : MemoryManager) (id : ℕ) (shm shm' : SharedMemory)
    → IsWithin limit m
    → Table.get id m.shared_segments ≡ some shm
    → IsSegment shm'
    → shm'.size ≡ shm.size
    → IsWithin limit (record m { shared_segments = Table.insert id shm' m.shared_segments })
update-IsWithin limit m id shm shm' h e s same =
    let kept = total_of-insert_old size_of id shm' shm m.shared_segments e in
    record {
      limited = h.limited;
      totalled = omega (arith, h.totalled, kept, same);
      bounded = h.bounded;
      distinct = HasDistinctKeys-insert id shm' m.shared_segments h.distinct;
      segments = λ i t g. elim (Bool-cases (id == i)) [
        | inl q ↦
            let is : shm' ≡ t = ground (arith, g, q, get-insert id i shm' m.shared_segments) in
            rw⁻¹ is s
        | inr q ↦ h.segments i t (ground (arith, g, q, get-insert id i shm' m.shared_segments))
      ];
      fresh = λ i n. ground (arith, e, h.fresh i n, get-insert id i shm' m.shared_segments);
    }

-- A segment goes.
pub remove-IsWithin :
    (limit : ℕ) (m : MemoryManager) (id : ℕ) (shm : SharedMemory)
    → IsWithin limit m
    → Table.get id m.shared_segments ≡ some shm
    → IsWithin limit (record m {
      shared_segments = Table.remove id m.shared_segments;
      total_allocated = m.total_allocated - shm.size;
    })
remove-IsWithin limit m id shm h e =
    let less = total_of-remove size_of id shm m.shared_segments h.distinct e in
    record {
      limited = h.limited;
      totalled = omega (arith, h.totalled, less);
      bounded = omega (arith, h.bounded);
      distinct = HasDistinctKeys-remove id m.shared_segments h.distinct;
      segments = λ i t g. h.segments i t (ground (arith, g, get-remove id i m.shared_segments));
      fresh = λ i n. ground (arith, h.fresh i n, get-remove id i m.shared_segments);
    }

pub region-IsWithin :
    (limit n : ℕ) (m : MemoryManager)
    → IsWithin limit m
    → IsWithin limit (record m { next_region_id = n })
region-IsWithin limit n m h = record {
  limited = h.limited;
  totalled = h.totalled;
  bounded = h.bounded;
  distinct = h.distinct;
  segments = h.segments;
  fresh = h.fresh;
}

attach_size : (shm : SharedMemory) (pid : ℕ) → (attach shm pid).size ≡ shm.size
unfolding attach
attach_size shm pid = ground arith

detach_size : (shm : SharedMemory) (pid : ℕ) → (detach shm pid).0.size ≡ shm.size
unfolding detach
detach_size shm pid = ground arith

-- What a call leaves: the segments in order, and the next id.
abbrev pub Keeps : ℕ → MemoryManager → MemoryManager → Type 0
Keeps limit m m' = IsWithin limit m' × (m'.next_shm_id ≤ m.next_shm_id + 1)

pub shmat-Keeps :
    (limit : ℕ) (m : MemoryManager) (id pid : ℕ)
    → IsWithin limit m
    → Keeps limit m (shmat m id pid).0
unfolding shmat
shmat-Keeps limit m id pid h = elim (Option-cases (Table.get id m.shared_segments)) [
  | inl e ↦ rw (shmat, e) (region-IsWithin limit _ m h, omega arith)
  | inr (shm, e) ↦
      rw (shmat, e)
        (
          region-IsWithin limit _
              (record m { shared_segments = Table.insert id (attach shm pid) m.shared_segments })
              (update-IsWithin limit m id shm (attach shm pid) h e
                (attach-IsSegment shm pid (h.segments id shm e)) (attach_size shm pid)),
          omega arith,
        )
]

pub shmdt-Keeps :
    (limit : ℕ) (m : MemoryManager) (id pid : ℕ)
    → IsWithin limit m
    → Keeps limit m (shmdt m id pid).0
unfolding shmdt
shmdt-Keeps limit m id pid h = elim (Option-cases (Table.get id m.shared_segments)) [
  | inl e ↦ simp (shmdt, e) (h, omega arith)
  | inr (shm, e) ↦ elim (Bool-cases (detach shm pid).1) [
    | inl gone ↦ rw (shmdt, e, gone) (remove-IsWithin limit m id shm h e, omega arith)
    | inr stays ↦
        rw (shmdt, e, stays)
          (
            update-IsWithin limit m id shm (detach shm pid).0 h e
                (detach-IsSegment shm pid (h.segments id shm e)) (detach_size shm pid),
            omega arith,
          )
  ]
]

pub shm_sync-Keeps :
    (limit : ℕ) (m : MemoryManager) (id : ℕ) (content : List ℕ)
    → IsWithin limit m
    → Keeps limit m (shm_sync m id content).0
unfolding shm_sync
shm_sync-Keeps limit m id content h = elim (Option-cases (Table.get id m.shared_segments)) [
  | inl e ↦ simp (shm_sync, e) (h, omega arith)
  | inr (shm, e) ↦ elim (Bool-cases (length content == shm.size)) [
    | inr q ↦ simp (shm_sync, e, q) (h, omega arith)
    | inl q ↦
        let was = h.segments id shm e in
        rw (shm_sync, e, q)
          (
            update-IsWithin limit m id shm (record shm { bytes = content }) h e
                (record { counted = was.counted; once = was.once; sized = ground (arith, q) }) refl,
            omega arith,
          )
  ]
]
