-- ===== src/Kernel/Memory/Shared.antt =====
-- kernel/memory.rs, `SharedMemory` and `MemoryManager`: shared segments, and the processes attached to
-- them. usize has 64 bits; a vector of 2^63 bytes panics, which is `none`.
pub mod Segments
pub mod Within
pub mod History
mod Tests
use axebergos.Prelude.{
  ℕ, suc, ◌+◌, ◌-◌, ◌%◌, Bool, true, false, not, ◌&&◌, ◌==◌, number_key, List, [], ◌∷◌, ◌++◌,
  Option, none, some, Result, ok, err, ltb, leb, if◌then◌else◌, length, replicate,
}
use axebergos.Prelude.Words.{u64_mod, i64_half}
use axebergos.Prelude.Table
use axebergos.Prelude.Table.{Table}

pub data MemoryError : Type 0 where
  out_of_memory invalid_region permission_denied out_of_bounds : MemoryError
  shm_not_found already_attached not_attached invalid_size : MemoryError

pub record SharedMemory : Type 0 where
  pub id : ℕ
  pub size : ℕ
  pub bytes : List ℕ
  pub attached : List ℕ
  pub creator : ℕ
  pub refcount : ℕ

unfoldable pub is_attached : ℕ → List ℕ → Bool
is_attached pid [] = false
is_attached pid (p ∷ ps) = if p == pid then true else is_attached pid ps

-- `position` and `remove`: the first that is `pid` goes.
unfoldable pub remove_first : ℕ → List ℕ → List ℕ
remove_first pid [] = []
remove_first pid (p ∷ ps) = let rest = remove_first pid ps in if p == pid then ps else p ∷ rest

unfoldable pub attach : SharedMemory → ℕ → SharedMemory
unfolding is_attached
attach shm pid =
    if is_attached pid shm.attached
    then shm
    else record shm { attached = shm.attached ++ pid ∷ []; refcount = shm.refcount + 1 }

unfoldable pub detach : SharedMemory → ℕ → SharedMemory × Bool
unfolding is_attached remove_first
detach shm pid =
    let shm' : SharedMemory =
      if is_attached pid shm.attached
      then record shm { attached = remove_first pid shm.attached; refcount = shm.refcount - 1 }
      else shm in
    (shm', shm'.refcount == 0)

pub record MemoryManager : Type 0 where
  pub next_region_id : ℕ
  pub next_shm_id : ℕ
  pub shared_segments : Table ℕ SharedMemory
  pub system_limit : ℕ
  pub total_allocated : ℕ

-- `new`, and then `set_system_limit`.
unfoldable pub new_manager : ℕ → MemoryManager
new_manager limit = record {
  next_region_id = 1;
  next_shm_id = 1;
  shared_segments = [];
  system_limit = limit;
  total_allocated = 0;
}

unfoldable pub shmget : MemoryManager → ℕ → ℕ → Option (MemoryManager × Result ℕ MemoryError)
shmget m size creator =
    let total = (m.total_allocated + size) % u64_mod in
    if size == 0
    then some (m, err invalid_size)
    else if ltb 0 m.system_limit && ltb m.system_limit total
    then some (m, err out_of_memory)
    else if leb i64_half size
    then none
    else let id = m.next_shm_id in
      let shm : SharedMemory = record {
        id = id;
        size = size;
        bytes = replicate size 0;
        attached = [];
        creator = creator;
        refcount = 0;
      } in
      some (
        record m {
          next_shm_id = (id + 1) % u64_mod;
          shared_segments = Table.insert id shm m.shared_segments;
          total_allocated = total;
        },
        ok id,
      )

-- The id of the region, and the bytes that `MemoryRegion::from_shared` makes it of.
unfoldable pub shmat : MemoryManager → ℕ → ℕ → MemoryManager × Result (ℕ × List ℕ) MemoryError
unfolding attach
shmat m shm_id pid =
    let region_id = m.next_region_id in
    let m' : MemoryManager = record m { next_region_id = (region_id + 1) % u64_mod } in
    elim (Table.get shm_id m.shared_segments) [
      | none ↦ (m', err shm_not_found)
      | some shm ↦ (
        record m' { shared_segments = Table.insert shm_id (attach shm pid) m.shared_segments },
        ok (region_id, shm.bytes),
      )
    ]

unfoldable pub shmdt : MemoryManager → ℕ → ℕ → MemoryManager × Result Bool MemoryError
unfolding detach
shmdt m shm_id pid = elim (Table.get shm_id m.shared_segments) [
  | none ↦ (m, err shm_not_found)
  | some shm ↦
      let (shm', should_remove) = detach shm pid in
      (
        if should_remove
            then record m {
              shared_segments = Table.remove shm_id m.shared_segments;
              total_allocated = m.total_allocated - shm.size;
            }
            else record m { shared_segments = Table.insert shm_id shm' m.shared_segments },
        ok should_remove,
      )
]

unfoldable pub shm_sync :
    MemoryManager → ℕ → List ℕ → MemoryManager × Result {0, 0} Unit MemoryError
shm_sync m shm_id content = elim (Table.get shm_id m.shared_segments) [
  | none ↦ (m, err shm_not_found)
  | some shm ↦ if not (length content == shm.size) then (m, err invalid_size) else (
    record m {
      shared_segments = Table.insert shm_id (record shm { bytes = content }) m.shared_segments;
    },
    ok tt,
  )
]
