-- ===== src/Kernel/Memory/Shared/Tests.antt =====
-- A run of the shared segments, and its theorem at a concrete input.
use axebergos.Prelude.{◌≡◌, refl, List, [], ◌∷◌, some, arith}
use axebergos.Prelude.Table
use axebergos.Kernel.Memory.Shared.{MemoryManager, new_manager, shmget, shmat, shmdt, shm_sync}
use axebergos.Kernel.Memory.Shared.Within.{IsWithin}
use axebergos.Kernel.Memory.Shared.History.{
  Call, gets, attaches, detaches, syncs, run, step, run-new_manager-IsWithin,
}

-- The third segment is over the limit; the first goes with its last process.
abbrev calls : List Call
calls =
    gets 3 7
    ∷ gets 2 8
    ∷ gets 4 7
    ∷ attaches 1 7
    ∷ attaches 1 8
    ∷ attaches 1 8
    ∷ attaches 2 9
    ∷ syncs 2 (5 ∷ 6 ∷ [])
    ∷ detaches 1 8
    ∷ detaches 1 7
    ∷ []

abbrev left : MemoryManager
left = record {
  next_region_id = 5;
  next_shm_id = 3;
  shared_segments =
      (
        2,
        record {
          id = 2;
          size = 2;
          bytes = 5 ∷ 6 ∷ [];
          attached = 9 ∷ [];
          creator = 8;
          refcount = 1;
        },
      )
      ∷ [];
  system_limit = 8;
  total_allocated = 2;
}

run-calls : run (new_manager 8) calls ≡ some left
unfolding run step new_manager shmget shmat shmdt shm_sync Table.get Table.insert Table.remove
run-calls = refl

run-new_manager-IsWithin_example : IsWithin 8 left
run-new_manager-IsWithin_example =
    run-new_manager-IsWithin 8 calls left (omega arith) (omega arith) (omega arith) run-calls
