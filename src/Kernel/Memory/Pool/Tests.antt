-- ===== src/Kernel/Memory/Pool/Tests.antt =====
-- A run of a pool, and its theorem at a concrete input.
use axebergos.Prelude.{◌≡◌, refl, List, [], ◌∷◌, some, false, replicate, arith}
use axebergos.Kernel.Memory.Pool
use axebergos.Kernel.Memory.Pool.{MemoryPool, new_pool, alloc, free}
use axebergos.Kernel.Object.File.{copy_at}
use axebergos.Kernel.Memory.Pool.History.{
  Call, allocs, frees, writes, run, step, Allots, run-new_pool-Allots,
}

-- Two objects of 4 bytes.
abbrev pair_pool : MemoryPool
pair_pool = record {
  id = 1;
  object_size = 4;
  capacity = 2;
  bytes = replicate 8 0;
  allocated = false ∷ false ∷ [];
  alloc_count = 0;
  free_list = 0 ∷ 1 ∷ [];
}

new_pair_pool : new_pool 1 4 2 ≡ some pair_pool
unfolding new_pool
new_pair_pool = refl

abbrev calls : List Call
calls = allocs ∷ allocs ∷ writes 5 (7 ∷ 8 ∷ []) ∷ frees 4 ∷ frees 4 ∷ []

second_again : (alloc (run pair_pool calls)).1 ≡ some 4
unfolding run step alloc free copy_at Pool.write
second_again = refl

run-new_pool-Allots_example : Allots (run pair_pool calls)
run-new_pool-Allots_example = run-new_pool-Allots calls 1 4 2 pair_pool new_pair_pool (omega arith)
