-- ===== src/Kernel/Memory/Cow/Tests.antt =====
-- Runs of memories in pages, and their theorem at a concrete input.
use axebergos.Prelude.{◌≡◌, refl, List, [], ◌∷◌}
use axebergos.Kernel.Object.File.{copy_at}
use axebergos.Kernel.Memory.Cow.{
  new, new_pages, new_frame, zero_page, write, write_loop, write_page, is_shared, drop_frame,
  cow_clone, clone_pages, clone_frame, read, read_loop, read_page, drop_pages,
}
use axebergos.Kernel.Memory.Cow.Refinement.{run-empty_world}
use axebergos.Kernel.Memory.Cow.Requests.{
  Request, creates, forks, writes, reads, drops, run, step, flat_run, empty_world, done, found,
  written,
}

-- A memory of two pages, a clone that writes over the border between them, and a read of both.
abbrev requests : List Request
requests =
    creates 5000
    ∷ writes 0 4094 (1 ∷ 2 ∷ 3 ∷ 4 ∷ [])
    ∷ forks 0
    ∷ writes 1 4095 (8 ∷ 9 ∷ [])
    ∷ reads 0 4094 4
    ∷ drops 0
    ∷ writes 1 4999 (7 ∷ 7 ∷ [])
    ∷ reads 1 4094 4
    ∷ []

run-empty_world_example : run empty_world requests ≡ flat_run [] requests
run-empty_world_example = run-empty_world requests

answers :
    run empty_world requests
    ≡ done
      ∷ written 4
      ∷ done
      ∷ written 2
      ∷ found (1 ∷ 2 ∷ 3 ∷ 4 ∷ [])
      ∷ done
      ∷ written 1
      ∷ found (1 ∷ 8 ∷ 9 ∷ 4 ∷ [])
      ∷ []
unfolding run step new new_pages new_frame zero_page write write_loop write_page copy_at is_shared
    drop_frame cow_clone clone_pages clone_frame read read_loop read_page drop_pages
answers = refl
