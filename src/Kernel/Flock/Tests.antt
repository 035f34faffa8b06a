-- ===== src/Kernel/Flock/Tests.antt =====
-- Runs of the lock manager, and its theorems at concrete inputs.
use Prim.Native.String.{String}
use axebergos.Prelude.{
  ℕ, ◌≡◌, ◌≢◌, refl, true, false, [], ◌∷◌, ◌++◌, none, ok, err, ◌⊎◌, ◌↔◌, All, arith, text_key,
}
use axebergos.Prelude.Table
use axebergos.Kernel.Flock.{
  shared, exclusive, RangeLock, FileLockManager, would_block, new_manager, flock, fcntl_lock,
  get_lock, release_all, ranges_overlap, range_conflict, set_range,
}
use axebergos.Kernel.Flock.Whole.{Blocks, file_locks_of, others, flock_cases}
use axebergos.Kernel.Flock.Ranges
use axebergos.Kernel.Flock.Ranges.{IsFit, Covers, range_locks_of, ranges_overlap_iff, get_lock-none}
use axebergos.Kernel.Flock.Grants.{IsFcntlLock, fcntl_lock_cases}
use axebergos.Kernel.Flock.Drops.{other_ranges, release_all_lem}
use axebergos.Kernel.Flock.Exclusion.{IsSafe}
use axebergos.Kernel.Flock.History.{locks, locks_range, run, run-new_manager-IsSafe}

abbrev low : RangeLock
low = record { pid = 1; lock_type = exclusive; start = 0; len = 10; whence = 0 }

abbrev rest_of_file : RangeLock
rest_of_file = record { pid = 2; lock_type = shared; start = 9; len = 0; whence = 0 }

abbrev held : FileLockManager
held = record {
  file_locks = ("f", record { pid = 1; lock_type = shared } ∷ []) ∷ [];
  range_locks = ("f", low ∷ []) ∷ [];
}

refused : (fcntl_lock held "f" 2 rest_of_file false).1 ≡ err would_block
unfolding fcntl_lock set_range range_conflict ranges_overlap Table.get
refused = refl

ranges_overlap_iff_example :
    (ranges_overlap low rest_of_file ≡ true) ↔ ((n : ℕ) × Covers low n × Covers rest_of_file n)
ranges_overlap_iff_example = ranges_overlap_iff low rest_of_file (omega arith) (omega arith)

flock_cases_example :
    (All (λ l. ¬ Blocks 2 exclusive l) (file_locks_of held "f")
      × ((flock held "f" 2 exclusive false).1 ≡ ok tt)
      × (file_locks_of (flock held "f" 2 exclusive false).0 "f"
          ≡ others 2 (file_locks_of held "f") ++ record { pid = 2; lock_type = exclusive } ∷ [])
      × ((other : String)
          → "f" ≢ other
          → file_locks_of (flock held "f" 2 exclusive false).0 other ≡ file_locks_of held other))
    ⊎ (¬ All (λ l. ¬ Blocks 2 exclusive l) (file_locks_of held "f")
        × (flock held "f" 2 exclusive false ≡ (held, err would_block)))
flock_cases_example = flock_cases held "f" 2 exclusive false (λ e. cc)

get_lock-none_example :
    (get_lock held "f" 2 rest_of_file ≡ none)
    ↔ All (λ l. ¬ Ranges.Blocks 2 rest_of_file l) (range_locks_of held "f")
unfolding Table.get
get_lock-none_example = get_lock-none held "f" 2 rest_of_file (omega arith) (omega arith)

fcntl_lock_cases_example :
    IsFcntlLock held "f" 2 rest_of_file (fcntl_lock held "f" 2 rest_of_file false)
unfolding Table.get
fcntl_lock_cases_example =
    fcntl_lock_cases held "f" 2 rest_of_file false (omega arith) (omega arith)

release_all_lem_example :
    (file_locks_of (release_all held 1) "f" ≡ others 1 (file_locks_of held "f"))
    × (range_locks_of (release_all held 1) "f" ≡ other_ranges 1 (range_locks_of held "f"))
release_all_lem_example = release_all_lem held 1 "f"

run-new_manager-IsSafe_example : IsSafe (
    run new_manager
      (locks "f" 1 shared false ∷ locks_range "f" 1 low false ∷ locks "f" 2 exclusive false ∷ []))
run-new_manager-IsSafe_example =
    run-new_manager-IsSafe
      (locks "f" 1 shared false ∷ locks_range "f" 1 low false ∷ locks "f" 2 exclusive false ∷ [])
      (tt, ((refl, omega arith), (tt, tt)))
