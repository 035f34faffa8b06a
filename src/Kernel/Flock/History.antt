-- ===== src/Kernel/Flock/History.antt =====
-- Mutual exclusion over any history of calls, for whole files and for every byte of a range.
use Prim.Native.String.{String}
use axebergos.Prelude.{
  ℕ, ◌≡◌, ◌≢◌, refl, Bool, ◌==◌, number_key, text_key, List, [], ◌∷◌, inl, inr, All, Bool-cases,
  arith,
}
use axebergos.Prelude.Table
use axebergos.Prelude.Table.{Table, get-insert, get-remove, get-retain, get-map_values, keep_if}
use axebergos.Kernel.Flock.{
  LockType, unlock, shared, exclusive, RangeLock, FileLockManager, new_manager, stays, drop_file,
  add_file, flock, drop_ranges, drop_all_ranges, add_range, set_range, fcntl_lock, range_conflict,
  release_all, release_file, file_conflict,
}
use axebergos.Kernel.Flock.Whole.{
  file_locks_of, file_conflict-false, drop_file_locks, add_file_locks, flock-request,
}
use axebergos.Kernel.Flock.Ranges.{IsFit, range_locks_of, unblocked-range_conflict, add_range_locks}
use axebergos.Kernel.Flock.Drops.{
  release_all_files, release_all_ranges, drop_all_ranges_locks, drop_ranges_locks,
}
use axebergos.Kernel.Flock.Exclusion.{
  IsFileSafe, IsRangeSafe, IsSafe, IsFileSafe-others, IsRangeSafe-filter, IsFileSafe-add,
  IsRangeSafe-add,
}

-- The calls that change the manager.
pub data Call : Type 0 where
  locks : String → ℕ → LockType → Bool → Call
  locks_range : String → ℕ → RangeLock → Bool → Call
  exits : ℕ → Call
  closes : String → ℕ → Call

-- A range lock names the process that asks for it, and offsets whose end is a u64.
abbrev pub IsValid : Call → Type 0
IsValid (locks path pid t blocking) = Unit
IsValid (locks_range path pid lock blocking) = (lock.pid ≡ pid) × IsFit lock
IsValid (exits pid) = Unit
IsValid (closes path pid) = Unit

unfoldable pub step : FileLockManager → Call → FileLockManager
step m (locks path pid t blocking) = (flock m path pid t blocking).0
step m (locks_range path pid lock blocking) = (fcntl_lock m path pid lock blocking).0
step m (exits pid) = release_all m pid
step m (closes path pid) = release_file m path pid

unfoldable pub run : FileLockManager → List Call → FileLockManager
run m [] = m
run m (c ∷ cs) = run (step m c) cs

abbrev FilesSafe : FileLockManager → Type 0
FilesSafe m = (path : String) → IsFileSafe (file_locks_of m path)

abbrev RangesSafe : FileLockManager → Type 0
RangesSafe m = (path : String) → IsRangeSafe (range_locks_of m path)

drop_file-FilesSafe :
    (m : FileLockManager) (path : String) (pid : ℕ) → FilesSafe m → FilesSafe (drop_file m path pid)
drop_file-FilesSafe m path pid s other =
    rw (drop_file_locks m path other pid) (elim (Bool-cases (path == other)) [
      | inl e ↦ rw e (IsFileSafe-others pid (file_locks_of m other) (s other))
      | inr e ↦ rw e (s other)
    ])

request-FilesSafe :
    (m : FileLockManager) (path : String) (pid : ℕ) (t : LockType) (blocking : Bool)
    → t ≢ unlock
    → FilesSafe m
    → FilesSafe (flock m path pid t blocking).0
request-FilesSafe m path pid t blocking n s other =
    rw (flock-request m path pid t blocking n)
      (elim (Bool-cases (file_conflict pid t (file_locks_of m path))) [
        | inl e ↦ rw e (s other)
        | inr e ↦
            rw (e, add_file_locks m path other pid t)
              (elim (Bool-cases (path == other)) [
                | inl d ↦ rw d (
                    IsFileSafe-add pid t (file_locks_of m path) n (s path)
                      ((file_conflict-false pid t (file_locks_of m path)).0 e))
                | inr d ↦ rw d (s other)
              ])
      ])

flock-FilesSafe :
    (m : FileLockManager) (path : String) (pid : ℕ) (t : LockType) (blocking : Bool)
    → FilesSafe m
    → FilesSafe (flock m path pid t blocking).0
unfolding flock
flock-FilesSafe m path pid unlock blocking s = drop_file-FilesSafe m path pid s
flock-FilesSafe m path pid shared blocking s =
    request-FilesSafe m path pid shared blocking (λ e. cc) s
flock-FilesSafe m path pid exclusive blocking s =
    request-FilesSafe m path pid exclusive blocking (λ e. cc) s

drop_ranges-RangesSafe :
    (m : FileLockManager) (path : String) (pid : ℕ) (lock : RangeLock)
    → RangesSafe m
    → RangesSafe (drop_ranges m path pid lock)
drop_ranges-RangesSafe m path pid lock s other =
    rw (drop_ranges_locks m path other pid lock) (elim (Bool-cases (path == other)) [
      | inl e ↦ rw e (IsRangeSafe-filter (stays pid lock) (range_locks_of m other) (s other))
      | inr e ↦ rw e (s other)
    ])

All-IsFit : (ls : List RangeLock) → All (λ l. IsFit l × (l.lock_type ≢ unlock)) ls → All IsFit ls
All-IsFit [] a = tt
All-IsFit (l ∷ ls) a = (a.0.0, All-IsFit ls a.1)

set_range-RangesSafe :
    (m : FileLockManager) (path : String) (pid : ℕ) (lock : RangeLock)
    → lock.lock_type ≢ unlock
    → lock.pid ≡ pid
    → IsFit lock
    → RangesSafe m
    → RangesSafe (set_range m path pid lock).0
unfolding set_range
set_range-RangesSafe m path pid lock n own fit s other =
    elim (Bool-cases (range_conflict pid lock (range_locks_of m path))) [
      | inl e ↦ rw (e, set_range) (s other)
      | inr e ↦
          rw (e, set_range)
            (rw (add_range_locks m path other pid lock) (elim (Bool-cases (path == other)) [
              | inl d ↦ rw d (
                  IsRangeSafe-add pid lock (range_locks_of m path) own fit n (s path) (
                    (unblocked-range_conflict pid lock (range_locks_of m path) fit
                        (All-IsFit (range_locks_of m path) (s path).1)).0
                      e))
              | inr d ↦ rw d (s other)
            ]))
    ]

fcntl_lock-RangesSafe :
    (m : FileLockManager) (path : String) (pid : ℕ) (lock : RangeLock) (blocking : Bool)
    (t : LockType)
    → lock.lock_type ≡ t
    → lock.pid ≡ pid
    → IsFit lock
    → RangesSafe m
    → RangesSafe (fcntl_lock m path pid lock blocking).0
unfolding fcntl_lock
fcntl_lock-RangesSafe m path pid lock blocking unlock e own fit s =
    rw (e, fcntl_lock) (drop_ranges-RangesSafe m path pid lock s)
fcntl_lock-RangesSafe m path pid lock blocking shared e own fit s =
    rw (e, fcntl_lock) (set_range-RangesSafe m path pid lock (λ u. cc) own fit s)
fcntl_lock-RangesSafe m path pid lock blocking exclusive e own fit s =
    rw (e, fcntl_lock) (set_range-RangesSafe m path pid lock (λ u. cc) own fit s)

flock-range_locks :
    (m : FileLockManager) (path : String) (pid : ℕ) (t : LockType) (blocking : Bool)
    → (flock m path pid t blocking).0.range_locks ≡ m.range_locks
unfolding flock drop_file add_file
flock-range_locks m path pid unlock blocking = ground arith
flock-range_locks m path pid shared blocking = ground arith
flock-range_locks m path pid exclusive blocking = ground arith

fcntl_lock-file_locks :
    (m : FileLockManager) (path : String) (pid : ℕ) (lock : RangeLock) (blocking : Bool)
    → (fcntl_lock m path pid lock blocking).0.file_locks ≡ m.file_locks
unfolding fcntl_lock drop_ranges set_range add_range
fcntl_lock-file_locks m path pid lock blocking = ground arith

drop_file-range_locks :
    (m : FileLockManager) (path : String) (pid : ℕ)
    → (drop_file m path pid).range_locks ≡ m.range_locks
unfolding drop_file
drop_file-range_locks m path pid = ground arith

drop_all_ranges-file_locks :
    (m : FileLockManager) (path : String) (pid : ℕ)
    → (drop_all_ranges m path pid).file_locks ≡ m.file_locks
unfolding drop_all_ranges
drop_all_ranges-file_locks m path pid = ground arith

step-IsSafe : (m : FileLockManager) (c : Call) → IsValid c → IsSafe m → IsSafe (step m c)
unfolding step release_file
step-IsSafe m (locks path pid t blocking) v s other = (
  flock-FilesSafe m path pid t blocking (λ p. (s p).0) other,
  rw (flock-range_locks m path pid t blocking) (s other).1,
)
step-IsSafe m (locks_range path pid lock blocking) v s other = (
  rw (fcntl_lock-file_locks m path pid lock blocking) (s other).0,
  fcntl_lock-RangesSafe m path pid lock blocking lock.lock_type refl v.0 v.1 (λ p. (s p).1) other,
)
step-IsSafe m (exits pid) v s other = (
  rw (release_all_files m pid other) (IsFileSafe-others pid (file_locks_of m other) (s other).0),
  rw (release_all_ranges m pid other) (IsRangeSafe-filter _ (range_locks_of m other) (s other).1),
)
step-IsSafe m (closes path pid) v s other = (
  rw (drop_all_ranges-file_locks (drop_file m path pid) path pid)
      (drop_file-FilesSafe m path pid (λ p. (s p).0) other),
  rw (drop_all_ranges_locks (drop_file m path pid) path other pid, drop_file-range_locks m path pid)
      (elim (Bool-cases (path == other)) [
        | inl e ↦ rw e (IsRangeSafe-filter _ (range_locks_of m other) (s other).1)
        | inr e ↦ rw e (s other).1
      ]),
)

run-IsSafe : (cs : List Call) (m : FileLockManager) → All IsValid cs → IsSafe m → IsSafe (run m cs)
unfolding run
run-IsSafe [] m v s = s
run-IsSafe (c ∷ cs) m v s = run-IsSafe cs (step m c) v.1 (step-IsSafe m c v.0 s)

-- After any valid calls on a new manager, on every path: any two whole-file locks are of two
-- processes and both shared, and so are any two range locks at each byte that both cover. So an
-- exclusive lock stands alone.
pub run-new_manager-IsSafe : (cs : List Call) → All IsValid cs → IsSafe (run new_manager cs)
unfolding new_manager Table.get
run-new_manager-IsSafe cs v = run-IsSafe cs new_manager v (λ path. ((tt, tt), (tt, tt)))
