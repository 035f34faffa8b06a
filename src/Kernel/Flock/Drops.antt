-- ===== src/Kernel/Flock/Drops.antt =====
-- What is left of a path's locks when some are dropped.
use Prim.Native.String.{String}
use axebergos.Prelude.{
  ℕ, ◌≡◌, refl, Bool, not, ◌==◌, number_key, text_key, List, [], ◌∷◌, Option, none, some, inl, inr,
  if◌then◌else◌, filter, Option-cases, map_option, arith,
}
use axebergos.Prelude.Table
use axebergos.Prelude.Table.{Table, get-insert, get-remove, get-retain, get-map_values, keep_if}
use axebergos.Kernel.Flock.{
  RangeLock, FileLockManager, locks_of, is_nonempty, stays, drop_ranges, drop_all_ranges,
  release_all,
}
use axebergos.Kernel.Flock.Whole.{file_locks_of, others, retain_or_remove_locks}
use axebergos.Kernel.Flock.Ranges.{range_locks_of}

first_nonempty {ℓ} : {A : Type ℓ} (xs : List A) → locks_of (keep_if is_nonempty (some xs)) ≡ xs
first_nonempty [] = refl
first_nonempty (x ∷ xs) = refl

kept_locks {ℓ} :
    {A : Type ℓ} (p : A → Bool) (o : Option (List A))
    → locks_of (keep_if is_nonempty (map_option (filter p) o)) ≡ filter p (locks_of o)
kept_locks p none = refl
kept_locks p (some ls) = first_nonempty (filter p ls)

pub release_all_files :
    (m : FileLockManager) (pid : ℕ) (path : String)
    → file_locks_of (release_all m pid) path ≡ others pid (file_locks_of m path)
unfolding release_all
release_all_files m pid path =
    rw (get-retain, get-map_values)
      (kept_locks (λ l. not (l.pid == pid)) (Table.get path m.file_locks))

-- A path's range locks without those of a process.
abbrev pub other_ranges : ℕ → List RangeLock → List RangeLock
other_ranges pid ls = filter (λ l. not (l.pid == pid)) ls

pub release_all_ranges :
    (m : FileLockManager) (pid : ℕ) (path : String)
    → range_locks_of (release_all m pid) path ≡ other_ranges pid (range_locks_of m path)
unfolding release_all
release_all_ranges m pid path =
    rw (get-retain, get-map_values)
      (kept_locks (λ l. not (l.pid == pid)) (Table.get path m.range_locks))

pub drop_all_ranges_locks :
    (m : FileLockManager) (path other : String) (pid : ℕ)
    → range_locks_of (drop_all_ranges m path pid) other ≡ (
        if path == other then other_ranges pid (range_locks_of m other) else range_locks_of m other)
unfolding drop_all_ranges
drop_all_ranges_locks m path other pid = elim (Option-cases (Table.get path m.range_locks)) [
  | inl e ↦ ground (arith, text_key.same_iff path other)
  | inr (ls, e) ↦ ground (
    arith,
    text_key.same_iff path other,
    retain_or_remove_locks path other (other_ranges pid ls) m.range_locks,
  )
]

pub drop_ranges_locks :
    (m : FileLockManager) (path other : String) (pid : ℕ) (lock : RangeLock)
    → range_locks_of (drop_ranges m path pid lock) other ≡ (
        if path == other
        then filter (stays pid lock) (range_locks_of m other)
        else range_locks_of m other)
unfolding drop_ranges
drop_ranges_locks m path other pid lock = elim (Option-cases (Table.get path m.range_locks)) [
  | inl e ↦ ground (arith, text_key.same_iff path other)
  | inr (ls, e) ↦ ground (
    arith,
    text_key.same_iff path other,
    retain_or_remove_locks path other (filter (stays pid lock) ls) m.range_locks,
  )
]

-- What a process that exits leaves: on every path, the locks of the others, in order.
pub release_all_lem :
    (m : FileLockManager) (pid : ℕ) (path : String)
    → (file_locks_of (release_all m pid) path ≡ others pid (file_locks_of m path))
      × (range_locks_of (release_all m pid) path ≡ other_ranges pid (range_locks_of m path))
release_all_lem m pid path = (release_all_files m pid path, release_all_ranges m pid path)
