-- ===== src/Kernel/Flock.antt =====
-- kernel/flock.rs: advisory locks on whole files and on byte ranges, by path. Offsets are u64, and
-- an end wraps as in the release build. The flag `blocking` is not read by the code.
pub mod Whole
pub mod Ranges
pub mod Exclusion
pub mod Drops
pub mod Grants
pub mod History
mod Tests
use Prim.Native.String.{String}
use axebergos.Prelude.{
  ℕ, ◌+◌, ◌-◌, ◌%◌, Bool, true, false, not, ◌&&◌, ◌||◌, ◌==◌, number_key, text_key, List, [], ◌∷◌,
  ◌++◌, Option, none, some, Result, ok, err, if◌then◌else◌, ltb, filter,
}
use axebergos.Prelude.Words.{u64_mod}
use axebergos.Prelude.Table
use axebergos.Prelude.Table.{Table}

pub data LockType : Type 0 where
  unlock shared exclusive : LockType

pub record FileLock : Type 0 where
  pub pid : ℕ
  pub lock_type : LockType

pub record RangeLock : Type 0 where
  pub pid : ℕ
  pub lock_type : LockType
  pub start : ℕ
  pub len : ℕ
  pub whence : ℕ

pub data LockError : Type 0 where
  would_block invalid_argument deadlock : LockError

pub record FileLockManager : Type 0 where
  pub file_locks : Table String (List FileLock)
  pub range_locks : Table String (List RangeLock)

abbrev pub is_exclusive : LockType → Bool
is_exclusive unlock = false
is_exclusive shared = false
is_exclusive exclusive = true

unfoldable pub new_manager : FileLockManager
new_manager = record { file_locks = []; range_locks = [] }

-- `range.start + range.len` on u64, or u64::MAX.
abbrev pub range_end : RangeLock → ℕ
range_end l = if l.len == 0 then u64_mod - 1 else (l.start + l.len) % u64_mod

unfoldable pub ranges_overlap : RangeLock → RangeLock → Bool
ranges_overlap a b = ltb a.start (range_end b) && ltb b.start (range_end a)

-- The loop over the locks of a path in `flock`: does it return `WouldBlock`?
unfoldable pub file_conflict : ℕ → LockType → List FileLock → Bool
file_conflict pid lock_type [] = false
file_conflict pid lock_type (l ∷ ls) =
    let rest = file_conflict pid lock_type ls in
    if l.pid == pid
    then rest
    else if is_exclusive l.lock_type || is_exclusive lock_type
    then true
    else rest

-- `retain`, and removal of an entry that is left empty.
unfoldable pub retain_or_remove {ℓ} :
    {A : Type ℓ} → String → List A → Table String (List A) → Table String (List A)
retain_or_remove path [] m = Table.remove path m
retain_or_remove path (l ∷ ls) m = Table.insert path (l ∷ ls) m

-- What a path's locks are; a missing entry has none.
abbrev pub locks_of {ℓ} : {A : Type ℓ} → Option (List A) → List A
locks_of none = []
locks_of (some ls) = ls

-- The two ways that `flock` changes the table.
unfoldable pub drop_file : FileLockManager → String → ℕ → FileLockManager
unfolding retain_or_remove
drop_file m path pid = elim (Table.get path m.file_locks) [
  | none ↦ m
  | some locks ↦ record m {
    file_locks = retain_or_remove path (filter (λ l. not (l.pid == pid)) locks) m.file_locks;
  }
]

unfoldable pub add_file : FileLockManager → String → ℕ → LockType → FileLockManager
add_file m path pid lock_type = record m {
  file_locks =
      Table.insert path
        (filter (λ l. not (l.pid == pid)) (locks_of (Table.get path m.file_locks))
          ++ record { pid = pid; lock_type = lock_type } ∷ [])
        m.file_locks;
}

unfoldable pub flock :
    FileLockManager → String → ℕ → LockType → Bool → FileLockManager × Result (Unit {0}) LockError
flock m path pid unlock blocking = (drop_file m path pid, ok tt)
flock m path pid lock_type blocking =
    if file_conflict pid lock_type (locks_of (Table.get path m.file_locks))
    then (m, err would_block)
    else (add_file m path pid lock_type, ok tt)

-- The loop of `fcntl_lock` over the locks of a path: does it return `WouldBlock`?
unfoldable pub range_conflict : ℕ → RangeLock → List RangeLock → Bool
range_conflict pid lock [] = false
range_conflict pid lock (l ∷ ls) =
    let rest = range_conflict pid lock ls in
    if l.pid == pid
    then rest
    else if not (ranges_overlap l lock)
    then rest
    else if is_exclusive l.lock_type || is_exclusive lock.lock_type
    then true
    else rest

-- The loop of `get_lock`: the first lock of another process that stands in the way.
unfoldable pub first_conflict : ℕ → RangeLock → List RangeLock → Option RangeLock
first_conflict pid lock [] = none
first_conflict pid lock (l ∷ ls) =
    let rest = first_conflict pid lock ls in
    if l.pid == pid
    then rest
    else if not (ranges_overlap l lock)
    then rest
    else if is_exclusive l.lock_type || is_exclusive lock.lock_type
    then some l
    else rest

-- The closure of both calls of `retain` in `fcntl_lock`.
abbrev pub stays : ℕ → RangeLock → RangeLock → Bool
stays pid lock l = not (l.pid == pid) || not (ranges_overlap l lock)

unfoldable pub drop_ranges : FileLockManager → String → ℕ → RangeLock → FileLockManager
unfolding retain_or_remove
drop_ranges m path pid lock = elim (Table.get path m.range_locks) [
  | none ↦ m
  | some locks ↦ record m {
    range_locks = retain_or_remove path (filter (stays pid lock) locks) m.range_locks;
  }
]

unfoldable pub add_range : FileLockManager → String → ℕ → RangeLock → FileLockManager
add_range m path pid lock = record m {
  range_locks =
      Table.insert path
        (filter (stays pid lock) (locks_of (Table.get path m.range_locks)) ++ lock ∷ [])
        m.range_locks;
}

-- The part of `fcntl_lock` for a lock that is no unlock.
unfoldable pub set_range :
    FileLockManager → String → ℕ → RangeLock → FileLockManager × Result (Unit {0}) LockError
set_range m path pid lock =
    if range_conflict pid lock (locks_of (Table.get path m.range_locks))
    then (m, err would_block)
    else (add_range m path pid lock, ok tt)

unfoldable pub fcntl_lock :
    FileLockManager → String → ℕ → RangeLock → Bool → FileLockManager × Result (Unit {0}) LockError
fcntl_lock m path pid lock blocking = elim lock.lock_type [
  | unlock ↦ (drop_ranges m path pid lock, ok tt)
  | _ ↦ set_range m path pid lock
]

unfoldable pub get_lock : FileLockManager → String → ℕ → RangeLock → Option RangeLock
get_lock m path pid lock = first_conflict pid lock (locks_of (Table.get path m.range_locks))

abbrev pub is_nonempty {ℓ} : {A : Type ℓ} → List A → Bool
is_nonempty [] = false
is_nonempty (l ∷ ls) = true

unfoldable pub release_all : FileLockManager → ℕ → FileLockManager
release_all m pid = record {
  file_locks =
      Table.retain is_nonempty
        (Table.map_values (filter (λ (l : FileLock). not (l.pid == pid))) m.file_locks);
  range_locks =
      Table.retain is_nonempty
        (Table.map_values (filter (λ (l : RangeLock). not (l.pid == pid))) m.range_locks);
}

unfoldable pub drop_all_ranges : FileLockManager → String → ℕ → FileLockManager
unfolding retain_or_remove
drop_all_ranges m path pid = elim (Table.get path m.range_locks) [
  | none ↦ m
  | some locks ↦ record m {
    range_locks = retain_or_remove path (filter (λ l. not (l.pid == pid)) locks) m.range_locks;
  }
]

unfoldable pub release_file : FileLockManager → String → ℕ → FileLockManager
release_file m path pid = drop_all_ranges (drop_file m path pid) path pid
