-- ===== src/Kernel/Flock/Whole.antt =====
-- When `flock` grants a lock, and what a path's locks are after it.
use Prim.Native.String.{String}
use axebergos.Prelude.{
  ℕ, ◌≡◌, ◌≢◌, refl, Bool, true, false, not, ◌==◌, number_key, text_key, List, [], ◌∷◌, ◌++◌, inl,
  inr, ◌⊎◌, ◌↔◌, ok, err, if◌then◌else◌, filter, All, Bool-cases, Option-cases, same_refl, arith,
}
use axebergos.Prelude.Table
use axebergos.Prelude.Table.{Table, get-insert, get-remove}
use axebergos.Kernel.Flock.{
  LockType, unlock, shared, exclusive, FileLock, FileLockManager, would_block, is_exclusive,
  file_conflict, retain_or_remove, locks_of, drop_file, add_file, flock,
}

-- A lock that another process may not be granted beside one of type `t`.
abbrev pub Blocks : ℕ → LockType → FileLock → Type 0
Blocks pid t l = (l.pid ≢ pid) × ((l.lock_type ≡ exclusive) ⊎ (t ≡ exclusive))

pub is_exclusive_iff : (t : LockType) → (is_exclusive t ≡ true) ↔ (t ≡ exclusive)
is_exclusive_iff unlock = ground arith
is_exclusive_iff shared = ground arith
is_exclusive_iff exclusive = ground arith

pub file_conflict-false :
    (pid : ℕ) (t : LockType) (ls : List FileLock)
    → (file_conflict pid t ls ≡ false) ↔ All (λ l. ¬ Blocks pid t l) ls
unfolding file_conflict
file_conflict-false pid t [] = (λ e. tt, λ a. refl)
file_conflict-false pid t (l ∷ ls) =
    let (down, up) = file_conflict-false pid t ls in
    (
      λ e. (
        λ b. ground (arith, is_exclusive_iff t, is_exclusive_iff l.lock_type),
        down (ground arith),
      ),
      λ a. ground (arith, up a.1, is_exclusive_iff t, is_exclusive_iff l.lock_type, a.0),
    )

-- The locks on a path.
abbrev pub file_locks_of : FileLockManager → String → List FileLock
file_locks_of m path = locks_of (Table.get path m.file_locks)

abbrev pub others : ℕ → List FileLock → List FileLock
others pid ls = filter (λ l. not (l.pid == pid)) ls

pub retain_or_remove_locks {ℓ} :
    {A : Type ℓ} (path other : String) (ls : List A) (m : Table String (List A))
    → locks_of (Table.get other (retain_or_remove path ls m))
      ≡ (if path == other then ls else locks_of (Table.get other m))
unfolding retain_or_remove
retain_or_remove_locks path other [] m = ground (arith, get-remove path other m)
retain_or_remove_locks path other (l ∷ ls) m = ground (arith, get-insert path other (l ∷ ls) m)

pub drop_file_locks :
    (m : FileLockManager) (path other : String) (pid : ℕ)
    → file_locks_of (drop_file m path pid) other
      ≡ (if path == other then others pid (file_locks_of m other) else file_locks_of m other)
unfolding drop_file
drop_file_locks m path other pid = elim (Option-cases (Table.get path m.file_locks)) [
  | inl e ↦ ground (arith, text_key.same_iff path other)
  | inr (ls, e) ↦ ground (
    arith,
    text_key.same_iff path other,
    retain_or_remove_locks path other (others pid ls) m.file_locks,
  )
]

pub add_file_locks :
    (m : FileLockManager) (path other : String) (pid : ℕ) (t : LockType)
    → file_locks_of (add_file m path pid t) other ≡ (
        if path == other
        then others pid (file_locks_of m path) ++ record { pid = pid; lock_type = t } ∷ []
        else file_locks_of m other)
unfolding add_file
add_file_locks m path other pid t = ground (
  arith,
  get-insert path other
      (others pid (file_locks_of m path) ++ record { pid = pid; lock_type = t } ∷ []) m.file_locks,
)

pub flock-request :
    (m : FileLockManager) (path : String) (pid : ℕ) (t : LockType) (blocking : Bool)
    → t ≢ unlock
    → flock m path pid t blocking ≡ (
        if file_conflict pid t (file_locks_of m path)
        then (m, err would_block)
        else (add_file m path pid t, ok tt))
unfolding flock
flock-request m path pid unlock blocking n = absurd (n refl)
flock-request m path pid shared blocking n = refl
flock-request m path pid exclusive blocking n = refl

-- A request is granted exactly when no lock of another process blocks it. Then the path has the
-- other processes' locks, in order, and the new one: an older lock of the process is replaced. A
-- request that is refused changes nothing. No other path's locks change.
pub flock_cases :
    (m : FileLockManager) (path : String) (pid : ℕ) (t : LockType) (blocking : Bool)
    → t ≢ unlock
    → (All (λ l. ¬ Blocks pid t l) (file_locks_of m path)
        × ((flock m path pid t blocking).1 ≡ ok tt)
        × (file_locks_of (flock m path pid t blocking).0 path
            ≡ others pid (file_locks_of m path) ++ record { pid = pid; lock_type = t } ∷ [])
        × ((other : String)
            → path ≢ other
            → file_locks_of (flock m path pid t blocking).0 other ≡ file_locks_of m other))
      ⊎ (¬ All (λ l. ¬ Blocks pid t l) (file_locks_of m path)
          × (flock m path pid t blocking ≡ (m, err would_block)))
flock_cases m path pid t blocking n =
    rw (flock-request m path pid t blocking n)
      (elim (Bool-cases (file_conflict pid t (file_locks_of m path))) [
        | inl e ↦
            inr (λ a. ground (arith, (file_conflict-false pid t (file_locks_of m path)).1 a), rw e)
        | inr e ↦ inl (
          (file_conflict-false pid t (file_locks_of m path)).0 e,
          rw e,
          rw e (ground (arith, add_file_locks m path path pid t, same_refl path)),
          λ other d.
              rw e
                (ground (arith, add_file_locks m path other pid t, text_key.same_iff path other)),
        )
      ])
