-- ===== src/Kernel/Flock/Grants.antt =====
-- What `fcntl_lock` does, in the bytes that the ranges cover.
use Prim.Native.String.{String}
use axebergos.Prelude.{
  subst, Result, ℕ, ◌≡◌, ◌≢◌, refl, sym, Bool, number_key, text_key, List, [], ◌∷◌, ◌++◌, inl, inr,
  ◌⊎◌, ok, err, filter, All, Bool-cases, same_refl, arith,
}
use axebergos.Kernel.Flock.{
  LockType, LockError, unlock, shared, exclusive, RangeLock, FileLockManager, would_block,
  range_conflict, stays, drop_ranges, set_range, fcntl_lock,
}
use axebergos.Kernel.Flock.Ranges.{
  IsFit, Covers, Blocks, range_locks_of, ranges_overlap_iff, unblocked-range_conflict,
  add_range_locks, fcntl_lock-request,
}
use axebergos.Kernel.Flock.Drops.{drop_ranges_locks}

-- A lock of the process that shares a byte with the new one.
abbrev pub IsReplaced : ℕ → RangeLock → RangeLock → Type 0
IsReplaced pid lock l = (l.pid ≡ pid) × ((n : ℕ) × Covers l n × Covers lock n)

-- The locks before, in their order, without those that the new one replaces.
abbrev pub IsSifted : ℕ → RangeLock → List RangeLock → List RangeLock → Type 0
IsSifted pid lock [] left = left ≡ []
IsSifted pid lock (l ∷ ls) left =
    (IsReplaced pid lock l × IsSifted pid lock ls left)
    ⊎ ((¬ IsReplaced pid lock l)
        × ((rest : List RangeLock) × (left ≡ l ∷ rest) × IsSifted pid lock ls rest))

filter-IsSifted :
    (pid : ℕ) (lock : RangeLock) (ls : List RangeLock)
    → IsFit lock
    → All IsFit ls
    → IsSifted pid lock ls (filter (stays pid lock) ls)
filter-IsSifted pid lock [] fit fits = refl
filter-IsSifted pid lock (l ∷ ls) fit fits =
    let (to, from) = ranges_overlap_iff l lock fits.0 fit in
    let rest = filter-IsSifted pid lock ls fit fits.1 in
    elim (Bool-cases (stays pid lock l)) [
      | inr e ↦ inl ((ground (arith, e), to (ground (arith, e))), rw e rest)
      | inl e ↦
          inr (λ r. ground (arith, e, r.0, from r.1), (filter (stays pid lock) ls, rw e refl, rest))
    ]

-- The paths but one have the same locks.
abbrev pub HasSameOthers : FileLockManager → String → FileLockManager → Type 0
HasSameOthers m path m' =
    (other : String) → path ≢ other → range_locks_of m' other ≡ range_locks_of m other

-- The three ways that a call can end.
abbrev pub IsFcntlLock :
    FileLockManager
    → String
    → ℕ
    → RangeLock
    → FileLockManager × Result (Unit {0}) LockError
    → Type 0
IsFcntlLock m path pid lock result =
    ((lock.lock_type ≡ unlock)
      × (result.1 ≡ ok tt)
      × IsSifted pid lock (range_locks_of m path) (range_locks_of (result.0) path)
      × HasSameOthers m path (result.0))
    ⊎ ((lock.lock_type ≢ unlock)
        × All (λ l. ¬ Blocks pid lock l) (range_locks_of m path)
        × (result.1 ≡ ok tt)
        × ((kept : List RangeLock) × IsSifted pid lock (range_locks_of m path) kept
            × (range_locks_of (result.0) path ≡ kept ++ lock ∷ []))
        × HasSameOthers m path (result.0))
    ⊎ ((lock.lock_type ≢ unlock)
        × (¬ All (λ l. ¬ Blocks pid lock l) (range_locks_of m path))
        × (result ≡ (m, err would_block)))

set_range-IsFcntlLock :
    (m : FileLockManager) (path : String) (pid : ℕ) (lock : RangeLock)
    → lock.lock_type ≢ unlock
    → IsFit lock
    → All IsFit (range_locks_of m path)
    → IsFcntlLock m path pid lock (set_range m path pid lock)
unfolding set_range
set_range-IsFcntlLock m path pid lock n fit fits =
    let (down, up) = unblocked-range_conflict pid lock (range_locks_of m path) fit fits in
    elim (Bool-cases (range_conflict pid lock (range_locks_of m path))) [
      | inl e ↦ inr (inr (n, λ a. ground (arith, e, up a), rw (set_range, e) refl))
      | inr e ↦
          rw (set_range, e)
            (inr (
              inl (
                n,
                down e,
                refl,
                (
                  filter (stays pid lock) (range_locks_of m path),
                  filter-IsSifted pid lock (range_locks_of m path) fit fits,
                  ground (arith, add_range_locks m path path pid lock, same_refl path),
                ),
                λ other d.
                    ground (
                      arith,
                      add_range_locks m path other pid lock,
                      text_key.same_iff path other,
                      d,
                    ),
              )))
    ]

unlock-IsFcntlLock :
    (m : FileLockManager) (path : String) (pid : ℕ) (lock : RangeLock)
    → lock.lock_type ≡ unlock
    → IsFit lock
    → All IsFit (range_locks_of m path)
    → IsFcntlLock m path pid lock (drop_ranges m path pid lock, ok tt)
unlock-IsFcntlLock m path pid lock e fit fits =
    let here : range_locks_of (drop_ranges m path pid lock) path
        ≡ filter (stays pid lock) (range_locks_of m path) =
      ground (arith, drop_ranges_locks m path path pid lock, same_refl path) in
    inl (
      e,
      refl,
      rw here (filter-IsSifted pid lock (range_locks_of m path) fit fits),
      λ other d.
          ground (arith, drop_ranges_locks m path other pid lock, text_key.same_iff path other, d),
    )

unlock_or_not : (t : LockType) → (t ≡ unlock) ⊎ (t ≢ unlock)
unlock_or_not unlock = inl refl
unlock_or_not shared = inr (λ u. cc)
unlock_or_not exclusive = inr (λ u. cc)

fcntl_lock-unlock :
    (m : FileLockManager) (path : String) (pid : ℕ) (lock : RangeLock) (blocking : Bool)
    → lock.lock_type ≡ unlock
    → fcntl_lock m path pid lock blocking ≡ (drop_ranges m path pid lock, ok tt)
unfolding fcntl_lock
fcntl_lock-unlock m path pid lock blocking e = ground (arith, e)

-- Where the new range and those held on the path end within u64, `fcntl_lock` does one of three
-- things. An unlock drops, of the path's locks, exactly those of the process that share a byte with
-- it. A request is granted when no lock of another process shares a byte with it while either is
-- exclusive: those same locks go, the others stay in order, and the new one is added. Else it is
-- refused and nothing changes. No other path's locks change.
pub fcntl_lock_cases :
    (m : FileLockManager) (path : String) (pid : ℕ) (lock : RangeLock) (blocking : Bool)
    → IsFit lock
    → All IsFit (range_locks_of m path)
    → IsFcntlLock m path pid lock (fcntl_lock m path pid lock blocking)
fcntl_lock_cases m path pid lock blocking fit fits = elim (unlock_or_not lock.lock_type) [
  | inl e ↦
      subst (IsFcntlLock m path pid lock) (sym (fcntl_lock-unlock m path pid lock blocking e))
        (unlock-IsFcntlLock m path pid lock e fit fits)
  | inr n ↦
      subst (IsFcntlLock m path pid lock) (sym (fcntl_lock-request m path pid lock blocking n))
        (set_range-IsFcntlLock m path pid lock n fit fits)
]
