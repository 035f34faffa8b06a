-- ===== src/Kernel/Flock/Exclusion.antt =====
-- What the locks of one path must satisfy, and that a granted lock and a dropped one keep it.
use Prim.Native.String.{String}
use axebergos.Prelude.{
  ℕ, ◌≡◌, ◌≢◌, refl, Bool, true, not, ◌==◌, number_key, text_key, List, [], ◌∷◌, ◌++◌, inl, inr,
  filter, All, All-append, All-filter, All-filter_self, All-map₂, Pairwise, Pairwise-filter,
  Pairwise-snoc, arith,
}
use axebergos.Kernel.Flock.{
  LockType, unlock, shared, exclusive, FileLock, RangeLock, FileLockManager, stays,
}
use axebergos.Kernel.Flock.Whole.{
  file_locks_of, others, file_conflict-false, drop_file_locks, add_file_locks, flock_cases,
}
use axebergos.Kernel.Flock.Whole
use axebergos.Kernel.Flock.Ranges.{IsFit, Covers, Blocks, range_locks_of, overlap_of_byte}

-- Two locks on one file: of two processes, and both shared.
abbrev pub Apart : FileLock → FileLock → Type 0
Apart a b = (a.pid ≢ b.pid) × (a.lock_type ≡ shared) × (b.lock_type ≡ shared)

-- Two locks on ranges: where they share a byte, they are of two processes and both shared.
abbrev pub RangesApart : RangeLock → RangeLock → Type 0
RangesApart a b =
    (n : ℕ)
    → Covers a n
    → Covers b n
    → (a.pid ≢ b.pid) × (a.lock_type ≡ shared) × (b.lock_type ≡ shared)

abbrev pub IsFileSafe : List FileLock → Type 0
IsFileSafe ls = Pairwise Apart ls × All (λ l. l.lock_type ≢ unlock) ls

abbrev pub IsRangeSafe : List RangeLock → Type 0
IsRangeSafe ls = Pairwise RangesApart ls × All (λ l. IsFit l × (l.lock_type ≢ unlock)) ls

-- The invariant of the manager.
abbrev pub IsSafe : FileLockManager → Type 0
IsSafe m = (path : String) → IsFileSafe (file_locks_of m path) × IsRangeSafe (range_locks_of m path)

pub IsFileSafe-others : (pid : ℕ) (ls : List FileLock) → IsFileSafe ls → IsFileSafe (others pid ls)
IsFileSafe-others pid ls s = (Pairwise-filter Apart _ ls s.0, All-filter _ _ ls s.1)

pub IsRangeSafe-filter :
    (p : RangeLock → Bool) (ls : List RangeLock) → IsRangeSafe ls → IsRangeSafe (filter p ls)
IsRangeSafe-filter p ls s = (Pairwise-filter RangesApart p ls s.0, All-filter _ p ls s.1)

shared_of : (t : LockType) → t ≢ unlock → t ≢ exclusive → t ≡ shared
shared_of unlock a b = absurd (a refl)
shared_of shared a b = refl
shared_of exclusive a b = absurd (b refl)

apart :
    (l : FileLock) (pid : ℕ) (t : LockType)
    → t ≢ unlock
    → (not (l.pid == pid) ≡ true) × (l.lock_type ≢ unlock)
    → ¬ Whole.Blocks pid t l
    → Apart l (record { pid = pid; lock_type = t })
apart l pid t n k b =
    let d : l.pid ≢ pid = ground arith in
    (d, shared_of l.lock_type k.1 (λ e. b (d, inl e)), shared_of t n (λ e. b (d, inr e)))

All-zip {ℓ κ μ} :
    {A : Type ℓ} (P : A → Type κ) (Q : A → Type μ) (xs : List A)
    → All P xs
    → All Q xs
    → All (λ x. P x × Q x) xs
All-zip P Q [] a b = tt
All-zip P Q (x ∷ xs) a b = ((a.0, b.0), All-zip P Q xs a.1 b.1)

pub IsFileSafe-add :
    (pid : ℕ) (t : LockType) (ls : List FileLock)
    → t ≢ unlock
    → IsFileSafe ls
    → All (λ l. ¬ Whole.Blocks pid t l) ls
    → IsFileSafe (others pid ls ++ record { pid = pid; lock_type = t } ∷ [])
IsFileSafe-add pid t ls n s free =
    let kept = IsFileSafe-others pid ls s in
    (
      Pairwise-snoc Apart (others pid ls) (record { pid = pid; lock_type = t }) kept.0
          (All-map₂ {Q = λ l. Apart l (record { pid = pid; lock_type = t })}
            (λ l k b. apart l pid t n k b) (others pid ls)
            (All-zip _ _ (others pid ls) (All-filter_self (λ l. not (l.pid == pid)) ls) kept.1)
            (All-filter _ (λ l. not (l.pid == pid)) ls free)),
      All-append _ (others pid ls) _ kept.1 (n, tt),
    )

ranges_apart :
    (l lock : RangeLock) (pid : ℕ)
    → lock.pid ≡ pid
    → IsFit lock
    → lock.lock_type ≢ unlock
    → (stays pid lock l ≡ true) × (IsFit l × (l.lock_type ≢ unlock))
    → ¬ Blocks pid lock l
    → RangesApart l lock
ranges_apart l lock pid own fit n k b byte cl cn =
    let o = overlap_of_byte l lock byte k.1.0 fit cl cn in
    let d : l.pid ≢ pid = ground (arith, k.0, o) in
    (
      ground (arith, d),
      shared_of l.lock_type k.1.1 (λ e. b (d, (byte, cl, cn), inl e)),
      shared_of lock.lock_type n (λ e. b (d, (byte, cl, cn), inr e)),
    )

pub IsRangeSafe-add :
    (pid : ℕ) (lock : RangeLock) (ls : List RangeLock)
    → lock.pid ≡ pid
    → IsFit lock
    → lock.lock_type ≢ unlock
    → IsRangeSafe ls
    → All (λ l. ¬ Blocks pid lock l) ls
    → IsRangeSafe (filter (stays pid lock) ls ++ lock ∷ [])
IsRangeSafe-add pid lock ls own fit n s free =
    let kept = IsRangeSafe-filter (stays pid lock) ls s in
    (
      Pairwise-snoc RangesApart (filter (stays pid lock) ls) lock kept.0 (
          All-map₂ {Q = λ l. RangesApart l lock} (λ l k b. ranges_apart l lock pid own fit n k b)
            (filter (stays pid lock) ls)
            (All-zip _ _ (filter (stays pid lock) ls) (All-filter_self (stays pid lock) ls) kept.1)
            (All-filter _ (stays pid lock) ls free)),
      All-append _ (filter (stays pid lock) ls) _ kept.1 ((fit, n), tt),
    )
