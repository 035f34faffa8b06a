-- ===== src/Kernel/Flock/Ranges.antt =====
-- When two ranges overlap, and when `fcntl_lock` grants a lock.
use Prim.Native.String.{String}
use axebergos.Prelude.{
  ℕ, ◌+◌, ◌-◌, ◌≤◌, ◌<◌, ◌≡◌, ◌≢◌, refl, Bool, true, false, not, ◌&&◌, ◌||◌, ◌==◌, number_key,
  text_key, List, [], ◌∷◌, ◌++◌, none, ◌⊎◌, ◌↔◌, if◌then◌else◌, filter, All, All-iff, false_of_ne,
  max, arith,
}
use axebergos.Prelude.Words.{u64_mod}
use axebergos.Prelude.Table
use axebergos.Prelude.Table.{Table, get-insert, get-remove}
use axebergos.Kernel.Flock.{
  unlock, exclusive, RangeLock, FileLockManager, is_exclusive, ranges_overlap, range_conflict,
  first_conflict, locks_of, stays, add_range, set_range, fcntl_lock, get_lock,
}
use axebergos.Kernel.Flock.Whole.{is_exclusive_iff}

-- A range whose end is a u64: what a lock that names real offsets looks like.
abbrev pub IsFit : RangeLock → Type 0
IsFit l = (l.start < u64_mod - 1) × (l.start + l.len < u64_mod)

-- The bytes of a range; a length of zero reaches to the end.
abbrev pub Covers : RangeLock → ℕ → Type 0
Covers l n = (l.start ≤ n) × (n < u64_mod - 1) × ((l.len ≡ 0) ⊎ (n < l.start + l.len))

overlap_byte :
    (a b : RangeLock)
    → IsFit a
    → IsFit b
    → ranges_overlap a b ≡ true
    → Covers a (max a.start b.start) × Covers b (max a.start b.start)
unfolding ranges_overlap
overlap_byte a b fa fb e = ground arith

pub overlap_of_byte :
    (a b : RangeLock) (n : ℕ)
    → IsFit a
    → IsFit b
    → Covers a n
    → Covers b n
    → ranges_overlap a b ≡ true
unfolding ranges_overlap
overlap_of_byte a b n fa fb ca cb = ground arith

-- Two ranges whose ends are u64 overlap for the code exactly when they share a byte.
pub ranges_overlap_iff :
    (a b : RangeLock)
    → IsFit a
    → IsFit b
    → (ranges_overlap a b ≡ true) ↔ ((n : ℕ) × Covers a n × Covers b n)
ranges_overlap_iff a b fa fb = (
  λ e. let (ca, cb) = overlap_byte a b fa fb e in (max a.start b.start, ca, cb),
  λ c. overlap_of_byte a b c.0 fa fb c.1 c.2,
)

-- A lock of another process that shares a byte with the new one, where either is exclusive.
abbrev pub Blocks : ℕ → RangeLock → RangeLock → Type 0
Blocks pid lock l =
    (l.pid ≢ pid)
    × ((n : ℕ) × Covers l n × Covers lock n)
    × ((l.lock_type ≡ exclusive) ⊎ (lock.lock_type ≡ exclusive))

-- The code's tests on one lock of the path.
abbrev blocks : ℕ → RangeLock → RangeLock → Bool
blocks pid lock l =
    not (l.pid == pid)
    && (ranges_overlap l lock && (is_exclusive l.lock_type || is_exclusive lock.lock_type))

blocks_iff :
    (pid : ℕ) (lock l : RangeLock)
    → IsFit lock
    → IsFit l
    → (blocks pid lock l ≡ true) ↔ Blocks pid lock l
blocks_iff pid lock l fit fl =
    let (to, from) = ranges_overlap_iff l lock fl fit in
    (
      λ e. (
        ground arith,
        to (ground arith),
        ground (arith, is_exclusive_iff lock.lock_type, is_exclusive_iff l.lock_type),
      ),
      λ b. ground (
        arith,
        b.0,
        b.2,
        from b.1,
        is_exclusive_iff lock.lock_type,
        is_exclusive_iff l.lock_type,
      ),
    )

first_conflict-none :
    (pid : ℕ) (lock : RangeLock) (ls : List RangeLock)
    → (first_conflict pid lock ls ≡ none) ↔ All (λ l. blocks pid lock l ≡ false) ls
unfolding first_conflict
first_conflict-none pid lock [] = (λ e. tt, λ a. refl)
first_conflict-none pid lock (l ∷ ls) =
    let (down, up) = first_conflict-none pid lock ls in
    (λ e. (ground arith, down (ground arith)), λ a. ground (arith, up a.1, a.0))

range_conflict-false :
    (pid : ℕ) (lock : RangeLock) (ls : List RangeLock)
    → (range_conflict pid lock ls ≡ false) ↔ All (λ l. blocks pid lock l ≡ false) ls
unfolding range_conflict
range_conflict-false pid lock [] = (λ e. tt, λ a. refl)
range_conflict-false pid lock (l ∷ ls) =
    let (down, up) = range_conflict-false pid lock ls in
    (λ e. (ground arith, down (ground arith)), λ a. ground (arith, up a.1, a.0))

unblocked_iff :
    (pid : ℕ) (lock : RangeLock) (ls : List RangeLock)
    → IsFit lock
    → All IsFit ls
    → All (λ l. (blocks pid lock l ≡ false) ↔ (¬ Blocks pid lock l)) ls
unblocked_iff pid lock [] fit fits = tt
unblocked_iff pid lock (l ∷ ls) fit fits =
    let (to, from) = blocks_iff pid lock l fit fits.0 in
    (
      (λ e b. ground (arith, from b), λ n. false_of_ne (blocks pid lock l) (λ e. n (to e))),
      unblocked_iff pid lock ls fit fits.1,
    )

-- The locks on a path.
abbrev pub range_locks_of : FileLockManager → String → List RangeLock
range_locks_of m path = locks_of (Table.get path m.range_locks)

-- The test of `fcntl_lock`, in bytes.
pub unblocked-range_conflict :
    (pid : ℕ) (lock : RangeLock) (ls : List RangeLock)
    → IsFit lock
    → All IsFit ls
    → (range_conflict pid lock ls ≡ false) ↔ All (λ l. ¬ Blocks pid lock l) ls
unblocked-range_conflict pid lock ls fit fits =
    let (down, up) = range_conflict-false pid lock ls in
    let (f, g) =
      All-iff (λ l. blocks pid lock l ≡ false) (λ l. ¬ Blocks pid lock l) ls
        (unblocked_iff pid lock ls fit fits) in
    (λ e. f (down e), λ a. up (g a))

-- Where the new range and those held on the path end within u64: `get_lock` reports no lock exactly
-- when no lock of another process shares a byte with the new one while either is exclusive.
pub get_lock-none :
    (m : FileLockManager) (path : String) (pid : ℕ) (lock : RangeLock)
    → IsFit lock
    → All IsFit (range_locks_of m path)
    → (get_lock m path pid lock ≡ none) ↔ All (λ l. ¬ Blocks pid lock l) (range_locks_of m path)
unfolding get_lock
get_lock-none m path pid lock fit fits =
    let (down, up) = first_conflict-none pid lock (range_locks_of m path) in
    let (f, g) =
      All-iff (λ l. blocks pid lock l ≡ false) (λ l. ¬ Blocks pid lock l) (range_locks_of m path)
        (unblocked_iff pid lock (range_locks_of m path) fit fits) in
    (λ e. f (down e), λ a. up (g a))

pub fcntl_lock-request :
    (m : FileLockManager) (path : String) (pid : ℕ) (lock : RangeLock) (blocking : Bool)
    → lock.lock_type ≢ unlock
    → fcntl_lock m path pid lock blocking ≡ set_range m path pid lock
unfolding fcntl_lock
fcntl_lock-request m path pid lock blocking n = ground arith

pub add_range_locks :
    (m : FileLockManager) (path other : String) (pid : ℕ) (lock : RangeLock)
    → range_locks_of (add_range m path pid lock) other ≡ (
        if path == other
        then filter (stays pid lock) (range_locks_of m path) ++ lock ∷ []
        else range_locks_of m other)
unfolding add_range
add_range_locks m path other pid lock = ground (
  arith,
  get-insert path other (filter (stays pid lock) (range_locks_of m path) ++ lock ∷ [])
      m.range_locks,
)
