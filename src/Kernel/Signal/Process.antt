-- ===== src/Kernel/Signal/Process.antt =====
-- kernel/signal.rs, `ProcessSignals`.
use Prim.Native.Nat.{bit_and, bit_or}
use axebergos.Prelude.{
  ℕ, ◌^◌, Bool, true, false, not, ◌&&◌, ◌||◌, ◌==◌, number_key, List, [], ◌∷◌, ◌++◌, Option, none,
  some, Result, ok, err, if◌then◌else◌, filter,
}
use axebergos.Kernel.Signal.{
  Signal, sigkill, sigstop, sigcont, num, from_num, signal_key, can_catch, SignalError,
  cannot_block, SignalDisposition,
}

pub record ProcessSignals : Type 0 where
  pub disposition : SignalDisposition
  pub pending : List Signal
  pub blocked : List Signal
  pub stopped : Bool

unfoldable pub new_signals : ProcessSignals
new_signals = record { disposition = []; pending = []; blocked = []; stopped = false }

-- `contains`, of the queue and of the hash set.
unfoldable pub contains : List Signal → Signal → Bool
contains [] s = false
contains (x ∷ xs) s = if x == s then true else contains xs s

-- `HashSet::insert` and `HashSet::remove`.
unfoldable pub insert_signal : Signal → List Signal → List Signal
insert_signal s xs = if contains xs s then xs else s ∷ xs

unfoldable pub remove_signal : Signal → List Signal → List Signal
remove_signal s xs = filter (λ x. not (x == s)) xs

-- `position` of the first element that passes, and its removal.
unfoldable pub take_first : (Signal → Bool) → List Signal → Option (Signal × List Signal)
take_first p [] = none
take_first p (x ∷ xs) =
    let rest = take_first p xs in
    if p x then some (x, xs) else elim rest [ none ↦ none | some (y, ys) ↦ some (y, x ∷ ys) ]

-- The part of `send` for SIGCONT: it unstops, and removes a pending SIGSTOP.
unfoldable pub unstop : ProcessSignals → Signal → ProcessSignals
unstop ps s =
    if s == sigcont
    then record ps { stopped = false; pending = filter (λ x. not (x == sigstop)) ps.pending }
    else ps

unfoldable pub send : ProcessSignals → Signal → ProcessSignals
send ps s =
    let ps' = unstop ps s in
    if not (s == sigkill) && contains ps'.pending s
    then ps'
    else record ps' { pending = ps'.pending ++ s ∷ [] }

-- The three searches of `next_pending`, in order.
unfoldable pub select : ProcessSignals → Option (Signal × List Signal)
select ps = elim (take_first (λ x. x == sigkill) ps.pending) [
  | some found ↦ some found
  | none ↦ elim (take_first (λ x. x == sigstop) ps.pending) [
    | some found ↦ some found
    | none ↦ take_first (λ x. not (contains ps.blocked x)) ps.pending
  ]
]

unfoldable pub next_pending : ProcessSignals → ProcessSignals × Option Signal
next_pending ps = elim (select ps) [
  | none ↦ (ps, none)
  | some (s, rest) ↦ (record ps { pending = rest }, some s)
]

-- `iter().any`.
abbrev pub any_deliverable : List Signal → List Signal → Bool
any_deliverable blocked [] = false
any_deliverable blocked (x ∷ xs) =
    if not (contains blocked x) || not (can_catch x) then true else any_deliverable blocked xs

unfoldable pub has_pending : ProcessSignals → Bool
has_pending ps = any_deliverable ps.blocked ps.pending

unfoldable pub block : ProcessSignals → Signal → ProcessSignals × Result (Unit {0}) SignalError
block ps s =
    if not (can_catch s)
    then (ps, err (cannot_block s))
    else (record ps { blocked = insert_signal s ps.blocked }, ok tt)

unfoldable pub unblock : ProcessSignals → Signal → ProcessSignals
unblock ps s = record ps { blocked = remove_signal s ps.blocked }

unfoldable pub stop_process : ProcessSignals → ProcessSignals
stop_process ps = record ps { stopped = true }

unfoldable pub cont : ProcessSignals → ProcessSignals
cont ps = record ps { stopped = false }

unfoldable pub reset_handlers : ProcessSignals → ProcessSignals
reset_handlers ps = record ps { disposition = [] }

unfoldable pub clear_pending : ProcessSignals → ProcessSignals
clear_pending ps = record ps { pending = []; blocked = [] }

-- The loop of `get_blocked_mask` and `get_pending_mask`: `mask |= 1 << signal.num()`.
unfoldable pub mask_of : List Signal → ℕ → ℕ
mask_of [] mask = mask
mask_of (s ∷ ss) mask = mask_of ss (bit_or mask (2 ^ num s))

unfoldable pub get_blocked_mask : ProcessSignals → ℕ
get_blocked_mask ps = mask_of ps.blocked 0

unfoldable pub get_pending_mask : ProcessSignals → ℕ
get_pending_mask ps = mask_of ps.pending 0

-- `mask & (1 << i) != 0`.
abbrev pub has_bit : ℕ → ℕ → Bool
has_bit mask i = not (bit_and mask (2 ^ i) == 0)

-- The loops over `1..=12`, on the numbers that are left.
unfoldable pub block_bits : List ℕ → ℕ → List Signal → List Signal
block_bits [] mask blocked = blocked
block_bits (i ∷ is) mask blocked = block_bits is mask (elim (from_num i) [
  | none ↦ blocked
  | some s ↦ if has_bit mask i && can_catch s then insert_signal s blocked else blocked
])

unfoldable pub unblock_bits : List ℕ → ℕ → List Signal → List Signal
unblock_bits [] mask blocked = blocked
unblock_bits (i ∷ is) mask blocked = unblock_bits is mask (elim (from_num i) [
  | none ↦ blocked
  | some s ↦ if has_bit mask i then remove_signal s blocked else blocked
])

abbrev pub numbers : List ℕ
numbers = 1 ∷ 2 ∷ 3 ∷ 4 ∷ 5 ∷ 6 ∷ 7 ∷ 8 ∷ 9 ∷ 10 ∷ 11 ∷ 12 ∷ []

pub data SigProcMaskHow : Type 0 where
  block_all unblock_all set_mask : SigProcMaskHow

unfoldable pub set_blocked_mask : ProcessSignals → ℕ → ProcessSignals × ℕ
set_blocked_mask ps mask = (record ps { blocked = block_bits numbers mask [] }, get_blocked_mask ps)

unfoldable pub sigprocmask : ProcessSignals → SigProcMaskHow → ℕ → ProcessSignals × ℕ
sigprocmask ps block_all mask =
    (record ps { blocked = block_bits numbers mask ps.blocked }, get_blocked_mask ps)
sigprocmask ps unblock_all mask =
    (record ps { blocked = unblock_bits numbers mask ps.blocked }, get_blocked_mask ps)
sigprocmask ps set_mask mask = ((set_blocked_mask ps mask).0, get_blocked_mask ps)
