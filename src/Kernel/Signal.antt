-- ===== src/Kernel/Signal.antt =====
-- kernel/signal.rs: signals, dispositions and the signal state of a process, and
-- kernel/syscall.rs, `process_signals`. A hash set of signals is a list without repeats.
pub mod Process
pub mod Action
pub mod Delivery
pub mod Masks
pub mod Sane
pub mod History
pub mod Fatal
pub mod Revival
mod Tests
use axebergos.Prelude.{
  ℕ, ◌≡◌, refl, ◌∙◌, sym, ap, ◌↔◌, Bool, true, false, not, ◌&&◌, ◌==◌, number_key, Key, nat_beq,
  nat_beq_iff, Option, none, some, Result, ok, err, if◌then◌else◌, arith,
}
use axebergos.Prelude.Table
use axebergos.Prelude.Table.{Table}

pub data Signal : Type 0 where
  sigterm sigkill sigstop sigcont sigint sigquit sighup sigusr1 sigusr2 sigchld : Signal
  sigalrm sigpipe : Signal

-- `Signal::num`, the discriminant.
abbrev pub num : Signal → ℕ
num sigterm = 1
num sigkill = 2
num sigstop = 3
num sigcont = 4
num sigint = 5
num sigquit = 6
num sighup = 7
num sigusr1 = 8
num sigusr2 = 9
num sigchld = 10
num sigalrm = 11
num sigpipe = 12

unfoldable pub from_num : ℕ → Option Signal
from_num n =
    if n == 1
    then some sigterm
    else if n == 2
    then some sigkill
    else if n == 3
    then some sigstop
    else if n == 4
    then some sigcont
    else if n == 5
    then some sigint
    else if n == 6
    then some sigquit
    else if n == 7
    then some sighup
    else if n == 8
    then some sigusr1
    else if n == 9
    then some sigusr2
    else if n == 10
    then some sigchld
    else if n == 11
    then some sigalrm
    else if n == 12
    then some sigpipe
    else none

pub from_num-num : (s : Signal) → from_num (num s) ≡ some s
unfolding from_num
from_num-num sigterm = refl
from_num-num sigkill = refl
from_num-num sigstop = refl
from_num-num sigcont = refl
from_num-num sigint = refl
from_num-num sigquit = refl
from_num-num sighup = refl
from_num-num sigusr1 = refl
from_num-num sigusr2 = refl
from_num-num sigchld = refl
from_num-num sigalrm = refl
from_num-num sigpipe = refl

-- Signals are compared by their discriminants.
abbrev pub signal_same : Signal → Signal → Bool
signal_same a b = nat_beq (num a) (num b)

num-injective : (a b : Signal) → num a ≡ num b → a ≡ b
num-injective a b e =
    let h : some a ≡ some b = sym (from_num-num a) ∙ ap from_num e ∙ from_num-num b in cc

pub signal_same_iff : (a b : Signal) → (signal_same a b ≡ true) ↔ (a ≡ b)
signal_same_iff a b = (
  λ e. num-injective a b ((nat_beq_iff (num a) (num b)).0 e),
  λ e. rw e ((nat_beq_iff (num b) (num b)).1 refl),
)

instance abbrev pub signal_key : Key Signal
signal_key = record { same = signal_same; same_iff = signal_same_iff }

unfoldable pub can_catch : Signal → Bool
can_catch s = not (s == sigkill) && not (s == sigstop)

pub data SignalAction : Type 0 where
  default ignore terminate kill stop continue handle : SignalAction

abbrev pub default_action : Signal → SignalAction
default_action sigterm = terminate
default_action sigint = terminate
default_action sigquit = terminate
default_action sighup = terminate
default_action sigpipe = terminate
default_action sigkill = kill
default_action sigstop = stop
default_action sigcont = continue
default_action sigusr1 = ignore
default_action sigusr2 = ignore
default_action sigchld = ignore
default_action sigalrm = ignore

pub data SignalError : Type 0 where
  cannot_catch cannot_block : Signal → SignalError
  invalid_signal process_not_found : ℕ → SignalError
  permission_denied : SignalError

-- `SignalDisposition`: the actions that were set.
abbrev pub SignalDisposition : Type 0
SignalDisposition = Table Signal SignalAction

abbrev or_default : Option SignalAction → SignalAction
or_default none = default
or_default (some a) = a

unfoldable pub get_action : SignalDisposition → Signal → SignalAction
get_action d s = or_default (Table.get s d)

abbrev pub is_default : SignalAction → Bool
is_default default = true
is_default ignore = false
is_default terminate = false
is_default kill = false
is_default stop = false
is_default continue = false
is_default handle = false

unfoldable pub set_action :
    SignalDisposition → Signal → SignalAction → SignalDisposition × Result (Unit {0}) SignalError
set_action d s action =
    if not (can_catch s) && not (is_default action)
    then (d, err (cannot_catch s))
    else (Table.insert s action d, ok tt)

unfoldable pub reset : SignalDisposition → Signal → SignalDisposition
reset d s = Table.remove s d

unfoldable pub resolve_action : Signal → SignalDisposition → SignalAction
resolve_action s d =
    let action = get_action d s in if is_default action then default_action s else action
