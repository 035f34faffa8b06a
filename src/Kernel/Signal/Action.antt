-- ===== src/Kernel/Signal/Action.antt =====
-- kernel/syscall.rs, `process_signals`: what a signal does to the process that takes it.
use axebergos.Prelude.{ℕ, Bool, true, false, number_key, Option, none, some, if◌then◌else◌}
use axebergos.Prelude.Words.{neg_i32}
use axebergos.Prelude.Table
use axebergos.Prelude.Table.{Table}
use axebergos.Kernel.Signal.{
  Signal, num, SignalAction, default, ignore, terminate, kill, stop, continue, handle,
  resolve_action,
}
use axebergos.Kernel.Signal.Process.{ProcessSignals, next_pending, stop_process, cont}

-- `ProcessState` of kernel/process.rs; an exit status is an i32 bit pattern.
pub data ProcessState : Type 0 where
  running sleeping stopped : ProcessState
  blocked : ℕ → ProcessState
  zombie : ℕ → ProcessState

-- The fields of `Process` that signals read and write.
pub record Process : Type 0 where
  pub state : ProcessState
  pub signals : ProcessSignals
  pub was_continued : Bool

abbrev pub is_stopped : ProcessState → Bool
is_stopped stopped = true
is_stopped running = false
is_stopped sleeping = false
is_stopped (blocked p) = false
is_stopped (zombie c) = false

unfoldable pub apply_action : Process → Signal → SignalAction → Process
apply_action p s kill = record p { state = zombie (neg_i32 (num s)) }
apply_action p s terminate = record p { state = zombie (neg_i32 (num s)) }
apply_action p s stop = record p { state = stopped; signals = stop_process p.signals }
apply_action p s continue =
    if is_stopped p.state
    then record p { state = running; was_continued = true; signals = cont p.signals }
    else record p { signals = cont p.signals }
apply_action p s ignore = p
apply_action p s handle = p
apply_action p s default = p

unfoldable pub take_signal : Process → Process × Option (Signal × SignalAction)
take_signal p =
    let (signals, next) = next_pending p.signals in
    elim next [
      | none ↦ (p, none)
      | some s ↦
          let action = resolve_action s signals.disposition in
          (apply_action (record p { signals = signals }) s action, some (s, action))
    ]

unfoldable pub process_signals :
    Table ℕ Process → ℕ → Table ℕ Process × Option (Signal × SignalAction)
process_signals ps pid = elim (Table.get pid ps) [
  | none ↦ (ps, none)
  | some p ↦ (Table.insert pid (take_signal p).0 ps, (take_signal p).1)
]
