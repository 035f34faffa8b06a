-- ===== src/Kernel/Signal/Revival.antt =====
-- A SIGSTOP that is delivered to a zombie.
use axebergos.Prelude.{ℕ, ◌≡◌, refl, some, number_key}
use axebergos.Prelude.Table
use axebergos.Prelude.Table.{Table}
use axebergos.Kernel.Signal.{sigstop, stop, can_catch, resolve_action}
use axebergos.Kernel.Signal.Process.{ProcessSignals, next_pending}
use axebergos.Kernel.Signal.Sane.{IsSane, next_pending-IsSane}
use axebergos.Kernel.Signal.Action.{
  zombie, stopped, Process, apply_action, take_signal, process_signals,
}
use axebergos.Kernel.Signal.Fatal.{take_signal-some, process_signals-some, get_inserted}

resolve_action-sigstop :
    (ps : ProcessSignals) → IsSane ps → resolve_action sigstop ps.disposition ≡ stop
unfolding resolve_action can_catch
resolve_action-sigstop ps h = rw (h.unhandled sigstop refl) refl

take_signal-stopped :
    (p : Process)
    → IsSane p.signals
    → (next_pending p.signals).1 ≡ some sigstop
    → (take_signal p).0.state ≡ stopped
unfolding apply_action
take_signal-stopped p h e =
    rw
      (
        take_signal-some p sigstop e,
        resolve_action-sigstop (next_pending p.signals).0 (next_pending-IsSane p.signals h),
      )
      refl

-- When the signal that comes next for a zombie is SIGSTOP, `process_signals` stops the zombie: its
-- exit status is lost, and it is a live process again.
pub process_signals-zombie :
    (ps : Table ℕ Process) (pid status : ℕ) (p : Process)
    → Table.get pid ps ≡ some p
    → p.state ≡ zombie status
    → IsSane p.signals
    → (next_pending p.signals).1 ≡ some sigstop
    → (q : Process) × (Table.get pid (process_signals ps pid).0 ≡ some q) × (q.state ≡ stopped)
process_signals-zombie ps pid status p e z h next =
    rw (process_signals-some ps pid p e)
      ((take_signal p).0, get_inserted pid (take_signal p).0 ps, take_signal-stopped p h next)
