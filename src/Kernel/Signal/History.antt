-- ===== src/Kernel/Signal/History.antt =====
-- Histories of calls on the signal state of a process.
use axebergos.Prelude.{ℕ, ◌≡◌, refl, true, not, ◌==◌, number_key, List, [], ◌∷◌, All-filter}
use axebergos.Prelude.Table
use axebergos.Kernel.Signal.{
  Signal, signal_key, can_catch, SignalAction, get_action, set_action, reset,
}
use axebergos.Kernel.Signal.Process.{
  ProcessSignals, new_signals, remove_signal, send, next_pending, block, unblock, stop_process,
  cont, reset_handlers, clear_pending, SigProcMaskHow, sigprocmask,
}
use axebergos.Kernel.Signal.Sane.{
  IsSane, send-IsSane, next_pending-IsSane, set_action-unhandled, reset-unhandled,
  sigprocmask-catchable, sigprocmask_same, block-catchable, block_same,
}

-- The calls on the signal state of one process.
pub data Call : Type 0 where
  sends blocks unblocks resets : Signal → Call
  sets : Signal → SignalAction → Call
  takes_next stops continues resets_all clears : Call
  masks : SigProcMaskHow → ℕ → Call

unfoldable pub step : ProcessSignals → Call → ProcessSignals
step ps (sends s) = send ps s
step ps (blocks s) = (block ps s).0
step ps (unblocks s) = unblock ps s
step ps (resets s) = record ps { disposition = reset ps.disposition s }
step ps (sets s a) = record ps { disposition = (set_action ps.disposition s a).0 }
step ps takes_next = (next_pending ps).0
step ps stops = stop_process ps
step ps continues = cont ps
step ps resets_all = reset_handlers ps
step ps clears = clear_pending ps
step ps (masks how mask) = (sigprocmask ps how mask).0

unfoldable pub run : ProcessSignals → List Call → ProcessSignals
run ps [] = ps
run ps (c ∷ cs) = run (step ps c) cs

step-IsSane : (ps : ProcessSignals) (c : Call) → IsSane ps → IsSane (step ps c)
unfolding step unblock remove_signal stop_process cont reset_handlers clear_pending get_action
    Table.get
step-IsSane ps (sends s) h = send-IsSane ps s h
step-IsSane ps (blocks s) h = record {
  coalesced = rw ((block_same ps s).0) h.coalesced;
  catchable = block-catchable ps s h.catchable;
  unhandled = rw ((block_same ps s).1) h.unhandled;
}
step-IsSane ps (unblocks s) h = record {
  coalesced = h.coalesced;
  catchable = All-filter (λ x. can_catch x ≡ true) (λ x. not (x == s)) ps.blocked h.catchable;
  unhandled = h.unhandled;
}
step-IsSane ps (resets s) h = record {
  coalesced = h.coalesced;
  catchable = h.catchable;
  unhandled = reset-unhandled ps.disposition s h.unhandled;
}
step-IsSane ps (sets s a) h = record {
  coalesced = h.coalesced;
  catchable = h.catchable;
  unhandled = set_action-unhandled ps.disposition s a h.unhandled;
}
step-IsSane ps takes_next h = next_pending-IsSane ps h
step-IsSane ps stops h = record {
  coalesced = h.coalesced;
  catchable = h.catchable;
  unhandled = h.unhandled;
}
step-IsSane ps continues h = record {
  coalesced = h.coalesced;
  catchable = h.catchable;
  unhandled = h.unhandled;
}
step-IsSane ps resets_all h = record {
  coalesced = h.coalesced;
  catchable = h.catchable;
  unhandled = λ s e. refl;
}
step-IsSane ps clears h = record { coalesced = tt; catchable = tt; unhandled = h.unhandled }
step-IsSane ps (masks how mask) h = record {
  coalesced = rw ((sigprocmask_same ps how mask).0) h.coalesced;
  catchable = sigprocmask-catchable ps how mask h.catchable;
  unhandled = rw ((sigprocmask_same ps how mask).1) h.unhandled;
}

run-IsSane : (cs : List Call) (ps : ProcessSignals) → IsSane ps → IsSane (run ps cs)
unfolding run
run-IsSane [] ps h = h
run-IsSane (c ∷ cs) ps h = run-IsSane cs (step ps c) (step-IsSane ps c h)

-- After any calls on a new state: no signal but SIGKILL waits twice, no blocked signal is SIGKILL or
-- SIGSTOP, and neither has an action of its own.
pub run-new_signals-IsSane : (cs : List Call) → IsSane (run new_signals cs)
unfolding new_signals get_action Table.get
run-new_signals-IsSane cs =
    run-IsSane cs new_signals record { coalesced = tt; catchable = tt; unhandled = λ s e. refl }
