-- ===== src/Kernel/Signal/Tests.antt =====
-- Runs of the signal state, and its theorems at concrete inputs.
use axebergos.Prelude.{ℕ, ◌≡◌, ◌≢◌, refl, ◌↔◌, true, false, [], ◌∷◌, none, some, number_key, arith}
use axebergos.Prelude.Words.{neg_i32}
use axebergos.Prelude.Table
use axebergos.Kernel.Signal.{
  sigterm, sigkill, sigstop, sigcont, sigint, kill, ignore, handle, signal_key, can_catch,
  get_action,
}
use axebergos.Kernel.Signal.Process.{
  ProcessSignals, new_signals, contains, send, next_pending, has_pending, sigprocmask, block_all,
  set_mask, take_first, select, unstop,
}
use axebergos.Kernel.Signal.Action.{running, zombie, stopped, Process, process_signals}
use axebergos.Kernel.Signal.Delivery.{Taken, next_pending-Taken, has_pending_iff}
use axebergos.Kernel.Signal.Masks.{asked_to_block, sigprocmask_lem}
use axebergos.Kernel.Signal.Sane.{IsSane}
use axebergos.Kernel.Signal.History.{
  sends, blocks, sets, takes_next, masks, run, run-new_signals-IsSane,
}
use axebergos.Kernel.Signal.Fatal.{process_signals-kill}
use axebergos.Kernel.Signal.Revival.{process_signals-zombie}

-- SIGTERM and SIGINT wait, SIGTERM is blocked.
abbrev waiting_two : ProcessSignals
waiting_two = record {
  disposition = (sigint, handle) ∷ [];
  pending = sigterm ∷ sigint ∷ [];
  blocked = sigterm ∷ [];
  stopped = false;
}

takes_the_second : (next_pending waiting_two).1 ≡ some sigint
unfolding next_pending select take_first contains
takes_the_second = refl

cont_clears_stop : (send (send new_signals sigstop) sigcont).pending ≡ sigcont ∷ []
unfolding send unstop new_signals contains
cont_clears_stop = refl

next_pending-Taken_example : Taken waiting_two
next_pending-Taken_example = next_pending-Taken waiting_two

has_pending_iff_example : (has_pending waiting_two ≡ true) ↔ ((next_pending waiting_two).1 ≢ none)
has_pending_iff_example = has_pending_iff waiting_two

sigprocmask_lem_example :
    contains (sigprocmask waiting_two block_all 44).0.blocked sigkill
    ≡ asked_to_block block_all (contains waiting_two.blocked sigkill) 44 sigkill
sigprocmask_lem_example = sigprocmask_lem waiting_two block_all 44 sigkill

run-new_signals-IsSane_example : IsSane (
    run new_signals (
      sends sigkill
      ∷ sends sigkill
      ∷ blocks sigstop
      ∷ sets sigkill ignore
      ∷ masks set_mask 65535
      ∷ takes_next
      ∷ []))
run-new_signals-IsSane_example = run-new_signals-IsSane (
    sends sigkill
    ∷ sends sigkill
    ∷ blocks sigstop
    ∷ sets sigkill ignore
    ∷ masks set_mask 65535
    ∷ takes_next
    ∷ [])

abbrev one : Process
one = record { state = running; signals = waiting_two; was_continued = false }

waiting_two-IsSane : IsSane waiting_two
unfolding can_catch get_action Table.get
waiting_two-IsSane = record {
  coalesced = ((λ e. ground (arith, e), tt), (tt, tt));
  catchable = (refl, tt);
  unhandled = λ s e. ground (arith, e);
}

process_signals-kill_example :
    let after =
      process_signals (Table.insert 7 (record one { signals = send one.signals sigkill }) []) 7 in
    ((q : Process) × (Table.get 7 after.0 ≡ some q) × (q.state ≡ zombie (neg_i32 2)))
    × (after.1 ≡ some (sigkill, kill))
process_signals-kill_example = process_signals-kill [] 7 one waiting_two-IsSane

-- A process that was sent SIGKILL and then SIGSTOP, after the first of the two was delivered.
abbrev killed : Process
killed = record {
  state = zombie (neg_i32 2);
  signals = record { disposition = []; pending = sigstop ∷ []; blocked = []; stopped = false };
  was_continued = false;
}

killed-IsSane : IsSane killed.signals
unfolding get_action Table.get
killed-IsSane = record { coalesced = (tt, tt); catchable = tt; unhandled = λ s e. refl }

killed_next : (next_pending killed.signals).1 ≡ some sigstop
unfolding next_pending select take_first
killed_next = refl

abbrev one_killed : Table.Table ℕ Process
one_killed = (7, killed) ∷ []

killed_entry : Table.get 7 one_killed ≡ some killed
unfolding Table.get
killed_entry = refl

process_signals-zombie_example :
    (q : Process) × (Table.get 7 (process_signals one_killed 7).0 ≡ some q) × (q.state ≡ stopped)
process_signals-zombie_example =
    process_signals-zombie one_killed 7 (neg_i32 2) killed killed_entry refl killed-IsSane
      killed_next
