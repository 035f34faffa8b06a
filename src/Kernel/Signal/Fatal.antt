-- ===== src/Kernel/Signal/Fatal.antt =====
-- A SIGKILL ends the process, whatever it blocked, handled or still had pending.
use axebergos.Prelude.{
  ℕ, ◌≡◌, ◌≢◌, refl, List, [], ◌∷◌, ◌++◌, some, inl, inr, All-of_append, number_key, same_refl,
}
use axebergos.Prelude.Words.{neg_i32}
use axebergos.Prelude.Table
use axebergos.Prelude.Table.{Table}
use axebergos.Kernel.Signal.{Signal, sigkill, signal_key, kill, can_catch, resolve_action}
use axebergos.Kernel.Signal.Process.{ProcessSignals, unstop, send, next_pending}
use axebergos.Kernel.Signal.Delivery.{Lacks, takes, takes_none, next_pending-Taken}
use axebergos.Kernel.Signal.Sane.{IsSane, send-IsSane}
use axebergos.Kernel.Signal.Action.{zombie, Process, apply_action, take_signal, process_signals}

send-sigkill : (ps : ProcessSignals) → (send ps sigkill).pending ≡ ps.pending ++ sigkill ∷ []
unfolding send unstop
send-sigkill ps = refl

lacking : (xs : List Signal) → ¬ Lacks sigkill (xs ++ sigkill ∷ [])
lacking xs a = (All-of_append (λ x. x ≢ sigkill) xs (sigkill ∷ []) a).1.0 refl

-- With SIGKILL sent, `next_pending` answers SIGKILL and leaves the dispositions.
next_pending-send :
    (ps : ProcessSignals)
    → ((next_pending (send ps sigkill)).1 ≡ some sigkill)
      × ((next_pending (send ps sigkill)).0.disposition ≡ (send ps sigkill).disposition)
next_pending-send ps = elim (next_pending-Taken (send ps sigkill)) [
  | takes s pre post e t (inl (k, l)) ↦ rw (t, k) (refl, refl)
  | takes s pre post e t (inr (inl (k, l, m))) ↦
      absurd (lacking ps.pending (rw (← send-sigkill ps) l))
  | takes s pre post e t (inr (inr (l, m, b, q))) ↦
      absurd (lacking ps.pending (rw (← send-sigkill ps) l))
  | takes_none t l m a ↦ absurd (lacking ps.pending (rw (← send-sigkill ps) l))
]

resolve_action-sigkill :
    (ps : ProcessSignals) → IsSane ps → resolve_action sigkill ps.disposition ≡ kill
unfolding resolve_action can_catch
resolve_action-sigkill ps h = rw (h.unhandled sigkill refl) refl

pub take_signal-some :
    (p : Process) (s : Signal)
    → (next_pending p.signals).1 ≡ some s
    → let signals = (next_pending p.signals).0 in
      let action = resolve_action s signals.disposition in
      take_signal p ≡ (apply_action (record p { signals = signals }) s action, some (s, action))
unfolding take_signal
take_signal-some p s e = rw (take_signal, e) refl

take_signal-send :
    (p : Process)
    → IsSane p.signals
    → ((take_signal (record p { signals = send p.signals sigkill })).0.state ≡ zombie (neg_i32 2))
      × ((take_signal (record p { signals = send p.signals sigkill })).1 ≡ some (sigkill, kill))
unfolding apply_action
take_signal-send p h =
    let (next, same) = next_pending-send p.signals in
    let action =
      resolve_action-sigkill (send p.signals sigkill) (send-IsSane p.signals sigkill h) in
    rw (take_signal-some (record p { signals = send p.signals sigkill }) sigkill next, same, action)
      (refl, refl)

pub get_inserted :
    (pid : ℕ) (p : Process) (ps : Table ℕ Process) → Table.get pid (Table.insert pid p ps) ≡ some p
get_inserted pid p ps = rw (Table.get-insert pid pid p ps, same_refl pid) refl

pub process_signals-some :
    (ps : Table ℕ Process) (pid : ℕ) (p : Process)
    → Table.get pid ps ≡ some p
    → process_signals ps pid ≡ (Table.insert pid (take_signal p).0 ps, (take_signal p).1)
unfolding process_signals
process_signals-some ps pid p e = rw (process_signals, e) refl

-- When SIGKILL is sent to a process of the table whose signal state is sane, the next
-- `process_signals` makes it a zombie of status -2 and answers the signal, whatever the process
-- blocked and whatever else was pending.
pub process_signals-kill :
    (ps : Table ℕ Process) (pid : ℕ) (p : Process)
    → IsSane p.signals
    → let after =
        process_signals (Table.insert pid (record p { signals = send p.signals sigkill }) ps) pid in
      ((q : Process) × (Table.get pid after.0 ≡ some q) × (q.state ≡ zombie (neg_i32 2)))
      × (after.1 ≡ some (sigkill, kill))
process_signals-kill ps pid p h =
    let sent = record p { signals = send p.signals sigkill } in
    let before = Table.insert pid sent ps in
    let (state, answer) = take_signal-send p h in
    rw (process_signals-some before pid sent (get_inserted pid sent ps))
      (((take_signal sent).0, get_inserted pid (take_signal sent).0 before, state), answer)
