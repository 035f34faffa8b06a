-- ===== src/Kernel/Timer/History.antt =====
-- Histories of calls on a timer queue.
use mathlib.Core.List.{Memᴰ}
use axebergos.Prelude.{
  ◌↔◌, ℕ, ◌+◌, ◌≤◌, ◌<◌, ◌≡◌, refl, Bool, true, number_key, List, [], ◌∷◌, Option, none, some, inl,
  inr, length, Bool-cases, Option-cases, arith,
}
use axebergos.Prelude.Words.{u64_mod}
use axebergos.Prelude.Table
use axebergos.Prelude.Table.{Table, get-insert, get-retain, keep_if}
use axebergos.Kernel.Timer.{
  Clock, Timer, TimerQueue, pending, cancelled, is_pending_state, new_queue, add_timer, schedule,
  schedule_interval, cancel, Round, rounds, tick,
}
use axebergos.Kernel.Timer.Heap.{IsOrdered, deadline_of}
use axebergos.Kernel.Timer.Entries.{IsRound, HasDistinctIds-append}
use axebergos.Kernel.Timer.Again.{rounds-IsRound}
use axebergos.Kernel.Timer.Tick.{IsQueue, ticked, tick_lem}
use axebergos.Kernel.Timer.Woken.{tick-woken}

-- The calls that change a queue.
pub data Call (Time : Type 0) : Type 0 where
  schedules schedules_interval : Time → Time → Option ℕ → Call Time
  cancels : ℕ → Call Time
  ticks : Time → Call Time

module _ {Time : Type 0} (clock : Clock Time) where
  unfoldable pub step : TimerQueue Time → Call Time → TimerQueue Time
  step q (schedules delay now task) = (schedule clock q delay now task).0
  step q (schedules_interval interval now task) = (schedule_interval clock q interval now task).0
  step q (cancels id) = (cancel clock q id).0
  step q (ticks now) = (tick clock q now).0

  unfoldable pub run : TimerQueue Time → List (Call Time) → TimerQueue Time
  run q [] = q
  run q (c ∷ cs) = run (step q c) cs

  -- A queue in order, whose ids are below the next one.
  record IsWell (q : TimerQueue Time) : Type 0 where
    in_order : IsQueue clock q
    named : (id : ℕ) (t : Timer Time) → Table.get id q.timers ≡ some t → t.id ≡ id
    fresh : (id : ℕ) → q.next_id ≤ id → deadline_of clock id q.heap ≡ none

  new_queue-IsWell : IsWell (new_queue clock)
  unfolding new_queue deadline_of Table.get
  new_queue-IsWell = record {
    in_order = record { distinct = tt; entered = λ id t e. ground (arith, e) };
    named = λ id t e. ground (arith, e);
    fresh = λ id k. refl;
  }

  add_timer-IsWell :
      (q : TimerQueue Time) (deadline : Time) (interval : Option Time) (task : Option ℕ)
      → IsWell q
      → q.next_id + 1 < u64_mod
      → IsWell (add_timer clock q deadline interval task).0
  unfolding add_timer deadline_of
  add_timer-IsWell q deadline interval task h small =
      let timer : Timer Time = record {
        id = q.next_id;
        deadline = deadline;
        wake_task = task;
        state = pending;
        interval = interval;
      } in
      record {
        in_order = record {
          distinct = (h.fresh q.next_id (omega arith), h.in_order.distinct);
          entered = λ id t e.
              ground (arith, e, get-insert q.next_id id timer q.timers, h.in_order.entered id t);
        };
        named = λ id t e. ground (arith, e, get-insert q.next_id id timer q.timers, h.named id t);
        fresh = λ id k. ground (arith, k, small, h.fresh id);
      }

  cancel-IsWell : (q : TimerQueue Time) (id : ℕ) → IsWell q → IsWell (cancel clock q id).0
  unfolding cancel
  cancel-IsWell q id h = elim (Option-cases (Table.get id q.timers)) [
    | inl e ↦ rw (cancel, e) h
    | inr (t, e) ↦ elim (Bool-cases (is_pending_state t.state)) [
      | inr p ↦ rw (cancel, e, p) h
      | inl p ↦
          let gone : Timer Time = record t { state = cancelled } in
          rw (cancel, e, p)
            (record {
              in_order = record {
                distinct = h.in_order.distinct;
                entered = λ i u g. ground (
                  arith,
                  g,
                  get-insert id i gone q.timers,
                  h.in_order.entered i u,
                  h.in_order.entered id t e,
                );
              };
              named = λ i u g.
                  ground (arith, g, get-insert id i gone q.timers, h.named i u, h.named id t e);
              fresh = h.fresh;
            })
    ]
  ]

  -- The state in which the loop of `tick` starts.
  abbrev start : TimerQueue Time → Round clock
  start q = record { heap = q.heap; timers = q.timers; tasks_to_wake = []; to_reschedule = [] }

  start-IsRound : (q : TimerQueue Time) → IsWell q → IsRound clock q.next_id (start q)
  unfolding deadline_of
  start-IsRound q h = record {
    heap_distinct = h.in_order.distinct;
    again_distinct = tt;
    apart = λ id. inl refl;
    entered = λ id t e p. h.in_order.entered id t e;
    named = h.named;
    fresh = h.fresh;
  }

  kept :
      (p : Timer Time → Bool) (id : ℕ) (t : Timer Time) (timers : Table ℕ (Timer Time))
      → Table.get id (Table.retain p timers) ≡ some t
      → (Table.get id timers ≡ some t) × (p t ≡ true)
  kept p id t timers e = elim (Option-cases (Table.get id timers)) [
    | inl g ↦ ground (arith, e, g, get-retain p id timers)
    | inr (u, g) ↦ ground (arith, e, g, get-retain p id timers)
  ]

  cancel_next_id : (q : TimerQueue Time) (id : ℕ) → (cancel clock q id).0.next_id ≡ q.next_id
  unfolding cancel
  cancel_next_id q id = ground arith

  tick_next_id : (q : TimerQueue Time) (now : Time) → (tick clock q now).0.next_id ≡ q.next_id
  unfolding tick
  tick_next_id q now = refl

  tick-IsWell :
      (q : TimerQueue Time) (now : Time) → IsOrdered clock → IsWell q → IsWell (tick clock q now).0
  unfolding tick
  tick-IsWell q now o h =
      let r = rounds clock (length q.heap) (start q) now in
      let k : IsRound clock q.next_id r =
        rounds-IsRound clock (length q.heap) (start q) now o (start-IsRound q h) in
      let held : (id : ℕ) (t : Timer Time)
          → Table.get id (Table.retain (λ u. is_pending_state u.state) r.timers) ≡ some t
          → (Table.get id r.timers ≡ some t) × (is_pending_state t.state ≡ true) =
        λ id t e. kept (λ u. is_pending_state u.state) id t r.timers e in
      record {
        in_order = record {
          distinct =
              HasDistinctIds-append clock r.to_reschedule r.heap k.again_distinct k.heap_distinct
                k.apart;
          entered = λ id t e. k.entered id t (held id t e).0 (held id t e).1;
        };
        named = λ id t e. k.named id t (held id t e).0;
        fresh = k.fresh;
      }

  step-IsWell :
      (q : TimerQueue Time) (c : Call Time)
      → IsOrdered clock
      → IsWell q
      → q.next_id + 1 < u64_mod
      → IsWell (step q c) × ((step q c).next_id ≤ q.next_id + 1)
  unfolding step schedule schedule_interval add_timer
  step-IsWell q (schedules delay now task) o h small =
      (add_timer-IsWell q (clock.plus now delay) none task h small, omega (arith, small))
  step-IsWell q (schedules_interval interval now task) o h small = (
    add_timer-IsWell q (clock.plus now interval) (some interval) task h small,
    omega (arith, small),
  )
  step-IsWell q (cancels id) o h small =
      (cancel-IsWell q id h, rw (cancel_next_id q id) (omega arith))
  step-IsWell q (ticks now) o h small =
      (tick-IsWell q now o h, rw (tick_next_id q now) (omega arith))

  run-IsWell :
      (cs : List (Call Time)) (q : TimerQueue Time)
      → IsOrdered clock
      → IsWell q
      → q.next_id + length cs < u64_mod
      → IsWell (run q cs)
  unfolding run
  run-IsWell [] q o h small = h
  run-IsWell (c ∷ cs) q o h small =
      let (h', near) = step-IsWell q c o h (omega (arith, small)) in
      run-IsWell cs (step q c) o h' (omega (arith, small, near))

  run-new_queue-IsQueue :
      (cs : List (Call Time))
      → IsOrdered clock
      → length cs + 1 < u64_mod
      → IsQueue clock (run (new_queue clock) cs)
  unfolding new_queue
  run-new_queue-IsQueue cs o small =
      (run-IsWell cs (new_queue clock) o new_queue-IsWell (omega (arith, small))).in_order

  -- On a clock whose times are totally ordered, after any calls on a new queue, fewer than 2^64 - 1 of
  -- them, a tick drops each timer that is not pending, leaves each whose deadline is after `now`, and
  -- drops each that is due, or starts it again at `now` plus its interval.
  pub run-new_queue-tick :
      (cs : List (Call Time)) (now : Time) (id : ℕ)
      → IsOrdered clock
      → length cs + 1 < u64_mod
      → Table.get id (tick clock (run (new_queue clock) cs) now).0.timers
        ≡ ticked clock (Table.get id (run (new_queue clock) cs).timers) now
  run-new_queue-tick cs now id o small =
      tick_lem clock (run (new_queue clock) cs) now id o (run-new_queue-IsQueue cs o small)

  -- On such a clock, after such calls, a tick wakes a task exactly when there is a pending timer of the
  -- task whose deadline has come.
  pub run-new_queue-woken :
      (cs : List (Call Time)) (now : Time) (task : ℕ)
      → IsOrdered clock
      → length cs + 1 < u64_mod
      → Memᴰ task (tick clock (run (new_queue clock) cs) now).1 ↔ (
          (id : ℕ) × (t : Timer Time) × (Table.get id (run (new_queue clock) cs).timers ≡ some t)
          × (is_pending_state t.state ≡ true)
          × (clock.before t.deadline now ≡ true)
          × (t.wake_task ≡ some task))
  run-new_queue-woken cs now task o small =
      tick-woken clock (run (new_queue clock) cs) now task o (run-new_queue-IsQueue cs o small)
