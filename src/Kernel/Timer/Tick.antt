-- ===== src/Kernel/Timer/Tick.antt =====
-- What `tick` of the timer queue leaves of each timer.
use axebergos.Prelude.{
  ℕ, ◌≡◌, refl, number_key, [], Option, none, some, inl, inr, if◌then◌else◌, length, Bool-cases,
  Option-cases, arith,
}
use axebergos.Prelude.Table
use axebergos.Prelude.Table.{Table, get-insert, get-retain, keep_if}
use axebergos.Kernel.Timer.{
  Clock, Timer, TimerQueue, pending, is_pending_state, fire, reset_interval, Round, rounds, tick,
}
use axebergos.Kernel.Timer.Heap.{IsOrdered, deadline_of, HasDistinctIds}
use axebergos.Kernel.Timer.Rounds.{settled, Agrees, settled-none, rounds-get}

module _ {Time : Type 0} (clock : Clock Time) where
  -- A queue whose heap has one entry for each id, with the timer's deadline.
  pub record IsQueue (q : TimerQueue Time) : Type 0 where
    pub distinct : HasDistinctIds clock q.heap
    pub entered :
        (id : ℕ) (t : Timer Time)
        → Table.get id q.timers ≡ some t
        → deadline_of clock id q.heap ≡ some t.deadline

  tick-get :
      (q : TimerQueue Time) (now : Time) (id : ℕ)
      → Table.get id (tick clock q now).0.timers
        ≡ keep_if
            (λ t. is_pending_state t.state)
            (Table.get id
              (rounds clock
                (length q.heap)
                (record {
                  heap = q.heap;
                  timers = q.timers;
                  tasks_to_wake = [];
                  to_reschedule = [];
                })
                now).timers)
  unfolding tick
  tick-get q now id = get-retain (λ t. is_pending_state t.state) id _

  -- What a tick at `now` leaves of a timer: one that is not pending goes; one whose deadline is later
  -- stays as it is; one that is due goes, or starts again at `now` if it has an interval.
  abbrev pub restarted : Option Time → Timer Time → Time → Option (Timer Time)
  restarted none t now = none
  restarted (some gap) t now = some (record t { deadline = clock.plus now gap; state = pending })

  abbrev pub ticked : Option (Timer Time) → Time → Option (Timer Time)
  ticked none now = none
  ticked (some t) now =
      if is_pending_state t.state
      then if clock.before t.deadline now then restarted t.interval t now else some t
      else none

  kept :
      (t : Timer Time) (now : Time)
      → keep_if (λ u. is_pending_state u.state) (settled clock (some t.deadline) (some t) now)
        ≡ ticked (some t) now
  unfolding fire reset_interval
  kept t now = elim (Bool-cases (is_pending_state t.state)) [
    | inr p ↦ elim (Bool-cases (clock.before t.deadline now)) [
      | inl b ↦ ground (arith, b, p)
      | inr b ↦ ground (arith, b, p)
    ]
    | inl p ↦ elim (Bool-cases (clock.before t.deadline now)) [
      | inr b ↦ ground (arith, b, p)
      | inl b ↦ elim (Option-cases t.interval) [
        | inl i ↦ ground (arith, b, p, i)
        | inr (gap, i) ↦ ground (arith, b, p, i)
      ]
    ]
  ]

  -- A tick of a queue in order, on a clock whose times are totally ordered, drops a timer that is not
  -- pending, leaves one whose deadline is after `now`, and drops one that is due, or starts it again
  -- at `now` plus its interval.
  pub tick_lem :
      (q : TimerQueue Time) (now : Time) (id : ℕ)
      → IsOrdered clock
      → IsQueue q
      → Table.get id (tick clock q now).0.timers ≡ ticked (Table.get id q.timers) now
  tick_lem q now id o h =
      let start : Round clock = record {
        heap = q.heap;
        timers = q.timers;
        tasks_to_wake = [];
        to_reschedule = [];
      } in
      let agree : Agrees clock q.heap q.timers = λ i d t e g. ground (arith, e, h.entered i t g) in
      let loop = rounds-get clock (length q.heap) start now id o refl h.distinct agree in
      rw (tick-get q now id, loop)
        (elim (Option-cases (Table.get id q.timers)) [
          | inl e ↦ rw (e, settled-none clock (deadline_of clock id q.heap) now) refl
          | inr (t, e) ↦ rw (e, h.entered id t e) (kept t now)
        ])
