-- ===== src/Kernel/Timer/Woken.antt =====
-- The tasks that `tick` of the timer queue wakes.
use mathlib.Core.List.{Memᴰ}
use mathlib.Core.List.Memᴰ
use axebergos.Prelude.{
  ℕ, zero, suc, ◌≡◌, ◌↔◌, refl, sym, ap, subst, ◌∙◌, ◌⊎◌, true, false, ◌&&◌, ◌==◌, number_key,
  same_refl, List, [], ◌∷◌, Option, none, some, inl, inr, if◌then◌else◌, length, Bool-cases, arith,
}
use axebergos.Prelude.Table
use axebergos.Prelude.Table.{Table}
use axebergos.Kernel.Timer.{
  Clock, Timer, TimerEntry, TimerQueue, is_pending_state, is_expired, fire, reset_interval, Round,
  expire, visit, rounds, add_task, tick,
}
use axebergos.Kernel.Timer.Heap.{
  IsOrdered, deadline_of, deadline_of-nil, HasDistinctIds, IsPopped, pop-IsPopped,
}
use axebergos.Kernel.Timer.Rounds.{
  settled, Agrees, visit-heap, visit-get, later, visit-Agrees, rounds-none, rounds-early,
  rounds-due, rounds-zero,
}
use axebergos.Kernel.Timer.Tick.{IsQueue}

module _ {Time : Type 0} (clock : Clock Time) where
  -- A pending timer of the task, in the table and in the heap, whose deadline has come.
  abbrev pub IsDue : List (TimerEntry Time) → Table ℕ (Timer Time) → Time → ℕ → Type 0
  IsDue heap timers now task =
      (id : ℕ) × (t : Timer Time) × (Table.get id timers ≡ some t)
      × (deadline_of clock id heap ≡ some t.deadline)
      × (is_pending_state t.state ≡ true)
      × (clock.before t.deadline now ≡ true)
      × (t.wake_task ≡ some task)

  -- The task that a visit of a timer wakes.
  abbrev woken_by : Option (Timer Time) → Time → Option ℕ
  woken_by none now = none
  woken_by (some t) now =
      if is_pending_state t.state && clock.before t.deadline now then t.wake_task else none

  visit-tasks :
      (r : Round clock) (i : ℕ) (now : Time)
      → (visit clock r i now).tasks_to_wake
        ≡ add_task clock r.tasks_to_wake (woken_by (Table.get i r.timers) now)
  unfolding visit expire is_expired fire reset_interval
  visit-tasks r i now = ground arith

  Mem-add_task :
      (task : ℕ) (tasks : List ℕ) (o : Option ℕ)
      → Memᴰ task (add_task clock tasks o) ↔ (Memᴰ task tasks ⊎ (o ≡ some task))
  Mem-add_task task tasks none = (λ m. inl m, λ s. elim s [ inl m ↦ m | inr e ↦ ground (arith, e) ])
  Mem-add_task task tasks (some a) = (
    λ m. elim (Memᴰ.append_cases tasks m) [
      | inl l ↦ inl l
      | inr l ↦ inr (ap some (sym (Memᴰ.eq_of_singleton l)))
    ],
    λ s. elim s [
      | inl m ↦ Memᴰ.append_left (a ∷ []) m
      | inr e ↦ Memᴰ.append_right tasks (Memᴰ.head (ground (arith, e)))
    ],
  )

  -- A timer whose visit wakes the task.
  woken :
      (o : Option (Timer Time)) (now : Time) (task : ℕ)
      → woken_by o now ≡ some task
      → (t : Timer Time) × (o ≡ some t)
        × (is_pending_state t.state ≡ true)
        × (clock.before t.deadline now ≡ true)
        × (t.wake_task ≡ some task)
  woken none now task e = ground (arith, e)
  woken (some t) now task e = elim (Bool-cases (is_pending_state t.state)) [
    | inr p ↦ ground (arith, e, p)
    | inl p ↦ elim (Bool-cases (clock.before t.deadline now)) [
      | inr b ↦ ground (arith, e, p, b)
      | inl b ↦ (t, refl, p, b, ground (arith, e, p, b))
    ]
  ]

  -- A task that is woken already, or is that of a timer that is due.
  abbrev Awaited : Round clock → Time → ℕ → Type 0
  Awaited r now task = Memᴰ task r.tasks_to_wake ⊎ IsDue r.heap r.timers now task

  module _ (r : Round clock) (f : TimerEntry Time) (rest : List (TimerEntry Time)) (now : Time)
      (task : ℕ) (p : IsPopped clock r.heap f rest) (agrees : Agrees clock r.heap r.timers)
      (due : clock.before f.deadline now ≡ true) where
    abbrev visited : Round clock
    visited = visit clock (record r { heap = rest }) f.id now

    own : (u : Timer Time) → Table.get f.id r.timers ≡ some u → u.deadline ≡ f.deadline
    own u k = agrees f.id f.deadline u (rw (p.others f.id, same_refl f.id) refl) k

    seen :
        (id : ℕ)
        → Table.get id visited.timers ≡ (
            if f.id == id
            then settled clock (some f.deadline) (Table.get id r.timers) now
            else Table.get id r.timers)
    seen id = visit-get clock (record r { heap = rest }) f.id id f.deadline now own due

    added :
        visited.tasks_to_wake
        ≡ add_task clock r.tasks_to_wake (woken_by (Table.get f.id r.timers) now)
    added = visit-tasks (record r { heap = rest }) f.id now

    left : visited.heap ≡ rest
    left = visit-heap clock (record r { heap = rest }) f.id now

    kept : (id : ℕ) → (f.id == id) ≡ false → deadline_of clock id r.heap ≡ deadline_of clock id rest
    kept id e = p.others id ∙ rw e refl

    stays : Awaited r now task → Awaited visited now task
    stays (inl m) = inl (rw added ((Mem-add_task task r.tasks_to_wake _).1 (inl m)))
    stays (inr (id, t, g, d, s, b, w)) = elim (Bool-cases (f.id == id)) [
      | inl e ↦
          let same : f.id ≡ id = ground (arith, e) in
          inl (rw added ((Mem-add_task task r.tasks_to_wake _).1 (inr (rw (same, g, s, b) w))))
      | inr e ↦ inr (id, t, rw (seen id, e) g, rw left (sym (kept id e) ∙ d), s, b, w)
    ]

    comes : Awaited visited now task → Awaited r now task
    comes (inl m) = elim ((Mem-add_task task r.tasks_to_wake _).0 (subst (Memᴰ task) added m)) [
      | inl l ↦ inl l
      | inr e ↦
          let (t, g, s, b, w) = woken (Table.get f.id r.timers) now task e in
          inr (f.id, t, g, rw (p.others f.id, same_refl f.id) (ap some (sym (own t g))), s, b, w)
    ]
    comes (inr (id, t, g, d, s, b, w)) = elim (Bool-cases (f.id == id)) [
      | inl e ↦
          let same : f.id ≡ id = ground (arith, e) in
          ground (arith, same, p.gone, ap (deadline_of clock id) left, d)
      | inr e ↦ inr (
        id,
        t,
        ground (arith, g, seen id, e),
        kept id e ∙ ap (deadline_of clock id) (sym left) ∙ d,
        s,
        b,
        w,
      )
    ]

  none_due :
      (r : Round clock) (now : Time) (task : ℕ)
      → (IsDue r.heap r.timers now task → ⊥)
      → Memᴰ task r.tasks_to_wake ↔ Awaited r now task
  none_due r now task free = (λ m. inl m, λ s. elim s [ inl m ↦ m | inr d ↦ elim (free d) [ ] ])

  none_due-empty :
      (r : Round clock) (now : Time) (task : ℕ)
      → r.heap ≡ []
      → Memᴰ task r.tasks_to_wake ↔ Awaited r now task
  none_due-empty r now task empty =
      none_due r now task
        (λ d. ground (arith, d.3, ap (deadline_of clock d.0) empty, deadline_of-nil clock d.0))

  -- The loop wakes what is due.
  rounds-Awaited :
      (fuel : ℕ) (r : Round clock) (now : Time) (task : ℕ)
      → IsOrdered clock
      → length r.heap ≡ fuel
      → HasDistinctIds clock r.heap
      → Agrees clock r.heap r.timers
      → Memᴰ task (rounds clock fuel r now).tasks_to_wake ↔ Awaited r now task
  rounds-Awaited zero r now task o n h a = elim (pop-IsPopped clock r.heap o h) [
    | inl (empty, q) ↦ rw (rounds-zero clock r now) (none_due-empty r now task empty)
    | inr (f, rest, q, p) ↦ ground (arith, n, p.shorter)
  ]
  rounds-Awaited (suc fuel) r now task o n h a = elim (pop-IsPopped clock r.heap o h) [
    | inl (empty, q) ↦ rw (rounds-none clock fuel r now q) (none_due-empty r now task empty)
    | inr (f, rest, q, p) ↦ elim (Bool-cases (clock.before f.deadline now)) [
      | inr b ↦ rw (rounds-early clock fuel r now f rest q b) (
          none_due r now task (λ (id, t, g, d, s, due, w).
            ground (arith, due, later clock r.heap rest f now id t.deadline o p b d)))
      | inl b ↦
          let r' = visit clock (record r { heap = rest }) f.id now in
          let same : r'.heap ≡ rest = left r f rest now task p a b in
          let ih =
            rounds-Awaited fuel r' now task o (rw same (omega (arith, n, p.shorter)))
              (rw same p.distinct) (rw same (visit-Agrees clock r rest f now p b a)) in
          rw (rounds-due clock fuel r now f rest q b) (
            λ m. comes r f rest now task p a b (ih.0 m),
            λ s. ih.1 (stays r f rest now task p a b s),
          )
    ]
  ]

  -- A tick of a queue in order wakes the tasks of the pending timers whose deadline has come, and no
  -- other.
  pub tick-woken :
      (q : TimerQueue Time) (now : Time) (task : ℕ)
      → IsOrdered clock
      → IsQueue clock q
      → Memᴰ task (tick clock q now).1 ↔ (
          (id : ℕ) × (t : Timer Time) × (Table.get id q.timers ≡ some t)
          × (is_pending_state t.state ≡ true)
          × (clock.before t.deadline now ≡ true)
          × (t.wake_task ≡ some task))
  unfolding tick
  tick-woken q now task o h =
      let start : Round clock = record {
        heap = q.heap;
        timers = q.timers;
        tasks_to_wake = [];
        to_reschedule = [];
      } in
      let agree : Agrees clock q.heap q.timers = λ i d t e g. ground (arith, e, h.entered i t g) in
      let (there, back) = rounds-Awaited (length q.heap) start now task o refl h.distinct agree in
      (
        λ m. elim (there m) [
          | inl n ↦ elim (Memᴰ.not-nil n) [ ]
          | inr (id, t, g, d, s, b, w) ↦ (id, t, g, s, b, w)
        ],
        λ (id, t, g, s, b, w). back (inr (id, t, g, h.entered id t g, s, b, w)),
      )
