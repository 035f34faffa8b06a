-- ===== src/Kernel/Timer/Again.antt =====
-- The loop of `tick` keeps the entries and the timers together.
use axebergos.Prelude.{
  ℕ, zero, suc, ◌≡◌, refl, ◌∙◌, true, false, ◌==◌, number_key, same_refl, List, [], ◌∷◌, ◌++◌, none,
  some, inl, inr, if◌then◌else◌, Bool-cases, Option-cases, arith,
}
use axebergos.Prelude.Table
use axebergos.Prelude.Table.{Table, get-insert}
use axebergos.Kernel.Timer.{
  Clock, Timer, TimerEntry, pending, fired, is_pending_state, is_expired, fire, reset_interval,
  Round, expire, visit, rounds, add_task,
}
use axebergos.Kernel.Timer.Heap.{IsOrdered, deadline_of, HasDistinctIds, IsPopped, pop-IsPopped}
use axebergos.Kernel.Timer.Rounds.{rounds-none, rounds-early, rounds-due, rounds-zero}
use axebergos.Kernel.Timer.Entries.{deadline_of-append, HasDistinctIds-append, IsRound}

module _ {Time : Type 0} (clock : Clock Time) where
  visit-none_eq :
      (r : Round clock) (i : ℕ) (now : Time) → Table.get i r.timers ≡ none → visit clock r i now ≡ r
  unfolding visit
  visit-none_eq r i now e = rw (visit, e) refl

  visit-idle_eq :
      (r : Round clock) (i : ℕ) (now : Time) (t : Timer Time)
      → Table.get i r.timers ≡ some t
      → is_pending_state t.state ≡ false
      → visit clock r i now ≡ r
  unfolding visit
  visit-idle_eq r i now t e p = rw (visit, e, p) refl

  visit-due_eq :
      (r : Round clock) (i : ℕ) (now : Time) (t : Timer Time)
      → Table.get i r.timers ≡ some t
      → is_pending_state t.state ≡ true
      → clock.before t.deadline now ≡ true
      → visit clock r i now ≡ expire clock r t i now
  unfolding visit is_expired
  visit-due_eq r i now t e p due = rw (visit, e, p, due) refl

  -- A timer that fires for the last time, and one that starts again.
  abbrev once : Timer Time → Timer Time
  once t = record t { state = fired }

  abbrev again : Timer Time → Time → Time → Timer Time
  again t now gap = record t { deadline = clock.plus now gap; state = pending }

  expire-once :
      (r : Round clock) (i : ℕ) (now : Time) (t : Timer Time)
      → is_pending_state t.state ≡ true
      → t.interval ≡ none
      → expire clock r t i now ≡ record r {
        timers = Table.insert i (once t) r.timers;
        tasks_to_wake = add_task clock r.tasks_to_wake t.wake_task;
      }
  unfolding expire fire reset_interval
  expire-once r i now t p e = ground (arith, p, e)

  expire-again :
      (r : Round clock) (i : ℕ) (now gap : Time) (t : Timer Time)
      → is_pending_state t.state ≡ true
      → t.interval ≡ some gap
      → expire clock r t i now ≡ record r {
        timers = Table.insert i (again t now gap) r.timers;
        tasks_to_wake = add_task clock r.tasks_to_wake t.wake_task;
        to_reschedule = r.to_reschedule ++ record { deadline = clock.plus now gap; id = t.id } ∷ [];
      }
  unfolding expire fire reset_interval
  expire-again r i now gap t p e = ground (arith, p, e)

  gone-IsRound :
      {next_id : ℕ} (r : Round clock) (f : TimerEntry Time) (rest : List (TimerEntry Time))
      → IsRound clock next_id r
      → IsPopped clock r.heap f rest
      → ((t : Timer Time) → Table.get f.id r.timers ≡ some t → is_pending_state t.state ≡ true → ⊥)
      → IsRound clock next_id (record r { heap = rest })
  gone-IsRound r f rest h p idle = record {
    heap_distinct = p.distinct;
    again_distinct = h.again_distinct;
    apart = λ id. ground (arith, h.apart id, p.others id);
    entered = λ id t e q. ground (
      arith,
      e,
      q,
      h.entered id t e q,
      idle t,
      p.others id,
      deadline_of-append clock id r.to_reschedule rest,
      deadline_of-append clock id r.to_reschedule r.heap,
    );
    named = h.named;
    fresh = λ id k. ground (
      arith,
      h.fresh id k,
      p.others id,
      deadline_of-append clock id r.to_reschedule rest,
      deadline_of-append clock id r.to_reschedule r.heap,
    );
  }

  once-IsRound :
      {next_id : ℕ} (r : Round clock) (i : ℕ) (t : Timer Time) (tasks : List ℕ)
      → IsRound clock next_id r
      → Table.get i r.timers ≡ some t
      → IsRound clock next_id
          (record r { timers = Table.insert i (once t) r.timers; tasks_to_wake = tasks })
  once-IsRound r i t tasks h e = record {
    heap_distinct = h.heap_distinct;
    again_distinct = h.again_distinct;
    apart = h.apart;
    entered = λ id u g q. ground (arith, g, q, get-insert i id (once t) r.timers, h.entered id u);
    named =
        λ id u g. ground (arith, g, get-insert i id (once t) r.timers, h.named id u, h.named i t e);
    fresh = h.fresh;
  }

  deadline_of-one :
      (id : ℕ) (e : TimerEntry Time)
      → deadline_of clock id (e ∷ []) ≡ (if e.id == id then some e.deadline else none)
  unfolding deadline_of
  deadline_of-one id e = refl

  HasDistinctIds-one : (e : TimerEntry Time) → HasDistinctIds clock (e ∷ [])
  unfolding deadline_of
  HasDistinctIds-one e = (refl, tt)

  again-IsRound :
      {next_id : ℕ} (r : Round clock) (f : TimerEntry Time) (rest : List (TimerEntry Time))
      (t : Timer Time) (now gap : Time) (tasks : List ℕ)
      → IsRound clock next_id r
      → IsPopped clock r.heap f rest
      → Table.get f.id r.timers ≡ some t
      → IsRound clock next_id (record {
        heap = rest;
        timers = Table.insert f.id (again t now gap) r.timers;
        tasks_to_wake = tasks;
        to_reschedule = r.to_reschedule ++ record { deadline = clock.plus now gap; id = t.id } ∷ [];
      })
  again-IsRound r f rest t now gap tasks h p e =
      let entry : TimerEntry Time = record { deadline = clock.plus now gap; id = t.id } in
      let own : t.id ≡ f.id = h.named f.id t e in
      let here : deadline_of clock f.id r.heap ≡ some f.deadline =
        p.others f.id ∙ rw (same_refl f.id) refl in
      let left : deadline_of clock f.id r.to_reschedule ≡ none =
        ground (arith, h.apart f.id, here) in
      record {
        heap_distinct = p.distinct;
        again_distinct =
            HasDistinctIds-append clock r.to_reschedule (entry ∷ []) h.again_distinct
              (HasDistinctIds-one entry)
              (λ id. ground (arith, own, left, deadline_of-one id entry));
        apart = λ id. ground (
          arith,
          own,
          h.apart id,
          p.others id,
          p.gone,
          deadline_of-append clock id r.to_reschedule (entry ∷ []),
          deadline_of-one id entry,
        );
        entered = λ id u g q. ground (
          arith,
          own,
          g,
          q,
          left,
          get-insert f.id id (again t now gap) r.timers,
          h.entered id u,
          p.others id,
          p.gone,
          deadline_of-append clock id (r.to_reschedule ++ entry ∷ []) rest,
          deadline_of-append clock id r.to_reschedule (entry ∷ []),
          deadline_of-append clock id r.to_reschedule r.heap,
          deadline_of-one id entry,
        );
        named = λ id u g.
            ground (arith, g, get-insert f.id id (again t now gap) r.timers, h.named id u, own);
        fresh = λ id k. ground (
          arith,
          own,
          h.fresh id k,
          p.others id,
          deadline_of-append clock id (r.to_reschedule ++ entry ∷ []) rest,
          deadline_of-append clock id r.to_reschedule (entry ∷ []),
          deadline_of-append clock id r.to_reschedule r.heap,
          deadline_of-one id entry,
        );
      }

  -- A round of the loop.
  visit-IsRound :
      {next_id : ℕ} (r : Round clock) (f : TimerEntry Time) (rest : List (TimerEntry Time))
      (now : Time)
      → IsRound clock next_id r
      → IsPopped clock r.heap f rest
      → clock.before f.deadline now ≡ true
      → IsRound clock next_id (visit clock (record r { heap = rest }) f.id now)
  visit-IsRound r f rest now h p due = elim (Option-cases (Table.get f.id r.timers)) [
    | inl e ↦
        rw (visit-none_eq (record r { heap = rest }) f.id now e)
          (gone-IsRound r f rest h p (λ t g q. ground (arith, e, g)))
    | inr (t, e) ↦ elim (Bool-cases (is_pending_state t.state)) [
      | inr q ↦
          rw (visit-idle_eq (record r { heap = rest }) f.id now t e q)
            (gone-IsRound r f rest h p (λ u g k. ground (arith, e, g, q, k)))
      | inl q ↦
          let here : deadline_of clock f.id r.heap ≡ some f.deadline =
            p.others f.id ∙ rw (same_refl f.id) refl in
          let on_time : clock.before t.deadline now ≡ true =
            let same : f.deadline ≡ t.deadline = ground (
              arith,
              h.entered f.id t e q,
              deadline_of-append clock f.id r.to_reschedule r.heap,
              h.apart f.id,
              here,
            ) in
            rw (← same) due in
          rw (visit-due_eq (record r { heap = rest }) f.id now t e q on_time)
            (elim (Option-cases t.interval) [
              | inl i ↦ rw (expire-once (record r { heap = rest }) f.id now t q i) (
                  gone-IsRound
                    (record r {
                      timers = Table.insert f.id (once t) r.timers;
                      tasks_to_wake = add_task clock r.tasks_to_wake t.wake_task;
                    })
                    f rest (once-IsRound r f.id t _ h e) p
                    (λ u g k. ground (arith, g, k, get-insert f.id f.id (once t) r.timers)))
              | inr (gap, i) ↦
                  rw (expire-again (record r { heap = rest }) f.id now gap t q i)
                    (again-IsRound r f rest t now gap _ h p e)
            ])
    ]
  ]

  -- The loop keeps the invariant.
  pub rounds-IsRound :
      {next_id : ℕ} (fuel : ℕ) (r : Round clock) (now : Time)
      → IsOrdered clock
      → IsRound clock next_id r
      → IsRound clock next_id (rounds clock fuel r now)
  rounds-IsRound zero r now o h = rw (rounds-zero clock r now) h
  rounds-IsRound (suc fuel) r now o h = elim (pop-IsPopped clock r.heap o h.heap_distinct) [
    | inl (empty, q) ↦ rw (rounds-none clock fuel r now q) h
    | inr (f, rest, q, p) ↦ elim (Bool-cases (clock.before f.deadline now)) [
      | inr b ↦ rw (rounds-early clock fuel r now f rest q b) h
      | inl b ↦ rw (rounds-due clock fuel r now f rest q b) (
          rounds-IsRound fuel (visit clock (record r { heap = rest }) f.id now) now o
            (visit-IsRound r f rest now h p b))
    ]
  ]
