-- ===== src/Kernel/Timer/Tests.antt =====
-- Runs of the timer queue on a clock of natural numbers, and its theorem at a concrete input.
use mathlib.Core.List.{Memᴰ}
use axebergos.Prelude.{
  ◌↔◌, true, List, ℕ, ◌+◌, ◌-◌, ◌≡◌, refl, [], ◌∷◌, none, some, leb, arith, number_key,
}
use axebergos.Prelude.Table
use axebergos.Kernel.Timer.{
  Clock, Timer, is_pending_state, TimerQueue, new_queue, pending, cancelled, tick, rounds, pop,
  visit, expire, is_expired, fire, reset_interval,
}
use axebergos.Kernel.Timer.Heap.{IsOrdered}
use axebergos.Kernel.Timer.Tick.{ticked}
use axebergos.Kernel.Timer.History.{
  Call, schedules, schedules_interval, cancels, ticks, run, run-new_queue-tick, run-new_queue-woken,
}

abbrev by_number : Clock ℕ
by_number = record { before = leb; plus = λ a b. a + b; until = λ a b. a - b }

by_number-IsOrdered : IsOrdered by_number
by_number-IsOrdered = record {
  total = λ a b e. ground (arith, e);
  trans = λ a b c e f. ground (arith, e, f);
}

-- Timer 1 repeats every 5, timer 2 fires once at 9, timer 3 was cancelled.
abbrev three : TimerQueue ℕ
three = record {
  heap =
      record { deadline = 9; id = 2 }
      ∷ record { deadline = 3; id = 1 }
      ∷ record { deadline = 4; id = 3 }
      ∷ [];
  timers =
      (1, record { id = 1; deadline = 3; wake_task = some 11; state = pending; interval = some 5 })
      ∷ (2, record { id = 2; deadline = 9; wake_task = none; state = pending; interval = none })
      ∷ (
        3,
        record { id = 3; deadline = 4; wake_task = some 13; state = cancelled; interval = none },
      )
      ∷ [];
  next_id = 4;
}

wakes_one : (tick by_number three 4).1 ≡ 11 ∷ []
unfolding tick rounds pop visit expire is_expired fire reset_interval Table.get Table.insert
wakes_one = refl

-- The calls that make that queue, but for the moment of the third.
abbrev calls : List (Call ℕ)
calls =
    schedules_interval 5 0 (some 11)
    ∷ schedules 9 0 none
    ∷ schedules 4 0 (some 13)
    ∷ cancels 3
    ∷ ticks 2
    ∷ []

run-new_queue-tick_example :
    Table.get 1 (tick by_number (run by_number (new_queue by_number) calls) 6).0.timers
    ≡ ticked by_number (Table.get 1 (run by_number (new_queue by_number) calls).timers) 6
run-new_queue-tick_example =
    run-new_queue-tick by_number calls 6 1 by_number-IsOrdered (omega arith)

run-new_queue-woken_example :
    Memᴰ 11 (tick by_number (run by_number (new_queue by_number) calls) 6).1 ↔ (
      (id : ℕ) × (t : Timer ℕ) × (Table.get id (run by_number (new_queue by_number) calls).timers
        ≡ some t)
      × (is_pending_state t.state ≡ true)
      × (leb t.deadline 6 ≡ true)
      × (t.wake_task ≡ some 11))
run-new_queue-woken_example =
    run-new_queue-woken by_number calls 6 11 by_number-IsOrdered (omega arith)
