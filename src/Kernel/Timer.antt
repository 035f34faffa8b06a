-- ===== src/Kernel/Timer.antt =====
-- kernel/timer.rs: timers and their queue. Times are f64 milliseconds that are no NaN: a type with its
-- comparison and its addition, the parameter `clock`. The binary heap is the list of its entries; its
-- greatest entry is the first of least deadline (entries of one deadline compare as equal, and which of
-- them `BinaryHeap` answers first is left open by its documentation).
pub mod Heap
pub mod Rounds
pub mod Entries
pub mod Again
pub mod Tick
pub mod History
pub mod Woken
mod Tests
use axebergos.Prelude.{
  ℕ, zero, suc, ◌+◌, ◌%◌, Bool, true, false, not, ◌&&◌, ◌==◌, number_key, List, [], ◌∷◌, ◌++◌,
  Option, none, some, if◌then◌else◌, length, map_option,
}
use axebergos.Prelude.Words.{u64_mod}
use axebergos.Prelude.Table
use axebergos.Prelude.Table.{Table}

-- `a <= b`, `a + b`, and `(a - b).max(0.0)` on times.
pub record Clock (Time : Type 0) : Type 0 where
  pub before : Time → Time → Bool
  pub plus : Time → Time → Time
  pub until : Time → Time → Time

pub data TimerState : Type 0 where
  pending fired cancelled : TimerState

abbrev pub is_pending_state : TimerState → Bool
is_pending_state pending = true
is_pending_state fired = false
is_pending_state cancelled = false

pub record Timer (Time : Type 0) : Type 0 where
  pub id : ℕ
  pub deadline : Time
  pub wake_task : Option ℕ
  pub state : TimerState
  pub interval : Option Time

pub record TimerEntry (Time : Type 0) : Type 0 where
  pub deadline : Time
  pub id : ℕ

pub record TimerQueue (Time : Type 0) : Type 0 where
  pub heap : List (TimerEntry Time)
  pub timers : Table ℕ (Timer Time)
  pub next_id : ℕ

module _ {Time : Type 0} (clock : Clock Time) where
  unfoldable pub is_expired : Timer Time → Time → Bool
  is_expired t now = is_pending_state t.state && clock.before t.deadline now

  unfoldable pub fire : Timer Time → Timer Time × Option ℕ
  fire t = if is_pending_state t.state then (record t { state = fired }, t.wake_task) else (t, none)

  unfoldable pub reset_interval : Timer Time → Time → Timer Time × Bool
  reset_interval t now = elim t.interval [
    | none ↦ (t, false)
    | some gap ↦ (record t { deadline = clock.plus now gap; state = pending }, true)
  ]

  unfoldable pub new_queue : TimerQueue Time
  new_queue = record { heap = []; timers = []; next_id = 1 }

  -- `schedule` and `schedule_interval`: the deadline and the interval of the timer.
  unfoldable pub add_timer : TimerQueue Time → Time → Option Time → Option ℕ → TimerQueue Time × ℕ
  add_timer q deadline interval wake_task =
      let id = q.next_id in
      let timer : Timer Time = record {
        id = id;
        deadline = deadline;
        wake_task = wake_task;
        state = pending;
        interval = interval;
      } in
      (
        record {
          heap = record { deadline = deadline; id = id } ∷ q.heap;
          timers = Table.insert id timer q.timers;
          next_id = (id + 1) % u64_mod;
        },
        id,
      )

  unfoldable pub schedule : TimerQueue Time → Time → Time → Option ℕ → TimerQueue Time × ℕ
  schedule q delay now wake_task = add_timer q (clock.plus now delay) none wake_task

  unfoldable pub schedule_interval : TimerQueue Time → Time → Time → Option ℕ → TimerQueue Time × ℕ
  schedule_interval q interval now wake_task =
      add_timer q (clock.plus now interval) (some interval) wake_task

  unfoldable pub cancel : TimerQueue Time → ℕ → TimerQueue Time × Bool
  cancel q id = elim (Table.get id q.timers) [
    | none ↦ (q, false)
    | some t ↦
        if is_pending_state t.state
        then (record q { timers = Table.insert id (record t { state = cancelled }) q.timers }, true)
        else (q, false)
  ]

  -- `peek` and `pop` together: the entry of least deadline, and the others.
  unfoldable pub pop : List (TimerEntry Time) → Option (TimerEntry Time × List (TimerEntry Time))
  pop [] = none
  pop (e ∷ es) = elim (pop es) [
    | none ↦ some (e, [])
    | some found ↦
        if clock.before e.deadline (found.0).deadline
        then some (e, es)
        else some (found.0, e ∷ found.1)
  ]

  -- The state of the loop of `tick`.
  pub record Round : Type 0 where
    pub heap : List (TimerEntry Time)
    pub timers : Table ℕ (Timer Time)
    pub tasks_to_wake : List ℕ
    pub to_reschedule : List (TimerEntry Time)

  abbrev pub add_task : List ℕ → Option ℕ → List ℕ
  add_task tasks none = tasks
  add_task tasks (some task) = tasks ++ task ∷ []

  -- One expired timer: it fires, and starts again if it has an interval.
  unfoldable pub expire : Round → Timer Time → ℕ → Time → Round
  expire r t id now =
      let (t', task) = fire t in
      let (t'', again) = reset_interval t' now in
      record r {
        timers = Table.insert id t'' r.timers;
        tasks_to_wake = add_task r.tasks_to_wake task;
        to_reschedule =
            if again
            then r.to_reschedule ++ record { deadline = t''.deadline; id = t''.id } ∷ []
            else r.to_reschedule;
      }

  -- The body of the loop, after the pop.
  unfoldable pub visit : Round → ℕ → Time → Round
  visit r id now = elim (Table.get id r.timers) [
    | none ↦ r
    | some t ↦ if is_pending_state t.state && is_expired t now then expire r t id now else r
  ]

  -- The loop, which pops an entry in each round.
  unfoldable pub rounds : ℕ → Round → Time → Round
  rounds zero r now = r
  rounds (suc fuel) r now = elim (pop r.heap) [
    | none ↦ r
    | some found ↦
        let rest = rounds fuel (visit (record r { heap = found.1 }) (found.0).id now) now in
        if not (clock.before (found.0).deadline now) then r else rest
  ]

  unfoldable pub tick : TimerQueue Time → Time → TimerQueue Time × List ℕ
  tick q now =
      let start : Round = record {
        heap = q.heap;
        timers = q.timers;
        tasks_to_wake = [];
        to_reschedule = [];
      } in
      let r = rounds (length q.heap) start now in
      (
        record q {
          heap = r.to_reschedule ++ r.heap;
          timers = Table.retain (λ t. is_pending_state t.state) r.timers;
        },
        r.tasks_to_wake,
      )

  unfoldable pub time_until_next : TimerQueue Time → Time → Option Time
  time_until_next q now = map_option (λ found. clock.until ((found.0).deadline) now) (pop q.heap)

  unfoldable pub is_pending : TimerQueue Time → ℕ → Bool
  is_pending q id = elim (Table.get id q.timers) [
    | none ↦ false
    | some t ↦ is_pending_state t.state
  ]
