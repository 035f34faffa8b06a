-- ===== src/Kernel/WorkStealing/Deque/Invariant.antt =====
-- What holds of the deque between two accesses: the tasks that it stands for, and what each thread
-- knows of them.
use axebergos.Prelude.{ℕ, ◌+◌, ◌-◌, ◌%◌, ◌<◌, ◌≤◌, ◌≡◌, List, Option, some, length, get_elem?}
use axebergos.Prelude.Words.{u32_mod}
use axebergos.Kernel.WorkStealing.Deque.{
  Inner, OwnerPc, idle, push_checked, push_written, pop_stored, pop_none, pop_read, pop_claimed,
  Event, ThiefPc, resting, top_loaded, bottom_loaded, task_read, System,
}
use axebergos.Kernel.WorkStealing.Deque.Words.{packed}
use axebergos.Kernel.WorkStealing.Deque.Spec.{Explains}

-- A packed top that a thief loaded: a former one, or that of now.
abbrev pub IsLoaded : ℕ → ℕ → Type 0
IsLoaded p t = (p ≡ packed (p % u32_mod)) × (p % u32_mod ≤ t)

module _ {T : Type 0} where
  -- The tasks are those of the slots from the index `t` on, and a slot is free for one that is added.
  pub record Holds (slots : ℕ → Option T) (capacity t : ℕ) (tasks : List T) : Type 0 where
    pub filled : (i : ℕ) → i < length tasks → slots ((t + i) % capacity) ≡ get_elem? tasks i
    pub fits : length tasks ≤ capacity

  -- What the owner knows, where `last` is the index after that of the newest task.
  abbrev pub OwnerKnows : Inner T → List T → ℕ → OwnerPc T → Type 0
  OwnerKnows m tasks last idle = m.bottom ≡ last
  OwnerKnows m tasks last (push_checked task b) =
      (m.bottom ≡ last) × (b ≡ last) × (length tasks < m.capacity)
  OwnerKnows m tasks last (push_written task b) =
      (m.bottom ≡ last)
      × (b ≡ last)
      × (length tasks < m.capacity)
      × (m.slots (last % m.capacity) ≡ some task)
  OwnerKnows m tasks last (pop_stored old) = (m.bottom ≡ last - 1) × (old ≡ last)
  OwnerKnows m tasks last (pop_none top) = (m.bottom ≡ last - 1) × (top ≡ last) × (length tasks ≡ 0)
  OwnerKnows m tasks last (pop_read p found) =
      (m.bottom ≡ last - 1)
      × (p ≡ packed (last - 1))
      × (length tasks ≤ 1)
      × (length tasks ≡ 1 → found ≡ get_elem? tasks 0)
  OwnerKnows m tasks last (pop_claimed top) =
      (m.bottom ≡ last - 1) × (top + 1 ≡ last) × (length tasks ≡ 0)

  abbrev pub ThiefKnows : ℕ → List T → ThiefPc T → Type 0
  ThiefKnows t tasks resting = Unit
  ThiefKnows t tasks (top_loaded p) = IsLoaded p t
  ThiefKnows t tasks (bottom_loaded p) = IsLoaded p t × (p % u32_mod ≡ t → 0 < length tasks)
  ThiefKnows t tasks (task_read p found) =
      IsLoaded p t
      × (p % u32_mod ≡ t → 0 < length tasks)
      × (p % u32_mod ≡ t → found ≡ get_elem? tasks 0)

  -- The deque stands for `tasks`, the oldest of which has the index `t`.
  pub record StandsFor (s : System T) (t : ℕ) (tasks : List T) : Type 0 where
    pub top_is : s.inner.top ≡ packed t
    pub begun : 0 < t + length tasks
    pub holds : Holds s.inner.slots s.inner.capacity t tasks
    pub owner_knows : OwnerKnows s.inner tasks (t + length tasks) s.worker
    pub thieves_know : (i : ℕ) → ThiefKnows t tasks (s.thieves i)

  -- What an access came to: events that the list explains, and the state that it left.
  abbrev pub Outcome : System T → ℕ → List T → System T × List (Event T) → Type 0
  Outcome s t tasks result =
      (t' : ℕ) × (tasks' : List T) × Explains s.inner.capacity tasks result.1 tasks'
      × StandsFor (result.0) t' tasks'
      × (t' + length tasks' ≤ t + length tasks + 1)
      × ((result.0).inner.capacity ≡ s.inner.capacity)
