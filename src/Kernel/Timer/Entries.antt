-- ===== src/Kernel/Timer/Entries.antt =====
-- The entries of the heap and those that a tick puts back, side by side.
use axebergos.Prelude.{
  ℕ, ◌≤◌, ◌≡◌, refl, ◌⊎◌, true, number_key, List, [], ◌∷◌, ◌++◌, Option, none, some, arith,
}
use axebergos.Prelude.Table
use axebergos.Prelude.Table.{Table, get-insert}
use axebergos.Kernel.Timer.{Clock, Timer, TimerEntry, is_pending_state, Round}
use axebergos.Kernel.Timer.Heap.{deadline_of, HasDistinctIds}

module _ {Time : Type 0} (clock : Clock Time) where
  abbrev or_else : Option Time → Option Time → Option Time
  or_else none b = b
  or_else (some a) b = some a

  pub deadline_of-append :
      (id : ℕ) (xs ys : List (TimerEntry Time))
      → deadline_of clock id (xs ++ ys)
        ≡ or_else (deadline_of clock id xs) (deadline_of clock id ys)
  unfolding deadline_of
  deadline_of-append id [] ys = refl
  deadline_of-append id (x ∷ xs) ys = ground (arith, deadline_of-append id xs ys)

  -- No id has an entry in both.
  abbrev pub Apart : List (TimerEntry Time) → List (TimerEntry Time) → Type 0
  Apart xs ys = (id : ℕ) → (deadline_of clock id xs ≡ none) ⊎ (deadline_of clock id ys ≡ none)

  pub HasDistinctIds-append :
      (xs ys : List (TimerEntry Time))
      → HasDistinctIds clock xs
      → HasDistinctIds clock ys
      → Apart xs ys
      → HasDistinctIds clock (xs ++ ys)
  unfolding deadline_of
  HasDistinctIds-append [] ys h k a = k
  HasDistinctIds-append (x ∷ xs) ys h k a = (
    ground (arith, deadline_of-append x.id xs ys, h.0, a x.id),
    HasDistinctIds-append xs ys h.1 k (λ id. ground (arith, a id)),
  )

  -- The entries and the timers in the midst of a tick, with ids below `next_id`.
  pub record IsRound (next_id : ℕ) (r : Round clock) : Type 0 where
    pub heap_distinct : HasDistinctIds clock r.heap
    pub again_distinct : HasDistinctIds clock r.to_reschedule
    pub apart : Apart r.to_reschedule r.heap
    pub entered :
        (id : ℕ) (t : Timer Time)
        → Table.get id r.timers ≡ some t
        → is_pending_state t.state ≡ true
        → deadline_of clock id (r.to_reschedule ++ r.heap) ≡ some t.deadline
    pub named : (id : ℕ) (t : Timer Time) → Table.get id r.timers ≡ some t → t.id ≡ id
    pub fresh : (id : ℕ) → next_id ≤ id → deadline_of clock id (r.to_reschedule ++ r.heap) ≡ none
