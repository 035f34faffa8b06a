-- ===== src/Kernel/WorkStealing/Deque/Underflow.antt =====
-- A pop of a deque to which nothing was pushed yet.
use axebergos.Prelude.{ℕ, ◌≡◌, refl, number_key, same_refl, [], ◌∷◌, none}
use axebergos.Kernel.WorkStealing.Deque.{
  owner, thief, pop, stolen, new_system, new_inner, run, step, owner_step, thief_step, begin,
}

-- While the owner of a deque to which nothing was pushed yet is in its `pop`, a thief whose `steal`
-- runs between the store of the bottom index and the store that restores it succeeds, with a slot
-- that was never written.
pub run-stolen_unwritten :
    {T : Type 0} (capacity i : ℕ)
    → (run (new_system {T = T} capacity) (owner pop ∷ thief i ∷ thief i ∷ thief i ∷ thief i ∷ [])).1
      ≡ stolen none ∷ []
unfolding run step owner_step thief_step begin new_system new_inner
run-stolen_unwritten capacity i = rw (same_refl i) refl
