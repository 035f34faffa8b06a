-- ===== src/Kernel/WorkStealing/Deque/Tests.antt =====
-- Runs of the deque, and its theorems at concrete inputs.
use mathlib.Core.List.{Perm}
use axebergos.Prelude.{ℕ, ◌≡◌, refl, List, [], ◌∷◌, ◌++◌, none, some, arith}
use axebergos.Kernel.WorkStealing.Deque.{
  Turn, owner, thief, pop, pushed, stolen, pop_empty, retried, new_system, run, step, owner_step,
  thief_step, begin, pop_load, pop_claim, next_top, pack_top, new_inner,
}
use axebergos.Kernel.WorkStealing.Deque.Spec.{Explains, put_in, taken_out}
use axebergos.Kernel.WorkStealing.Deque.Left.{left}
use axebergos.Kernel.WorkStealing.Deque.Refinement.{
  first_push, run-new_system-Explains, run-new_system-perm,
}
use axebergos.Kernel.WorkStealing.Deque.Underflow.{run-stolen_unwritten}

-- The owner and two thieves race for the only task: thief 1 wins.
abbrev race : List (Turn ℕ)
race =
    thief 0
    ∷ thief 1
    ∷ thief 0
    ∷ thief 1
    ∷ owner pop
    ∷ owner pop
    ∷ thief 1
    ∷ thief 0
    ∷ thief 1
    ∷ thief 0
    ∷ owner pop
    ∷ owner pop
    ∷ []

one_winner :
    (run (new_system 4) (first_push 7 race)).1
    ≡ pushed 7 ∷ stolen (some 7) ∷ retried ∷ pop_empty ∷ []
unfolding run step owner_step thief_step begin pop_load pop_claim next_top pack_top new_system
    new_inner
one_winner = refl

run-new_system-Explains_example :
    (after : List ℕ) × Explains 4 [] (run (new_system 4) (first_push 7 race)).1 after
run-new_system-Explains_example = run-new_system-Explains 4 7 race (omega arith) (omega arith)

run-new_system-perm_example : Perm (put_in (run (new_system 4) (first_push 7 race)).1) (
    taken_out (run (new_system 4) (first_push 7 race)).1
    ++ left (run (new_system 4) (first_push 7 race)).0)
run-new_system-perm_example = run-new_system-perm 4 7 race (omega arith) (omega arith)

run-stolen_unwritten_example :
    (run (new_system {T = ℕ} 4) (owner pop ∷ thief 0 ∷ thief 0 ∷ thief 0 ∷ thief 0 ∷ [])).1
    ≡ stolen none ∷ []
run-stolen_unwritten_example = run-stolen_unwritten {T = ℕ} 4 0
