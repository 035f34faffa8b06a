-- ===== src/Kernel/WorkStealing/Deque/Refinement.antt =====
-- Every schedule is explained by the list of tasks.
use mathlib.Core.List.{Perm}
use axebergos.Prelude.{
  ℕ, ◌+◌, ◌%◌, ◌<◌, number_key, same_refl, leb, false, ◌≡◌, refl, subst, ◌∙◌, List, [], ◌∷◌, ◌++◌,
  none, length, arith,
}
use axebergos.Prelude.Words.{u32_mod}
use axebergos.Kernel.WorkStealing.Deque.{
  idle, pushed, push, Turn, owner, thief, System, new_system, step, run, resting, update_slots,
  owner_step, begin, new_inner,
}
use axebergos.Kernel.WorkStealing.Deque.Spec.{
  Explains, Explains-append, Explains-perm, put_in, taken_out,
}
use axebergos.Kernel.WorkStealing.Deque.Invariant.{StandsFor, Outcome}
use axebergos.Kernel.WorkStealing.Deque.Left.{left, left_lem}
use axebergos.Kernel.WorkStealing.Deque.Owner.{owner-Outcome}
use axebergos.Kernel.WorkStealing.Deque.Thief.{thief-Outcome}

module _ {T : Type 0} where
  step-Outcome :
      (s : System T) (turn : Turn T) (t : ℕ) (tasks : List T)
      → StandsFor s t tasks
      → t + length tasks + 1 < u32_mod
      → Outcome s t tasks (step s turn)
  unfolding step
  step-Outcome s (owner request) t tasks h small =
      owner-Outcome s t tasks h small s.worker request h.owner_knows
  step-Outcome s (thief i) t tasks h small =
      thief-Outcome s t tasks h small i (s.thieves i) (h.thieves_know i)

  run-Explained :
      (c : ℕ) (ts : List (Turn T)) (s : System T) (t : ℕ) (tasks : List T)
      → s.inner.capacity ≡ c
      → StandsFor s t tasks
      → t + length tasks + length ts < u32_mod
      → Explains c tasks (run s ts).1 (left (run s ts).0)
  unfolding run
  run-Explained c [] s t tasks e h small = left_lem s t tasks h (omega (arith, small))
  run-Explained c (turn ∷ ts) s t tasks e h small =
      let (t', tasks', explained, h', near, same) =
        step-Outcome s turn t tasks h (omega (arith, small)) in
      Explains-append c tasks tasks' (left (run (step s turn).0 ts).0) (step s turn).1
        (run (step s turn).0 ts).1
        (subst (λ n. Explains n tasks (step s turn).1 tasks') e explained)
        (run-Explained c ts (step s turn).0 t' tasks' (same ∙ e) h' (omega (arith, small, near)))

  -- The turns in which the owner of a new deque pushes its first task.
  abbrev pub first_push : T → List (Turn T) → List (Turn T)
  first_push x ts = owner (push x) ∷ owner (push x) ∷ owner (push x) ∷ ts

  -- The deque after it.
  abbrev begun_system : ℕ → T → System T
  begun_system capacity x = record {
    inner = record {
      bottom = 1;
      top = 0;
      slots = update_slots (λ i. none) (0 % capacity) x;
      capacity = capacity;
    };
    worker = idle;
    thieves = λ i. resting;
  }

  begun-StandsFor :
      (capacity : ℕ) (x : T) → 0 < capacity → StandsFor (begun_system capacity x) 0 (x ∷ [])
  begun-StandsFor capacity x pos = record {
    top_is = refl;
    begun = omega arith;
    holds = record {
      filled = λ i lt.
          let first : i ≡ 0 = omega (arith, lt) in rw (first, same_refl (0 % capacity)) refl;
      fits = omega (arith, pos);
    };
    owner_knows = refl;
    thieves_know = λ i. tt;
  }

  run-first_push :
      (capacity : ℕ) (x : T) (ts : List (Turn T))
      → 0 < capacity
      → run (new_system capacity) (first_push x ts)
        ≡ ((run (begun_system capacity x) ts).0, pushed x ∷ (run (begun_system capacity x) ts).1)
  unfolding run step new_system new_inner owner_step begin
  run-first_push capacity x ts pos =
      let room : leb capacity 0 ≡ false = ground (arith, pos) in rw room refl

  run-new_system-Explained :
      (capacity : ℕ) (x : T) (ts : List (Turn T))
      → 0 < capacity
      → length ts + 1 < u32_mod
      → Explains capacity []
          (run (new_system capacity) (first_push x ts)).1
          (left (run (new_system capacity) (first_push x ts)).0)
  run-new_system-Explained capacity x ts pos small = rw (run-first_push capacity x ts pos) (
    x ∷ [],
    refl,
    run-Explained capacity ts (begun_system capacity x) 0 (x ∷ []) refl
        (begun-StandsFor capacity x pos) (omega (arith, small)),
  )

  -- On a deque of any positive capacity, after the owner's first push and in any interleaving of fewer
  -- than 2^32 accesses by the owner and any number of thieves: each call takes effect at one moment on a
  -- list of tasks, where a push adds at the end, a pop takes from the end, a steal takes the first,
  -- and both answer that very task.
  pub run-new_system-Explains :
      (capacity : ℕ) (x : T) (ts : List (Turn T))
      → 0 < capacity
      → length ts + 1 < u32_mod
      → (after : List T) × Explains capacity []
          (run (new_system capacity) (first_push x ts)).1
          after
  run-new_system-Explains capacity x ts pos small = (
    left (run (new_system capacity) (first_push x ts)).0,
    run-new_system-Explained capacity x ts pos small,
  )

  -- On a deque of any positive capacity, after the owner's first push and in any interleaving of fewer
  -- than 2^32 accesses: the tasks pushed are, in some order, those popped, those stolen and those that
  -- stand in the slots of the last state from its top index to its bottom index (one more while a
  -- `pop` is under way). So none is lost, none is taken twice, and nothing else is taken.
  pub run-new_system-perm :
      (capacity : ℕ) (x : T) (ts : List (Turn T))
      → 0 < capacity
      → length ts + 1 < u32_mod
      → Perm (put_in (run (new_system capacity) (first_push x ts)).1) (
          taken_out (run (new_system capacity) (first_push x ts)).1
          ++ left (run (new_system capacity) (first_push x ts)).0)
  run-new_system-perm capacity x ts pos small =
      Explains-perm capacity [] (left (run (new_system capacity) (first_push x ts)).0)
        (run (new_system capacity) (first_push x ts)).1
        (run-new_system-Explained capacity x ts pos small)
