-- ===== src/Kernel/WorkStealing/Deque/Push.antt =====
-- Each access of a `push`.
use axebergos.Prelude.{
  ℕ, ◌+◌, ◌%◌, ◌<◌, ◌≡◌, refl, number_key, same_refl, List, [], ◌∷◌, ◌++◌, inl, inr, length, leb,
  Bool-cases, arith,
}
use axebergos.Prelude.Words.{u32_mod}
use axebergos.Kernel.WorkStealing.Deque.{
  idle, push_checked, push_written, pushed, push, System, begin, wrapping_sub, wrapping_add,
  unpack_bottom, write_slot,
}
use axebergos.Kernel.WorkStealing.Deque.Invariant.{OwnerKnows, StandsFor, Outcome}
use axebergos.Kernel.WorkStealing.Deque.Changes.{
  length-snoc, Holds-write, Holds-snoc, ThiefKnows-snoc,
}
use axebergos.Kernel.WorkStealing.Deque.Access.{moved, stays, top_index}

module _ {T : Type 0} (s : System T) (t : ℕ) (tasks : List T) (h : StandsFor s t tasks)
    (small : t + length tasks + 1 < u32_mod) where
  pub begin-push :
      (task : T)
      → OwnerKnows s.inner tasks (t + length tasks) idle
      → Outcome s t tasks (moved s t tasks h small (begin s.inner (push task)))
  unfolding begin
  begin-push task k =
      let index : unpack_bottom s.inner.bottom ≡ t + length tasks = rw k (omega (arith, small)) in
      let size : wrapping_sub (t + length tasks) t ≡ length tasks = omega (arith, small) in
      elim (Bool-cases (leb s.inner.capacity (length tasks))) [
        | inl full ↦
            rw (top_index s t tasks h small, index, size, full)
              (
                t,
                tasks,
                (tasks, (refl, ground (arith, full)), refl),
                stays s t tasks h small s.inner.bottom idle k,
                omega arith,
                refl,
              )
        | inr room ↦
            rw (top_index s t tasks h small, index, size, room)
              (
                t,
                tasks,
                refl,
                stays s t tasks h small s.inner.bottom (push_checked task (t + length tasks))
                    (k, refl, ground (arith, room)),
                omega arith,
                refl,
              )
      ]

  pub push-write :
      (task : T) (b : ℕ)
      → OwnerKnows s.inner tasks (t + length tasks) (push_checked task b)
      → Outcome s t tasks
          (moved s t tasks h small (write_slot s.inner b task, push_written task b, []))
  push-write task b k = (
    t,
    tasks,
    refl,
    record {
      top_is = h.top_is;
      begun = h.begun;
      holds = rw (k.1) (Holds-write s.inner.slots s.inner.capacity t tasks task h.holds k.2);
      owner_knows =
          (k.0, k.1, k.2, rw (k.1, same_refl ((t + length tasks) % s.inner.capacity)) refl);
      thieves_know = h.thieves_know;
    },
    omega arith,
    refl,
  )

  pub push-store :
      (task : T) (b : ℕ)
      → OwnerKnows s.inner tasks (t + length tasks) (push_written task b)
      → Outcome s t tasks (
          moved s t tasks h small
            (record s.inner { bottom = wrapping_add b 1 }, idle, pushed task ∷ []))
  push-store task b k = (
    t,
    tasks ++ task ∷ [],
    (tasks ++ task ∷ [], refl, refl),
    record {
      top_is = h.top_is;
      begun = omega (arith, length-snoc tasks task);
      holds = Holds-snoc s.inner.slots s.inner.capacity t tasks task h.holds k.2 k.3;
      owner_knows = omega (arith, k.1, small, length-snoc tasks task);
      thieves_know = λ i. ThiefKnows-snoc t tasks task (s.thieves i) (h.thieves_know i);
    },
    omega (arith, length-snoc tasks task),
    refl,
  )
