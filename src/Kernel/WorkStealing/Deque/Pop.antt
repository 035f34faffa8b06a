-- ===== src/Kernel/WorkStealing/Deque/Pop.antt =====
-- Each access of a `pop`, but for its claim of the last task.
use axebergos.Prelude.{
  ℕ, ◌+◌, ◌-◌, ◌<◌, ◌≡◌, refl, sym, ap, ◌∙◌, true, false, ◌==◌, number_key, List, [], ◌∷◌, ◌++◌,
  some, inl, inr, length, get_elem?, Bool-cases, arith,
}
use axebergos.Prelude.Words.{u32_mod, is_pos_i64}
use axebergos.Kernel.WorkStealing.Deque.{
  idle, pop_stored, pop_none, pop_read, pop_claimed, pop, System, begin, pop_load, wrapping_sub,
  wrapping_add, unpack_bottom, read_slot,
}
use axebergos.Kernel.WorkStealing.Deque.Words.{packed}
use axebergos.Kernel.WorkStealing.Deque.Invariant.{OwnerKnows, StandsFor, Outcome}
use axebergos.Kernel.WorkStealing.Deque.Changes.{
  length-snoc, get_elem?-snoc, List-cases_last, Holds-init, ThiefKnows-init,
}
use axebergos.Kernel.WorkStealing.Deque.Access.{moved, stays, top_index}

module _ {T : Type 0} (s : System T) (t : ℕ) (tasks : List T) (h : StandsFor s t tasks)
    (small : t + length tasks + 1 < u32_mod) where
  pub begin-pop :
      OwnerKnows s.inner tasks (t + length tasks) idle
      → Outcome s t tasks (moved s t tasks h small (begin s.inner pop))
  unfolding begin
  begin-pop k =
      let index : unpack_bottom s.inner.bottom ≡ t + length tasks = rw k (omega (arith, small)) in
      let less : wrapping_sub (t + length tasks) 1 ≡ t + length tasks - 1 =
        omega (arith, small, h.begun) in
      rw (index, less)
        (
          t,
          tasks,
          refl,
          stays s t tasks h small (t + length tasks - 1) (pop_stored (t + length tasks))
              (refl, refl),
          omega arith,
          refl,
        )

  pub pop-restore :
      (top : ℕ)
      → OwnerKnows s.inner tasks (t + length tasks) (pop_none top)
      → Outcome s t tasks (moved s t tasks h small (record s.inner { bottom = top }, idle, []))
  pop-restore top k = (t, tasks, refl, stays s t tasks h small top idle k.1, omega arith, refl)

  pub pop-restore_last :
      (top : ℕ)
      → OwnerKnows s.inner tasks (t + length tasks) (pop_claimed top)
      → Outcome s t tasks
          (moved s t tasks h small (record s.inner { bottom = wrapping_add top 1 }, idle, []))
  pop-restore_last top k = (
    t,
    tasks,
    refl,
    stays s t tasks h small (wrapping_add top 1) idle (omega (arith, k.1, small)),
    omega arith,
    refl,
  )

  -- The newest of several tasks is the owner's.
  pub pop-several :
      (rest : List T) (x : T)
      → tasks ≡ rest ++ x ∷ []
      → 0 < length rest
      → s.inner.bottom ≡ t + length tasks - 1
      → StandsFor (record s { worker = idle }) t rest
  pop-several rest x e more k =
      let size : length tasks ≡ length rest + 1 = rw e (length-snoc rest x) in
      record {
        top_is = h.top_is;
        begun = omega (arith, more);
        holds = Holds-init s.inner.slots s.inner.capacity t rest x (rw (← e) h.holds);
        owner_knows = omega (arith, k, size);
        thieves_know =
            λ i. ThiefKnows-init t rest x (s.thieves i) more (rw (← e) (h.thieves_know i));
      }

  -- What the owner reads at the index of the newest task.
  pub newest :
      (rest : List T) (x : T)
      → tasks ≡ rest ++ x ∷ []
      → read_slot s.inner (t + length tasks - 1) ≡ some x
  newest rest x e =
      let size : length tasks ≡ length rest + 1 = rw e (length-snoc rest x) in
      let index : t + length tasks - 1 ≡ t + length rest = omega (arith, size) in
      rw index (h.holds.filled (length rest) (omega (arith, size)) ∙ rw e (get_elem?-snoc rest x))

  pub pop-load :
      (old : ℕ)
      → OwnerKnows s.inner tasks (t + length tasks) (pop_stored old)
      → Outcome s t tasks (moved s t tasks h small (pop_load s.inner old))
  unfolding pop_load
  pop-load old k =
      let size : wrapping_sub (t + length tasks) t ≡ length tasks = omega (arith, small) in
      let less : wrapping_sub (t + length tasks) 1 ≡ t + length tasks - 1 =
        omega (arith, small, h.begun) in
      elim (List-cases_last tasks) [
        | inl e ↦
            let empty : length tasks ≡ 0 = rw e refl in
            let none_left : is_pos_i64 (length tasks) ≡ false = ground (arith, empty) in
            rw (k.1, top_index s t tasks h small, size, none_left)
              (
                t,
                tasks,
                (tasks, (refl, e), refl),
                stays s t tasks h small s.inner.bottom (pop_none t)
                    (k.0, omega (arith, empty), empty),
                omega arith,
                refl,
              )
        | inr (rest, x, e) ↦
            let grown : length tasks ≡ length rest + 1 = rw e (length-snoc rest x) in
            let some_left : is_pos_i64 (length tasks) ≡ true = ground (arith, grown, small) in
            elim (Bool-cases (length tasks == 1)) [
              | inl one ↦
                  let lone : length rest ≡ 0 = ground (arith, one, grown) in
                  let front : get_elem? tasks 0 ≡ some x =
                    rw e (ap (get_elem? (rest ++ x ∷ [])) (sym lone) ∙ get_elem?-snoc rest x) in
                  rw (k.1, top_index s t tasks h small, size, less, some_left, one)
                    (
                      t,
                      tasks,
                      refl,
                      stays s t tasks h small s.inner.bottom
                          (pop_read s.inner.top (read_slot s.inner (t + length tasks - 1)))
                          (
                            k.0,
                            h.top_is ∙ ap packed (omega (arith, lone, grown)),
                            omega (arith, lone, grown),
                            λ n. newest rest x e ∙ sym front,
                          ),
                      omega arith,
                      refl,
                    )
              | inr more ↦
                  rw (k.1, top_index s t tasks h small, size, less, some_left, more)
                    (
                      t,
                      rest,
                      (rest, (x, newest rest x e, e), refl),
                      pop-several rest x e (ground (arith, more, grown)) k.0,
                      omega (arith, grown),
                      refl,
                    )
            ]
      ]
