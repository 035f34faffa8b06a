-- ===== src/Kernel/WorkStealing/Deque/Left.antt =====
-- The tasks that a state of the deque still holds, read from its slots.
use axebergos.Prelude.{
  ℕ, zero, suc, ◌+◌, ◌-◌, ◌%◌, ◌<◌, ◌≡◌, refl, sym, ap, ◌∙◌, List, [], ◌∷◌, ◌++◌, Option, some,
  length, get_elem?, arith,
}
use axebergos.Prelude.Words.{u32_mod}
use axebergos.Kernel.WorkStealing.Deque.{
  OwnerPc, idle, push_checked, push_written, pop_stored, pop_none, pop_read, pop_claimed, System,
}
use axebergos.Kernel.WorkStealing.Deque.Words.{packed-index}
use axebergos.Kernel.WorkStealing.Deque.Spec.{one_of}
use axebergos.Kernel.WorkStealing.Deque.Invariant.{OwnerKnows, StandsFor}

module _ {T : Type 0} where
  -- `n` slots of a ring, from the index `start` on.
  unfoldable pub ring : (ℕ → Option T) → ℕ → ℕ → ℕ → List T
  ring slots capacity start zero = []
  ring slots capacity start (suc n) =
      one_of (slots (start % capacity)) ++ ring slots capacity (start + 1) n

  -- A `pop` under way has stored a bottom that is one less.
  abbrev pub borrowed : OwnerPc T → ℕ
  borrowed idle = 0
  borrowed (push_checked task bottom) = 0
  borrowed (push_written task bottom) = 0
  borrowed (pop_stored old_bottom) = 1
  borrowed (pop_none top) = 1
  borrowed (pop_read top task) = 1
  borrowed (pop_claimed top) = 1

  -- The tasks in the slots from the top index to the bottom index.
  unfoldable pub left : System T → List T
  left s =
      let top = s.inner.top % u32_mod in
      ring s.inner.slots s.inner.capacity top (s.inner.bottom + borrowed s.worker - top)

  ring_holds :
      (slots : ℕ → Option T) (capacity t : ℕ) (tasks : List T)
      → ((i : ℕ) → i < length tasks → slots ((t + i) % capacity) ≡ get_elem? tasks i)
      → ring slots capacity t (length tasks) ≡ tasks
  unfolding ring
  ring_holds slots capacity t [] h = refl
  ring_holds slots capacity t (x ∷ tasks) h =
      let start : t + 0 ≡ t = omega arith in
      let first : slots (t % capacity) ≡ some x =
        ap (λ k. slots (k % capacity)) (sym start) ∙ h 0 (omega arith) in
      let rest : (i : ℕ) → i < length tasks → slots ((t + 1 + i) % capacity) ≡ get_elem? tasks i =
        λ i lt.
          let next : t + 1 + i ≡ t + suc i = omega arith in
          ap (λ k. slots (k % capacity)) next ∙ h (suc i) (omega (arith, lt)) in
      rw first (ap (◌∷◌ x) (ring_holds slots capacity (t + 1) tasks rest))

  bottom_is :
      (s : System T) (tasks : List T) (last : ℕ) (pc : OwnerPc T)
      → 0 < last
      → OwnerKnows s.inner tasks last pc
      → s.inner.bottom + borrowed pc ≡ last
  bottom_is s tasks last idle pos k = omega (arith, k)
  bottom_is s tasks last (push_checked task b) pos k = omega (arith, k)
  bottom_is s tasks last (push_written task b) pos k = omega (arith, k.0)
  bottom_is s tasks last (pop_stored old) pos k = omega (arith, k, pos)
  bottom_is s tasks last (pop_none top) pos k = omega (arith, k, pos)
  bottom_is s tasks last (pop_read p found) pos k = omega (arith, k.0, pos)
  bottom_is s tasks last (pop_claimed top) pos k = omega (arith, k, pos)

  -- They are those that the deque stands for.
  pub left_lem :
      (s : System T) (t : ℕ) (tasks : List T)
      → StandsFor s t tasks
      → t + length tasks < u32_mod
      → left s ≡ tasks
  unfolding left
  left_lem s t tasks h small =
      let index : s.inner.top % u32_mod ≡ t =
        ap (λ p. p % u32_mod) h.top_is ∙ packed-index t (omega (arith, small)) in
      let last = bottom_is s tasks (t + length tasks) s.worker h.begun h.owner_knows in
      let many : s.inner.bottom + borrowed s.worker - t ≡ length tasks = omega (arith, last) in
      rw (index, many) (ring_holds s.inner.slots s.inner.capacity t tasks h.holds.filled)
