-- ===== src/Kernel/WorkStealing/Deque/Claim.antt =====
-- The claim of the last task by a `pop`.
use axebergos.Prelude.{
  ℕ, ◌+◌, ◌-◌, ◌%◌, ◌<◌, ◌≡◌, refl, ap, ◌∙◌, true, false, ◌==◌, number_key, List, [], ◌∷◌, Option,
  inl, inr, length, get_elem?, Bool-cases, arith,
}
use axebergos.Prelude.Words.{u32_mod}
use axebergos.Kernel.WorkStealing.Deque.{pop_read, pop_claimed, popped, System, pop_claim, next_top}
use axebergos.Kernel.WorkStealing.Deque.Words.{packed, packed-index}
use axebergos.Kernel.WorkStealing.Deque.Invariant.{OwnerKnows, StandsFor, Outcome}
use axebergos.Kernel.WorkStealing.Deque.Changes.{List-nil, List-cons, List-lone, ThiefKnows-next}
use axebergos.Kernel.WorkStealing.Deque.Access.{moved, stays, claim-StandsFor}

module _ {T : Type 0} (s : System T) (t : ℕ) (tasks : List T) (h : StandsFor s t tasks)
    (small : t + length tasks + 1 < u32_mod) where
  -- The claim wins exactly while the last task is there.
  pub claim-wins :
      (p : ℕ) (found : Option T)
      → OwnerKnows s.inner tasks (t + length tasks) (pop_read p found)
      → (s.inner.top == p) ≡ true
      → length tasks ≡ 1
  claim-wins p found k e = ground (arith, e, h.top_is, k.1, k.2, h.begun)

  pub claim-fails :
      (p : ℕ) (found : Option T)
      → OwnerKnows s.inner tasks (t + length tasks) (pop_read p found)
      → (s.inner.top == p) ≡ false
      → length tasks ≡ 0
  claim-fails p found k e = ground (arith, e, h.top_is, k.1, k.2, h.begun)

  pub pop-claim_won :
      (p : ℕ) (found : Option T) (bottom : ℕ)
      → (x : T) × (rest : List T) × (tasks ≡ x ∷ rest)
      → length tasks ≡ 1
      → p ≡ packed t
      → s.inner.bottom ≡ t + length tasks - 1
      → found ≡ get_elem? tasks 0
      → Outcome s t tasks (
          moved s t tasks h small
            (record s.inner { top = next_top p }, pop_claimed (p % u32_mod), popped found ∷ []))
  pop-claim_won p found bottom (x, rest, c) one now b read =
      let alone : length rest ≡ 0 = omega (arith, one, ap length c) in
      let index : p % u32_mod ≡ t = rw now (packed-index t (omega (arith, small))) in
      (
        t + 1,
        rest,
        (rest, (x, read ∙ ap (λ l. get_elem? l 0) c, List-lone tasks rest x c alone), refl),
        claim-StandsFor s t tasks h small x rest p c now (pop_claimed (p % u32_mod)) s.thieves
            (omega (arith, b, one, alone), omega (arith, index, one, alone), alone)
            (λ i. ThiefKnows-next t tasks rest (s.thieves i) (h.thieves_know i)),
        omega (arith, one, alone),
        refl,
      )

  pub pop-claim :
      (p : ℕ) (found : Option T)
      → OwnerKnows s.inner tasks (t + length tasks) (pop_read p found)
      → Outcome s t tasks (moved s t tasks h small (pop_claim s.inner p found))
  unfolding pop_claim
  pop-claim p found k =
      let index : p % u32_mod ≡ t + length tasks - 1 =
        rw k.1 (packed-index _ (omega (arith, small))) in
      elim (Bool-cases (s.inner.top == p)) [
        | inl e ↦
            let one = claim-wins p found k e in
            let now : p ≡ packed t = k.1 ∙ ap packed (omega (arith, one)) in
            rw e (
              pop-claim_won p found (s.inner.bottom) (List-cons tasks (omega (arith, one))) one now
                k.0 (k.3 one))
        | inr e ↦
            let none_left = claim-fails p found k e in
            rw (e, index)
              (
                t,
                tasks,
                (tasks, (refl, List-nil tasks none_left), refl),
                stays s t tasks h small s.inner.bottom (pop_claimed (t + length tasks - 1))
                    (k.0, omega (arith, h.begun), none_left),
                omega arith,
                refl,
              )
      ]
