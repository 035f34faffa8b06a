-- ===== src/Kernel/WorkStealing/Deque/Thief.antt =====
-- Each access of a thief keeps the invariant, with the events that it makes.
use axebergos.Prelude.{
  ℕ, ◌+◌, ◌-◌, ◌%◌, ◌<◌, ◌≤◌, ◌≡◌, refl, sym, ap, subst, ◌∙◌, true, false, ◌==◌, number_key, List,
  [], ◌∷◌, Option, inl, inr, ◌⊎◌, length, get_elem?, Bool-cases, arith,
}
use axebergos.Prelude.Words.{u32_mod, is_pos_i64}
use axebergos.Kernel.WorkStealing.Deque.{
  Inner, OwnerPc, idle, push_checked, push_written, pop_stored, pop_none, pop_read, pop_claimed,
  Event, stolen, ThiefPc, resting, top_loaded, bottom_loaded, task_read, System, thief_step,
  wrapping_sub, next_top, read_slot, update_thieves,
}
use axebergos.Kernel.WorkStealing.Deque.Words.{packed, packed-index}
use axebergos.Kernel.WorkStealing.Deque.Invariant.{OwnerKnows, ThiefKnows, StandsFor, Outcome}
use axebergos.Kernel.WorkStealing.Deque.Changes.{List-cons, ThiefKnows-next}
use axebergos.Kernel.WorkStealing.Deque.Access.{claim-StandsFor}

module _ {T : Type 0} where
  -- The bottom is the index after the newest task, or one less while the owner pops.
  bottom_near :
      (m : Inner T) (tasks : List T) (last : ℕ) (pc : OwnerPc T)
      → OwnerKnows m tasks last pc
      → (m.bottom ≡ last) ⊎ (m.bottom ≡ last - 1)
  bottom_near m tasks last idle k = inl k
  bottom_near m tasks last (push_checked task b) k = inl k.0
  bottom_near m tasks last (push_written task b) k = inl k.0
  bottom_near m tasks last (pop_stored old) k = inr k.0
  bottom_near m tasks last (pop_none top) k = inr k.0
  bottom_near m tasks last (pop_read p found) k = inr k.0
  bottom_near m tasks last (pop_claimed top) k = inr k.0

  -- What the owner knows is still so when a thief has taken the oldest task.
  OwnerKnows-tail :
      (m : Inner T) (top t : ℕ) (x : T) (rest : List T) (pc : OwnerPc T)
      → OwnerKnows m (x ∷ rest) (t + length (x ∷ rest)) pc
      → OwnerKnows (record m { top = top }) rest (t + 1 + length rest) pc
  OwnerKnows-tail m top t x rest idle k = omega (arith, k)
  OwnerKnows-tail m top t x rest (push_checked task b) k = omega (arith, k)
  OwnerKnows-tail m top t x rest (push_written task b) k =
      let same : t + length (x ∷ rest) ≡ t + 1 + length rest = omega arith in
      rw (← same) (k.0, k.1, omega (arith, k.2), k.3)
  OwnerKnows-tail m top t x rest (pop_stored old) k = omega (arith, k)
  OwnerKnows-tail m top t x rest (pop_none o) k = absurd (omega (arith, k.2))
  OwnerKnows-tail m top t x rest (pop_read p found) k = (
    omega (arith, k.0),
    omega (arith, k.1),
    omega (arith, k.2),
    λ e. absurd (omega (arith, e, k.2)),
  )
  OwnerKnows-tail m top t x rest (pop_claimed o) k = absurd (omega (arith, k.2))

module _ {T : Type 0} (s : System T) (t : ℕ) (tasks : List T) (h : StandsFor s t tasks)
    (small : t + length tasks + 1 < u32_mod) (i : ℕ) where
  -- The system after an access of the thief `i`.
  abbrev pub moved : Inner T × ThiefPc T × List (Event T) → System T × List (Event T)
  moved r = (record s { inner = r.0; thieves = update_thieves s.thieves i (r.1) }, r.2)

  knows :
      (pc : ThiefPc T)
      → ThiefKnows t tasks pc
      → (j : ℕ) → ThiefKnows t tasks (update_thieves s.thieves i pc j)
  knows pc k j = elim (Bool-cases (i == j)) [ inl e ↦ rw e k | inr e ↦ rw e (h.thieves_know j) ]

  stays :
      (pc : ThiefPc T)
      → ThiefKnows t tasks pc
      → StandsFor (record s { thieves = update_thieves s.thieves i pc }) t tasks
  stays pc k = record {
    top_is = h.top_is;
    begun = h.begun;
    holds = h.holds;
    owner_knows = h.owner_knows;
    thieves_know = knows pc k;
  }

  load-top : Outcome s t tasks (moved (s.inner, top_loaded s.inner.top, []))
  load-top =
      let index : s.inner.top % u32_mod ≡ t =
        rw (h.top_is) (packed-index t (omega (arith, small))) in
      (
        t,
        tasks,
        refl,
        stays (top_loaded s.inner.top) (h.top_is ∙ ap packed (sym index), omega (arith, index)),
        omega arith,
        refl,
      )

  few :
      (b u : ℕ)
      → (b ≡ t + length tasks) ⊎ (b ≡ t + length tasks - 1)
      → is_pos_i64 (wrapping_sub (b % u32_mod) u) ≡ false
      → u ≤ t
      → length tasks ≤ 1
  few b u near e older = ground (arith, near, e, older, small, h.begun)

  several :
      (b u : ℕ)
      → (b ≡ t + length tasks) ⊎ (b ≡ t + length tasks - 1)
      → is_pos_i64 (wrapping_sub (b % u32_mod) u) ≡ true
      → u ≡ t
      → 0 < length tasks
  several b u near e same = ground (arith, near, e, same, small, h.begun)

  load-bottom :
      (p : ℕ)
      → ThiefKnows t tasks (top_loaded p)
      → Outcome s t tasks (moved (thief_step s.inner (top_loaded p)))
  unfolding thief_step
  load-bottom p k =
      let near = bottom_near s.inner tasks (t + length tasks) s.worker h.owner_knows in
      let b = s.inner.bottom in
      elim (Bool-cases (is_pos_i64 (wrapping_sub (b % u32_mod) (p % u32_mod)))) [
        | inr e ↦ rw e (
          t,
          tasks,
          (tasks, (refl, few b (p % u32_mod) near e k.1), refl),
          stays resting tt,
          omega arith,
          refl,
        )
        | inl e ↦ rw e (
          t,
          tasks,
          refl,
          stays (bottom_loaded p) (k, λ q. several b (p % u32_mod) near e q),
          omega arith,
          refl,
        )
      ]

  read-task :
      (p : ℕ)
      → ThiefKnows t tasks (bottom_loaded p)
      → Outcome s t tasks (moved (s.inner, task_read p (read_slot s.inner (p % u32_mod)), []))
  read-task p k = (
    t,
    tasks,
    refl,
    stays (task_read p (read_slot s.inner (p % u32_mod))) (
      k.0,
      k.1,
      λ q. rw q (
          ap (λ (n : ℕ). s.inner.slots (n % s.inner.capacity)) (omega arith)
          ∙ h.holds.filled 0 (k.1 q)),
    ),
    omega arith,
    refl,
  )

  steal_won :
      (p : ℕ) (found : Option T)
      → (x : T) × (rest : List T) × (tasks ≡ x ∷ rest)
      → p ≡ packed t
      → found ≡ get_elem? tasks 0
      → Outcome s t tasks (moved (record s.inner { top = next_top p }, resting, stolen found ∷ []))
  steal_won p found (x, rest, c) now read = (
    t + 1,
    rest,
    (rest, (x, read ∙ ap (λ l. get_elem? l 0) c, c), refl),
    claim-StandsFor s t tasks h small x rest p c now s.worker (update_thieves s.thieves i resting)
        (OwnerKnows-tail s.inner (next_top p) t x rest s.worker
          (subst (λ l. OwnerKnows s.inner l (t + length l) s.worker) c h.owner_knows))
        (λ j.
          ThiefKnows-next t tasks rest (update_thieves s.thieves i resting j) (knows resting tt j)),
    omega (arith, ap length c),
    refl,
  )

  steal-cas :
      (p : ℕ) (found : Option T)
      → ThiefKnows t tasks (task_read p found)
      → Outcome s t tasks (moved (thief_step s.inner (task_read p found)))
  unfolding thief_step
  steal-cas p found k = elim (Bool-cases (s.inner.top == p)) [
    | inl e ↦
        let now : p ≡ packed t = ground (arith, e, h.top_is) in
        let index : p % u32_mod ≡ t = rw now (packed-index t (omega (arith, small))) in
        rw e (steal_won p found (List-cons tasks (k.1 index)) now (k.2 index))
    | inr e ↦ rw e (t, tasks, (tasks, refl, refl), stays resting tt, omega arith, refl)
  ]

  pub thief-Outcome :
      (pc : ThiefPc T) → ThiefKnows t tasks pc → Outcome s t tasks (moved (thief_step s.inner pc))
  unfolding thief_step
  thief-Outcome resting k = load-top
  thief-Outcome (top_loaded p) k = load-bottom p k
  thief-Outcome (bottom_loaded p) k = read-task p k
  thief-Outcome (task_read p found) k = steal-cas p found k
