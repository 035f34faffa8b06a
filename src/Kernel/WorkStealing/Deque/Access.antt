-- ===== src/Kernel/WorkStealing/Deque/Access.antt =====
-- What an access of the owner leaves, and the claim of the oldest task by whoever wins it.
use axebergos.Prelude.{ℕ, ◌+◌, ◌<◌, ◌≡◌, number_key, List, ◌∷◌, length, arith}
use axebergos.Prelude.Words.{u32_mod}
use axebergos.Kernel.WorkStealing.Deque.{
  Inner, OwnerPc, ThiefPc, Event, System, unpack_top, next_top,
}
use axebergos.Kernel.WorkStealing.Deque.Words.{packed, packed-index, next_top-packed}
use axebergos.Kernel.WorkStealing.Deque.Invariant.{OwnerKnows, ThiefKnows, StandsFor}
use axebergos.Kernel.WorkStealing.Deque.Changes.{Holds-tail}

module _ {T : Type 0} where
  -- The oldest task is claimed.
  pub claim-StandsFor :
      (s : System T) (t : ℕ) (tasks : List T)
      → StandsFor s t tasks
      → t + length tasks + 1 < u32_mod
      → (x : T) (rest : List T) (p : ℕ) → tasks ≡ x ∷ rest
      → p ≡ packed t
      → (pc : OwnerPc T) (thieves : ℕ → ThiefPc T)
      → OwnerKnows (record s.inner { top = next_top p }) rest (t + 1 + length rest) pc
      → ((i : ℕ) → ThiefKnows (t + 1) rest (thieves i))
      → StandsFor
          (record { inner = record s.inner { top = next_top p }; worker = pc; thieves = thieves })
          (t + 1)
          rest
  claim-StandsFor s t tasks h small x rest p c now pc thieves k others = record {
    top_is = rw now (next_top-packed t (omega (arith, small)));
    begun = omega arith;
    holds = Holds-tail s.inner.slots s.inner.capacity t rest x (rw (← c) h.holds);
    owner_knows = k;
    thieves_know = others;
  }

module _ {T : Type 0} (s : System T) (t : ℕ) (tasks : List T) (h : StandsFor s t tasks)
    (small : t + length tasks + 1 < u32_mod) where
  -- The system after an access of the owner.
  abbrev pub moved : Inner T × OwnerPc T × List (Event T) → System T × List (Event T)
  moved r = (record s { inner = r.0; worker = r.1 }, r.2)

  -- An access that leaves the list, the slots and the top.
  pub stays :
      (bottom : ℕ) (pc : OwnerPc T)
      → OwnerKnows (record s.inner { bottom = bottom }) tasks (t + length tasks) pc
      → StandsFor (record s { inner = record s.inner { bottom = bottom }; worker = pc }) t tasks
  stays bottom pc k = record {
    top_is = h.top_is;
    begun = h.begun;
    holds = h.holds;
    owner_knows = k;
    thieves_know = h.thieves_know;
  }

  pub top_index : (unpack_top s.inner.top).1 ≡ t
  top_index = rw (h.top_is) (packed-index t (omega (arith, small)))
