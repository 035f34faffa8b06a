-- ===== src/Kernel/WorkStealing/Deque/Owner.antt =====
-- Each access of the owner keeps the invariant, with the events that it makes.
use axebergos.Prelude.{ℕ, ◌+◌, ◌<◌, number_key, List, length}
use axebergos.Prelude.Words.{u32_mod}
use axebergos.Kernel.WorkStealing.Deque.{
  OwnerPc, idle, push_checked, push_written, pop_stored, pop_none, pop_read, pop_claimed, Request,
  push, pop, System, owner_step,
}
use axebergos.Kernel.WorkStealing.Deque.Invariant.{OwnerKnows, StandsFor, Outcome}
use axebergos.Kernel.WorkStealing.Deque.Access.{moved}
use axebergos.Kernel.WorkStealing.Deque.Push.{begin-push, push-write, push-store}
use axebergos.Kernel.WorkStealing.Deque.Pop.{begin-pop, pop-restore, pop-restore_last, pop-load}
use axebergos.Kernel.WorkStealing.Deque.Claim.{pop-claim}

module _ {T : Type 0} (s : System T) (t : ℕ) (tasks : List T) (h : StandsFor s t tasks)
    (small : t + length tasks + 1 < u32_mod) where
  pub owner-Outcome :
      (pc : OwnerPc T) (request : Request T)
      → OwnerKnows s.inner tasks (t + length tasks) pc
      → Outcome s t tasks (moved s t tasks h small (owner_step s.inner pc request))
  unfolding owner_step
  owner-Outcome idle (push task) k = begin-push s t tasks h small task k
  owner-Outcome idle pop k = begin-pop s t tasks h small k
  owner-Outcome (push_checked task b) request k = push-write s t tasks h small task b k
  owner-Outcome (push_written task b) request k = push-store s t tasks h small task b k
  owner-Outcome (pop_stored old) request k = pop-load s t tasks h small old k
  owner-Outcome (pop_none top) request k = pop-restore s t tasks h small top k
  owner-Outcome (pop_read p found) request k = pop-claim s t tasks h small p found k
  owner-Outcome (pop_claimed top) request k = pop-restore_last s t tasks h small top k
