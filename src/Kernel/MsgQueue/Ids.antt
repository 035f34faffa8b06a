-- ===== src/Kernel/MsgQueue/Ids.antt =====
-- The ids that `msgget` gives out.
use axebergos.Prelude.{
  ℕ, ◌+◌, ◌<◌, refl, number_key, inl, inr, ok, err, if◌then◌else◌, Option-cases, arith, List, [],
  ◌∷◌, ◌++◌, length,
}
use axebergos.Prelude.Words.{u32_mod}
use axebergos.Prelude.Table
use axebergos.Kernel.Ipc.{IsKeyed-fresh, IsRising, IsRising-append, GivesOut}
use axebergos.Kernel.MsgQueue.Manager.{
  MsgQueueManager, new_manager, msgget, msgsnd, msgrcv, msgctl_set, msgctl_rmid, with_queue,
}
use axebergos.Kernel.MsgQueue.Keys.{
  HasQueueKeys, Call, gets, sends, receives, sets, removes, step, run, new_manager-HasQueueKeys,
  step-HasQueueKeys, step-next_id, run-new_manager-HasQueueKeys,
}

module _ {T : Type 0} where
  -- The id that a call gives out: that which `msgget` answers, unless it names a live queue already.
  abbrev pub created_by : MsgQueueManager T → Call T → List ℕ
  created_by m (gets key uid gid create epoch) = elim (msgget m key uid gid create epoch).1 [
    | ok id ↦ if Table.contains_key id m.queues then [] else id ∷ []
    | err _ ↦ []
  ]
  created_by m (sends id msg now) = []
  created_by m (receives id mtype now) = []
  created_by m (sets id uid gid mode max) = []
  created_by m (removes id) = []

  unfoldable pub created : MsgQueueManager T → List (Call T) → List ℕ
  created m [] = []
  created m (c ∷ cs) = created_by m c ++ created (step m c) cs

  step-GivesOut :
      (m : MsgQueueManager T) (c : Call T)
      → HasQueueKeys m
      → m.next_id + 1 < u32_mod
      → GivesOut m.next_id (step m c).next_id (created_by m c)
  unfolding step msgget msgsnd msgrcv msgctl_set msgctl_rmid with_queue Table.contains_key
  step-GivesOut m (gets key uid gid create epoch) h small =
      elim (Option-cases (Table.get key m.key_map)) [
        | inl e ↦ ground (arith, e, IsKeyed-fresh h)
        | inr (id, e) ↦ ground (arith, e, IsKeyed-fresh h, h.live key id e)
      ]
  step-GivesOut m (sends id msg now) h small = inl (refl, ground arith)
  step-GivesOut m (receives id mtype now) h small = inl (refl, ground arith)
  step-GivesOut m (sets id uid gid mode max) h small = inl (refl, ground arith)
  step-GivesOut m (removes id) h small = inl (refl, ground arith)

  created-IsRising :
      (cs : List (Call T)) (m : MsgQueueManager T)
      → HasQueueKeys m
      → m.next_id + length cs < u32_mod
      → IsRising m.next_id (created m cs)
  unfolding created
  created-IsRising [] m h small = tt
  created-IsRising (c ∷ cs) m h small =
      IsRising-append m.next_id (step m c).next_id (created_by m c) (created (step m c) cs)
        (step-GivesOut m c h (omega (arith, small)))
        (created-IsRising cs (step m c) (step-HasQueueKeys m c h (omega (arith, small)))
          (omega (arith, small, step-next_id m c (omega (arith, small)))))

  -- Over any history shorter than the id space: each key names a live queue, each live id is below
  -- `next_id`, and the ids of the queues that `msgget` creates grow from 1 on, so that none is given
  -- out twice, also after a removal.
  pub run-new_manager-created :
      (cs : List (Call T))
      → 1 + length cs < u32_mod
      → HasQueueKeys (run new_manager cs) × IsRising 1 (created new_manager cs)
  run-new_manager-created cs small = (
    run-new_manager-HasQueueKeys cs small,
    unfold new_manager in created-IsRising cs new_manager new_manager-HasQueueKeys small,
  )
