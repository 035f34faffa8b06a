-- ===== src/Kernel/Semaphore/Ids.antt =====
-- The ids that `semget` gives out.
use axebergos.Prelude.{
  ℕ, ◌+◌, ◌<◌, refl, number_key, inl, inr, ok, err, if◌then◌else◌, Option-cases, arith, List, [],
  ◌∷◌, ◌++◌, length,
}
use axebergos.Prelude.Words.{u32_mod}
use axebergos.Prelude.Table
use axebergos.Kernel.Ipc.{IsKeyed-fresh, IsRising, IsRising-append, GivesOut}
use axebergos.Kernel.Semaphore.Manager.{
  SemaphoreManager, new_manager, semget, semop_with_undo, semop, note_undo, with_set, semctl_setval,
  semctl_setall, undo_all, semctl_rmid,
}
use axebergos.Kernel.Semaphore.Keys.{
  HasSetKeys, Call, gets, ops, sets, sets_all, exits, removes, step, run, new_manager-HasSetKeys,
  step-HasSetKeys, step-next_id, run-new_manager-HasSetKeys,
}

module _ {T : Type 0} where
  -- The id that a call gives out: that which `semget` answers, unless it names a live set already.
  abbrev pub created_by : SemaphoreManager T → Call T → List ℕ
  created_by m (gets key nsems uid gid create now epoch) =
      elim (semget m key nsems uid gid create now epoch).1 [
        | ok id ↦ if Table.contains_key id m.sets then [] else id ∷ []
        | err _ ↦ []
      ]
  created_by m (ops id num op pid now undo) = []
  created_by m (sets id num value pid now) = []
  created_by m (sets_all id values pid now) = []
  created_by m (exits pid now) = []
  created_by m (removes id) = []

  unfoldable pub created : SemaphoreManager T → List (Call T) → List ℕ
  created m [] = []
  created m (c ∷ cs) = created_by m c ++ created (step m c) cs

  step-GivesOut :
      (m : SemaphoreManager T) (c : Call T)
      → HasSetKeys m
      → m.next_id + 1 < u32_mod
      → GivesOut m.next_id (step m c).next_id (created_by m c)
  unfolding step semget semop_with_undo semop note_undo with_set semctl_setval semctl_setall
      undo_all semctl_rmid Table.contains_key
  step-GivesOut m (gets key nsems uid gid create now epoch) h small =
      elim (Option-cases (Table.get key m.key_map)) [
        | inl e ↦ ground (arith, e, IsKeyed-fresh h)
        | inr (id, e) ↦ ground (arith, e, IsKeyed-fresh h, h.live key id e)
      ]
  step-GivesOut m (ops id num op pid now undo) h small = inl (refl, ground arith)
  step-GivesOut m (sets id num value pid now) h small = inl (refl, ground arith)
  step-GivesOut m (sets_all id values pid now) h small = inl (refl, ground arith)
  step-GivesOut m (exits pid now) h small = inl (refl, ground arith)
  step-GivesOut m (removes id) h small = inl (refl, ground arith)

  created-IsRising :
      (cs : List (Call T)) (m : SemaphoreManager T)
      → HasSetKeys m
      → m.next_id + length cs < u32_mod
      → IsRising m.next_id (created m cs)
  unfolding created
  created-IsRising [] m h small = tt
  created-IsRising (c ∷ cs) m h small =
      IsRising-append m.next_id (step m c).next_id (created_by m c) (created (step m c) cs)
        (step-GivesOut m c h (omega (arith, small)))
        (created-IsRising cs (step m c) (step-HasSetKeys m c h (omega (arith, small)))
          (omega (arith, small, step-next_id m c (omega (arith, small)))))

  -- Over any history shorter than the id space: each key names a live set, each live id is below
  -- `next_id`, and the ids of the sets that `semget` creates grow from 1 on, so that none is given
  -- out twice, also after a removal.
  pub run-new_manager-IsRising :
      (cs : List (Call T))
      → 1 + length cs < u32_mod
      → HasSetKeys (run new_manager cs) × IsRising 1 (created new_manager cs)
  run-new_manager-IsRising cs small = (
    run-new_manager-HasSetKeys cs small,
    unfold new_manager in created-IsRising cs new_manager new_manager-HasSetKeys small,
  )
