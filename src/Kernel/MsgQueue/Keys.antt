-- ===== src/Kernel/MsgQueue/Keys.antt =====
-- The manager's keys and ids, and that a call on one queue leaves the others alone.
use axebergos.Prelude.{
  ℕ, ◌+◌, ◌≤◌, ◌<◌, ◌≡◌, ◌≢◌, refl, Bool, number_key, List, [], ◌∷◌, Option, inl, inr, Result,
  length, Option-cases, arith,
}
use axebergos.Prelude.Words.{u32_mod}
use axebergos.Prelude.Table
use axebergos.Prelude.Table.{Table, get-insert, get-remove, get-retain}
use axebergos.Kernel.Ipc.{
  IsLive, IsKeyed, IsKeyed-insert_private, IsKeyed-insert, IsKeyed-update, IsKeyed-remove,
}
use axebergos.Kernel.MsgQueue.{Message, MessageQueue, MsgQueueError, new_queue}
use axebergos.Kernel.MsgQueue.Manager.{
  MsgQueueManager, new_manager, msgget, with_queue, msgsnd, msgrcv, msgctl_rmid, msgctl_set,
}

-- The calls that change the manager.
pub data Call (T : Type 0) : Type 0 where
  gets : ℕ → ℕ → ℕ → Bool → T → Call T
  sends : ℕ → Message → T → Call T
  receives : ℕ → ℕ → T → Call T
  sets : ℕ → Option ℕ → Option ℕ → Option ℕ → Option ℕ → Call T
  removes : ℕ → Call T

-- The queue that a call is on, if it is on one that exists.
abbrev pub IsOn : {T : Type 0} → ℕ → Call T → Type 0
IsOn id (gets key uid gid create epoch) = ⊥
IsOn id (sends i m now) = i ≡ id
IsOn id (receives i t now) = i ≡ id
IsOn id (sets i uid gid mode max) = i ≡ id
IsOn id (removes i) = i ≡ id

module _ {T : Type 0} where
  abbrev pub HasQueueKeys : MsgQueueManager T → Type 0
  HasQueueKeys m = IsKeyed m.queues m.key_map m.next_id

  unfoldable pub step : MsgQueueManager T → Call T → MsgQueueManager T
  step m (gets key uid gid create epoch) = (msgget m key uid gid create epoch).0
  step m (sends id msg now) = (msgsnd m id msg now).0
  step m (receives id mtype now) = (msgrcv m id mtype now).0
  step m (sets id uid gid mode max) = (msgctl_set m id uid gid mode max).0
  step m (removes id) = (msgctl_rmid m id).0

  unfoldable pub run : MsgQueueManager T → List (Call T) → MsgQueueManager T
  run m [] = m
  run m (c ∷ cs) = run (step m c) cs

  pub new_manager-HasQueueKeys : HasQueueKeys new_manager
  unfolding new_manager Table.get
  new_manager-HasQueueKeys = record { live = λ key id e. cc; fresh = λ id l. absurd (l refl) }

  with_queue-HasQueueKeys {ℓ} :
      {A : Type ℓ} (m : MsgQueueManager T) (id : ℕ)
      (f : MessageQueue T → MessageQueue T × Result A MsgQueueError)
      → HasQueueKeys m
      → HasQueueKeys (with_queue m id f).0
  unfolding with_queue
  with_queue-HasQueueKeys m id f h = elim (Option-cases (Table.get id m.queues)) [
    | inl e ↦ rw (e, with_queue) h
    | inr (q, e) ↦ rw (e, with_queue) (IsKeyed-update id (f q).0 (λ n. cc) h)
  ]

  pub step-HasQueueKeys :
      (m : MsgQueueManager T) (c : Call T)
      → HasQueueKeys m
      → m.next_id + 1 < u32_mod
      → HasQueueKeys (step m c)
  unfolding step msgget msgsnd msgrcv msgctl_set msgctl_rmid
  step-HasQueueKeys m (gets key uid gid create epoch) h small = ground (
    arith,
    IsKeyed-insert_private (new_queue m.next_id uid gid epoch) h small,
    IsKeyed-insert key (new_queue m.next_id uid gid epoch) h small,
  )
  step-HasQueueKeys m (sends id msg now) h small = with_queue-HasQueueKeys m id _ h
  step-HasQueueKeys m (receives id mtype now) h small = with_queue-HasQueueKeys m id _ h
  step-HasQueueKeys m (sets id uid gid mode max) h small = with_queue-HasQueueKeys m id _ h
  step-HasQueueKeys m (removes id) h small = ground (arith, IsKeyed-remove id h)

  pub step-next_id :
      (m : MsgQueueManager T) (c : Call T)
      → m.next_id + 1 < u32_mod
      → (step m c).next_id ≤ m.next_id + 1
  unfolding step msgget msgsnd msgrcv msgctl_set msgctl_rmid with_queue
  step-next_id m (gets key uid gid create epoch) small = ground arith
  step-next_id m (sends id msg now) small = ground arith
  step-next_id m (receives id mtype now) small = ground arith
  step-next_id m (sets id uid gid mode max) small = ground arith
  step-next_id m (removes id) small = ground arith

  run-HasQueueKeys :
      (cs : List (Call T)) (m : MsgQueueManager T)
      → HasQueueKeys m
      → m.next_id + length cs < u32_mod
      → HasQueueKeys (run m cs)
  unfolding run
  run-HasQueueKeys [] m h small = h
  run-HasQueueKeys (c ∷ cs) m h small =
      run-HasQueueKeys cs (step m c) (step-HasQueueKeys m c h (omega arith))
        (omega (arith, step-next_id m c (omega arith)))

  -- Over any history shorter than the id space, each key names a live queue and each live id is below
  -- `next_id`.
  pub run-new_manager-HasQueueKeys :
      (cs : List (Call T)) → 1 + length cs < u32_mod → HasQueueKeys (run new_manager cs)
  run-new_manager-HasQueueKeys cs small =
      run-HasQueueKeys cs new_manager new_manager-HasQueueKeys (unfold new_manager in small)

  with_queue_other {ℓ} :
      {A : Type ℓ} (m : MsgQueueManager T) (i id : ℕ)
      (f : MessageQueue T → MessageQueue T × Result A MsgQueueError)
      → i ≢ id
      → Table.get id (with_queue m i f).0.queues ≡ Table.get id m.queues
  unfolding with_queue
  with_queue_other m i id f n = elim (Option-cases (Table.get i m.queues)) [
    | inl e ↦ rw (e, with_queue)
    | inr (q, e) ↦ rw (e, with_queue) (ground (arith, get-insert i id (f q).0 m.queues))
  ]

  -- A call leaves every live queue that it is not on as it was; so does `msgget`, which creates
  -- queues under ids that are not live.
  pub step_other :
      (m : MsgQueueManager T) (c : Call T) (id : ℕ)
      → HasQueueKeys m
      → IsLive m.queues id
      → ¬ IsOn id c
      → Table.get id (step m c).queues ≡ Table.get id m.queues
  unfolding step msgget msgsnd msgrcv msgctl_set msgctl_rmid
  step_other m (gets key uid gid create epoch) id h l n =
      ground
        (arith, h.fresh id l, get-insert m.next_id id (new_queue m.next_id uid gid epoch) m.queues)
  step_other m (sends i msg now) id h l n = with_queue_other m i id _ n
  step_other m (receives i mtype now) id h l n = with_queue_other m i id _ n
  step_other m (sets i uid gid mode max) id h l n = with_queue_other m i id _ n
  step_other m (removes i) id h l n = ground (arith, get-remove i id m.queues)
