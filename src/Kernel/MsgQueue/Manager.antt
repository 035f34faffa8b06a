-- ===== src/Kernel/MsgQueue/Manager.antt =====
-- kernel/msgqueue.rs, `MsgQueueManager`.
use Prim.Native.Nat.{bit_and}
use axebergos.Prelude.{
  ℕ, ◌+◌, ◌%◌, Bool, not, ◌==◌, number_key, [], Option, none, some, Result, ok, err, if◌then◌else◌,
}
use axebergos.Prelude.Words.{u32_mod, is_neg_i32}
use axebergos.Prelude.Table
use axebergos.Prelude.Table.{Table, get-insert, get-remove, get-retain}
use axebergos.Kernel.MsgQueue.{
  Message, MessageQueue, MsgQueueError, not_found, MsgQueueStats, new_queue, send, receive, stats,
}

pub record MsgQueueManager (T : Type 0) : Type 0 where
  pub queues : Table ℕ (MessageQueue T)
  pub key_map : Table ℕ ℕ
  pub next_id : ℕ

abbrev or_keep {ℓ} : {A : Type ℓ} → Option A → A → A
or_keep none a = a
or_keep (some b) a = b

module _ {T : Type 0} where
  unfoldable pub new_manager : MsgQueueManager T
  new_manager = record { queues = []; key_map = []; next_id = 1 }

  -- Both ways to create a queue: under no key, or under a key.
  unfoldable pub create_queue :
      MsgQueueManager T → Table ℕ ℕ → ℕ → ℕ → T → MsgQueueManager T × Result ℕ MsgQueueError
  create_queue m key_map uid gid epoch = (
    record m {
      queues = Table.insert m.next_id (new_queue m.next_id uid gid epoch) m.queues;
      key_map = key_map;
      next_id = (m.next_id + 1) % u32_mod;
    },
    ok m.next_id,
  )

  unfoldable pub msgget :
      MsgQueueManager T → ℕ → ℕ → ℕ → Bool → T → MsgQueueManager T × Result ℕ MsgQueueError
  unfolding create_queue
  msgget m key uid gid create epoch =
      if is_neg_i32 key
      then create_queue m m.key_map uid gid epoch
      else elim (Table.get key m.key_map) [
        | some id ↦ (m, ok id)
        | none ↦
            if create
            then create_queue m (Table.insert key m.next_id m.key_map) uid gid epoch
            else (m, err not_found)
      ]

  -- `self.queues.get_mut(&id).ok_or(NotFound)?`, and a call of a method on the queue that is found.
  unfoldable pub with_queue {ℓ} :
      {A : Type ℓ}
      → MsgQueueManager T
      → ℕ
      → (MessageQueue T → MessageQueue T × Result A MsgQueueError)
      → MsgQueueManager T × Result A MsgQueueError
  with_queue m id f = elim (Table.get id m.queues) [
    | none ↦ (m, err not_found)
    | some q ↦ (record m { queues = Table.insert id (f q).0 m.queues }, (f q).1)
  ]

  unfoldable pub msgsnd :
      MsgQueueManager T → ℕ → Message → T → MsgQueueManager T × Result (Unit {0}) MsgQueueError
  msgsnd m id msg now = with_queue m id λ q. send q msg now

  unfoldable pub msgrcv :
      MsgQueueManager T → ℕ → ℕ → T → MsgQueueManager T × Result Message MsgQueueError
  msgrcv m id mtype now = with_queue m id λ q. receive q mtype now

  unfoldable pub msgctl_stat : MsgQueueManager T → ℕ → Result (MsgQueueStats T) MsgQueueError
  msgctl_stat m id = elim (Table.get id m.queues) [ none ↦ err not_found | some q ↦ ok (stats q) ]

  unfoldable pub msgctl_rmid :
      MsgQueueManager T → ℕ → MsgQueueManager T × Result (Unit {0}) MsgQueueError
  msgctl_rmid m id = elim (Table.get id m.queues) [
    | none ↦ (m, err not_found)
    | some q ↦ (
      record m {
        queues = Table.remove id m.queues;
        key_map = Table.retain (λ v. not (v == id)) m.key_map;
      },
      ok tt,
    )
  ]

  -- The mode keeps its permission bits only, `m & 0o777`.
  unfoldable pub set_attributes :
      MessageQueue T → Option ℕ → Option ℕ → Option ℕ → Option ℕ → MessageQueue T
  set_attributes q uid gid mode max_bytes = record q {
    uid = or_keep uid q.uid;
    gid = or_keep gid q.gid;
    mode = elim mode [ none ↦ q.mode | some m ↦ bit_and m 0o777 ];
    max_bytes = or_keep max_bytes q.max_bytes;
  }

  unfoldable pub msgctl_set :
      MsgQueueManager T
      → ℕ
      → Option ℕ
      → Option ℕ
      → Option ℕ
      → Option ℕ
      → MsgQueueManager T × Result (Unit {0}) MsgQueueError
  unfolding set_attributes
  msgctl_set m id uid gid mode max_bytes =
      with_queue m id λ q. (set_attributes q uid gid mode max_bytes, ok tt)
