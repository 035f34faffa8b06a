-- ===== src/Kernel/MsgQueue.antt =====
-- kernel/msgqueue.rs: System V message queues and their manager. A message type is an i64 bit
-- pattern (Prelude.Words), sizes are unbounded numbers (they count bytes in memory), counters wrap
-- at 2^64. A time is a value of an abstract type `T`, stored and never computed with.
pub mod Select
pub mod Bytes
pub mod History
pub mod Manager
pub mod Keys
pub mod Ids
mod Tests
use axebergos.Prelude.{
  ℕ, zero, suc, ◌+◌, ◌-◌, ◌%◌, Bool, true, false, not, ◌==◌, number_key, List, [], ◌∷◌, ◌++◌,
  Option, none, some, Result, ok, err, if◌then◌else◌, ltb, length, map_option, find?,
}
use axebergos.Prelude.Words.{u64_mod, abs_i64, le_i64, is_pos_i64}

pub record Message : Type 0 where
  pub mtype : ℕ
  pub payload : List ℕ

pub record MessageQueue (T : Type 0) : Type 0 where
  pub id : ℕ
  pub messages : List Message
  pub max_bytes : ℕ
  pub current_bytes : ℕ
  pub uid : ℕ
  pub gid : ℕ
  pub mode : ℕ
  pub stime : T
  pub rtime : T
  pub msg_snd : ℕ
  pub msg_rcv : ℕ

pub data MsgQueueError : Type 0 where
  invalid_type queue_full no_message not_found permission_denied already_exists : MsgQueueError

pub record MsgQueueStats (T : Type 0) : Type 0 where
  pub msg_qnum : ℕ
  pub msg_qbytes : ℕ
  pub msg_cbytes : ℕ
  pub msg_snd : ℕ
  pub msg_rcv : ℕ
  pub stime : T
  pub rtime : T

-- `iter().position`.
unfoldable pub position : (Message → Bool) → List Message → Option ℕ
position p [] = none
position p (m ∷ ms) = let rest = map_option suc (position p ms) in if p m then some 0 else rest

-- `VecDeque::remove`: the element and what is left.
unfoldable pub remove_at : ℕ → List Message → Option (Message × List Message)
remove_at i [] = none
remove_at zero (m ∷ ms) = some (m, ms)
remove_at (suc i) (m ∷ ms) = elim (remove_at i ms) [ none ↦ none | some (x, r) ↦ some (x, m ∷ r) ]

module _ {T : Type 0} where
  -- `MessageQueue::new`; `epoch` is the time 0.0.
  unfoldable pub new_queue : ℕ → ℕ → ℕ → T → MessageQueue T
  new_queue id uid gid epoch = record {
    id = id;
    messages = [];
    max_bytes = 16384;
    current_bytes = 0;
    uid = uid;
    gid = gid;
    mode = 0o644;
    stime = epoch;
    rtime = epoch;
    msg_snd = 0;
    msg_rcv = 0;
  }

  unfoldable pub send :
      MessageQueue T → Message → T → MessageQueue T × Result (Unit {0}) MsgQueueError
  send q msg now =
      if not (is_pos_i64 msg.mtype)
      then (q, err invalid_type)
      else if ltb q.max_bytes (q.current_bytes + length msg.payload)
      then (q, err queue_full)
      else (
        record q {
          current_bytes = q.current_bytes + length msg.payload;
          messages = q.messages ++ msg ∷ [];
          stime = now;
          msg_snd = (q.msg_snd + 1) % u64_mod;
        },
        ok tt,
      )

  -- `idx` of `receive`.
  unfoldable pub index_of : MessageQueue T → ℕ → Option ℕ
  index_of q mtype =
      if mtype == 0
      then elim q.messages [ [] ↦ none | m ∷ ms ↦ some 0 ]
      else if is_pos_i64 mtype
      then position (λ m. m.mtype == mtype) q.messages
      else position (λ m. le_i64 m.mtype (abs_i64 mtype)) q.messages

  unfoldable pub receive : MessageQueue T → ℕ → T → MessageQueue T × Result Message MsgQueueError
  receive q mtype now = elim (index_of q mtype) [
    | none ↦ (q, err no_message)
    | some i ↦ elim (remove_at i q.messages) [
      | none ↦ (q, err no_message)
      | some (msg, rest) ↦ (
        record q {
          messages = rest;
          current_bytes = q.current_bytes - length msg.payload;
          rtime = now;
          msg_rcv = (q.msg_rcv + 1) % u64_mod;
        },
        ok msg,
      )
    ]
  ]

  unfoldable pub peek : MessageQueue T → ℕ → Option Message
  peek q mtype =
      if mtype == 0
      then elim q.messages [ [] ↦ none | m ∷ ms ↦ some m ]
      else if is_pos_i64 mtype
      then find? (λ m. m.mtype == mtype) q.messages
      else find? (λ m. le_i64 m.mtype (abs_i64 mtype)) q.messages

  unfoldable pub stats : MessageQueue T → MsgQueueStats T
  stats q = record {
    msg_qnum = length q.messages;
    msg_qbytes = q.max_bytes;
    msg_cbytes = q.current_bytes;
    msg_snd = q.msg_snd;
    msg_rcv = q.msg_rcv;
    stime = q.stime;
    rtime = q.rtime;
  }

  unfoldable pub set_max_bytes : MessageQueue T → ℕ → MessageQueue T
  set_max_bytes q max = record q { max_bytes = max }
