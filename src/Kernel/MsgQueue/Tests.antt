-- ===== src/Kernel/MsgQueue/Tests.antt =====
-- Runs of the queue, and its theorems at concrete inputs. Times are numbers here.
use mathlib.Core.List.{Perm}
use axebergos.Prelude.{
  ℕ, ◌+◌, ◌-◌, ◌^◌, ◌<◌, ◌≤◌, ◌≡◌, refl, true, List, [], ◌∷◌, ◌++◌, ok, err, ◌⊎◌, number_key, arith,
}
use axebergos.Prelude.Words.{i64_half}
use axebergos.Prelude.Table
use axebergos.Kernel.MsgQueue.{
  Message, MessageQueue, new_queue, send, receive, no_message, invalid_type, queue_full, index_of,
  position, remove_at,
}
use axebergos.Kernel.MsgQueue.Select.{IsTyped, receive_least}
use axebergos.Kernel.MsgQueue.Bytes.{IsSound, send_cases, receive_bytes}
use axebergos.Kernel.MsgQueue.History.{
  Call, sends, receives, run, accepted, received, run-new_queue-IsSound, run-perm,
}
use axebergos.Kernel.MsgQueue.Manager.{MsgQueueManager, new_manager, msgget}
use axebergos.Kernel.Ipc.{IsRising}
use axebergos.Kernel.MsgQueue.Ids.{created, run-new_manager-created}
use axebergos.Kernel.MsgQueue.Keys

abbrev first : Message
first = record { mtype = 3; payload = 1 ∷ 2 ∷ [] }

abbrev second : Message
second = record { mtype = 1; payload = 9 ∷ [] }

abbrev queue : MessageQueue ℕ
queue = record {
  id = 1;
  messages = first ∷ second ∷ [];
  max_bytes = 4;
  current_bytes = 3;
  uid = 0;
  gid = 0;
  mode = 0o644;
  stime = 0;
  rtime = 0;
  msg_snd = 2;
  msg_rcv = 0;
}

queue-IsSound : IsSound queue
queue-IsSound = record { typed = omega arith; counted = refl; balanced = refl }

-- -2 selects the second message.
by_priority : (receive queue (2 ^ 64 - 2) 5).1 ≡ ok second
unfolding receive index_of position remove_at
by_priority = refl

receive_least_example : receive queue i64_half 5 ≡ (queue, err no_message)
receive_least_example = receive_least queue 5 queue-IsSound.typed

send_cases_example :
    (¬ IsTyped first × (send queue first 5 ≡ (queue, err invalid_type)))
    ⊎ (IsTyped first × (4 < 3 + 2) × (send queue first 5 ≡ (queue, err queue_full)))
    ⊎ (IsTyped first
        × (3 + 2 ≤ 4)
        × ((send queue first 5).1 ≡ ok tt)
        × ((send queue first 5).0.messages ≡ first ∷ second ∷ first ∷ []))
send_cases_example = send_cases queue first 5 queue-IsSound

receive_bytes_example : (receive queue 3 5).0.current_bytes + 2 ≡ 3
unfolding receive index_of position remove_at
receive_bytes_example = receive_bytes queue 3 5 first queue-IsSound refl

abbrev calls : List (Call ℕ)
calls = sends first 1 ∷ sends second 2 ∷ receives 1 3 ∷ []

run-new_queue-IsSound_example : IsSound (run (new_queue 1 0 0 0) calls)
run-new_queue-IsSound_example = run-new_queue-IsSound calls 1 0 0 0

run-perm_example :
    Perm
      (queue.messages ++ accepted queue calls)
      (received queue calls ++ (run queue calls).messages)
run-perm_example = run-perm calls queue

abbrev manager_calls : List (Keys.Call ℕ)
manager_calls =
    Keys.gets 42 0 0 true 0
    ∷ Keys.sends 1 first 1
    ∷ Keys.receives 1 0 2
    ∷ Keys.removes 1
    ∷ Keys.gets 42 0 0 true 3
    ∷ []

run-new_manager-created_example :
    Keys.HasQueueKeys (Keys.run new_manager manager_calls)
    × IsRising 1 (created new_manager manager_calls)
run-new_manager-created_example = run-new_manager-created manager_calls (omega arith)

abbrev opened : MsgQueueManager ℕ
opened = Keys.run new_manager (Keys.gets 42 0 0 true 0 ∷ [])

opened-HasQueueKeys : Keys.HasQueueKeys opened
opened-HasQueueKeys = Keys.run-new_manager-HasQueueKeys (Keys.gets 42 0 0 true 0 ∷ []) (omega arith)

step_other_example :
    Table.get 1 (Keys.step opened (Keys.gets 7 0 0 true 0)).queues ≡ Table.get 1 opened.queues
unfolding Keys.run Keys.step new_manager msgget Table.get Table.insert
step_other_example =
    Keys.step_other opened (Keys.gets 7 0 0 true 0) 1 opened-HasQueueKeys (λ e. cc) (λ n. n)
