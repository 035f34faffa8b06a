-- ===== src/Kernel/MsgQueue/History.antt =====
-- Histories of calls on one queue: what holds after them, and that no message is lost or made up.
use mathlib.Core.List.{Perm, append-nil, append_assoc}
use mathlib.Core.List.Perm
use axebergos.Prelude.{ℕ, ◌≡◌, List, [], ◌∷◌, ◌++◌, inl, inr, ok, err, arith}
use axebergos.Kernel.MsgQueue.{Message, MessageQueue, new_queue, send, receive, set_max_bytes}
use axebergos.Kernel.MsgQueue.Bytes.{
  IsSound, new_queue-IsSound, send-IsSound, receive-IsSound, receive-perm, taken_by,
}

-- The calls on one queue.
pub data Call (T : Type 0) : Type 0 where
  sends : Message → T → Call T
  receives : ℕ → T → Call T
  limits : ℕ → Call T

module _ {T : Type 0} where
  unfoldable pub step : MessageQueue T → Call T → MessageQueue T
  step q (sends m now) = (send q m now).0
  step q (receives t now) = (receive q t now).0
  step q (limits max) = set_max_bytes q max

  unfoldable pub run : MessageQueue T → List (Call T) → MessageQueue T
  run q [] = q
  run q (c ∷ cs) = run (step q c) cs

  step-IsSound : (q : MessageQueue T) (c : Call T) → IsSound q → IsSound (step q c)
  unfolding step set_max_bytes
  step-IsSound q (sends m now) s = send-IsSound q m now s
  step-IsSound q (receives t now) s = receive-IsSound q t now s
  step-IsSound q (limits max) s = record {
    typed = s.typed;
    counted = s.counted;
    balanced = s.balanced;
  }

  run-IsSound : (cs : List (Call T)) (q : MessageQueue T) → IsSound q → IsSound (run q cs)
  unfolding run
  run-IsSound [] q s = s
  run-IsSound (c ∷ cs) q s = run-IsSound cs (step q c) (step-IsSound q c s)

  -- After any calls on a new queue: its messages have positive types, `current_bytes` is the number
  -- of bytes that they hold, and the messages sent are those received and those held, modulo 2^64.
  pub run-new_queue-IsSound :
      (cs : List (Call T)) (id uid gid : ℕ) (epoch : T)
      → IsSound (run (new_queue id uid gid epoch) cs)
  run-new_queue-IsSound cs id uid gid epoch =
      run-IsSound cs (new_queue id uid gid epoch) (new_queue-IsSound id uid gid epoch)

  -- What a call puts in and takes out.
  abbrev pub accepted_by : MessageQueue T → Call T → List Message
  accepted_by q (sends m now) = elim (send q m now).1 [ ok _ ↦ m ∷ [] | err _ ↦ [] ]
  accepted_by q (receives t now) = []
  accepted_by q (limits max) = []

  abbrev pub received_by : MessageQueue T → Call T → List Message
  received_by q (sends m now) = []
  received_by q (receives t now) = taken_by (receive q t now).1
  received_by q (limits max) = []

  unfoldable pub accepted : MessageQueue T → List (Call T) → List Message
  accepted q [] = []
  accepted q (c ∷ cs) = accepted_by q c ++ accepted (step q c) cs

  unfoldable pub received : MessageQueue T → List (Call T) → List Message
  received q [] = []
  received q (c ∷ cs) = received_by q c ++ received (step q c) cs

  send_messages :
      (q : MessageQueue T) (m : Message) (now : T)
      → (send q m now).0.messages ≡ q.messages ++ accepted_by q (sends m now)
  unfolding send
  send_messages q m now = ground (arith, append-nil q.messages)

  step-perm :
      (q : MessageQueue T) (c : Call T)
      → Perm (q.messages ++ accepted_by q c) (received_by q c ++ (step q c).messages)
  unfolding step set_max_bytes
  step-perm q (sends m now) = rw (send_messages q m now) (Perm.refl _)
  step-perm q (receives t now) = rw (append-nil q.messages) (elim (receive-perm q t now) [
    | inl (same, none_taken) ↦ rw (same, none_taken) (Perm.refl q.messages)
    | inr (m, one_taken, p) ↦ rw one_taken p
  ])
  step-perm q (limits max) = rw (append-nil q.messages) (Perm.refl q.messages)

  -- What was held at first and what the calls put in is, in some order, what they took out and what
  -- is held at the end.
  pub run-perm :
      (cs : List (Call T)) (q : MessageQueue T)
      → Perm (q.messages ++ accepted q cs) (received q cs ++ (run q cs).messages)
  unfolding run accepted received
  run-perm [] q = rw (append-nil q.messages) (Perm.refl q.messages)
  run-perm (c ∷ cs) q = rw (← append_assoc q.messages (accepted_by q c) (accepted (step q c) cs)) (
      Perm.trans (Perm.append (step-perm q c) (Perm.refl (accepted (step q c) cs))) (
        rw (append_assoc, append_assoc)
          (Perm.append (Perm.refl (received_by q c)) (run-perm cs (step q c)))))
