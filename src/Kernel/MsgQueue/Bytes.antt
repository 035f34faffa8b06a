-- ===== src/Kernel/MsgQueue/Bytes.antt =====
-- The byte count, the counters and the messages of a queue over any history of calls.
use mathlib.Core.List.{Perm}
use mathlib.Core.List.Perm
use axebergos.Prelude.{
  ℕ, zero, suc, ◌+◌, ◌%◌, ◌≤◌, ◌<◌, ◌≡◌, refl, List, [], ◌∷◌, ◌++◌, some, inl, inr, ◌⊎◌, Result, ok,
  err, length, length-append, All, All-append, Option-cases, arith,
}
use axebergos.Prelude.Words.{u64_mod}
use axebergos.Kernel.MsgQueue.{
  Message, MessageQueue, MsgQueueError, invalid_type, queue_full, new_queue, remove_at, index_of,
  send, receive,
}
use axebergos.Kernel.MsgQueue.Select.{IsTyped}

abbrev pub total_bytes : List Message → ℕ
total_bytes [] = 0
total_bytes (m ∷ ms) = length m.payload + total_bytes ms

total_bytes-append :
    (xs ys : List Message) → total_bytes (xs ++ ys) ≡ total_bytes xs + total_bytes ys
total_bytes-append [] ys = omega arith
total_bytes-append (x ∷ xs) ys = omega (arith, total_bytes-append xs ys)

remove_at-total_bytes :
    (i : ℕ) (ms : List Message) {m : Message} {rest : List Message}
    → remove_at i ms ≡ some (m, rest)
    → total_bytes ms ≡ length m.payload + total_bytes rest
unfolding remove_at
remove_at-total_bytes i [] e = cc
remove_at-total_bytes zero (x ∷ ms) e = ground arith
remove_at-total_bytes (suc i) (x ∷ ms) e = elim (Option-cases (remove_at i ms)) [
  | inl n ↦ ground arith
  | inr ((y, r), d) ↦ ground (arith, remove_at-total_bytes i ms d)
]

remove_at-length :
    (i : ℕ) (ms : List Message) {m : Message} {rest : List Message}
    → remove_at i ms ≡ some (m, rest)
    → length ms ≡ suc (length rest)
unfolding remove_at
remove_at-length i [] e = cc
remove_at-length zero (x ∷ ms) e = ground arith
remove_at-length (suc i) (x ∷ ms) e = elim (Option-cases (remove_at i ms)) [
  | inl n ↦ ground arith
  | inr ((y, r), d) ↦ ground (arith, remove_at-length i ms d)
]

remove_at-All :
    (i : ℕ) (ms : List Message) {m : Message} {rest : List Message}
    → remove_at i ms ≡ some (m, rest)
    → All IsTyped ms
    → All IsTyped rest
unfolding remove_at
remove_at-All i [] e a = cc
remove_at-All zero (x ∷ ms) e a = ground arith
remove_at-All (suc i) (x ∷ ms) e a = elim (Option-cases (remove_at i ms)) [
  | inl n ↦ ground arith
  | inr ((y, r), d) ↦ ground (arith, remove_at-All i ms d a.1)
]

remove_at-perm :
    (i : ℕ) (ms : List Message) {m : Message} {rest : List Message}
    → remove_at i ms ≡ some (m, rest)
    → Perm ms (m ∷ rest)
unfolding remove_at
remove_at-perm i [] e = cc
remove_at-perm zero (x ∷ ms) {m} {rest} e =
    let h : x ∷ ms ≡ m ∷ rest = ground arith in rw h (Perm.refl (m ∷ rest))
remove_at-perm (suc i) (x ∷ ms) {m} {rest} e = elim (Option-cases (remove_at i ms)) [
  | inl n ↦ absurd (ground arith)
  | inr ((y, r), d) ↦
      let h : y ∷ x ∷ r ≡ m ∷ rest = ground arith in
      rw (← h) (Perm.trans (Perm.cons x (remove_at-perm i ms d)) (Perm.swap y x r))
]

abbrev pub taken_by : Result Message MsgQueueError → List Message
taken_by (ok m) = m ∷ []
taken_by (err e) = []

module _ {T : Type 0} where
  pub record IsSound (q : MessageQueue T) : Type 0 where
    pub typed : All IsTyped q.messages
    pub counted : q.current_bytes ≡ total_bytes q.messages
    pub balanced : q.msg_snd % u64_mod ≡ (q.msg_rcv + length q.messages) % u64_mod

  pub new_queue-IsSound : (id uid gid : ℕ) (epoch : T) → IsSound (new_queue id uid gid epoch)
  unfolding new_queue
  new_queue-IsSound id uid gid epoch = record { typed = tt; counted = refl; balanced = refl }

  -- `send` fails on a type that is not positive, and on a message that would take the queue past its
  -- limit; else it appends the message. A failing call changes nothing.
  pub send_cases :
      (q : MessageQueue T) (msg : Message) (now : T)
      → IsSound q
      → (¬ IsTyped msg × (send q msg now ≡ (q, err invalid_type)))
        ⊎ (IsTyped msg
            × (q.max_bytes < total_bytes q.messages + length msg.payload)
            × (send q msg now ≡ (q, err queue_full)))
        ⊎ (IsTyped msg
            × (total_bytes q.messages + length msg.payload ≤ q.max_bytes)
            × ((send q msg now).1 ≡ ok tt)
            × ((send q msg now).0.messages ≡ q.messages ++ msg ∷ []))
  unfolding send
  send_cases q msg now s = ground (arith, s.counted)

  pub send-IsSound :
      (q : MessageQueue T) (msg : Message) (now : T) → IsSound q → IsSound (send q msg now).0
  unfolding send
  send-IsSound q msg now s = ground (
    arith,
    All-append IsTyped q.messages (msg ∷ []) s.typed,
    total_bytes-append q.messages (msg ∷ []),
    length-append q.messages (msg ∷ []),
  )

  pub receive-IsSound :
      (q : MessageQueue T) (t : ℕ) (now : T) → IsSound q → IsSound (receive q t now).0
  unfolding receive
  receive-IsSound q t now s = elim (Option-cases (index_of q t)) [
    | inl e ↦ rw (e, receive) s
    | inr (i, e) ↦ elim (Option-cases (remove_at i q.messages)) [
      | inl d ↦ rw (e, receive, d) s
      | inr ((m, rest), d) ↦
          rw (e, receive, d)
            (record {
              typed = remove_at-All i q.messages d s.typed;
              counted = omega (arith, remove_at-total_bytes i q.messages d, s.counted);
              balanced = omega (arith, remove_at-length i q.messages d, s.balanced);
            })
    ]
  ]

  -- The byte count never drops below zero in `receive`: a message that is received was counted.
  pub receive_bytes :
      (q : MessageQueue T) (t : ℕ) (now : T) (m : Message)
      → IsSound q
      → (receive q t now).1 ≡ ok m
      → (receive q t now).0.current_bytes + length m.payload ≡ q.current_bytes
  unfolding receive
  receive_bytes q t now m s e = elim (Option-cases (index_of q t)) [
    | inl n ↦ ground arith
    | inr (i, n) ↦ elim (Option-cases (remove_at i q.messages)) [
      | inl d ↦ ground arith
      | inr ((x, rest), d) ↦ ground (arith, remove_at-total_bytes i q.messages d, s.counted)
    ]
  ]

  pub receive-perm :
      (q : MessageQueue T) (t : ℕ) (now : T)
      → ((receive q t now).0.messages ≡ q.messages) × (taken_by (receive q t now).1 ≡ [])
        ⊎ ((m : Message) × (taken_by (receive q t now).1 ≡ m ∷ [])
            × Perm q.messages (m ∷ (receive q t now).0.messages))
  unfolding receive
  receive-perm q t now = elim (Option-cases (index_of q t)) [
    | inl n ↦ inl (ground arith)
    | inr (i, n) ↦ elim (Option-cases (remove_at i q.messages)) [
      | inl d ↦ inl (ground arith)
      | inr ((m, rest), d) ↦
          inr (m, ground arith, rw (n, receive, d) (remove_at-perm i q.messages d))
    ]
  ]
