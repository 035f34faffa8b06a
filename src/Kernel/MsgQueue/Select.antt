-- ===== src/Kernel/MsgQueue/Select.antt =====
-- Which message `receive` and `peek` take.
use axebergos.Prelude.{
  ℕ, ◌+◌, ◌≤◌, ◌<◌, ◌≡◌, refl, Bool, true, false, ◌==◌, number_key, List, [], ◌∷◌, ◌++◌, Option,
  none, some, inl, inr, ◌⊎◌, ok, err, if◌then◌else◌, find?, All, Bool-cases, arith,
}
use axebergos.Prelude.Words.{u64_mod, i64_half, abs_i64, le_i64, is_pos_i64}
use axebergos.Kernel.MsgQueue.{
  Message, MessageQueue, no_message, position, remove_at, index_of, receive, peek,
}

-- A message whose type is positive, as `send` demands.
abbrev pub IsTyped : Message → Type 0
IsTyped m = (0 < m.mtype) × (m.mtype < i64_half)

-- What a selector asks for: any message at 0, its type if it is positive, a type of at most its
-- absolute value, 2^64 - t, if it is negative.
abbrev pub Wanted : ℕ → Message → Type 0
Wanted t m =
    (t ≡ 0)
    ⊎ ((0 < t) × (t < i64_half) × (m.mtype ≡ t))
    ⊎ ((i64_half ≤ t) × (m.mtype + t ≤ u64_mod))

-- The closure that the code searches with.
abbrev test : ℕ → Message → Bool
test t =
    if t == 0
    then (λ m. true)
    else if is_pos_i64 t
    then (λ m. m.mtype == t)
    else (λ m. le_i64 m.mtype (abs_i64 t))

-- The list has no element that passes, or splits at the first that does.
data Search (p : Message → Bool) (ms : List Message) : Type 0 where
  missed : All (λ m. p m ≡ false) ms → position p ms ≡ none → find? p ms ≡ none → Search p ms
  hit :
      (pre post : List Message) (msg : Message) (i : ℕ)
      → ms ≡ pre ++ msg ∷ post
      → All (λ m. p m ≡ false) pre
      → p msg ≡ true
      → position p ms ≡ some i
      → remove_at i ms ≡ some (msg, pre ++ post)
      → find? p ms ≡ some msg
      → Search p ms

position_any :
    (ms : List Message)
    → elim ms as (λ x. Option ℕ) [ [] ↦ none | m ∷ r ↦ some 0 ] ≡ position (λ m. true) ms
unfolding position
position_any [] = refl
position_any (m ∷ ms) = refl

position_missed : (ms : List Message) → All IsTyped ms → position (test i64_half) ms ≡ none
unfolding position
position_missed [] a = refl
position_missed (m ∷ ms) a = rw (position_missed ms a.1) (ground arith)

module _ {T : Type 0} where
  index_of-position : (q : MessageQueue T) (t : ℕ) → index_of q t ≡ position (test t) q.messages
  unfolding index_of
  index_of-position q t = elim (Bool-cases (t == 0)) [
    | inl e ↦ rw e (position_any q.messages)
    | inr e ↦ elim (Bool-cases (is_pos_i64 t)) [ inl d ↦ rw (e, d) | inr d ↦ rw (e, d) ]
  ]

  -- How `receive` answers: no message is wanted, or the first that is wanted leaves the queue.
  pub data Received (q : MessageQueue T) (t : ℕ) (now : T) : Type 0 where
    nothing :
        All (λ m. ¬ Wanted t m) q.messages
        → receive q t now ≡ (q, err no_message)
        → peek q t ≡ none
        → Received q t now
    taken :
        (pre post : List Message) (msg : Message)
        → q.messages ≡ pre ++ msg ∷ post
        → All (λ m. ¬ Wanted t m) pre
        → Wanted t msg
        → (receive q t now).1 ≡ ok msg
        → (receive q t now).0.messages ≡ pre ++ post
        → peek q t ≡ some msg
        → Received q t now

  -- The least i64 as a selector finds nothing, whatever the queue holds.
  pub receive_least :
      (q : MessageQueue T) (now : T)
      → All IsTyped q.messages
      → receive q i64_half now ≡ (q, err no_message)
  unfolding receive
  receive_least q now typed =
      rw (index_of-position q i64_half, position_missed q.messages typed, receive)
