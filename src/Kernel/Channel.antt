-- ===== src/Kernel/Channel.antt =====
-- Bounded byte channels: what the pipe (kernel/object.rs) and the FIFO (kernel/fifo.rs) have in common.
use mathlib.Core.List.{append_assoc, append-nil}
use axebergos.Prelude.{
  ℕ, ◌≤◌, ◌≡◌, refl, sym, ◌∙◌, List, [], ◌∷◌, ◌++◌, Result, ok, err, length, take,
}

-- What a read answered, and what a write of `buf` took.
abbrev pub received_of : {E : Type 0} → Result (List ℕ) E → List ℕ
received_of (ok bytes) = bytes
received_of (err e) = []

abbrev pub taken_of : {E : Type 0} → List ℕ → Result ℕ E → List ℕ
taken_of buf (ok n) = take n buf
taken_of buf (err e) = []

-- A channel with its reads, its writes, and calls that do not touch the bytes.
pub record Channel (S E Control : Type 0) : Type 0 where
  pub held : S → List ℕ
  pub capacity : S → ℕ
  pub read : S → ℕ → S × Result (List ℕ) E
  pub write : S → List ℕ → S × Result ℕ E
  pub control : S → Control → S
  pub read_held : (s : S) (n : ℕ) → held s ≡ received_of (read s n).1 ++ held (read s n).0
  pub write_held :
      (s : S) (buf : List ℕ) → held (write s buf).0 ≡ held s ++ taken_of buf (write s buf).1
  pub control_held : (s : S) (c : Control) → held (control s c) ≡ held s
  pub bounded_read :
      (s : S) (n : ℕ)
      → length (held s) ≤ capacity s
      → length (held (read s n).0) ≤ capacity (read s n).0
  pub bounded_write :
      (s : S) (buf : List ℕ)
      → length (held s) ≤ capacity s
      → length (held (write s buf).0) ≤ capacity (write s buf).0
  pub control_capacity : (s : S) (c : Control) → capacity (control s c) ≡ capacity s

pub data Call (Control : Type 0) : Type 0 where
  reads : ℕ → Call Control
  writes : List ℕ → Call Control
  controls : Control → Call Control

module _ {S E Control : Type 0} (ch : Channel S E Control) where
  unfoldable pub step : S → Call Control → S
  step s (reads n) = (ch.read s n).0
  step s (writes buf) = (ch.write s buf).0
  step s (controls c) = ch.control s c

  unfoldable pub run : S → List (Call Control) → S
  run s [] = s
  run s (c ∷ cs) = run (step s c) cs

  abbrev pub received_by : S → Call Control → List ℕ
  received_by s (reads n) = received_of (ch.read s n).1
  received_by s (writes buf) = []
  received_by s (controls c) = []

  abbrev pub sent_by : S → Call Control → List ℕ
  sent_by s (reads n) = []
  sent_by s (writes buf) = taken_of buf (ch.write s buf).1
  sent_by s (controls c) = []

  -- The bytes that the calls read, and those that the writes took, in order.
  unfoldable pub received : S → List (Call Control) → List ℕ
  received s [] = []
  received s (c ∷ cs) = received_by s c ++ received (step s c) cs

  unfoldable pub sent : S → List (Call Control) → List ℕ
  sent s [] = []
  sent s (c ∷ cs) = sent_by s c ++ sent (step s c) cs

  step_in_order :
      (s : S) (c : Call Control) → ch.held s ++ sent_by s c ≡ received_by s c ++ ch.held (step s c)
  unfolding step
  step_in_order s (reads n) = append-nil (ch.held s) ∙ ch.read_held s n
  step_in_order s (writes buf) = sym (ch.write_held s buf)
  step_in_order s (controls c) = append-nil (ch.held s) ∙ sym (ch.control_held s c)

  pub run_in_order :
      (cs : List (Call Control)) (s : S)
      → ch.held s ++ sent s cs ≡ received s cs ++ ch.held (run s cs)
  unfolding run sent received
  run_in_order [] s = append-nil (ch.held s)
  run_in_order (c ∷ cs) s =
      rw
        (
          ← append_assoc (ch.held s) (sent_by s c) (sent (step s c) cs),
          step_in_order s c,
          append_assoc (received_by s c) (ch.held (step s c)) (sent (step s c) cs),
          run_in_order cs (step s c),
          append_assoc (received_by s c) (received (step s c) cs) (ch.held (run (step s c) cs)),
        )
        refl

  step_bounded :
      (s : S) (c : Call Control)
      → length (ch.held s) ≤ ch.capacity s
      → length (ch.held (step s c)) ≤ ch.capacity (step s c)
  unfolding step
  step_bounded s (reads n) h = ch.bounded_read s n h
  step_bounded s (writes buf) h = ch.bounded_write s buf h
  step_bounded s (controls c) h = rw (ch.control_held s c, ch.control_capacity s c) h

  pub run_bounded :
      (cs : List (Call Control)) (s : S)
      → length (ch.held s) ≤ ch.capacity s
      → length (ch.held (run s cs)) ≤ ch.capacity (run s cs)
  unfolding run
  run_bounded [] s h = h
  run_bounded (c ∷ cs) s h = run_bounded cs (step s c) (step_bounded s c h)
