-- ===== src/Kernel/Fifo/Streams.antt =====
-- The FIFO is a bounded channel: order, loss and capacity over any calls.
use Prim.Native.Nat.{min}
use axebergos.Prelude.{
  ℕ, ◌-◌, ◌≤◌, ◌≡◌, refl, sym, not, ◌&&◌, ◌==◌, number_key, List, [], ◌++◌, inl, inr, length, take,
  length-append, length-take, length-drop, take-append-drop, Bool-cases, arith,
}
use mathlib.Core.List.{append-nil}
use axebergos.Kernel.Channel.{Channel, Call, received_of, taken_of}
use axebergos.Kernel.Channel
use axebergos.Kernel.Fifo.{
  FifoBuffer, FifoError, new_buffer, read, write, add_reader, remove_reader, add_writer,
  remove_writer,
}

pub data Control : Type 0 where
  adds_reader removes_reader adds_writer removes_writer : Control

unfoldable pub control : FifoBuffer → Control → FifoBuffer
control f adds_reader = add_reader f
control f removes_reader = remove_reader f
control f adds_writer = add_writer f
control f removes_writer = remove_writer f

pub read_held : (f : FifoBuffer) (n : ℕ) → f.bytes ≡ received_of (read f n).1 ++ (read f n).0.bytes
unfolding read
read_held f n = elim (Bool-cases (length f.bytes == 0)) [
  | inl e ↦ elim (Bool-cases (f.writers == 0)) [ inl w ↦ rw (e, w) refl | inr w ↦ rw (e, w) refl ]
  | inr e ↦ rw e (sym (take-append-drop (min n (length f.bytes)) f.bytes))
]

take_none : (n : ℕ) (buf : List ℕ) → n ≡ 0 → take n buf ≡ []
take_none n buf e = rw e refl

pub write_held :
    (f : FifoBuffer) (buf : List ℕ)
    → (write f buf).0.bytes ≡ f.bytes ++ taken_of buf (write f buf).1
unfolding write
write_held f buf =
    let n = min (length buf) (f.capacity - length f.bytes) in
    elim (Bool-cases (f.readers == 0)) [
      | inl e ↦ rw e (sym (append-nil f.bytes))
      | inr e ↦ elim (Bool-cases ((n == 0) && not (length buf == 0))) [
        | inl g ↦ rw (e, g, take_none n buf (ground (arith, g))) refl
        | inr g ↦ rw (e, g) refl
      ]
    ]

pub bounded_read :
    (f : FifoBuffer) (n : ℕ)
    → length f.bytes ≤ f.capacity
    → length (read f n).0.bytes ≤ (read f n).0.capacity
unfolding read
bounded_read f n h = ground (arith, h, length-drop (min n (length f.bytes)) f.bytes)

pub bounded_write :
    (f : FifoBuffer) (buf : List ℕ)
    → length f.bytes ≤ f.capacity
    → length (write f buf).0.bytes ≤ (write f buf).0.capacity
unfolding write
bounded_write f buf h =
    let n = min (length buf) (f.capacity - length f.bytes) in
    ground (arith, h, length-append f.bytes (take n buf), length-take n buf)

pub control_held : (f : FifoBuffer) (c : Control) → (control f c).bytes ≡ f.bytes
unfolding control add_reader remove_reader add_writer remove_writer
control_held f adds_reader = refl
control_held f removes_reader = refl
control_held f adds_writer = refl
control_held f removes_writer = refl

pub control_capacity : (f : FifoBuffer) (c : Control) → (control f c).capacity ≡ f.capacity
unfolding control add_reader remove_reader add_writer remove_writer
control_capacity f adds_reader = refl
control_capacity f removes_reader = refl
control_capacity f adds_writer = refl
control_capacity f removes_writer = refl

abbrev pub fifo_channel : Channel FifoBuffer FifoError Control
fifo_channel = record {
  held = λ f. f.bytes;
  capacity = λ f. f.capacity;
  read = read;
  write = write;
  control = control;
  read_held = read_held;
  write_held = write_held;
  control_held = control_held;
  bounded_read = bounded_read;
  bounded_write = bounded_write;
  control_capacity = control_capacity;
}

-- After any reads, writes, opens and closes of a new FIFO: the bytes that the writes took are, in
-- order, those that the reads answered and then those that it holds, which are at most its capacity.
pub run-fifo_in_order :
    (capacity : ℕ) (cs : List (Call Control))
    → (Channel.sent fifo_channel (new_buffer capacity) cs
        ≡ Channel.received fifo_channel (new_buffer capacity) cs
          ++ (Channel.run fifo_channel (new_buffer capacity) cs).bytes)
      × (length (Channel.run fifo_channel (new_buffer capacity) cs).bytes
          ≤ (Channel.run fifo_channel (new_buffer capacity) cs).capacity)
unfolding new_buffer
run-fifo_in_order capacity cs = (
  Channel.run_in_order fifo_channel cs (new_buffer capacity),
  Channel.run_bounded fifo_channel cs (new_buffer capacity) (omega arith),
)
