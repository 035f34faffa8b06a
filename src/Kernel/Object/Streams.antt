-- ===== src/Kernel/Object/Streams.antt =====
-- The pipe is a bounded channel: order, loss and capacity over any calls, and when each call fails.
use Prim.Native.Nat.{min}
use axebergos.Prelude.{
  ℕ, ◌-◌, ◌≤◌, ◌≡◌, refl, sym, ◌==◌, number_key, List, ◌++◌, inl, inr, length, take, length-append,
  length-take, length-drop, take-append-drop, Bool-cases, arith,
}
use mathlib.Core.List.{append-nil}
use axebergos.Kernel.Channel.{Channel, Call, received_of, taken_of}
use axebergos.Kernel.Channel
use axebergos.Kernel.Object.Io.{IoError}
use axebergos.Kernel.Object.Pipe
use axebergos.Kernel.Object.Pipe.{PipeObject}

pub data Control : Type 0 where
  closes_write closes_read : Control

unfoldable pub control : PipeObject → Control → PipeObject
control p closes_write = Pipe.close_write p
control p closes_read = Pipe.close_read p

pub read_held :
    (p : PipeObject) (n : ℕ) → p.buffer ≡ received_of (Pipe.read p n).1 ++ (Pipe.read p n).0.buffer
unfolding Pipe.read
read_held p n = elim (Bool-cases (length p.buffer == 0)) [
  | inl e ↦ elim (Bool-cases (p.write_closed)) [ inl w ↦ rw (e, w) refl | inr w ↦ rw (e, w) refl ]
  | inr e ↦ rw e (sym (take-append-drop (min n (length p.buffer)) p.buffer))
]

pub write_held :
    (p : PipeObject) (buf : List ℕ)
    → (Pipe.write p buf).0.buffer ≡ p.buffer ++ taken_of buf (Pipe.write p buf).1
unfolding Pipe.write
write_held p buf =
    let nothing = sym (append-nil p.buffer) in
    elim (Bool-cases (p.read_closed)) [
      | inl e ↦ rw e nothing
      | inr e ↦ elim (Bool-cases (p.write_closed)) [
        | inl g ↦ rw (e, g) nothing
        | inr g ↦ elim (Bool-cases (p.capacity - length p.buffer == 0)) [
          | inl h ↦ rw (e, g, h) nothing
          | inr h ↦ rw (e, g, h) refl
        ]
      ]
    ]

pub bounded_read :
    (p : PipeObject) (n : ℕ)
    → length p.buffer ≤ p.capacity
    → length (Pipe.read p n).0.buffer ≤ (Pipe.read p n).0.capacity
unfolding Pipe.read
bounded_read p n h = ground (arith, h, length-drop (min n (length p.buffer)) p.buffer)

pub bounded_write :
    (p : PipeObject) (buf : List ℕ)
    → length p.buffer ≤ p.capacity
    → length (Pipe.write p buf).0.buffer ≤ (Pipe.write p buf).0.capacity
unfolding Pipe.write
bounded_write p buf h =
    let n = min (length buf) (p.capacity - length p.buffer) in
    ground (arith, h, length-append p.buffer (take n buf), length-take n buf)

pub control_held : (p : PipeObject) (c : Control) → (control p c).buffer ≡ p.buffer
unfolding control Pipe.close_write Pipe.close_read
control_held p closes_write = refl
control_held p closes_read = refl

pub control_capacity : (p : PipeObject) (c : Control) → (control p c).capacity ≡ p.capacity
unfolding control Pipe.close_write Pipe.close_read
control_capacity p closes_write = refl
control_capacity p closes_read = refl

abbrev pub pipe_channel : Channel PipeObject IoError Control
pipe_channel = record {
  held = λ p. p.buffer;
  capacity = λ p. p.capacity;
  read = Pipe.read;
  write = Pipe.write;
  control = control;
  read_held = read_held;
  write_held = write_held;
  control_held = control_held;
  bounded_read = bounded_read;
  bounded_write = bounded_write;
  control_capacity = control_capacity;
}

-- After any reads, writes and closes of a new pipe: the bytes that the writes took are, in order,
-- those that the reads answered and then those that it holds, which are at most its capacity.
pub run-pipe_in_order :
    (capacity : ℕ) (cs : List (Call Control))
    → (Channel.sent pipe_channel (Pipe.new capacity) cs
        ≡ Channel.received pipe_channel (Pipe.new capacity) cs
          ++ (Channel.run pipe_channel (Pipe.new capacity) cs).buffer)
      × (length (Channel.run pipe_channel (Pipe.new capacity) cs).buffer
          ≤ (Channel.run pipe_channel (Pipe.new capacity) cs).capacity)
unfolding Pipe.new
run-pipe_in_order capacity cs = (
  Channel.run_in_order pipe_channel cs (Pipe.new capacity),
  Channel.run_bounded pipe_channel cs (Pipe.new capacity) (omega arith),
)
