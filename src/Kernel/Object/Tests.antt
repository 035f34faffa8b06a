-- ===== src/Kernel/Object/Tests.antt =====
-- Runs of the kernel objects, and their theorems at concrete inputs.
use axebergos.Prelude.{
  ℕ, ◌≤◌, ◌≡◌, refl, true, List, [], ◌∷◌, ◌++◌, some, ok, ltb, length, get_elem?, arith, number_key,
}
use axebergos.Prelude.Table
use axebergos.Kernel.Channel
use axebergos.Kernel.Channel.{Call, reads, writes, controls}
use axebergos.Kernel.Object.File
use axebergos.Kernel.Object.File.{FileObject}
use axebergos.Kernel.Object.Pipe
use axebergos.Kernel.Object.Handles
use axebergos.Kernel.Object.Handles.{ObjectTable}
use axebergos.Kernel.Object.Contents.{expected_byte, write_lem, reread, reread_lem}
use axebergos.Kernel.Object.Streams.{closes_write, Control, pipe_channel, run-pipe_in_order}
use axebergos.Kernel.Object.Counts.{IsCounted, Released, release_lem}
use axebergos.Kernel.Object.Lifetime
use axebergos.Kernel.Object.Lifetime.{inserts, retains, releases, run, count, run-new_table-count}

abbrev past_the_end : FileObject
past_the_end = record {
  path = "/tmp/f";
  position = 4;
  bytes = 1 ∷ 2 ∷ [];
  readable = true;
  writable = true;
}

zeros_between : reread past_the_end (7 ∷ 8 ∷ []) ≡ some (ok (7 ∷ 8 ∷ []))
unfolding File.write File.grow File.copy_at File.seek File.read
zeros_between = refl

write_lem_example :
    (g : FileObject) × (File.write past_the_end (7 ∷ 8 ∷ []) ≡ some (g, ok 2))
    × (g.position ≡ 6)
    × ((i : ℕ) → get_elem? g.bytes i ≡ expected_byte past_the_end (7 ∷ 8 ∷ []) i)
write_lem_example = write_lem past_the_end (7 ∷ 8 ∷ []) refl (omega arith)

reread_lem_example : reread past_the_end (7 ∷ 8 ∷ []) ≡ some (ok (7 ∷ 8 ∷ []))
reread_lem_example = reread_lem past_the_end (7 ∷ 8 ∷ []) refl refl (omega arith)

-- The second write is cut at the capacity.
abbrev pipe_calls : List (Call Control)
pipe_calls = writes (1 ∷ 2 ∷ []) ∷ writes (3 ∷ 4 ∷ []) ∷ reads 2 ∷ controls closes_write ∷ []

run-pipe_in_order_example :
    (Channel.sent pipe_channel (Pipe.new 3) pipe_calls
      ≡ Channel.received pipe_channel (Pipe.new 3) pipe_calls
        ++ (Channel.run pipe_channel (Pipe.new 3) pipe_calls).buffer)
    × (length (Channel.run pipe_channel (Pipe.new 3) pipe_calls).buffer
        ≤ (Channel.run pipe_channel (Pipe.new 3) pipe_calls).capacity)
run-pipe_in_order_example = run-pipe_in_order 3 pipe_calls

abbrev shared : ObjectTable ℕ
shared = record { next_id = 2; objects = (1, record { object = 9; refcount = 2 }) ∷ [] }

shared-IsCounted : IsCounted shared
unfolding Table.get
shared-IsCounted = record { counted = λ h e q. ground (arith, q); fresh = λ h q. ground (arith, q) }

release_lem_example : Released shared 1 (Handles.release shared 1)
release_lem_example = release_lem shared 1 shared-IsCounted

abbrev object_calls : List (Lifetime.Call ℕ)
object_calls = inserts 9 ∷ retains 1 ∷ releases 1 ∷ inserts 8 ∷ releases 1 ∷ []

run-new_table-count_example :
    (Handles.refcount (run Handles.new_table object_calls) 1 ≡ count 1 1 0 object_calls)
    × (Handles.contains (run Handles.new_table object_calls) 1 ≡ ltb 0 (count 1 1 0 object_calls))
run-new_table-count_example = run-new_table-count object_calls 1 (omega arith)
