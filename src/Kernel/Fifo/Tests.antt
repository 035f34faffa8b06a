-- ===== src/Kernel/Fifo/Tests.antt =====
-- Runs of FIFOs and of their registry, and their theorems at concrete inputs.
use axebergos.Prelude.{◌≤◌, ◌≡◌, refl, List, [], ◌∷◌, ◌++◌, err, length}
use axebergos.Kernel.Channel
use axebergos.Kernel.Channel.{Call, reads, writes, controls}
use axebergos.Kernel.Fifo.{broken_pipe, new_buffer, add_reader, write}
use axebergos.Kernel.Fifo.Streams.{
  Control, adds_reader, adds_writer, fifo_channel, run-fifo_in_order,
}
use axebergos.Kernel.Fifo.Requests.{Request, makes, unlinks, tests, looks, changes}

no_reader : (write (new_buffer 4) (1 ∷ [])).1 ≡ err broken_pipe
unfolding write new_buffer
no_reader = refl

abbrev fifo_calls : List (Call Control)
fifo_calls = controls adds_reader ∷ controls adds_writer ∷ writes (1 ∷ 2 ∷ []) ∷ reads 1 ∷ []

run-fifo_in_order_example :
    (Channel.sent fifo_channel (new_buffer 4) fifo_calls
      ≡ Channel.received fifo_channel (new_buffer 4) fifo_calls
        ++ (Channel.run fifo_channel (new_buffer 4) fifo_calls).bytes)
    × (length (Channel.run fifo_channel (new_buffer 4) fifo_calls).bytes
        ≤ (Channel.run fifo_channel (new_buffer 4) fifo_calls).capacity)
run-fifo_in_order_example = run-fifo_in_order 4 fifo_calls

abbrev registry_calls : List Request
registry_calls =
    makes "/a"
    ∷ makes "/a"
    ∷ makes "/b"
    ∷ changes "/a" add_reader
    ∷ looks "/b"
    ∷ looks "/a"
    ∷ unlinks "/a"
    ∷ unlinks "/a"
    ∷ tests "/a"
    ∷ makes "/a"
    ∷ looks "/a"
    ∷ []
