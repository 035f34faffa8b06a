-- ===== src/Kernel/Fifo.antt =====
-- kernel/fifo.rs: FIFOs and their registry. A read is given the length of the buffer, and answers the
-- bytes that it copies to the start of it. The registry's `Rc<RefCell<FifoBuffer>>` are the addresses
-- of a store.
pub mod Streams
pub mod Registry
pub mod Requests
pub mod Names
mod Tests
use Prim.Native.Nat.{min}
use Prim.Native.String.{String}
use axebergos.Prelude.{
  ℕ, ◌+◌, ◌-◌, ◌%◌, Bool, true, false, not, ◌&&◌, ◌||◌, ◌==◌, number_key, text_key, List, [], ◌∷◌,
  ◌++◌, Option, none, some, Result, ok, err, ltb, if◌then◌else◌, length, get_elem?, set, take, drop,
  ok_or, map_ok,
}
use axebergos.Prelude.Words.{u32_mod}
use axebergos.Prelude.Table
use axebergos.Prelude.Table.{Table}

pub record FifoBuffer : Type 0 where
  pub bytes : List ℕ
  pub capacity : ℕ
  pub readers : ℕ
  pub writers : ℕ

pub data FifoError : Type 0 where
  would_block broken_pipe not_found already_exists : FifoError

unfoldable pub new_buffer : ℕ → FifoBuffer
new_buffer capacity = record { bytes = []; capacity = capacity; readers = 0; writers = 0 }

unfoldable pub write : FifoBuffer → List ℕ → FifoBuffer × Result ℕ FifoError
write f buf =
    if f.readers == 0
    then (f, err broken_pipe)
    else let available = f.capacity - length f.bytes in
      let to_write = min (length buf) available in
      let f' = record f { bytes = f.bytes ++ take to_write buf } in
      if (to_write == 0) && not (length buf == 0) then (f', err would_block) else (f', ok to_write)

unfoldable pub read : FifoBuffer → ℕ → FifoBuffer × Result (List ℕ) FifoError
read f n =
    if length f.bytes == 0
    then (f, if f.writers == 0 then ok [] else err would_block)
    else let to_read = min n (length f.bytes) in
      (record f { bytes = drop to_read f.bytes }, ok (take to_read f.bytes))

unfoldable pub is_readable : FifoBuffer → Bool
is_readable f = not (length f.bytes == 0) || (f.writers == 0)

unfoldable pub is_writable : FifoBuffer → Bool
is_writable f = ltb (length f.bytes) f.capacity && ltb 0 f.readers

unfoldable pub add_reader : FifoBuffer → FifoBuffer
add_reader f = record f { readers = (f.readers + 1) % u32_mod }

unfoldable pub remove_reader : FifoBuffer → FifoBuffer
remove_reader f = record f { readers = f.readers - 1 }

unfoldable pub add_writer : FifoBuffer → FifoBuffer
add_writer f = record f { writers = (f.writers + 1) % u32_mod }

unfoldable pub remove_writer : FifoBuffer → FifoBuffer
remove_writer f = record f { writers = f.writers - 1 }

-- The names, and the store of the buffers, which outlive their names.
pub record FifoRegistry : Type 0 where
  pub fifos : Table String ℕ
  pub default_capacity : ℕ
  pub store : List FifoBuffer

unfoldable pub new_registry : FifoRegistry
new_registry = record { fifos = []; default_capacity = 65536; store = [] }

unfoldable pub mkfifo : FifoRegistry → String → FifoRegistry × Result (Unit {0}) FifoError
mkfifo r path = if Table.contains_key path r.fifos then (r, err already_exists) else (
  record r {
    fifos = Table.insert path (length r.store) r.fifos;
    store = r.store ++ new_buffer r.default_capacity ∷ [];
  },
  ok tt,
)

unfoldable pub unlink : FifoRegistry → String → FifoRegistry × Result (Unit {0}) FifoError
unlink r path =
    if Table.contains_key path r.fifos
    then (record r { fifos = Table.remove path r.fifos }, ok tt)
    else (r, err not_found)

unfoldable pub get : FifoRegistry → String → Option ℕ
get r path = Table.get path r.fifos

unfoldable pub is_fifo : FifoRegistry → String → Bool
is_fifo r path = Table.contains_key path r.fifos
