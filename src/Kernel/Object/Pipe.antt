-- ===== src/Kernel/Object/Pipe.antt =====
-- kernel/object.rs, `PipeObject`.
use Prim.Native.Nat.{min}
use axebergos.Prelude.{
  ℕ, ◌-◌, Bool, true, false, ◌&&◌, ◌==◌, number_key, List, [], ◌++◌, Result, ok, err, if◌then◌else◌,
  length, take, drop,
}
use axebergos.Kernel.Object.Io.{IoError, would_block, broken_pipe}

pub record PipeObject : Type 0 where
  pub buffer : List ℕ
  pub write_closed : Bool
  pub read_closed : Bool
  pub capacity : ℕ

unfoldable pub new : ℕ → PipeObject
new capacity = record {
  buffer = [];
  write_closed = false;
  read_closed = false;
  capacity = capacity;
}

unfoldable pub close_write : PipeObject → PipeObject
close_write p = record p { write_closed = true }

unfoldable pub close_read : PipeObject → PipeObject
close_read p = record p { read_closed = true }

unfoldable pub is_closed : PipeObject → Bool
is_closed p = p.write_closed && p.read_closed

unfoldable pub read : PipeObject → ℕ → PipeObject × Result (List ℕ) IoError
read p n =
    if length p.buffer == 0
    then (p, if p.write_closed then ok [] else err would_block)
    else let to_read = min n (length p.buffer) in
      (record p { buffer = drop to_read p.buffer }, ok (take to_read p.buffer))

unfoldable pub write : PipeObject → List ℕ → PipeObject × Result ℕ IoError
write p buf =
    if p.read_closed
    then (p, err broken_pipe)
    else if p.write_closed
    then (p, err broken_pipe)
    else let available = p.capacity - length p.buffer in
      if available == 0
      then (p, err would_block)
      else let to_write = min (length buf) available in
        (record p { buffer = p.buffer ++ take to_write buf }, ok to_write)
