-- ===== src/Kernel/Object/Io.antt =====
-- What reads, writes and seeks of kernel/object.rs answer.
use axebergos.Prelude.{ℕ}

-- The kinds of `io::Error` that the objects answer.
pub data IoError : Type 0 where
  permission_denied invalid_input would_block broken_pipe : IoError

-- `SeekFrom`; the offsets of `at_end` and `current` are i64 bit patterns.
pub data SeekFrom : Type 0 where
  start at_end current : ℕ → SeekFrom
