-- ===== src/Kernel/Object/File.antt =====
-- kernel/object.rs, `FileObject`. A read is given the length of the buffer, and answers the bytes that
-- it copies to the start of it. usize has 64 bits, and a vector holds less than 2^63 bytes: a write
-- that would need more panics, which is `none`.
use Prim.Native.Nat.{min}
use Prim.Native.String.{String}
use axebergos.Prelude.{
  ℕ, ◌+◌, ◌-◌, ◌%◌, Bool, not, ◌&&◌, List, [], ◌++◌, Option, none, some, Result, ok, err, ltb, leb,
  if◌then◌else◌, length, take, drop, replicate,
}
use axebergos.Prelude.Words.{u64_mod, i64_half, add_i64, is_neg_i64}
use axebergos.Kernel.Object.Io.{
  IoError, permission_denied, invalid_input, SeekFrom, start, at_end, current,
}

pub record FileObject : Type 0 where
  pub path : String
  pub position : ℕ
  pub bytes : List ℕ
  pub readable : Bool
  pub writable : Bool

unfoldable pub new : String → List ℕ → Bool → Bool → FileObject
new path bytes readable writable = record {
  path = path;
  position = 0;
  bytes = bytes;
  readable = readable;
  writable = writable;
}

unfoldable pub read : FileObject → ℕ → FileObject × Result (List ℕ) IoError
read f n =
    if not f.readable
    then (f, err permission_denied)
    else if leb (length f.bytes) f.position
    then (f, ok [])
    else let available = drop f.position f.bytes in
      let to_read = min n (length available) in
      (record f { position = (f.position + to_read) % u64_mod }, ok (take to_read available))

-- `resize(n, 0)` of a shorter vector.
unfoldable pub grow : List ℕ → ℕ → List ℕ
grow bytes n = bytes ++ replicate (n - length bytes) 0

-- `data[pos..pos + buf.len()].copy_from_slice(buf)`.
unfoldable pub copy_at : List ℕ → ℕ → List ℕ → List ℕ
copy_at bytes pos buf = take pos bytes ++ (buf ++ drop (pos + length buf) bytes)

unfoldable pub write : FileObject → List ℕ → Option (FileObject × Result ℕ IoError)
write f buf =
    if not f.writable
    then some (f, err permission_denied)
    else let pos = f.position in
      let last = pos + length buf in
      if ltb (length f.bytes) last && leb i64_half last
      then none
      else let resized = if ltb (length f.bytes) last then grow f.bytes last else f.bytes in
        some (record f { bytes = copy_at resized pos buf; position = last }, ok (length buf))

-- `new_pos`, an i64 bit pattern.
abbrev pub target : FileObject → SeekFrom → ℕ
target f (start n) = n
target f (at_end n) = add_i64 (length f.bytes) n
target f (current n) = add_i64 f.position n

unfoldable pub seek : FileObject → SeekFrom → FileObject × Result ℕ IoError
seek f pos =
    let new_pos = target f pos in
    if is_neg_i64 new_pos
    then (f, err invalid_input)
    else (record f { position = new_pos }, ok new_pos)
