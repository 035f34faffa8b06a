-- ===== src/Kernel/Object.antt =====
-- kernel/object.rs: `KernelObject`, and its reads, writes and seeks by the kind of the object.
pub mod Io
pub mod File
pub mod Pipe
pub mod Console
pub mod Handles
pub mod Contents
pub mod Streams
pub mod Counts
pub mod Steps
pub mod Lifetime
mod Tests
use Prim.Native.String.{String}
use axebergos.Prelude.{ℕ, List, Option, none, some, Result, ok, err}
use axebergos.Kernel.Object.Io.{IoError, invalid_input, SeekFrom}
use axebergos.Kernel.Object.File
use axebergos.Kernel.Object.File.{FileObject}
use axebergos.Kernel.Object.Pipe
use axebergos.Kernel.Object.Pipe.{PipeObject}
use axebergos.Kernel.Object.Console
use axebergos.Kernel.Object.Console.{ConsoleObject, WindowObject, DirectoryObject}

pub data KernelObject : Type 0 where
  file : FileObject → KernelObject
  pipe : PipeObject → KernelObject
  console : ConsoleObject → KernelObject
  window : WindowObject → KernelObject
  directory : DirectoryObject → KernelObject

unfoldable pub read : KernelObject → ℕ → KernelObject × Result (List ℕ) IoError
read (file f) n = let (g, r) = File.read f n in (file g, r)
read (pipe p) n = let (q, r) = Pipe.read p n in (pipe q, r)
read (console c) n = let (d, r) = Console.read c n in (console d, r)
read (window w) n = (window w, err invalid_input)
read (directory d) n = (directory d, err invalid_input)

-- `none` where the write of a file panics.
unfoldable pub write :
    (List ℕ → List String) → KernelObject → List ℕ → Option (KernelObject × Result ℕ IoError)
write lines_of (file f) buf = elim (File.write f buf) [
  | none ↦ none
  | some answer ↦ some (file (answer.0), answer.1)
]
write lines_of (pipe p) buf = let (q, r) = Pipe.write p buf in some (pipe q, r)
write lines_of (console c) buf = let (d, r) = Console.write c buf in some (console d, r)
write lines_of (window w) buf =
    let (v, r) = Console.write_window lines_of w buf in some (window v, r)
write lines_of (directory d) buf = some (directory d, err invalid_input)

unfoldable pub seek : KernelObject → SeekFrom → KernelObject × Result ℕ IoError
seek (file f) pos = let (g, r) = File.seek f pos in (file g, r)
seek (pipe p) pos = (pipe p, err invalid_input)
seek (console c) pos = (console c, err invalid_input)
seek (window w) pos = (window w, err invalid_input)
seek (directory d) pos = (directory d, err invalid_input)

unfoldable pub type_name : KernelObject → String
type_name (file f) = "file"
type_name (pipe p) = "pipe"
type_name (console c) = "console"
type_name (window w) = "window"
type_name (directory d) = "directory"
