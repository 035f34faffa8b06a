-- ===== src/Kernel/Object/Console.antt =====
-- kernel/object.rs: the console, the window and the directory. `lines_of` stands for
-- `String::from_utf8_lossy` followed by `lines`.
use Prim.Native.Nat.{min}
use Prim.Native.String.{String}
use axebergos.Prelude.{
  ℕ, ◌+◌, Bool, true, ◌==◌, number_key, List, [], ◌∷◌, ◌++◌, Option, none, Result, ok, err, ltb,
  if◌then◌else◌, length, take, drop, get_elem?,
}
use axebergos.Kernel.Object.Io.{IoError, would_block}

pub record ConsoleObject : Type 0 where
  pub input : List ℕ
  pub output : List ℕ

unfoldable pub new_console : ConsoleObject
new_console = record { input = []; output = [] }

unfoldable pub push_input : ConsoleObject → List ℕ → ConsoleObject
push_input c bytes = record c { input = c.input ++ bytes }

unfoldable pub take_output : ConsoleObject → ConsoleObject × List ℕ
take_output c = (record c { output = [] }, c.output)

unfoldable pub clear_input : ConsoleObject → ConsoleObject
clear_input c = record c { input = [] }

unfoldable pub clear_output : ConsoleObject → ConsoleObject
clear_output c = record c { output = [] }

unfoldable pub read : ConsoleObject → ℕ → ConsoleObject × Result (List ℕ) IoError
read c n =
    if length c.input == 0
    then (c, err would_block)
    else let to_read = min n (length c.input) in
      (record c { input = drop to_read c.input }, ok (take to_read c.input))

unfoldable pub write : ConsoleObject → List ℕ → ConsoleObject × Result ℕ IoError
write c buf = (record c { output = c.output ++ buf }, ok (length buf))

pub record WindowObject : Type 0 where
  pub window_id : ℕ
  pub content : List String
  pub dirty : Bool

unfoldable pub new_window : ℕ → WindowObject
new_window id = record { window_id = id; content = []; dirty = true }

unfoldable pub append_line : WindowObject → String → WindowObject
append_line w line = record w { content = w.content ++ line ∷ []; dirty = true }

-- The loop of `write`.
unfoldable pub append_lines : WindowObject → List String → WindowObject
append_lines w [] = w
append_lines w (line ∷ lines) = append_lines (append_line w line) lines

unfoldable pub write_window :
    (List ℕ → List String) → WindowObject → List ℕ → WindowObject × Result ℕ IoError
write_window lines_of w buf =
    (record (append_lines w (lines_of buf)) { dirty = true }, ok (length buf))

pub record DirectoryObject : Type 0 where
  pub path : String
  pub entries : List String
  pub position : ℕ

unfoldable pub new_directory : String → List String → DirectoryObject
new_directory path entries = record { path = path; entries = entries; position = 0 }

unfoldable pub next_entry : DirectoryObject → DirectoryObject × Option String
next_entry d =
    if ltb d.position (length d.entries)
    then (record d { position = d.position + 1 }, get_elem? d.entries d.position)
    else (d, none)
