-- ===== src/Kernel/Object/Contents.antt =====
-- What a write leaves in a file, and what a read after it answers.
use Prim.Native.Nat.{min}
use axebergos.Prelude.{
  ℕ, ◌+◌, ◌-◌, ◌<◌, ◌≤◌, ◌≡◌, refl, ap, true, false, ◌&&◌, List, [], ◌∷◌, ◌++◌, Option, none, some,
  Result, ok, ltb, leb, if◌then◌else◌, length, get_elem?, take, drop, replicate, length-append,
  length-take, length-drop, length-replicate, arith, inl, inr, Bool-cases,
}
use axebergos.Prelude.Words.{i64_half, is_neg_i64}
use axebergos.Prelude.Slices.{
  get_elem?-append, get_elem?-take, get_elem?-drop, get_elem?-replicate, get_elem?-none,
  take-append, drop_prefix,
}
use axebergos.Kernel.Object.Io.{IoError, start}
use axebergos.Kernel.Object.File
use axebergos.Kernel.Object.File.{FileObject, grow, copy_at}

-- What the bytes are after a write that does not panic.
abbrev resized : FileObject → List ℕ → List ℕ
resized f buf =
    let last = f.position + length buf in
    if ltb (length f.bytes) last then grow f.bytes last else f.bytes

write_some :
    (f : FileObject) (buf : List ℕ)
    → f.writable ≡ true
    → f.position + length buf < i64_half
    → File.write f buf
      ≡ some (
        record f {
          bytes = copy_at (resized f buf) f.position buf;
          position = f.position + length buf;
        },
        ok (length buf),
      )
unfolding File.write
write_some f buf w small = ground (arith, w, small)

length-resized : (f : FileObject) (buf : List ℕ) → f.position + length buf ≤ length (resized f buf)
unfolding grow
length-resized f buf = elim (Bool-cases (ltb (length f.bytes) (f.position + length buf))) [
  | inl e ↦ rw e (
      omega (
        arith,
        length-append f.bytes (replicate (f.position + length buf - length f.bytes) 0),
        length-replicate {A = ℕ} (f.position + length buf - length f.bytes) 0,
      ))
  | inr e ↦ rw e (ground arith)
]

-- The byte at `i` when the file is read as one that zeros follow.
abbrev padded : List ℕ → ℕ → ℕ → Option ℕ
padded bytes last i =
    if ltb i (length bytes) then get_elem? bytes i else if ltb i last then some 0 else none

get_elem?-resized :
    (f : FileObject) (buf : List ℕ) (i : ℕ)
    → get_elem? (resized f buf) i ≡ padded f.bytes (f.position + length buf) i
unfolding grow
get_elem?-resized f buf i =
    let last = f.position + length buf in
    ground (
      arith,
      get_elem?-append f.bytes (replicate (last - length f.bytes) 0) i,
      get_elem?-replicate {A = ℕ} (last - length f.bytes) 0 (i - length f.bytes),
      get_elem?-none f.bytes i,
    )

pub length-take_of_le : (n : ℕ) (bytes : List ℕ) → n ≤ length bytes → length (take n bytes) ≡ n
length-take_of_le n bytes h = omega (arith, h, length-take n bytes)

pub get_elem?-copy_at :
    (bytes buf : List ℕ) (pos i : ℕ)
    → pos + length buf ≤ length bytes
    → get_elem? (copy_at bytes pos buf) i ≡ (
        if leb pos i && ltb i (pos + length buf)
        then get_elem? buf (i - pos)
        else get_elem? bytes i)
unfolding copy_at
get_elem?-copy_at bytes buf pos i fits =
    let same : pos + length buf ≤ i → pos + length buf + (i - pos - length buf) ≡ i =
      λ h. omega (arith, h) in
    rw
      (
        get_elem?-append (take pos bytes) (buf ++ drop (pos + length buf) bytes) i,
        length-take_of_le pos bytes (omega (arith, fits)),
        get_elem?-append buf (drop (pos + length buf) bytes) (i - pos),
        get_elem?-take pos bytes i,
        get_elem?-drop (pos + length buf) bytes (i - pos - length buf),
      )
      (ground (arith, same))

-- The bytes after a write at `pos`: its own from there on, zeros where it starts past the end of the
-- file, and elsewhere those that were there.
abbrev pub expected_byte : FileObject → List ℕ → ℕ → Option ℕ
expected_byte f buf i =
    let last = f.position + length buf in
    if leb f.position i && ltb i last then get_elem? buf (i - f.position) else padded f.bytes last i

-- A write to a writable file that does not need a vector of 2^63 bytes does not panic, moves the
-- position past what it wrote, answers its length, and leaves exactly its own bytes there, zeros
-- between the former end and its start, and every other byte as it was.
pub write_lem :
    (f : FileObject) (buf : List ℕ)
    → f.writable ≡ true
    → f.position + length buf < i64_half
    → (g : FileObject) × (File.write f buf ≡ some (g, ok (length buf)))
      × (g.position ≡ f.position + length buf)
      × ((i : ℕ) → get_elem? g.bytes i ≡ expected_byte f buf i)
write_lem f buf w small = (
  record f { bytes = copy_at (resized f buf) f.position buf; position = f.position + length buf },
  write_some f buf w small,
  refl,
  λ i.
      rw
        (
          get_elem?-copy_at (resized f buf) buf f.position i (length-resized f buf),
          get_elem?-resized f buf i,
        )
        refl,
)

drop-copy_at :
    (bytes buf : List ℕ) (pos : ℕ)
    → pos ≤ length bytes
    → drop pos (copy_at bytes pos buf) ≡ buf ++ drop (pos + length buf) bytes
unfolding copy_at
drop-copy_at bytes buf pos h =
    drop_prefix pos (take pos bytes) (buf ++ drop (pos + length buf) bytes)
      (length-take_of_le pos bytes h)

empty_of-append : (buf rest : List ℕ) → length (buf ++ rest) ≡ 0 → buf ≡ []
empty_of-append [] rest h = refl
empty_of-append (x ∷ buf) rest h = ground (arith, h)

min-append : (buf rest : List ℕ) → min (length buf) (length (buf ++ rest)) ≡ length buf
min-append buf rest = omega (arith, length-append buf rest)

read_some :
    (f : FileObject) (buf rest : List ℕ)
    → f.readable ≡ true
    → drop f.position f.bytes ≡ buf ++ rest
    → (File.read f (length buf)).1 ≡ ok buf
unfolding File.read
read_some f buf rest r e = elim (Bool-cases (leb (length f.bytes) f.position)) [
  | inl h ↦
      let none_left : length (buf ++ rest) ≡ 0 =
        rw (← e, length-drop f.position f.bytes) (ground (arith, h)) in
      rw (r, h, empty_of-append buf rest none_left) refl
  | inr h ↦ rw (r, h, e, min-append buf rest, take-append buf rest) refl
]

-- Writing, seeking back and reading.
abbrev pub reread : FileObject → List ℕ → Option (Result (List ℕ) IoError)
reread f buf = elim (File.write f buf) [
  | none ↦ none
  | some answer ↦ some ((File.read (File.seek (answer.0) (start f.position)).0 (length buf)).1)
]

-- In a file open for both, what was written is read again after a seek to where the write started.
pub reread_lem :
    (f : FileObject) (buf : List ℕ)
    → f.writable ≡ true
    → f.readable ≡ true
    → f.position + length buf < i64_half
    → reread f buf ≡ some (ok buf)
unfolding File.seek
reread_lem f buf w r small =
    let back : is_neg_i64 f.position ≡ false = ground (arith, small) in
    let all = resized f buf in
    rw (reread, write_some f buf w small, back)
      (ap some (
        read_some (record f { bytes = copy_at all f.position buf }) buf
          (drop (f.position + length buf) all) r
          (drop-copy_at all buf f.position (omega (arith, length-resized f buf)))))
