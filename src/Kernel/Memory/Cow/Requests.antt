-- ===== src/Kernel/Memory/Cow/Requests.antt =====
-- What a program does with memories that share pages, and with lists of bytes that share nothing.
use Prim.Native.Nat.{min}
use axebergos.Prelude.{
  ℕ, ◌-◌, number_key, List, [], ◌∷◌, ◌++◌, none, some, length, get_elem?, set, take, drop,
  replicate,
}
use axebergos.Kernel.Object.File.{copy_at}
use axebergos.Kernel.Memory.Cow.{
  Frames, CowMemory, new, from_data, read, write, cow_clone, drop_pages,
}
use axebergos.Kernel.Memory.Cow.Worlds.{nowhere}

-- What a program does with its memories, which it names by their numbers.
pub data Request : Type 0 where
  creates : ℕ → Request
  loads : List ℕ → Request
  forks : ℕ → Request
  writes : ℕ → ℕ → List ℕ → Request
  reads : ℕ → ℕ → ℕ → Request
  drops : ℕ → Request

pub data Reply : Type 0 where
  done missing : Reply
  written : ℕ → Reply
  found : List ℕ → Reply

pub record World : Type 0 where
  pub frames : Frames
  pub memories : List CowMemory

-- A memory that is dropped leaves an empty one in its place.
unfoldable pub step : World → Request → World × Reply
step w (creates size) =
    let (s, m) = new w.frames size in (record { frames = s; memories = w.memories ++ m ∷ [] }, done)
step w (loads content) =
    let (s, m) = from_data w.frames content in
    (record { frames = s; memories = w.memories ++ m ∷ [] }, done)
step w (forks i) = elim (get_elem? w.memories i) [
  | none ↦ (w, missing)
  | some m ↦
      let (s, m') = cow_clone w.frames m in
      (record { frames = s; memories = w.memories ++ m' ∷ [] }, done)
]
step w (writes i offset buf) = elim (get_elem? w.memories i) [
  | none ↦ (w, missing)
  | some m ↦
      let (s, m', n, faults) = write w.frames m offset buf in
      (record { frames = s; memories = set w.memories i m' }, written n)
]
step w (reads i offset n) = elim (get_elem? w.memories i) [
  | none ↦ (w, missing)
  | some m ↦ (w, found (read w.frames m offset n))
]
step w (drops i) = elim (get_elem? w.memories i) [
  | none ↦ (w, missing)
  | some m ↦
      (record { frames = drop_pages w.frames m.pages; memories = set w.memories i nowhere }, done)
]

unfoldable pub run : World → List Request → List Reply
run w [] = []
run w (r ∷ rs) = let (w', reply) = step w r in reply ∷ run w' rs

-- The same on lists of bytes that share nothing.
unfoldable pub flat_step : List (List ℕ) → Request → List (List ℕ) × Reply
flat_step fs (creates size) = (fs ++ replicate size 0 ∷ [], done)
flat_step fs (loads content) = (fs ++ content ∷ [], done)
flat_step fs (forks i) = elim (get_elem? fs i) [
  | none ↦ (fs, missing)
  | some f ↦ (fs ++ f ∷ [], done)
]
flat_step fs (writes i offset buf) = elim (get_elem? fs i) [
  | none ↦ (fs, missing)
  | some f ↦
      let n = min (length buf) (length f - offset) in
      (set fs i (copy_at f offset (take n buf)), written n)
]
flat_step fs (reads i offset n) = elim (get_elem? fs i) [
  | none ↦ (fs, missing)
  | some f ↦ (fs, found (take n (drop offset f)))
]
flat_step fs (drops i) = elim (get_elem? fs i) [
  | none ↦ (fs, missing)
  | some f ↦ (set fs i [], done)
]

unfoldable pub flat_run : List (List ℕ) → List Request → List Reply
flat_run fs [] = []
flat_run fs (r ∷ rs) = let (fs', reply) = flat_step fs r in reply ∷ flat_run fs' rs

-- No memory yet.
abbrev pub empty_world : World
empty_world = record {
  frames = record { bytes = λ a. []; count = λ a. 0; next = 0 };
  memories = [];
}
