-- ===== src/Kernel/Fifo/Requests.antt =====
-- Calls on the registry of FIFOs by path, and the map from paths to buffers that they describe.
use Prim.Native.String.{String}
use axebergos.Prelude.{
  ℕ, Bool, true, false, ◌==◌, text_key, List, [], ◌∷◌, Option, none, some, Result, ok, err,
  if◌then◌else◌, get_elem?, set,
}
use axebergos.Kernel.Fifo.{
  FifoBuffer, FifoError, already_exists, not_found, FifoRegistry, new_buffer, mkfifo, unlink, get,
  is_fifo,
}

-- The calls on the registry by path: `changes` changes the buffer that `get` finds, through the
-- reference, and `looks` reads it.
pub data Request : Type 0 where
  makes unlinks tests looks : String → Request
  changes : String → (FifoBuffer → FifoBuffer) → Request

pub data Answer : Type 0 where
  outcome : Result (Unit {0}) FifoError → Answer
  told : Bool → Answer
  found : Option FifoBuffer → Answer
  changed : Answer

-- The buffer behind an address.
unfoldable pub deref : FifoRegistry → Option ℕ → Option FifoBuffer
deref r none = none
deref r (some a) = get_elem? r.store a

-- The buffer of a path.
unfoldable pub look : FifoRegistry → String → Option FifoBuffer
look r path = deref r (get r path)

unfoldable pub change_at : FifoRegistry → Option ℕ → (FifoBuffer → FifoBuffer) → FifoRegistry
change_at r none f = r
change_at r (some a) f = elim (get_elem? r.store a) [
  | none ↦ r
  | some b ↦ record r { store = set r.store a (f b) }
]

unfoldable pub serve : FifoRegistry → Request → FifoRegistry × Answer
serve r (makes path) = ((mkfifo r path).0, outcome (mkfifo r path).1)
serve r (unlinks path) = ((unlink r path).0, outcome (unlink r path).1)
serve r (tests path) = (r, told (is_fifo r path))
serve r (looks path) = (r, found (look r path))
serve r (changes path f) = (change_at r (get r path) f, changed)

unfoldable pub answers : FifoRegistry → List Request → List Answer
answers r [] = []
answers r (q ∷ qs) = let (r', a) = serve r q in a ∷ answers r' qs

-- What the paths are: each has a buffer of its own, or none.
abbrev pub Names : Type 0
Names = String → Option FifoBuffer

-- The names with another buffer, or none, at one path.
unfoldable pub put : Names → String → Option FifoBuffer → Names
put v path o q = if path == q then o else v q

unfoldable pub is_made : Option FifoBuffer → Bool
is_made none = false
is_made (some b) = true

unfoldable pub plan : Names → Request → Names × Answer
plan v (makes path) = elim (v path) [
  | none ↦ (put v path (some (new_buffer 65536)), outcome (ok tt))
  | some b ↦ (v, outcome (err already_exists))
]
plan v (unlinks path) = elim (v path) [
  | none ↦ (v, outcome (err not_found))
  | some b ↦ (put v path none, outcome (ok tt))
]
plan v (tests path) = (v, told (is_made (v path)))
plan v (looks path) = (v, found (v path))
plan v (changes path f) = elim (v path) [
  | none ↦ (v, changed)
  | some b ↦ (put v path (some (f b)), changed)
]

unfoldable pub planned : Names → List Request → List Answer
planned v [] = []
planned v (q ∷ qs) = let (v', a) = plan v q in a ∷ planned v' qs
