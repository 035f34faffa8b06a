-- ===== src/Kernel/Memory/Cow.antt =====
-- kernel/memory.rs, `Page` and `CowMemory`: memory in pages that clones share until one of them writes.
-- The vector behind a page's `Arc` is a frame, which an address names; a frame is written in place when
-- its count says that it has one owner: another page at its address would change with it. No sum of an
-- offset and a length passes the size of a memory, which is a usize, so none overflows.
pub mod Owners
pub mod Page
pub mod Stores
pub mod Write
pub mod Read
pub mod Pieces
pub mod Build
pub mod Worlds
pub mod Requests
pub mod Steps
pub mod Refinement
mod Tests
use Prim.Native.Nat.{min}
use axebergos.Prelude.{
  ℕ, zero, suc, ◌+◌, ◌*◌, ◌-◌, ◌/◌, ◌%◌, Bool, true, false, ◌==◌, number_key, List, [], ◌∷◌, ◌++◌,
  Option, none, some, ltb, leb, if◌then◌else◌, length, get_elem?, set, take, drop, replicate,
}
use axebergos.Kernel.Object.File.{copy_at}

abbrev pub page_size : ℕ
page_size = 4096

-- Each frame's bytes, and its strong count. The addresses from `next` on are free.
pub record Frames : Type 0 where
  pub bytes : ℕ → List ℕ
  pub count : ℕ → ℕ
  pub next : ℕ

abbrev pub update {ℓ} : {A : Type ℓ} → (ℕ → A) → ℕ → A → ℕ → A
update f a v x = if a == x then v else f x

-- `Arc::new`, `Arc::clone`, and `drop` of an Arc.
unfoldable pub new_frame : Frames → List ℕ → Frames
new_frame s content = record {
  bytes = update s.bytes s.next content;
  count = update s.count s.next 1;
  next = s.next + 1;
}

unfoldable pub clone_frame : Frames → ℕ → Frames
clone_frame s a = record s { count = update s.count a (s.count a + 1) }

unfoldable pub drop_frame : Frames → ℕ → Frames
drop_frame s a = record s { count = update s.count a (s.count a - 1) }

unfoldable pub is_shared : Frames → ℕ → Bool
is_shared s a = ltb 1 (s.count a)

-- `Page::new` and `Page::from_data`: the contents of the page.
unfoldable pub zero_page : List ℕ
zero_page = replicate page_size 0

unfoldable pub padded : List ℕ → List ℕ
padded content = content ++ replicate (page_size - length content) 0

unfoldable pub read_page : Frames → ℕ → ℕ → ℕ → List ℕ
read_page s a offset n =
    if leb page_size offset
    then []
    else let to_read = min n (page_size - offset) in take to_read (drop offset (s.bytes a))

-- The frames after, the address of the page after, the bytes written, and whether it was copied.
unfoldable pub write_page : Frames → ℕ → ℕ → List ℕ → Frames × ℕ × ℕ × Bool
write_page s a offset buf =
    if leb page_size offset
    then (s, a, 0, false)
    else let to_write = min (length buf) (page_size - offset) in
      let content = copy_at (s.bytes a) offset (take to_write buf) in
      if is_shared s a
      then (drop_frame (new_frame s content) a, s.next, to_write, true)
      else (record s { bytes = update s.bytes a content }, a, to_write, false)

pub record CowMemory : Type 0 where
  pub pages : List ℕ
  pub size : ℕ

abbrev pub div_ceil : ℕ → ℕ
div_ceil size = (size + (page_size - 1)) / page_size

-- A page for each of the contents.
unfoldable pub new_pages : Frames → List (List ℕ) → Frames × List ℕ
new_pages s [] = (s, [])
new_pages s (content ∷ more) =
    let (s', pages) = new_pages (new_frame s content) more in (s', s.next ∷ pages)

unfoldable pub new : Frames → ℕ → Frames × CowMemory
unfolding new_pages
new s size =
    let (s', pages) = new_pages s (replicate (div_ceil size) zero_page) in
    (s', record { pages = pages; size = size })

-- The pieces of `from_data` from the page `i` on.
unfoldable pub pieces : List ℕ → ℕ → ℕ → List (List ℕ)
pieces content i zero = []
pieces content i (suc n) =
    let start = i * page_size in
    let last = min (start + page_size) (length content) in
    padded (take (last - start) (drop start content)) ∷ pieces content (i + 1) n

unfoldable pub from_data : Frames → List ℕ → Frames × CowMemory
unfolding new_pages
from_data s content =
    let (s', pages) = new_pages s (pieces content 0 (div_ceil (length content))) in
    (s', record { pages = pages; size = length content })

-- The loop of `read`: the bytes from `done` on.
unfoldable pub read_loop : ℕ → Frames → CowMemory → ℕ → ℕ → ℕ → List ℕ
read_loop zero s m offset to_read bytes_read = []
read_loop (suc fuel) s m offset to_read bytes_read =
    let current_offset = offset + bytes_read in
    let page_offset = current_offset % page_size in
    let chunk_size = min (to_read - bytes_read) (page_size - page_offset) in
    elim (get_elem? m.pages (current_offset / page_size)) [
      | none ↦ []
      | some a ↦
          let found = read_page s a page_offset chunk_size in
          let rest = read_loop fuel s m offset to_read (bytes_read + length found) in
          if ltb bytes_read to_read
          then if ltb (length found) chunk_size then found else found ++ rest
          else []
    ]

-- A read is given the length of its buffer and answers the bytes that it puts there.
unfoldable pub read : Frames → CowMemory → ℕ → ℕ → List ℕ
read s m offset n =
    if leb m.size offset
    then []
    else let to_read = min n (m.size - offset) in read_loop to_read s m offset to_read 0

unfoldable pub write_loop :
    ℕ → Frames → CowMemory → ℕ → List ℕ → ℕ → ℕ → ℕ → Frames × CowMemory × ℕ × ℕ
write_loop zero s m offset buf to_write bytes_written cow_faults = (s, m, bytes_written, cow_faults)
write_loop (suc fuel) s m offset buf to_write bytes_written cow_faults =
    let current_offset = offset + bytes_written in
    let page_idx = current_offset / page_size in
    let page_offset = current_offset % page_size in
    let chunk_size = min (to_write - bytes_written) (page_size - page_offset) in
    elim (get_elem? m.pages page_idx) [
      | none ↦ (s, m, bytes_written, cow_faults)
      | some a ↦
          let (s', a', written, cow_triggered) =
            write_page s a page_offset (take chunk_size (drop bytes_written buf)) in
          let m' : CowMemory = record m { pages = set m.pages page_idx a' } in
          let done = bytes_written + written in
          let faults = cow_faults + (if cow_triggered then 1 else 0) in
          let rest = write_loop fuel s' m' offset buf to_write done faults in
          if ltb bytes_written to_write
          then if ltb written chunk_size then (s', m', done, faults) else rest
          else (s, m, bytes_written, cow_faults)
    ]

-- The bytes written, and the pages copied.
unfoldable pub write : Frames → CowMemory → ℕ → List ℕ → Frames × CowMemory × ℕ × ℕ
write s m offset buf =
    if leb m.size offset
    then (s, m, 0, 0)
    else let to_write = min (length buf) (m.size - offset) in
      write_loop to_write s m offset buf to_write 0 0

-- The pages of a clone, and those of a memory that is dropped.
unfoldable pub clone_pages : Frames → List ℕ → Frames
clone_pages s [] = s
clone_pages s (a ∷ pages) = clone_pages (clone_frame s a) pages

unfoldable pub drop_pages : Frames → List ℕ → Frames
drop_pages s [] = s
drop_pages s (a ∷ pages) = drop_pages (drop_frame s a) pages

unfoldable pub cow_clone : Frames → CowMemory → Frames × CowMemory
unfolding clone_pages
cow_clone s m = (clone_pages s m.pages, record { pages = m.pages; size = m.size })
