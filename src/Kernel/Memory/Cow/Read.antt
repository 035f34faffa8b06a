-- ===== src/Kernel/Memory/Cow/Read.antt =====
-- A read answers the bytes that stand in the memory.
use Prim.Native.Nat.{min}
use axebergos.Prelude.{
  ℕ, zero, suc, ◌+◌, ◌-◌, ◌*◌, ◌/◌, ◌%◌, ◌≤◌, ◌<◌, ◌≡◌, refl, sym, ap, ◌∙◌, true, false, number_key,
  List, [], ◌++◌, some, inl, inr, ltb, leb, length, get_elem?, take, drop, length-take, length-drop,
  Bool-cases, Option-cases, arith,
}
use axebergos.Prelude.Slices.{
  get_elem?-some, get_elem?-take, get_elem?-drop, get_elem?-ext, take-add, drop-add, take_all,
  drop_all, take-min,
}
use axebergos.Kernel.Memory.Cow.{Frames, CowMemory, page_size, read_page, read_loop, read}
use axebergos.Kernel.Memory.Cow.Stores.{byte_at}

-- The memory holds the bytes of a flat list.
pub record IsFlat (s : Frames) (m : CowMemory) (flat : List ℕ) : Type 0 where
  pub sized : length flat ≡ m.size
  pub roomy : m.size ≤ length m.pages * page_size
  pub bytes_are : (i : ℕ) → i < m.size → byte_at s m.pages i ≡ get_elem? flat i

-- A chunk of a page.
read_page_eq :
    (s : Frames) (m : CowMemory) (flat : List ℕ) (a start n : ℕ)
    → IsFlat s m flat
    → get_elem? m.pages (start / page_size) ≡ some a
    → start % page_size + n ≤ page_size
    → start + n ≤ m.size
    → read_page s a (start % page_size) n ≡ take n (drop start flat)
unfolding read_page
read_page_eq s m flat a start n h at inside fits =
    let within : leb page_size (start % page_size) ≡ false = ground arith in
    let all : min n (page_size - start % page_size) ≡ n = omega (arith, inside) in
    rw (within, all)
      (get_elem?-ext (take n (drop (start % page_size) (s.bytes a))) (take n (drop start flat))
        (λ i.
          rw
            (
              get_elem?-take n (drop (start % page_size) (s.bytes a)) i,
              get_elem?-drop (start % page_size) (s.bytes a) i,
              get_elem?-take n (drop start flat) i,
              get_elem?-drop start flat i,
            )
            (elim (Bool-cases (ltb i n)) [
              | inr e ↦ rw e refl
              | inl e ↦
                  let lt : i < n = ground (arith, e) in
                  let q : (start + i) / page_size ≡ start / page_size = omega (arith, lt, inside) in
                  let r : (start + i) % page_size ≡ start % page_size + i =
                    omega (arith, lt, inside) in
                  rw (e, ← h.bytes_are (start + i) (omega (arith, lt, fits)), q, r, at) refl
            ])))

length-slice :
    (xs : List ℕ) (start n : ℕ) → start + n ≤ length xs → length (take n (drop start xs)) ≡ n
length-slice xs start n fits =
    omega (arith, fits, length-take n (drop start xs), length-drop start xs)

read_loop_done :
    (fuel : ℕ) (s : Frames) (m : CowMemory) (offset n : ℕ) → read_loop fuel s m offset n n ≡ []
unfolding read_loop
read_loop_done zero s m offset n = refl
read_loop_done (suc fuel) s m offset n =
    let stop : ltb n n ≡ false = ground arith in
    elim (Option-cases (get_elem? m.pages ((offset + n) / page_size))) [
      | inl e ↦ rw (read_loop, e) refl
      | inr (a, e) ↦ rw (read_loop, e, stop) refl
    ]

read_loop_next :
    (fuel : ℕ) (s : Frames) (m : CowMemory) (offset to_read done a n : ℕ) (found : List ℕ)
    → done < to_read
    → get_elem? m.pages ((offset + done) / page_size) ≡ some a
    → min (to_read - done) (page_size - (offset + done) % page_size) ≡ n
    → read_page s a ((offset + done) % page_size) n ≡ found
    → length found ≡ n
    → read_loop (suc fuel) s m offset to_read done
      ≡ found ++ read_loop fuel s m offset to_read (done + n)
unfolding read_loop
read_loop_next fuel s m offset to_read done a n found lt at size r whole =
    let go : ltb done to_read ≡ true = ground (arith, lt) in
    let full : ltb n n ≡ false = ground arith in rw (read_loop, at, size, r, whole, go, full) refl

read_loop_lem :
    (fuel : ℕ) (s : Frames) (m : CowMemory) (flat : List ℕ) (offset to_read done : ℕ)
    → IsFlat s m flat
    → offset + to_read ≤ m.size
    → done ≤ to_read
    → to_read - done ≤ fuel
    → read_loop fuel s m offset to_read done ≡ take (to_read - done) (drop (offset + done) flat)
read_loop_lem zero s m flat offset to_read done h fits le enough =
    let same : done ≡ to_read = omega (arith, le, enough) in
    let nothing : to_read - to_read ≡ 0 = omega arith in
    rw (same, nothing) (read_loop_done 0 s m offset to_read)
read_loop_lem (suc fuel) s m flat offset to_read done h fits le enough =
    elim (Bool-cases (ltb done to_read)) [
      | inr e ↦
          let same : done ≡ to_read = ground (arith, e, le) in
          let nothing : to_read - to_read ≡ 0 = omega arith in
          rw (same, nothing) (read_loop_done (suc fuel) s m offset to_read)
      | inl e ↦
          let lt : done < to_read = ground (arith, e) in
          let start = offset + done in
          let (a, at) =
            get_elem?-some m.pages (start / page_size) (omega (arith, lt, fits, h.roomy)) in
          let n = min (to_read - done) (page_size - start % page_size) in
          let found = take n (drop start flat) in
          let more : to_read - done ≡ n + (to_read - (done + n)) = omega (arith, lt) in
          let on : offset + (done + n) ≡ start + n = omega arith in
          rw
            (
              read_loop_next fuel s m offset to_read done a n found lt at refl
                  (read_page_eq s m flat a start n h at (omega arith) (omega (arith, lt, fits)))
                  (length-slice flat start n (omega (arith, lt, fits, h.sized))),
              read_loop_lem fuel s m flat offset to_read (done + n) h fits (omega (arith, lt))
                  (omega (arith, lt, enough)),
              on,
              drop-add start n flat,
            )
            (sym (
              ap (λ k. take k (drop start flat)) more
              ∙ take-add n (to_read - (done + n)) (drop start flat)))
    ]

-- A read answers as many of the bytes at the offset as there are, and as fit in the buffer.
pub read_lem :
    (s : Frames) (m : CowMemory) (flat : List ℕ) (offset n : ℕ)
    → IsFlat s m flat
    → read s m offset n ≡ take n (drop offset flat)
unfolding read
read_lem s m flat offset n h = elim (Bool-cases (leb m.size offset)) [
  | inl e ↦ rw e (
      sym (
        ap (take n) (drop_all offset flat (ground (arith, e, h.sized)))
        ∙ take_all n [] (omega arith)))
  | inr e ↦
      let r = min n (m.size - offset) in
      let r_is : min n (length (drop offset flat)) ≡ r =
        omega (arith, h.sized, length-drop offset flat) in
      let all : r - 0 ≡ r = omega arith in
      let start : offset + 0 ≡ offset = omega arith in
      let inside : offset < m.size = ground (arith, e) in
      rw
        (
          e,
          read_loop_lem r s m flat offset r 0 h (omega (arith, inside)) (omega arith) (omega arith),
          all,
          start,
        )
        (rw (← r_is) (take-min n (drop offset flat)))
]
