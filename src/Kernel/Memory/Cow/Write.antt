-- ===== src/Kernel/Memory/Cow/Write.antt =====
-- A write stores its bytes, whatever pages they fall in.
use Prim.Native.Nat.{min}
use axebergos.Prelude.{
  ℕ, zero, suc, ◌+◌, ◌-◌, ◌*◌, ◌/◌, ◌%◌, ◌≤◌, ◌<◌, ◌≡◌, refl, subst, Bool, true, false, number_key,
  List, some, inl, inr, ltb, leb, if◌then◌else◌, length, get_elem?, set, take, drop, Bool-cases,
  Option-cases, arith,
}
use axebergos.Prelude.Slices.{get_elem?-some}
use axebergos.Kernel.Memory.Cow.{Frames, CowMemory, page_size, write_page, write_loop, write}
use axebergos.Kernel.Memory.Cow.Owners.{occurs-pos, IsOwned}
use axebergos.Kernel.Memory.Cow.Page.{write_page_lem}
use axebergos.Kernel.Memory.Cow.Stores.{
  IsStored, length-chunk, idle-IsStored, page-IsStored, joined-IsStored,
}

write_loop_done :
    (fuel : ℕ) (s : Frames) (m : CowMemory) (offset : ℕ) (buf : List ℕ) (n faults : ℕ)
    → write_loop fuel s m offset buf n n faults ≡ (s, m, n, faults)
unfolding write_loop
write_loop_done zero s m offset buf n faults = refl
write_loop_done (suc fuel) s m offset buf n faults =
    let stop : ltb n n ≡ false = ground arith in
    elim (Option-cases (get_elem? m.pages ((offset + n) / page_size))) [
      | inl e ↦ rw (write_loop, e) refl
      | inr (a, e) ↦ rw (write_loop, e, stop) refl
    ]

write_loop_next :
    (fuel : ℕ) (s s' : Frames) (m : CowMemory) (offset : ℕ) (buf : List ℕ)
    (to_write done faults a a' n : ℕ) (copied : Bool)
    → done < to_write
    → get_elem? m.pages ((offset + done) / page_size) ≡ some a
    → min (to_write - done) (page_size - (offset + done) % page_size) ≡ n
    → write_page s a ((offset + done) % page_size) (take n (drop done buf)) ≡ (s', a', n, copied)
    → write_loop (suc fuel) s m offset buf to_write done faults
      ≡ write_loop fuel s'
          (record m { pages = set m.pages ((offset + done) / page_size) a' })
          offset
          buf
          to_write
          (done + n)
          (faults + (if copied then 1 else 0))
unfolding write_loop
write_loop_next fuel s s' m offset buf to_write done faults a a' n copied lt at size w =
    let go : ltb done to_write ≡ true = ground (arith, lt) in
    let full : ltb n n ≡ false = ground arith in rw (write_loop, at, size, w, go, full) refl

-- The loop of `write`, on as much fuel as there are bytes to write.
pub write_loop_lem :
    (others : ℕ → ℕ) (fuel : ℕ) (s : Frames) (m : CowMemory) (offset : ℕ) (buf : List ℕ)
    (to_write done faults : ℕ)
    → IsOwned others s m.pages
    → to_write ≤ length buf
    → offset + to_write ≤ length m.pages * page_size
    → done ≤ to_write
    → to_write - done ≤ fuel
    → (s' : Frames) × (pages' : List ℕ) × (faults' : ℕ) × (write_loop fuel s m offset buf to_write
          done faults
        ≡ (s', record m { pages = pages' }, to_write, faults'))
      × IsStored others s m.pages (offset + done) (offset + to_write) offset buf s' pages'
write_loop_lem others zero s m offset buf to_write done faults h fits inside le enough =
    let same : done ≡ to_write = omega (arith, le, enough) in
    (
      s,
      m.pages,
      faults,
      rw same (write_loop_done 0 s m offset buf to_write faults),
      idle-IsStored others s m.pages (offset + done) (offset + to_write) offset buf h
          (omega (arith, same)),
    )
write_loop_lem others (suc fuel) s m offset buf to_write done faults h fits inside le enough =
    elim (Bool-cases (ltb done to_write)) [
      | inr e ↦
          let same : done ≡ to_write = ground (arith, e, le) in
          (
            s,
            m.pages,
            faults,
            rw same (write_loop_done (suc fuel) s m offset buf to_write faults),
            idle-IsStored others s m.pages (offset + done) (offset + to_write) offset buf h
                (omega (arith, same)),
          )
      | inl e ↦
          let lt : done < to_write = ground (arith, e) in
          let k = (offset + done) / page_size in
          let po = (offset + done) % page_size in
          let (a, at) = get_elem?-some m.pages k (omega (arith, lt, inside)) in
          let n = min (to_write - done) (page_size - po) in
          let size : length (take n (drop done buf)) ≡ n =
            length-chunk buf n done (omega (arith, fits)) in
          let (s', a', copied, w, k') =
            write_page_lem others s m.pages k a h at po n (take n (drop done buf)) size
              (omega arith) (omega arith) in
          let stored =
            page-IsStored others s s' m.pages offset done n a a' buf
              (h.whole a (omega (arith, h.counted a, occurs-pos k a m.pages at))) at
              (omega (arith, fits)) (omega arith) k' in
          let together : offset + (done + n) ≡ offset + done + n = omega arith in
          let (s'', pages'', faults'', e', later) =
            write_loop_lem others fuel s' (record m { pages = set m.pages k a' }) offset buf
              to_write (done + n) (faults + (if copied then 1 else 0)) stored.owned fits
              (rw stored.as_many inside) (omega (arith, lt)) (omega (arith, lt, enough)) in
          (
            s'',
            pages'',
            faults'',
            rw
                (write_loop_next fuel s s' m offset buf to_write done faults a a' n copied lt at
                  refl w)
                e',
            joined-IsStored others s s' s'' m.pages (set m.pages k a') pages'' (offset + done)
                (offset + done + n) (offset + to_write) offset buf (omega arith) (omega (arith, lt))
                stored
                (subst
                  (λ x.
                    IsStored others s' (set m.pages k a') x (offset + to_write) offset buf s''
                      pages'')
                  together later),
          )
    ]

-- A write stores as many of its bytes as there is room for.
pub write_lem :
    (others : ℕ → ℕ) (s : Frames) (m : CowMemory) (offset : ℕ) (buf : List ℕ)
    → IsOwned others s m.pages
    → m.size ≤ length m.pages * page_size
    → (s' : Frames) × (pages' : List ℕ) × (faults : ℕ) × (write s m offset buf
        ≡ (s', record m { pages = pages' }, min (length buf) (m.size - offset), faults))
      × IsStored others s m.pages offset
          (offset + min (length buf) (m.size - offset))
          offset
          buf
          s'
          pages'
unfolding write
write_lem others s m offset buf h roomy = elim (Bool-cases (leb m.size offset)) [
  | inl e ↦
      let no_room : min (length buf) (m.size - offset) ≡ 0 = ground (arith, e) in
      (
        s,
        m.pages,
        0,
        rw (e, no_room) refl,
        idle-IsStored others s m.pages offset (offset + min (length buf) (m.size - offset)) offset
            buf h (omega (arith, no_room)),
      )
  | inr e ↦
      let n = min (length buf) (m.size - offset) in
      let inside : offset < m.size = ground (arith, e) in
      let (s', pages', faults, done, stored) =
        write_loop_lem others n s m offset buf n 0 0 h (omega arith) (omega (arith, inside, roomy))
          (omega arith) (omega arith) in
      let start : offset + 0 ≡ offset = omega arith in
      (
        s',
        pages',
        faults,
        rw e done,
        subst (λ x. IsStored others s m.pages x (offset + n) offset buf s' pages') start stored,
      )
]
