-- ===== src/Kernel/Memory/Cow/Page.antt =====
-- The write of a page leaves every other page as it was.
use Prim.Native.Nat.{min}
use axebergos.Prelude.{
  ℕ, ◌+◌, ◌-◌, ◌≤◌, ◌<◌, ◌≡◌, ◌≢◌, refl, ◌∙◌, Bool, true, false, ◌==◌, number_key, List, ◌++◌, some,
  inl, inr, ltb, leb, if◌then◌else◌, length, get_elem?, set, take, drop, get_elem?-set,
  length-append, length-drop, Bool-cases, Option-cases, arith,
}
use axebergos.Prelude.Slices.{take_all}
use axebergos.Kernel.Object.File.{copy_at}
use axebergos.Kernel.Object.Contents.{length-take_of_le}
use axebergos.Kernel.Memory.Cow.{
  Frames, page_size, update, new_frame, drop_frame, is_shared, write_page,
}
use axebergos.Kernel.Memory.Cow.Owners.{occurs-set, occurs-pos, occurs-two, IsOwned, page_at}

pub length-copy_at :
    (bytes buf : List ℕ) (pos : ℕ)
    → pos + length buf ≤ length bytes
    → length (copy_at bytes pos buf) ≡ length bytes
unfolding copy_at
length-copy_at bytes buf pos fits =
    rw
      (
        length-append (take pos bytes) (buf ++ drop (pos + length buf) bytes),
        length-append buf (drop (pos + length buf) bytes),
        length-take_of_le pos bytes (omega (arith, fits)),
        length-drop (pos + length buf) bytes,
      )
      (omega (arith, fits))

-- The frames and the page after a write.
pub record IsWritten (others : ℕ → ℕ) (s : Frames) (pages : List ℕ) (k : ℕ) (content : List ℕ)
    (s' : Frames) (a' : ℕ) : Type 0 where
  pub owned : IsOwned others s' (set pages k a')
  pub apart : (x : ℕ) → 0 < others x → s'.bytes x ≡ s.bytes x
  pub pages_are :
      (l : ℕ) → page_at s' (set pages k a') l ≡ (if k == l then some content else page_at s pages l)

module _ (others : ℕ → ℕ) (s : Frames) (pages : List ℕ) (k a : ℕ) (h : IsOwned others s pages)
    (at : get_elem? pages k ≡ some a) where
  -- The page is copied.
  copied-IsWritten :
      (content : List ℕ)
      → length content ≡ page_size
      → 1 < s.count a
      → IsWritten others s pages k content (drop_frame (new_frame s content) a) s.next
  unfolding drop_frame new_frame
  copied-IsWritten content whole shared = record {
    owned = record {
      counted = λ x.
          ground (
            arith,
            shared,
            h.counted x,
            h.fresh s.next,
            h.fresh a,
            occurs-set x k a s.next pages at,
          );
      fresh = λ x n. ground (arith, shared, n, h.fresh x, h.fresh a);
      whole = λ x p. ground (arith, p, whole, h.whole x, h.fresh a, shared);
    };
    apart = λ x p. ground (arith, p, h.counted x, h.fresh s.next);
    pages_are = λ l. elim (Option-cases (get_elem? pages l)) [
      | inl e ↦ ground (arith, e, at, get_elem?-set pages k l s.next)
      | inr (b, e) ↦
          let held : 0 < s.count b = omega (arith, h.counted b, occurs-pos l b pages e) in
          let old : s.next ≢ b = λ n. ground (arith, held, n, h.fresh b) in
          ground (arith, e, at, get_elem?-set pages k l s.next, old)
    ];
  }

  -- The page has no other owner.
  own-IsWritten :
      (content : List ℕ)
      → length content ≡ page_size
      → s.count a ≤ 1
      → IsWritten others s pages k content (record s { bytes = update s.bytes a content }) a
  own-IsWritten content whole alone = record {
    owned = record {
      counted = λ x. ground (arith, h.counted x, occurs-set x k a a pages at);
      fresh = h.fresh;
      whole = λ x p. ground (arith, p, whole, h.whole x);
    };
    apart = λ x p. ground (arith, p, alone, h.counted a, occurs-pos k a pages at);
    pages_are = λ l. elim (Option-cases (get_elem? pages l)) [
      | inl e ↦ ground (arith, e, at, get_elem?-set pages k l a)
      | inr (b, e) ↦
          let other : k ≢ l → a ≢ b =
            λ n same. ground (arith, alone, h.counted a, occurs-two k l a pages at (rw same e) n) in
          ground (arith, e, at, get_elem?-set pages k l a, other)
    ];
  }

  -- A write inside the page writes all of its bytes.
  pub write_page_lem :
      (offset n : ℕ) (buf : List ℕ)
      → length buf ≡ n
      → offset < page_size
      → offset + n ≤ page_size
      → (s' : Frames) × (a' : ℕ) × (copied : Bool) × (write_page s a offset buf
          ≡ (s', a', n, copied))
        × IsWritten others s pages k (copy_at (s.bytes a) offset buf) s' a'
  unfolding write_page is_shared
  write_page_lem offset n buf size inside fits =
      let full : length (s.bytes a) ≡ page_size =
        h.whole a (omega (arith, h.counted a, occurs-pos k a pages at)) in
      let whole : length (copy_at (s.bytes a) offset buf) ≡ page_size =
        length-copy_at (s.bytes a) buf offset (omega (arith, full, fits, size)) ∙ full in
      let all : min (length buf) (page_size - offset) ≡ n = omega (arith, fits, size) in
      let same : take n buf ≡ buf = take_all n buf (omega (arith, size)) in
      let within : leb page_size offset ≡ false = ground (arith, inside) in
      elim (Bool-cases (ltb 1 (s.count a))) [
        | inl e ↦ (
          drop_frame (new_frame s (copy_at (s.bytes a) offset buf)) a,
          s.next,
          true,
          rw (within, all, same, e) refl,
          copied-IsWritten (copy_at (s.bytes a) offset buf) whole (ground (arith, e)),
        )
        | inr e ↦ (
          record s { bytes = update s.bytes a (copy_at (s.bytes a) offset buf) },
          a,
          false,
          rw (within, all, same, e) refl,
          own-IsWritten (copy_at (s.bytes a) offset buf) whole (ground (arith, e)),
        )
      ]
