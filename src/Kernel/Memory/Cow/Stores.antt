-- ===== src/Kernel/Memory/Cow/Stores.antt =====
-- What it is that bytes stand in a memory, and chunks put together.
use axebergos.Prelude.{
  ℕ, ◌+◌, ◌-◌, ◌/◌, ◌%◌, ◌≤◌, ◌<◌, ◌≡◌, refl, ◌∙◌, true, false, ◌&&◌, ◌==◌, number_key, List,
  Option, none, some, inl, inr, ltb, leb, if◌then◌else◌, length, get_elem?, set, take, drop,
  length-set, length-take, length-drop, Bool-cases, arith,
}
use axebergos.Prelude.Slices.{get_elem?-take, get_elem?-drop}
use axebergos.Kernel.Object.File.{copy_at}
use axebergos.Kernel.Object.Contents.{get_elem?-copy_at}
use axebergos.Kernel.Memory.Cow.{Frames, page_size}
use axebergos.Kernel.Memory.Cow.Owners.{IsOwned, page_at}
use axebergos.Kernel.Memory.Cow.Page.{IsWritten}

abbrev pub byte_of : Option (List ℕ) → ℕ → Option ℕ
byte_of none i = none
byte_of (some content) i = get_elem? content i

-- The byte at `i` of the memory.
abbrev pub byte_at : Frames → List ℕ → ℕ → Option ℕ
byte_at s pages i = byte_of (page_at s pages (i / page_size)) (i % page_size)

-- The bytes of `buf` stand from `first` to `last`, where `offset` is the place of its start.
pub record IsStored (others : ℕ → ℕ) (s : Frames) (pages : List ℕ) (first last offset : ℕ)
    (buf : List ℕ) (s' : Frames) (pages' : List ℕ) : Type 0 where
  pub owned : IsOwned others s' pages'
  pub apart : (x : ℕ) → 0 < others x → s'.bytes x ≡ s.bytes x
  pub as_many : length pages' ≡ length pages
  pub bytes_are :
      (i : ℕ)
      → byte_at s' pages' i
        ≡ (if leb first i && ltb i last then get_elem? buf (i - offset) else byte_at s pages i)

pub idle-IsStored :
    (others : ℕ → ℕ) (s : Frames) (pages : List ℕ) (first last offset : ℕ) (buf : List ℕ)
    → IsOwned others s pages
    → last ≤ first
    → IsStored others s pages first last offset buf s pages
idle-IsStored others s pages first last offset buf h e = record {
  owned = h;
  apart = λ x p. refl;
  as_many = refl;
  bytes_are = λ i. let out : (leb first i && ltb i last) ≡ false = ground (arith, e) in rw out refl;
}

pub length-chunk :
    (buf : List ℕ) (n done : ℕ) → done + n ≤ length buf → length (take n (drop done buf)) ≡ n
length-chunk buf n done fits =
    omega (arith, fits, length-take n (drop done buf), length-drop done buf)

-- A byte of the page that a chunk was written to.
chunk_byte :
    (content buf : List ℕ) (start done n i : ℕ) (offset : ℕ)
    → start ≡ offset + done
    → length content ≡ page_size
    → done + n ≤ length buf
    → start % page_size + n ≤ page_size
    → start / page_size ≡ i / page_size
    → get_elem? (copy_at content (start % page_size) (take n (drop done buf))) (i % page_size) ≡ (
        if leb start i && ltb i (start + n)
        then get_elem? buf (i - offset)
        else get_elem? content (i % page_size))
chunk_byte content buf start done n i offset is_start whole fits inside same =
    let chunk = take n (drop done buf) in
    let size : length chunk ≡ n = length-chunk buf n done fits in
    let moved : start ≤ i → done + (i % page_size - start % page_size) ≡ i - offset =
      λ h. omega (arith, h, same, is_start) in
    rw
      (
        get_elem?-copy_at content chunk (start % page_size) (i % page_size)
            (omega (arith, size, whole, inside)),
        size,
        get_elem?-take n (drop done buf) (i % page_size - start % page_size),
        get_elem?-drop done buf (i % page_size - start % page_size),
      )
      (elim (Bool-cases (leb start i && ltb i (start + n))) [
        | inl e ↦
            let low : start ≤ i = ground (arith, e) in
            let t1 : leb (start % page_size) (i % page_size) ≡ true = ground (arith, low, same) in
            let t2 : ltb (i % page_size) (start % page_size + n) ≡ true = ground (arith, e, same) in
            let t3 : ltb (i % page_size - start % page_size) n ≡ true = ground (arith, t1, t2) in
            rw (e, t1, t2, t3, moved low) refl
        | inr e ↦
            let t : (leb (start % page_size) (i % page_size)
                  && ltb (i % page_size) (start % page_size + n))
                ≡ false =
              ground (arith, e, same, inside) in
            rw (e, t) refl
      ])

-- A chunk that stays in its page.
pub page-IsStored :
    (others : ℕ → ℕ) (s s' : Frames) (pages : List ℕ) (offset done n a a' : ℕ) (buf : List ℕ)
    → length (s.bytes a) ≡ page_size
    → get_elem? pages ((offset + done) / page_size) ≡ some a
    → done + n ≤ length buf
    → (offset + done) % page_size + n ≤ page_size
    → IsWritten others s pages
        ((offset + done) / page_size)
        (copy_at (s.bytes a) ((offset + done) % page_size) (take n (drop done buf)))
        s'
        a'
    → IsStored others s pages
        (offset + done)
        (offset + done + n)
        offset
        buf
        s'
        (set pages ((offset + done) / page_size) a')
page-IsStored others s s' pages offset done n a a' buf whole at fits inside w = record {
  owned = w.owned;
  apart = w.apart;
  as_many = length-set pages ((offset + done) / page_size) a';
  bytes_are = λ i. elim (Bool-cases ((offset + done) / page_size == i / page_size)) [
    | inr e ↦
        let out : (leb (offset + done) i && ltb i (offset + done + n)) ≡ false =
          ground (arith, e, inside) in
        rw (w.pages_are (i / page_size), e, out) refl
    | inl e ↦
        let same : (offset + done) / page_size ≡ i / page_size = ground (arith, e) in
        let here : page_at s pages (i / page_size) ≡ some (s.bytes a) = rw (← same, at) refl in
        rw (w.pages_are (i / page_size), e, here)
          (chunk_byte (s.bytes a) buf (offset + done) done n i offset refl whole fits inside same)
  ];
}

-- A store, and then another from where it ends.
pub joined-IsStored :
    (others : ℕ → ℕ) (s s' s'' : Frames) (pages pages' pages'' : List ℕ)
    (first middle last offset : ℕ) (buf : List ℕ)
    → first ≤ middle
    → middle ≤ last
    → IsStored others s pages first middle offset buf s' pages'
    → IsStored others s' pages' middle last offset buf s'' pages''
    → IsStored others s pages first last offset buf s'' pages''
joined-IsStored others s s' s'' pages pages' pages'' first middle last offset buf le le' h k =
    record {
      owned = k.owned;
      apart = λ x p. k.apart x p ∙ h.apart x p;
      as_many = k.as_many ∙ h.as_many;
      bytes_are = λ i.
          k.bytes_are i
          ∙ rw (h.bytes_are i) (elim (Bool-cases (leb middle i && ltb i last)) [
            | inl e ↦
                let t : (leb first i && ltb i last) ≡ true = ground (arith, e, le) in rw (e, t) refl
            | inr e ↦ elim (Bool-cases (leb first i && ltb i middle)) [
              | inl f ↦
                  let t : (leb first i && ltb i last) ≡ true = ground (arith, f, le') in
                  rw (e, f, t) refl
              | inr f ↦
                  let t : (leb first i && ltb i last) ≡ false = ground (arith, e, f) in
                  rw (e, f, t) refl
            ]
          ]);
    }
