-- ===== src/Kernel/Memory/Cow/Build.antt =====
-- New pages, pages shared by a clone, and pages dropped.
use axebergos.Prelude.{
  ℕ, zero, suc, ◌+◌, ◌-◌, ◌/◌, ◌%◌, ◌≤◌, ◌<◌, ◌≡◌, refl, ap, ◌∙◌, true, number_key, same_refl, List,
  [], ◌∷◌, some, ltb, length, get_elem?, replicate, length-replicate, All, arith,
}
use axebergos.Prelude.Slices.{get_elem?-replicate}
use axebergos.Kernel.Memory.Cow.{
  Frames, CowMemory, page_size, zero_page, div_ceil, new_frame, clone_frame, drop_frame, new_pages,
  pieces, clone_pages, drop_pages, new, from_data,
}
use axebergos.Kernel.Memory.Cow.Owners.{occurs, page_at}
use axebergos.Kernel.Memory.Cow.Stores.{byte_of}
use axebergos.Kernel.Memory.Cow.Pieces.{
  zeros_whole, get_elem?-zero_page, pieces_whole, length-pieces, piece_byte,
}
use axebergos.Kernel.Memory.Cow.Read.{IsFlat}

pub clone_pages_lem :
    (pages : List ℕ) (s : Frames)
    → ((x : ℕ) → (clone_pages s pages).count x ≡ s.count x + occurs x pages)
      × ((clone_pages s pages).bytes ≡ s.bytes)
      × ((clone_pages s pages).next ≡ s.next)
unfolding clone_pages clone_frame occurs
clone_pages_lem [] s = (λ x. omega arith, refl, refl)
clone_pages_lem (a ∷ pages) s =
    let (counted, bytes_are, next_is) = clone_pages_lem pages (clone_frame s a) in
    (λ x. ground (arith, counted x), bytes_are, next_is)

pub drop_pages_lem :
    (pages : List ℕ) (s : Frames)
    → ((x : ℕ) → (drop_pages s pages).count x ≡ s.count x - occurs x pages)
      × ((drop_pages s pages).bytes ≡ s.bytes)
      × ((drop_pages s pages).next ≡ s.next)
unfolding drop_pages drop_frame occurs
drop_pages_lem [] s = (λ x. omega arith, refl, refl)
drop_pages_lem (a ∷ pages) s =
    let (counted, bytes_are, next_is) = drop_pages_lem pages (drop_frame s a) in
    (λ x. ground (arith, counted x), bytes_are, next_is)

-- The frames after new pages for the contents.
pub record IsBuilt (s : Frames) (contents : List (List ℕ)) (s' : Frames) (pages : List ℕ)
    : Type 0 where
  pub kept : (x : ℕ) → x < s.next → s'.bytes x ≡ s.bytes x
  pub counted : (x : ℕ) → s'.count x ≡ s.count x + occurs x pages
  pub fresh : (x : ℕ) → s'.next ≤ x → s'.count x ≡ 0
  pub whole : (x : ℕ) → 0 < s'.count x → length (s'.bytes x) ≡ page_size
  pub later : s.next ≤ s'.next
  pub as_many : length pages ≡ length contents
  pub pages_are : (l : ℕ) → page_at s' pages l ≡ get_elem? contents l

cons_page :
    (s : Frames) (a : ℕ) (c : List ℕ) (pages : List ℕ) (contents : List (List ℕ))
    → s.bytes a ≡ c
    → ((l : ℕ) → page_at s pages l ≡ get_elem? contents l)
    → (l : ℕ) → page_at s (a ∷ pages) l ≡ get_elem? (c ∷ contents) l
cons_page s a c pages contents e h zero = ap some e
cons_page s a c pages contents e h (suc l) = h l

pub new_pages_lem :
    (contents : List (List ℕ)) (s : Frames)
    → All (λ c. length c ≡ page_size) contents
    → ((x : ℕ) → s.next ≤ x → s.count x ≡ 0)
    → ((x : ℕ) → 0 < s.count x → length (s.bytes x) ≡ page_size)
    → (s' : Frames) × (pages : List ℕ) × (new_pages s contents ≡ (s', pages))
      × IsBuilt s contents s' pages
unfolding new_pages new_frame occurs
new_pages_lem [] s full fresh whole = (
  s,
  [],
  refl,
  record {
    kept = λ x p. refl;
    counted = λ x. omega arith;
    fresh = fresh;
    whole = whole;
    later = omega arith;
    as_many = refl;
    pages_are = λ l. refl;
  },
)
new_pages_lem (c ∷ contents) s full fresh whole =
    let (s', pages, e, h) =
      new_pages_lem contents (new_frame s c) full.1 (λ x n. ground (arith, n, fresh x))
        (λ x p. ground (arith, p, full.0, whole x)) in
    (
      s',
      s.next ∷ pages,
      rw e refl,
      record {
        kept = λ x p. h.kept x (omega (arith, p)) ∙ ground (arith, p);
        counted = λ x. ground (arith, h.counted x, fresh s.next);
        fresh = h.fresh;
        whole = h.whole;
        later = omega (arith, h.later);
        as_many = ap suc h.as_many;
        pages_are =
            cons_page s' s.next c pages contents
              (h.kept s.next (omega arith) ∙ rw (same_refl s.next) refl) h.pages_are;
      },
    )

-- A memory made of new pages with the bytes of a list.
built-IsFlat :
    (s s' : Frames) (contents : List (List ℕ)) (pages flat : List ℕ) (size : ℕ)
    → IsBuilt s contents s' pages
    → length flat ≡ size
    → length contents ≡ div_ceil size
    → ((i : ℕ)
        → i < size
        → byte_of (get_elem? contents (i / page_size)) (i % page_size) ≡ get_elem? flat i)
    → IsFlat s' (record { pages = pages; size = size }) flat
built-IsFlat s s' contents pages flat size h sized many bytes = record {
  sized = sized;
  roomy = rw (h.as_many, many) (omega arith);
  bytes_are = λ i lt. rw (h.pages_are (i / page_size)) (bytes i lt);
}

-- What a constructor of memory yields.
abbrev pub Builds : Frames → Frames × CowMemory → List ℕ → Type 0
Builds s made flat =
    (contents : List (List ℕ)) × IsBuilt s contents made.0 made.1.pages × IsFlat made.0 made.1 flat

module _ (s : Frames) (fresh : (x : ℕ) → s.next ≤ x → s.count x ≡ 0)
    (whole : (x : ℕ) → 0 < s.count x → length (s.bytes x) ≡ page_size) where
  -- `CowMemory::new` makes a memory of zeros.
  pub new-Builds : (size : ℕ) → Builds s (new s size) (replicate size 0)
  unfolding new
  new-Builds size =
      let contents = replicate (div_ceil size) zero_page in
      let (s', pages, e, h) = new_pages_lem contents s (zeros_whole (div_ceil size)) fresh whole in
      let byte : (i : ℕ)
          → i < size
          → byte_of (get_elem? contents (i / page_size)) (i % page_size)
            ≡ get_elem? (replicate size 0) i =
        λ i lt.
          let t1 : ltb (i / page_size) (div_ceil size) ≡ true = ground (arith, lt) in
          let t2 : ltb i size ≡ true = ground (arith, lt) in
          rw
            (
              get_elem?-replicate (div_ceil size) zero_page (i / page_size),
              t1,
              get_elem?-replicate {A = ℕ} size 0 i,
              t2,
            )
            (get_elem?-zero_page (i % page_size) (omega arith)) in
      rw e (
        contents,
        h,
        built-IsFlat s s' contents pages (replicate size 0) size h (length-replicate {A = ℕ} size 0)
            (length-replicate (div_ceil size) zero_page) byte,
      )

  -- `CowMemory::from_data` makes a memory of the bytes that it is given.
  pub from_data-Builds : (content : List ℕ) → Builds s (from_data s content) content
  unfolding from_data
  from_data-Builds content =
      let n = div_ceil (length content) in
      let contents = pieces content 0 n in
      let (s', pages, e, h) = new_pages_lem contents s (pieces_whole content 0 n) fresh whole in
      rw e (
        contents,
        h,
        built-IsFlat s s' contents pages content (length content) h refl (length-pieces content 0 n)
            (piece_byte content),
      )
