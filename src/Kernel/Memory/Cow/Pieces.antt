-- ===== src/Kernel/Memory/Cow/Pieces.antt =====
-- The contents of the pages of a new memory.
use Prim.Native.Nat.{min}
use axebergos.Prelude.{
  ℕ, zero, suc, ◌+◌, ◌-◌, ◌*◌, ◌/◌, ◌%◌, ◌≤◌, ◌<◌, ◌≡◌, refl, ap, true, number_key, List, some, ltb,
  length, get_elem?, take, drop, replicate, length-append, length-take, length-drop,
  length-replicate, All, arith,
}
use axebergos.Prelude.Slices.{get_elem?-append, get_elem?-take, get_elem?-drop, get_elem?-replicate}
use axebergos.Kernel.Memory.Cow.{page_size, zero_page, div_ceil, padded, pieces}
use axebergos.Kernel.Memory.Cow.Stores.{byte_of}

length-zero_page : length zero_page ≡ page_size
unfolding zero_page
length-zero_page = length-replicate {A = ℕ} page_size 0

pub get_elem?-zero_page : (i : ℕ) → i < page_size → get_elem? zero_page i ≡ some 0
unfolding zero_page
get_elem?-zero_page i lt =
    let inside : ltb i page_size ≡ true = ground (arith, lt) in
    rw (get_elem?-replicate {A = ℕ} page_size 0 i, inside) refl

pub zeros_whole : (n : ℕ) → All (λ c. length c ≡ page_size) (replicate n zero_page)
zeros_whole zero = tt
zeros_whole (suc n) = (length-zero_page, zeros_whole n)

get_elem?-padded :
    (piece : List ℕ) (i : ℕ) → i < length piece → get_elem? (padded piece) i ≡ get_elem? piece i
unfolding padded
get_elem?-padded piece i lt =
    let inside : ltb i (length piece) ≡ true = ground (arith, lt) in
    rw (get_elem?-append piece (replicate (page_size - length piece) 0) i, inside) refl

length-padded : (piece : List ℕ) → length piece ≤ page_size → length (padded piece) ≡ page_size
unfolding padded
length-padded piece fits = omega (
  arith,
  fits,
  length-append piece (replicate (page_size - length piece) 0),
  length-replicate {A = ℕ} (page_size - length piece) 0,
)

-- The piece of the page `l`.
abbrev piece : List ℕ → ℕ → List ℕ
piece content l =
    take (min (l * page_size + page_size) (length content) - l * page_size)
      (drop (l * page_size) content)

length-piece :
    (content : List ℕ) (l : ℕ)
    → length (piece content l) ≡ min (l * page_size + page_size) (length content) - l * page_size
length-piece content l = omega (
  arith,
  length-take (min (l * page_size + page_size) (length content) - l * page_size)
      (drop (l * page_size) content),
  length-drop (l * page_size) content,
)

pub pieces_whole :
    (content : List ℕ) (i n : ℕ) → All (λ c. length c ≡ page_size) (pieces content i n)
unfolding pieces
pieces_whole content i zero = tt
pieces_whole content i (suc n) = (
  length-padded (piece content i) (omega (arith, length-piece content i)),
  pieces_whole content (i + 1) n,
)

pub length-pieces : (content : List ℕ) (i n : ℕ) → length (pieces content i n) ≡ n
unfolding pieces
length-pieces content i zero = refl
length-pieces content i (suc n) = ap suc (length-pieces content (i + 1) n)

get_elem?-pieces :
    (content : List ℕ) (i n l : ℕ)
    → l < n
    → get_elem? (pieces content i n) l ≡ some (padded (piece content (i + l)))
unfolding pieces
get_elem?-pieces content i zero l lt = ground (arith, lt)
get_elem?-pieces content i (suc n) zero lt = let same : i + 0 ≡ i = omega arith in rw same refl
get_elem?-pieces content i (suc n) (suc l) lt =
    let same : i + suc l ≡ i + 1 + l = omega arith in
    rw same (get_elem?-pieces content (i + 1) n l (omega (arith, lt)))

pub piece_byte :
    (content : List ℕ) (i : ℕ)
    → i < length content
    → byte_of
        (get_elem? (pieces content 0 (div_ceil (length content))) (i / page_size))
        (i % page_size)
      ≡ get_elem? content i
piece_byte content i lt =
    let l = i / page_size in
    let start : 0 + l ≡ l = omega arith in
    let here : i % page_size < min (l * page_size + page_size) (length content) - l * page_size =
      omega (arith, lt) in
    let inside : ltb (i % page_size)
          (min (l * page_size + page_size) (length content) - l * page_size)
        ≡ true =
      ground (arith, here) in
    let place : l * page_size + i % page_size ≡ i = omega arith in
    rw
      (
        get_elem?-pieces content 0 (div_ceil (length content)) l (omega (arith, lt)),
        start,
        get_elem?-padded (piece content l) (i % page_size) (rw (length-piece content l) here),
        get_elem?-take (min (l * page_size + page_size) (length content) - l * page_size)
            (drop (l * page_size) content) (i % page_size),
        inside,
        get_elem?-drop (l * page_size) content (i % page_size),
        place,
      )
      refl
