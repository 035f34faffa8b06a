-- ===== src/Kernel/Memory/Cow/Worlds.antt =====
-- The memories that share frames, and what stays true of them.
use axebergos.Prelude.{
  ℕ, zero, suc, ◌+◌, ◌/◌, ◌%◌, ◌≤◌, ◌<◌, ◌≡◌, refl, ap, ◌∙◌, number_key, List, [], ◌∷◌, ◌++◌,
  Option, none, some, inl, inr, length, get_elem?, set, get_elem?-set, map_option, length-set,
  length-append, arith,
}
use axebergos.Prelude.Slices.{pick-set, pick-add}
use axebergos.Kernel.Memory.Cow.{Frames, CowMemory, page_size}
use axebergos.Kernel.Memory.Cow.Owners.{occurs, occurs-nil, occurs-pos, IsOwned}
use axebergos.Kernel.Memory.Cow.Stores.{byte_of}
use axebergos.Kernel.Memory.Cow.Read.{IsFlat}

abbrev pub nowhere : CowMemory
nowhere = record { pages = []; size = 0 }

-- How many pages of the memories are at `x`.
unfoldable pub total : ℕ → List CowMemory → ℕ
total x [] = 0
total x (m ∷ ms) = occurs x m.pages + total x ms

pub total-nil : (x : ℕ) → total x [] ≡ 0
unfolding total
total-nil x = refl

pub total-set :
    (x i : ℕ) (m n : CowMemory) (ms : List CowMemory)
    → get_elem? ms i ≡ some m
    → total x (set ms i n) + occurs x m.pages ≡ total x ms + occurs x n.pages
unfolding total
total-set x i m n [] e = ground (arith, e)
total-set x zero m n (k ∷ ms) e = ground (arith, e)
total-set x (suc i) m n (k ∷ ms) e = omega (arith, total-set x i m n ms e)

pub total-add :
    (x : ℕ) (m : CowMemory) (ms : List CowMemory)
    → total x (ms ++ m ∷ []) ≡ total x ms + occurs x m.pages
unfolding total
total-add x m [] = omega arith
total-add x m (k ∷ ms) = omega (arith, total-add x m ms)

pub total-least :
    (x i : ℕ) (m : CowMemory) (ms : List CowMemory)
    → get_elem? ms i ≡ some m
    → occurs x m.pages ≤ total x ms
unfolding total
total-least x i m [] e = ground (arith, e)
total-least x zero m (k ∷ ms) e = ground (arith, e)
total-least x (suc i) m (k ∷ ms) e = omega (arith, total-least x i m ms e)

-- The counts are the numbers of pages, and each memory holds the bytes of its flat list.
pub record StandFor (s : Frames) (ms : List CowMemory) (flats : List (List ℕ)) : Type 0 where
  pub counted : (x : ℕ) → s.count x ≡ total x ms
  pub fresh : (x : ℕ) → s.next ≤ x → s.count x ≡ 0
  pub whole : (x : ℕ) → 0 < s.count x → length (s.bytes x) ≡ page_size
  pub as_many : length flats ≡ length ms
  pub flat :
      (i : ℕ) (m : CowMemory) (f : List ℕ)
      → get_elem? ms i ≡ some m
      → get_elem? flats i ≡ some f
      → IsFlat s m f

kept_page :
    (s s' : Frames) (o : Option ℕ)
    → ((a : ℕ) → o ≡ some a → s'.bytes a ≡ s.bytes a)
    → map_option s'.bytes o ≡ map_option s.bytes o
kept_page s s' none h = refl
kept_page s s' (some a) h = ap some (h a refl)

-- A memory whose frames keep their bytes holds the same.
pub kept-IsFlat :
    (s s' : Frames) (m : CowMemory) (f : List ℕ)
    → ((x : ℕ) → 0 < occurs x m.pages → s'.bytes x ≡ s.bytes x)
    → IsFlat s m f
    → IsFlat s' m f
kept-IsFlat s s' m f kept h = record {
  sized = h.sized;
  roomy = h.roomy;
  bytes_are = λ i lt.
      ap (λ c. byte_of c (i % page_size))
        (kept_page s s' (get_elem? m.pages (i / page_size))
          (λ a e. kept a (occurs-pos (i / page_size) a m.pages e)))
      ∙ h.bytes_are i lt;
}

-- What the memory `i` may do: the others are still owned.
pub alone-IsOwned :
    (s : Frames) (ms : List CowMemory) (flats : List (List ℕ)) (i : ℕ) (m : CowMemory)
    → StandFor s ms flats
    → get_elem? ms i ≡ some m
    → IsOwned (λ x. total x (set ms i nowhere)) s m.pages
alone-IsOwned s ms flats i m h e = record {
  counted = λ x. omega (arith, h.counted x, total-set x i m nowhere ms e, occurs-nil x);
  fresh = h.fresh;
  whole = h.whole;
}

-- One memory changes, and the frames of the others keep their bytes.
pub set-StandFor :
    (s s' : Frames) (ms : List CowMemory) (flats : List (List ℕ)) (i : ℕ) (m m' : CowMemory)
    (f' : List ℕ)
    → StandFor s ms flats
    → get_elem? ms i ≡ some m
    → IsOwned (λ x. total x (set ms i nowhere)) s' m'.pages
    → ((x : ℕ) → 0 < total x (set ms i nowhere) → s'.bytes x ≡ s.bytes x)
    → IsFlat s' m' f'
    → StandFor s' (set ms i m') (set flats i f')
set-StandFor s s' ms flats i m m' f' h e owned apart now = record {
  counted = λ x.
      omega (
        arith,
        owned.counted x,
        total-set x i m nowhere ms e,
        total-set x i m m' ms e,
        occurs-nil x,
      );
  fresh = owned.fresh;
  whole = owned.whole;
  as_many = rw (length-set ms i m', length-set flats i f') h.as_many;
  flat = λ j n g at hold. elim (pick-set ms i j m' n at) [
    | inl (same, is) ↦ elim (pick-set flats i j f' g hold) [
      | inl (same', is') ↦ rw⁻¹ (is, is') now
      | inr (other, there) ↦ absurd (other same)
    ]
    | inr (other, here) ↦ elim (pick-set flats i j f' g hold) [
      | inl (same, is) ↦ absurd (other same)
      | inr (other', there) ↦
          let stays : get_elem? (set ms i nowhere) j ≡ some n =
            ground (arith, get_elem?-set ms i j nowhere, other, here) in
          kept-IsFlat s s' n g
            (λ x p. apart x (omega (arith, p, total-least x j n (set ms i nowhere) stays)))
            (h.flat j n g here there)
    ]
  ];
}

-- One more memory, and every frame with an owner keeps its bytes.
pub add-StandFor :
    (s s' : Frames) (ms : List CowMemory) (flats : List (List ℕ)) (m : CowMemory) (f : List ℕ)
    → StandFor s ms flats
    → ((x : ℕ) → s'.count x ≡ s.count x + occurs x m.pages)
    → ((x : ℕ) → s'.next ≤ x → s'.count x ≡ 0)
    → ((x : ℕ) → 0 < s'.count x → length (s'.bytes x) ≡ page_size)
    → ((x : ℕ) → 0 < s.count x → s'.bytes x ≡ s.bytes x)
    → IsFlat s' m f
    → StandFor s' (ms ++ m ∷ []) (flats ++ f ∷ [])
add-StandFor s s' ms flats m f h counted fresh whole kept now = record {
  counted = λ x. omega (arith, counted x, h.counted x, total-add x m ms);
  fresh = fresh;
  whole = whole;
  as_many = omega (arith, h.as_many, length-append ms (m ∷ []), length-append flats (f ∷ []));
  flat = λ j n g at hold. elim (pick-add ms j m n at) [
    | inl (last, is) ↦ elim (pick-add flats j f g hold) [
      | inl (last', is') ↦ rw⁻¹ (is, is') now
      | inr (within, there) ↦ absurd (omega (arith, last, within, h.as_many))
    ]
    | inr (within, here) ↦ elim (pick-add flats j f g hold) [
      | inl (last, is) ↦ absurd (omega (arith, last, within, h.as_many))
      | inr (within', there) ↦
          kept-IsFlat s s' n g
            (λ x p. kept x (omega (arith, p, h.counted x, total-least x j n ms here)))
            (h.flat j n g here there)
    ]
  ];
}
