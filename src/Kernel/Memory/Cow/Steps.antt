-- ===== src/Kernel/Memory/Cow/Steps.antt =====
-- Each request keeps the memories and their flat lists together.
use Prim.Native.Nat.{min}
use axebergos.Prelude.{
  ℕ, ◌+◌, ◌-◌, ◌≤◌, ◌<◌, ◌≡◌, ◌&&◌, ◌⊎◌, length-take, take-append-drop, refl, sym, ap, ◌∙◌, true,
  false, number_key, List, [], ◌∷◌, ◌++◌, none, some, inl, inr, ltb, leb, if◌then◌else◌, length,
  get_elem?, set, take, Bool-cases, arith,
}
use axebergos.Prelude.Slices.{get_elem?-none, get_elem?-some, get_elem?-take}
use axebergos.Kernel.Object.File.{copy_at}
use axebergos.Kernel.Object.Contents.{get_elem?-copy_at}
use axebergos.Kernel.Memory.Cow.{Frames, CowMemory, write, clone_pages, drop_pages}
use axebergos.Kernel.Memory.Cow.Owners.{occurs-nil}
use axebergos.Kernel.Memory.Cow.Page.{length-copy_at}
use axebergos.Kernel.Memory.Cow.Write.{write_lem}
use axebergos.Kernel.Memory.Cow.Read.{IsFlat}
use axebergos.Kernel.Memory.Cow.Build.{Builds, clone_pages_lem, drop_pages_lem}
use axebergos.Kernel.Memory.Cow.Worlds.{
  nowhere, total, total-set, total-least, StandFor, kept-IsFlat, alone-IsOwned, set-StandFor,
  add-StandFor,
}
use axebergos.Kernel.Memory.Cow.Requests.{Reply, World}

abbrev pub Stands : World → List (List ℕ) → Type 0
Stands w fs = StandFor w.frames w.memories fs

abbrev pub Answers : World × Reply → List (List ℕ) × Reply → Type 0
Answers a b = Stands a.0 b.0 × (a.1 ≡ b.1)

-- The memory of a number, on both sides.
pub both :
    (w : World) (fs : List (List ℕ)) (i : ℕ)
    → Stands w fs
    → ((get_elem? w.memories i ≡ none) × (get_elem? fs i ≡ none))
      ⊎ ((m : CowMemory) × (f : List ℕ) × (get_elem? w.memories i ≡ some m)
          × (get_elem? fs i ≡ some f)
          × IsFlat w.frames m f)
both w fs i h = elim (Bool-cases (ltb i (length fs))) [
  | inr e ↦ inl (
    get_elem?-none w.memories i (ground (arith, e, h.as_many)),
    get_elem?-none fs i (ground (arith, e)),
  )
  | inl e ↦
      let (m, at) = get_elem?-some w.memories i (ground (arith, e, h.as_many)) in
      let (f, hold) = get_elem?-some fs i (ground (arith, e)) in
      inr (m, f, at, hold, h.flat i m f at hold)
]

-- A new memory.
pub built-Stands :
    (w : World) (fs : List (List ℕ)) (made : Frames × CowMemory) (f : List ℕ)
    → Stands w fs
    → Builds w.frames made f
    → StandFor made.0 (w.memories ++ made.1 ∷ []) (fs ++ f ∷ [])
built-Stands w fs made f h (contents, b, flat) =
    let below : (x : ℕ) → 0 < w.frames.count x → x < w.frames.next = λ x p.
      elim (Bool-cases (ltb x w.frames.next)) [
        | inl e ↦ ground (arith, e)
        | inr e ↦ absurd (ground (arith, e, p, h.fresh x))
      ] in
    add-StandFor w.frames made.0 w.memories fs made.1 f h b.counted b.fresh b.whole
      (λ x p. b.kept x (below x p)) flat

pub fork-Stands :
    (w : World) (fs : List (List ℕ)) (i : ℕ) (m : CowMemory) (f : List ℕ)
    → Stands w fs
    → get_elem? w.memories i ≡ some m
    → IsFlat w.frames m f
    → StandFor
        (clone_pages w.frames m.pages)
        (w.memories ++ record { pages = m.pages; size = m.size } ∷ [])
        (fs ++ f ∷ [])
fork-Stands w fs i m f h at flat =
    let (counted, same, next_is) = clone_pages_lem m.pages w.frames in
    let least = λ (x : ℕ). total-least x i m w.memories at in
    add-StandFor w.frames (clone_pages w.frames m.pages) w.memories fs m f h counted
      (λ x n. omega (arith, counted x, h.fresh x (rw⁻¹ next_is n), h.counted x, least x))
      (λ x p. rw same (h.whole x (omega (arith, p, counted x, h.counted x, least x))))
      (λ x p. rw same refl)
      (kept-IsFlat w.frames (clone_pages w.frames m.pages) m f (λ x p. rw same refl) flat)

nowhere-IsFlat : (s : Frames) → IsFlat s nowhere []
nowhere-IsFlat s = record {
  sized = refl;
  roomy = omega arith;
  bytes_are = λ i lt. ground (arith, lt);
}

pub drop-Stands :
    (w : World) (fs : List (List ℕ)) (i : ℕ) (m : CowMemory)
    → Stands w fs
    → get_elem? w.memories i ≡ some m
    → StandFor (drop_pages w.frames m.pages) (set w.memories i nowhere) (set fs i [])
drop-Stands w fs i m h at =
    let (counted, same, next_is) = drop_pages_lem m.pages w.frames in
    set-StandFor w.frames (drop_pages w.frames m.pages) w.memories fs i m nowhere [] h at
      (record {
        counted = λ x.
            omega
              (arith, counted x, h.counted x, total-set x i m nowhere w.memories at, occurs-nil x);
        fresh = λ x n. omega (arith, counted x, h.fresh x (rw⁻¹ next_is n));
        whole = λ x p. rw same (h.whole x (omega (arith, p, counted x)));
      })
      (λ x p. rw same refl) (nowhere-IsFlat (drop_pages w.frames m.pages))

-- A write past the end.
stored_past :
    (f : List ℕ) (offset : ℕ) (buf : List ℕ)
    → length f ≤ offset
    → copy_at f offset (take (min (length buf) (length f - offset)) buf) ≡ f
unfolding copy_at
stored_past f offset buf past =
    let nothing : min (length buf) (length f - offset) ≡ 0 = omega (arith, past) in
    let start : offset + 0 ≡ offset = omega arith in rw (nothing, start) (take-append-drop offset f)

-- The flat list after a write.
abbrev stored : List ℕ → ℕ → List ℕ → List ℕ
stored f offset buf = copy_at f offset (take (min (length buf) (length f - offset)) buf)

length-stored : (f : List ℕ) (offset : ℕ) (buf : List ℕ) → length (stored f offset buf) ≡ length f
length-stored f offset buf = elim (Bool-cases (leb offset (length f))) [
  | inl e ↦
      let within : offset ≤ length f = ground (arith, e) in
      length-copy_at f (take (min (length buf) (length f - offset)) buf) offset
        (omega (arith, within, length-take (min (length buf) (length f - offset)) buf))
  | inr e ↦ ap length (stored_past f offset buf (ground (arith, e)))
]

get_elem?-stored :
    (f : List ℕ) (offset : ℕ) (buf : List ℕ) (i : ℕ)
    → get_elem? (stored f offset buf) i ≡ (
        if leb offset i && ltb i (offset + min (length buf) (length f - offset))
        then get_elem? buf (i - offset)
        else get_elem? f i)
get_elem?-stored f offset buf i = elim (Bool-cases (leb offset (length f))) [
  | inr e ↦
      let out : (leb offset i && ltb i (offset + min (length buf) (length f - offset))) ≡ false =
        ground (arith, e) in
      rw (stored_past f offset buf (ground (arith, e)), out) refl
  | inl e ↦
      let n = min (length buf) (length f - offset) in
      let within : offset ≤ length f = ground (arith, e) in
      let size : length (take n buf) ≡ n = omega (arith, length-take n buf) in
      rw
        (
          get_elem?-copy_at f (take n buf) offset i (omega (arith, within, size)),
          size,
          get_elem?-take n buf (i - offset),
        )
        (elim (Bool-cases (leb offset i && ltb i (offset + n))) [
          | inr out ↦ rw out refl
          | inl in_it ↦
              let t : ltb (i - offset) n ≡ true = ground (arith, in_it) in rw (in_it, t) refl
        ])
]

pub write-Stands :
    (w : World) (fs : List (List ℕ)) (i offset : ℕ) (buf : List ℕ) (m : CowMemory) (f : List ℕ)
    → Stands w fs
    → get_elem? w.memories i ≡ some m
    → IsFlat w.frames m f
    → (s' : Frames) × (m' : CowMemory) × (faults : ℕ) × (write w.frames m offset buf
        ≡ (s', m', min (length buf) (length f - offset), faults))
      × StandFor s' (set w.memories i m') (set fs i (stored f offset buf))
write-Stands w fs i offset buf m f h at flat =
    let owned = alone-IsOwned w.frames w.memories fs i m h at in
    let (s', pages', faults, e, st) =
      write_lem (λ x. total x (set w.memories i nowhere)) w.frames m offset buf owned flat.roomy in
    let m' : CowMemory = record m { pages = pages' } in
    (
      s',
      m',
      faults,
      rw flat.sized e,
      set-StandFor w.frames s' w.memories fs i m m' (stored f offset buf) h at st.owned st.apart
          (record {
            sized = length-stored f offset buf ∙ flat.sized;
            roomy = rw st.as_many flat.roomy;
            bytes_are = λ k lt.
                st.bytes_are k
                ∙ rw (flat.bytes_are k lt, ← flat.sized) (sym (get_elem?-stored f offset buf k));
          }),
    )
