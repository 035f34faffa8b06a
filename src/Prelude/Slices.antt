-- ===== src/Prelude/Slices.antt =====
-- The elements of slices and of lists put together.
use axebergos.Prelude.{
  min, set, ◌≢◌, ◌⊎◌, inl, inr, ℕ, zero, suc, ◌+◌, ◌-◌, ◌≤◌, ◌<◌, ◌≡◌, refl, sym, ap, ◌∙◌, List, [],
  ◌∷◌, ◌++◌, none, some, ltb, if◌then◌else◌, length, get_elem?, take, drop, replicate, arith,
}

module _ {ℓ} {A : Type ℓ} where
  pub get_elem?-append :
      (xs ys : List A) (i : ℕ)
      → get_elem? (xs ++ ys) i
        ≡ (if ltb i (length xs) then get_elem? xs i else get_elem? ys (i - length xs))
  get_elem?-append [] ys i = ground arith
  get_elem?-append (x ∷ xs) ys zero = ground arith
  get_elem?-append (x ∷ xs) ys (suc i) = ground (arith, get_elem?-append xs ys i)

  pub get_elem?-take :
      (n : ℕ) (xs : List A) (i : ℕ)
      → get_elem? (take n xs) i ≡ (if ltb i n then get_elem? xs i else none)
  get_elem?-take zero xs i = ground arith
  get_elem?-take (suc n) [] i = ground arith
  get_elem?-take (suc n) (x ∷ xs) zero = ground arith
  get_elem?-take (suc n) (x ∷ xs) (suc i) = ground (arith, get_elem?-take n xs i)

  pub get_elem?-drop :
      (n : ℕ) (xs : List A) (i : ℕ) → get_elem? (drop n xs) i ≡ get_elem? xs (n + i)
  get_elem?-drop zero xs i = ap (get_elem? xs) (omega arith)
  get_elem?-drop (suc n) [] i = refl
  get_elem?-drop (suc n) (x ∷ xs) i =
      let same : suc (n + i) ≡ suc n + i = omega arith in
      get_elem?-drop n xs i ∙ ap (get_elem? (x ∷ xs)) same

  pub get_elem?-replicate :
      (n : ℕ) (a : A) (i : ℕ) → get_elem? (replicate n a) i ≡ (if ltb i n then some a else none)
  get_elem?-replicate zero a i = ground arith
  get_elem?-replicate (suc n) a zero = ground arith
  get_elem?-replicate (suc n) a (suc i) = ground (arith, get_elem?-replicate n a i)

  pub get_elem?-none : (xs : List A) (i : ℕ) → length xs ≤ i → get_elem? xs i ≡ none
  get_elem?-none [] i h = refl
  get_elem?-none (x ∷ xs) zero h = ground arith
  get_elem?-none (x ∷ xs) (suc i) h = get_elem?-none xs i (omega (arith, h))

  pub get_elem?-some : (xs : List A) (i : ℕ) → i < length xs → (a : A) × (get_elem? xs i ≡ some a)
  get_elem?-some [] i h = ground (arith, h)
  get_elem?-some (x ∷ xs) zero h = (x, refl)
  get_elem?-some (x ∷ xs) (suc i) h = get_elem?-some xs i (omega (arith, h))

  pub take_all : (n : ℕ) (xs : List A) → length xs ≤ n → take n xs ≡ xs
  take_all zero [] h = refl
  take_all zero (x ∷ xs) h = ground arith
  take_all (suc n) [] h = refl
  take_all (suc n) (x ∷ xs) h = ap (◌∷◌ x) (take_all n xs (omega (arith, h)))

  pub take-append : (xs ys : List A) → take (length xs) (xs ++ ys) ≡ xs
  take-append [] ys = refl
  take-append (x ∷ xs) ys = ap (◌∷◌ x) (take-append xs ys)

  pub drop-append : (xs ys : List A) → drop (length xs) (xs ++ ys) ≡ ys
  drop-append [] ys = refl
  drop-append (x ∷ xs) ys = drop-append xs ys

  -- The elements that follow the first `n`, when those are a list of `n`.
  pub drop_prefix : (n : ℕ) (xs ys : List A) → length xs ≡ n → drop n (xs ++ ys) ≡ ys
  drop_prefix n xs ys e = rw (← e) (drop-append xs ys)

  -- Lists with the same elements at the same places.
  pub get_elem?-ext : (xs ys : List A) → ((i : ℕ) → get_elem? xs i ≡ get_elem? ys i) → xs ≡ ys
  get_elem?-ext [] [] h = refl
  get_elem?-ext [] (y ∷ ys) h = ground (arith, h 0)
  get_elem?-ext (x ∷ xs) [] h = ground (arith, h 0)
  get_elem?-ext (x ∷ xs) (y ∷ ys) h =
      let first : x ≡ y = ground (arith, h 0) in
      rw (first, get_elem?-ext xs ys (λ i. h (suc i))) refl

  pub take-add : (m n : ℕ) (xs : List A) → take (m + n) xs ≡ take m xs ++ take n (drop m xs)
  take-add zero n xs = ap (λ k. take k xs) (omega arith)
  take-add (suc m) n [] = take_all (suc m + n) [] (omega arith) ∙ sym (take_all n [] (omega arith))
  take-add (suc m) n (x ∷ xs) =
      let same : suc m + n ≡ suc (m + n) = omega arith in rw (same, take-add m n xs) refl

  pub drop-add : (m n : ℕ) (xs : List A) → drop (m + n) xs ≡ drop n (drop m xs)
  drop-add m n xs = get_elem?-ext (drop (m + n) xs) (drop n (drop m xs)) (λ i.
      let same : m + n + i ≡ m + (n + i) = omega arith in
      rw
        (
          get_elem?-drop (m + n) xs i,
          get_elem?-drop n (drop m xs) i,
          get_elem?-drop m xs (n + i),
          same,
        )
        refl)

  pub drop_all : (n : ℕ) (xs : List A) → length xs ≤ n → drop n xs ≡ []
  drop_all n xs h =
      get_elem?-ext (drop n xs) []
        (λ i. get_elem?-drop n xs i ∙ get_elem?-none xs (n + i) (omega (arith, h)))

  pub take-min : (n : ℕ) (xs : List A) → take (min n (length xs)) xs ≡ take n xs
  take-min zero xs =
      let nothing : min 0 (length xs) ≡ 0 = omega arith in ap (λ k. take k xs) nothing
  take-min (suc n) [] = take_all (min (suc n) 0) [] (omega arith)
  take-min (suc n) (x ∷ xs) =
      let same : min (suc n) (suc (length xs)) ≡ suc (min n (length xs)) = omega arith in
      rw same (ap (◌∷◌ x) (take-min n xs))

  -- What stands at a place after a write, and after one more element.
  pub pick-set :
      (xs : List A) (i j : ℕ) (v n : A)
      → get_elem? (set xs i v) j ≡ some n
      → ((i ≡ j) × (v ≡ n)) ⊎ ((i ≢ j) × (get_elem? xs j ≡ some n))
  pick-set [] i j v n e = inr (ground (arith, e))
  pick-set (x ∷ xs) zero zero v n e = inl (refl, ground (arith, e))
  pick-set (x ∷ xs) zero (suc j) v n e = inr (λ z. ground (arith, z), e)
  pick-set (x ∷ xs) (suc i) zero v n e = inr (λ z. ground (arith, z), e)
  pick-set (x ∷ xs) (suc i) (suc j) v n e = elim (pick-set xs i j v n e) [
    | inl (same, is) ↦ inl (ap suc same, is)
    | inr (other, at) ↦ inr (λ z. other (omega (arith, z)), at)
  ]

  pub pick-add :
      (xs : List A) (j : ℕ) (v n : A)
      → get_elem? (xs ++ v ∷ []) j ≡ some n
      → ((j ≡ length xs) × (v ≡ n)) ⊎ ((j < length xs) × (get_elem? xs j ≡ some n))
  pick-add [] zero v n e = inl (refl, ground (arith, e))
  pick-add [] (suc j) v n e = absurd (ground (arith, e))
  pick-add (x ∷ xs) zero v n e = inr (omega arith, e)
  pick-add (x ∷ xs) (suc j) v n e = elim (pick-add xs j v n e) [
    | inl (last, is) ↦ inl (ap suc last, is)
    | inr (within, at) ↦ inr (omega (arith, within), at)
  ]

  pub List-cases : (xs : List A) → (xs ≡ []) ⊎ ((x : A) × (rest : List A) × (xs ≡ x ∷ rest))
  List-cases [] = inl refl
  List-cases (x ∷ xs) = inr (x, xs, refl)
