-- ===== src/Prelude/Every.antt =====
-- Laws of `All` and of the Boolean `filter`.
use mathlib.Core.Path.{◌≡◌}
use mathlib.Core.Bool.{Bool, true}
use mathlib.Core.Logic.{◌↔◌, inl, inr}
use mathlib.Core.List.{List, [], ◌∷◌, ◌++◌}
use axebergos.Prelude.Tests.{Bool-cases}
use axebergos.Prelude.Lists.{All, filter}

module _ {ℓ κ} {A : Type ℓ} (P : A → Type κ) where
  pub All-append : (xs ys : List A) → All P xs → All P ys → All P (xs ++ ys)
  All-append [] ys a b = b
  All-append (x ∷ xs) ys a b = (a.0, All-append xs ys a.1 b)

  pub All-of_append : (xs ys : List A) → All P (xs ++ ys) → All P xs × All P ys
  All-of_append [] ys a = (tt, a)
  All-of_append (x ∷ xs) ys a = let (l, r) = All-of_append xs ys a.1 in ((a.0, l), r)

  pub All-filter : (p : A → Bool) (xs : List A) → All P xs → All P (filter p xs)
  All-filter p [] a = tt
  All-filter p (x ∷ xs) a = elim (Bool-cases (p x)) [
    | inl e ↦ rw e (a.0, All-filter p xs a.1)
    | inr e ↦ rw e (All-filter p xs a.1)
  ]

pub All-filter_self {ℓ} :
    {A : Type ℓ} (p : A → Bool) (xs : List A) → All (λ x. p x ≡ true) (filter p xs)
All-filter_self p [] = tt
All-filter_self p (x ∷ xs) = elim (Bool-cases (p x)) [
  | inl e ↦ rw e (e, All-filter_self p xs)
  | inr e ↦ rw e (All-filter_self p xs)
]

pub All-map₂ {ℓ κ μ ν} :
    {A : Type ℓ} {P : A → Type κ} {Q : A → Type μ} {R : A → Type ν} (f : (a : A) → R a → P a → Q a)
    (xs : List A)
    → All R xs
    → All P xs
    → All Q xs
All-map₂ f [] r p = tt
All-map₂ f (x ∷ xs) r p = (f x r.0 p.0, All-map₂ f xs r.1 p.1)

-- Any two entries of the list, the earlier one first, are related.
abbrev pub Pairwise {ℓ κ} : {A : Type ℓ} → (A → A → Type κ) → List A → Type κ
Pairwise R [] = Unit
Pairwise R (x ∷ xs) = All (R x) xs × Pairwise R xs

module _ {ℓ κ} {A : Type ℓ} (R : A → A → Type κ) where
  pub Pairwise-filter : (p : A → Bool) (xs : List A) → Pairwise R xs → Pairwise R (filter p xs)
  Pairwise-filter p [] a = tt
  Pairwise-filter p (x ∷ xs) a = elim (Bool-cases (p x)) [
    | inl e ↦ rw e (All-filter (R x) p xs a.0, Pairwise-filter p xs a.1)
    | inr e ↦ rw e (Pairwise-filter p xs a.1)
  ]

  pub Pairwise-snoc :
      (xs : List A) (y : A) → Pairwise R xs → All (λ x. R x y) xs → Pairwise R (xs ++ y ∷ [])
  Pairwise-snoc [] y a b = (tt, tt)
  Pairwise-snoc (x ∷ xs) y a b =
      (All-append (R x) xs (y ∷ []) a.0 (b.0, tt), Pairwise-snoc xs y a.1 b.1)

pub All-iff {ℓ κ μ} :
    {A : Type ℓ} (P : A → Type κ) (Q : A → Type μ) (xs : List A)
    → All (λ x. P x ↔ Q x) xs
    → All P xs ↔ All Q xs
All-iff P Q [] h = (λ a. tt, λ a. tt)
All-iff P Q (x ∷ xs) h =
    let (f, g) = All-iff P Q xs h.1 in (λ a. (h.0.0 a.0, f a.1), λ a. (h.0.1 a.0, g a.1))
