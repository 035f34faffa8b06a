-- ===== src/Kernel/Memory/Cow/Owners.antt =====
-- Who owns a frame: the pages of a memory, and others.
use axebergos.Prelude.{
  ℕ, zero, suc, ◌+◌, ◌≤◌, ◌<◌, ◌≡◌, ◌≢◌, refl, ap, Bool, ◌==◌, number_key, List, [], ◌∷◌, Option,
  some, if◌then◌else◌, length, get_elem?, set, map_option, arith,
}
use axebergos.Kernel.Memory.Cow.{Frames, page_size}

abbrev pub one_if : Bool → ℕ
one_if b = if b then 1 else 0

-- How many of the pages are at `x`.
unfoldable pub occurs : ℕ → List ℕ → ℕ
occurs x [] = 0
occurs x (a ∷ pages) = one_if (a == x) + occurs x pages

pub occurs-nil : (x : ℕ) → occurs x [] ≡ 0
unfolding occurs
occurs-nil x = refl

pub occurs-cons :
    (x a : ℕ) (pages : List ℕ) → occurs x (a ∷ pages) ≡ one_if (a == x) + occurs x pages
unfolding occurs
occurs-cons x a pages = refl

pub occurs-set :
    (x k a b : ℕ) (pages : List ℕ)
    → get_elem? pages k ≡ some a
    → occurs x (set pages k b) + one_if (a == x) ≡ occurs x pages + one_if (b == x)
unfolding occurs
occurs-set x k a b [] e = ground (arith, e)
occurs-set x zero a b (c ∷ pages) e = ground (arith, e)
occurs-set x (suc k) a b (c ∷ pages) e = omega (arith, occurs-set x k a b pages e)

pub occurs-pos : (k a : ℕ) (pages : List ℕ) → get_elem? pages k ≡ some a → 0 < occurs a pages
unfolding occurs
occurs-pos k a [] e = ground (arith, e)
occurs-pos zero a (c ∷ pages) e = ground (arith, e)
occurs-pos (suc k) a (c ∷ pages) e = omega (arith, occurs-pos k a pages e)

pub occurs-two :
    (k l a : ℕ) (pages : List ℕ)
    → get_elem? pages k ≡ some a
    → get_elem? pages l ≡ some a
    → k ≢ l
    → 1 < occurs a pages
unfolding occurs
occurs-two k l a [] e f n = ground (arith, e)
occurs-two zero zero a (c ∷ pages) e f n = ground (arith, n)
occurs-two zero (suc l) a (c ∷ pages) e f n = ground (arith, e, occurs-pos l a pages f)
occurs-two (suc k) zero a (c ∷ pages) e f n = ground (arith, f, occurs-pos k a pages e)
occurs-two (suc k) (suc l) a (c ∷ pages) e f n =
    omega (arith, occurs-two k l a pages e f (λ g. n (ap suc g)))

-- The counts are those of the pages and of the other owners; a frame with an owner is a whole page.
pub record IsOwned (others : ℕ → ℕ) (s : Frames) (pages : List ℕ) : Type 0 where
  pub counted : (x : ℕ) → s.count x ≡ occurs x pages + others x
  pub fresh : (x : ℕ) → s.next ≤ x → s.count x ≡ 0
  pub whole : (x : ℕ) → 0 < s.count x → length (s.bytes x) ≡ page_size

-- The content of a page.
abbrev pub page_at : Frames → List ℕ → ℕ → Option (List ℕ)
page_at s pages l = map_option s.bytes (get_elem? pages l)
