-- ===== src/Prelude/Table.antt =====
-- `HashMap`, as an association list. `remove` and `retain` act on every entry of a key, so that the
-- laws below need no hypothesis that keys are distinct. The order of iteration is that of the list.
use mathlib.Core.Path.{◌≡◌, refl}
use mathlib.Core.Bool.{Bool, true, false}
use mathlib.Core.Option.{Option, none, some}
use mathlib.Core.List.{List, [], ◌∷◌}
use native.Mathlib.Omega.{arith}
use axebergos.Prelude.Tests.{Key, ◌==◌, if◌then◌else◌, same_refl, map_option}

abbrev pub Table {ℓ κ} : Type ℓ → Type κ → Type (ℓ ⊔ κ)
Table K V = List (K × V)

-- `Option::filter`.
abbrev pub keep_if {κ} : {V : Type κ} → (V → Bool) → Option V → Option V
keep_if p none = none
keep_if p (some v) = if p v then some v else none

module _ {ℓ κ} {K : Type ℓ} {V : Type κ} ⦃e : Key K⦄ where
  unfoldable pub get : K → Table K V → Option V
  get k [] = none
  get k ((j, v) ∷ m) = if j == k then some v else get k m

  unfoldable pub insert : K → V → Table K V → Table K V
  insert k v [] = (k, v) ∷ []
  insert k v ((j, w) ∷ m) = if j == k then (k, v) ∷ m else (j, w) ∷ insert k v m

  unfoldable pub remove : K → Table K V → Table K V
  remove k [] = []
  remove k ((j, w) ∷ m) = let rest = remove k m in if j == k then rest else (j, w) ∷ rest

  unfoldable pub retain : (V → Bool) → Table K V → Table K V
  unfolding remove
  retain p [] = []
  retain p ((j, w) ∷ m) = let rest = retain p m in if p w then (j, w) ∷ rest else remove j rest

  -- `contains_key`.
  unfoldable pub contains_key : K → Table K V → Bool
  unfolding get
  contains_key k m = elim (get k m) [ none ↦ false | some _ ↦ true ]

  pub get-insert :
      (k j : K) (v : V) (m : Table K V)
      → get j (insert k v m) ≡ (if k == j then some v else get j m)
  unfolding get insert
  get-insert k j v [] = refl
  get-insert k j v ((i, u) ∷ m) =
      ground (arith, e.same_iff k j, e.same_iff i k, e.same_iff i j, get-insert k j v m)

  pub get-remove :
      (k j : K) (m : Table K V) → get j (remove k m) ≡ (if k == j then none else get j m)
  unfolding get remove
  get-remove k j [] = ground arith
  get-remove k j ((i, u) ∷ m) =
      ground (arith, e.same_iff k j, e.same_iff i k, e.same_iff i j, get-remove k j m)

  pub get-retain : (p : V → Bool) (j : K) (m : Table K V) → get j (retain p m) ≡ keep_if p (get j m)
  unfolding get retain
  get-retain p j [] = refl
  get-retain p j ((i, u) ∷ m) =
      ground (arith, e.same_iff i j, get-retain p j m, get-remove i j (retain p m))

module _ {ℓ κ μ} {K : Type ℓ} {V : Type κ} {W : Type μ} where
  -- `values_mut`, with a function that changes each value.
  unfoldable pub map_values : (V → W) → Table K V → Table K W
  map_values f [] = []
  map_values f ((j, w) ∷ m) = (j, f w) ∷ map_values f m

module _ {ℓ κ μ} {K : Type ℓ} {V : Type κ} {W : Type μ} ⦃e : Key K⦄ where
  pub get-map_values :
      (f : V → W) (j : K) (m : Table K V) → get j (map_values f m) ≡ map_option f (get j m)
  unfolding get map_values
  get-map_values f j [] = refl
  get-map_values f j ((i, u) ∷ m) = ground (arith, get-map_values f j m)

pub ruleset table_laws = (get-insert, get-remove, get-retain, get-map_values, same_refl)
