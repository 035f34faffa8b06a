-- ===== src/Prelude/Totals.antt =====
-- Sums over the values of a table whose keys are distinct.
use axebergos.Prelude.{
  ℕ, ◌+◌, ◌≡◌, refl, ap, Key, ◌==◌, [], ◌∷◌, none, some, Bool-cases, inl, inr, arith,
}
use axebergos.Prelude.Table
use axebergos.Prelude.Table.{Table, get-insert, get-remove}

module _ {ℓ κ} {K : Type ℓ} {V : Type κ} (size : V → ℕ) where
  unfoldable pub total_of : Table K V → ℕ
  total_of [] = 0
  total_of ((j, w) ∷ m) = size w + total_of m

module _ {ℓ κ} {K : Type ℓ} {V : Type κ} ⦃e : Key K⦄ where
  -- No key has two entries.
  abbrev pub HasDistinctKeys : Table K V → Type κ
  HasDistinctKeys [] = Unit
  HasDistinctKeys ((j, w) ∷ m) = (Table.get j m ≡ none) × HasDistinctKeys m

  pub HasDistinctKeys-insert :
      (k : K) (v : V) (m : Table K V) → HasDistinctKeys m → HasDistinctKeys (Table.insert k v m)
  unfolding Table.insert Table.get
  HasDistinctKeys-insert k v [] h = (refl, tt)
  HasDistinctKeys-insert k v ((j, w) ∷ m) h = elim (Bool-cases (j == k)) [
    | inl s ↦ rw (Table.insert, s) (rw⁻¹ ((e.same_iff j k).0 s) h.0, h.1)
    | inr s ↦
        rw (Table.insert, s)
          (
            ground (arith, e.same_iff k j, e.same_iff j k, s, h.0, get-insert k j v m),
            HasDistinctKeys-insert k v m h.1,
          )
  ]

  pub remove-absent : (k : K) (m : Table K V) → Table.get k m ≡ none → Table.remove k m ≡ m
  unfolding Table.remove Table.get
  remove-absent k [] h = refl
  remove-absent k ((j, w) ∷ m) h = ground (arith, h, remove-absent k m)

  pub HasDistinctKeys-remove :
      (k : K) (m : Table K V) → HasDistinctKeys m → HasDistinctKeys (Table.remove k m)
  unfolding Table.remove
  HasDistinctKeys-remove k [] h = tt
  HasDistinctKeys-remove k ((j, w) ∷ m) h = elim (Bool-cases (j == k)) [
    | inl s ↦ rw (Table.remove, s) (HasDistinctKeys-remove k m h.1)
    | inr s ↦
        rw (Table.remove, s) (ground (arith, h.0, get-remove k j m), HasDistinctKeys-remove k m h.1)
  ]

  module _ (size : V → ℕ) where
    pub total_of-insert_new :
        (k : K) (v : V) (m : Table K V)
        → Table.get k m ≡ none
        → total_of size (Table.insert k v m) ≡ total_of size m + size v
    unfolding total_of Table.insert Table.get
    total_of-insert_new k v [] h = ground arith
    total_of-insert_new k v ((j, w) ∷ m) h = ground (arith, h, total_of-insert_new k v m)

    pub total_of-insert_old :
        (k : K) (v u : V) (m : Table K V)
        → Table.get k m ≡ some u
        → total_of size (Table.insert k v m) + size u ≡ total_of size m + size v
    unfolding total_of Table.insert Table.get
    total_of-insert_old k v u [] h = ground (arith, h)
    total_of-insert_old k v u ((j, w) ∷ m) h = ground (arith, h, total_of-insert_old k v u m)

    pub total_of-remove :
        (k : K) (u : V) (m : Table K V)
        → HasDistinctKeys m
        → Table.get k m ≡ some u
        → total_of size (Table.remove k m) + size u ≡ total_of size m
    unfolding total_of Table.remove Table.get
    total_of-remove k u [] d h = ground (arith, h)
    total_of-remove k u ((j, w) ∷ m) d h = elim (Bool-cases (j == k)) [
      | inl s ↦ ground (
        arith,
        s,
        h,
        e.same_iff j k,
        ap (total_of size) (remove-absent k m (rw⁻¹ ((e.same_iff j k).0 s) d.0)),
      )
      | inr s ↦ ground (arith, h, s, total_of-remove k u m d.1)
    ]
