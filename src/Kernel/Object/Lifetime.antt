-- ===== src/Kernel/Object/Lifetime.antt =====
-- Histories of the object table: the count of a handle is the number of its references.
use axebergos.Prelude.{
  ℕ, ◌+◌, ◌-◌, ◌%◌, ◌<◌, ◌≡◌, refl, ◌&&◌, ◌==◌, number_key, List, [], ◌∷◌, ltb, if◌then◌else◌,
  length, arith, inl, inr, Option-cases,
}
use axebergos.Prelude.Words.{u64_mod}
use axebergos.Prelude.Table
use axebergos.Prelude.Table.{get-insert, get-remove}
use axebergos.Kernel.Object.Handles.{
  ObjectTable, new_table, insert, retain, release, refcount, contains, update,
}
use axebergos.Kernel.Object.Counts.{
  IsCounted, new_table-IsCounted, insert-IsCounted, release-IsCounted,
}
use axebergos.Kernel.Object.Steps.{
  refcount-insert, retain-some, retain-none, update-some, update-none, put-IsCounted,
  refcount-retain, refcount-update, refcount-release, next_id-insert, next_id-retain,
  next_id-release, next_id-update,
}

pub data Call (T : Type 0) : Type 0 where
  inserts : T → Call T
  retains releases : ℕ → Call T
  updates : ℕ → (T → T) → Call T

-- The references of one handle: an insert that gives it out makes the first, a retain adds one to
-- those that there are, a release takes one.
unfoldable pub count : {T : Type 0} → ℕ → ℕ → ℕ → List (Call T) → ℕ
count h next refs [] = refs
count h next refs (inserts obj ∷ cs) = count h (next + 1) (if next == h then 1 else refs) cs
count h next refs (retains k ∷ cs) =
    count h next (if (k == h) && ltb 0 refs then refs + 1 else refs) cs
count h next refs (releases k ∷ cs) = count h next (if k == h then refs - 1 else refs) cs
count h next refs (updates k f ∷ cs) = count h next refs cs

module _ {T : Type 0} where
  unfoldable pub step : ObjectTable T → Call T → ObjectTable T
  step t (inserts obj) = (insert t obj).0
  step t (retains h) = (retain t h).0
  step t (releases h) = (release t h).0
  step t (updates h f) = update t h f

  unfoldable pub run : ObjectTable T → List (Call T) → ObjectTable T
  run t [] = t
  run t (c ∷ cs) = run (step t c) cs

  step-IsCounted :
      (t : ObjectTable T) (c : Call T)
      → IsCounted t
      → t.next_id + 1 < u64_mod
      → ((h : ℕ) → refcount t h + 1 < u64_mod)
      → IsCounted (step t c)
  unfolding step refcount
  step-IsCounted t (inserts obj) s small few = insert-IsCounted t obj s small
  step-IsCounted t (releases k) s small few = release-IsCounted t k s
  step-IsCounted t (retains k) s small few = elim (Option-cases (Table.get k t.objects)) [
    | inl q ↦ rw (retain-none t k q) s
    | inr (e, q) ↦ rw (retain-some t k e q) (
        put-IsCounted t k e (record e { refcount = (e.refcount + 1) % u64_mod }) s q
          (ground (arith, few k, q)))
  ]
  step-IsCounted t (updates k f) s small few = elim (Option-cases (Table.get k t.objects)) [
    | inl q ↦ rw (update-none t k f q) s
    | inr (e, q) ↦
        rw (update-some t k f e q)
          (put-IsCounted t k e (record e { object = f e.object }) s q (s.counted k e q))
  ]

  pub run-count :
      (cs : List (Call T)) (t : ObjectTable T)
      → IsCounted t
      → t.next_id + length cs < u64_mod
      → ((h : ℕ) → refcount t h + length cs < u64_mod)
      → IsCounted (run t cs)
        × ((h : ℕ) → refcount (run t cs) h ≡ count h t.next_id (refcount t h) cs)
  unfolding run step count
  run-count [] t s small few = (s, λ h. refl)
  run-count (inserts obj ∷ cs) t s small few =
      let next = next_id-insert t obj (omega (arith, small)) in
      let (later, counts) =
        run-count cs (insert t obj).0 (insert-IsCounted t obj s (omega (arith, small)))
          (omega (arith, next, small))
          (λ h. rw (refcount-insert t obj h) (ground (arith, few h, small))) in
      (later, λ h. rw (counts h, next, refcount-insert t obj h) refl)
  run-count (retains k ∷ cs) t s small few =
      let room : (h : ℕ) → refcount t h + 1 < u64_mod = λ h. omega (arith, few h) in
      let next = next_id-retain t k in
      let (later, counts) =
        run-count cs (retain t k).0 (step-IsCounted t (retains k) s (omega (arith, small)) room)
          (omega (arith, next, small))
          (λ h. rw (refcount-retain t k h s (room h)) (ground (arith, few h))) in
      (later, λ h. rw (counts h, next, refcount-retain t k h s (room h)) refl)
  run-count (releases k ∷ cs) t s small few =
      let next = next_id-release t k in
      let (later, counts) =
        run-count cs (release t k).0 (release-IsCounted t k s) (omega (arith, next, small))
          (λ h. rw (refcount-release t k h s) (ground (arith, few h))) in
      (later, λ h. rw (counts h, next, refcount-release t k h s) refl)
  run-count (updates k f ∷ cs) t s small few =
      let room : (h : ℕ) → refcount t h + 1 < u64_mod = λ h. omega (arith, few h) in
      let next = next_id-update t k f in
      let (later, counts) =
        run-count cs (update t k f) (step-IsCounted t (updates k f) s (omega (arith, small)) room)
          (omega (arith, next, small)) (λ h. rw (refcount-update t k h f) (omega (arith, few h))) in
      (later, λ h. rw (counts h, refcount-update t k h f, next) refl)

  contains-refcount :
      (t : ObjectTable T) (h : ℕ) → IsCounted t → contains t h ≡ ltb 0 (refcount t h)
  unfolding contains refcount Table.contains_key
  contains-refcount t h s = elim (Option-cases (Table.get h t.objects)) [
    | inl e ↦ rw e (ground arith)
    | inr (entry, e) ↦ rw e (ground (arith, s.counted h entry e))
  ]

  -- After fewer than 2^64 - 1 calls on a new table, the reference count of a handle is the number of
  -- its references, and the table has the handle exactly when it has one.
  pub run-new_table-count :
      (cs : List (Call T)) (h : ℕ)
      → length cs + 1 < u64_mod
      → (refcount (run new_table cs) h ≡ count h 1 0 cs)
        × (contains (run new_table cs) h ≡ ltb 0 (count h 1 0 cs))
  unfolding new_table refcount Table.get
  run-new_table-count cs h few =
      let (s, counts) =
        run-count cs new_table new_table-IsCounted (omega (arith, few)) (λ k. omega (arith, few)) in
      (counts h, rw (contains-refcount (run new_table cs) h s, counts h) refl)
