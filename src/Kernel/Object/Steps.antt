-- ===== src/Kernel/Object/Steps.antt =====
-- What each call on the object table does to the counts and to the next handle.
use axebergos.Prelude.{
  ℕ, ◌+◌, ◌-◌, ◌%◌, ◌<◌, ◌≡◌, refl, ◌&&◌, ◌==◌, number_key, none, some, ltb, if◌then◌else◌, arith,
  inl, inr, Bool-cases, Option-cases,
}
use axebergos.Prelude.Words.{u64_mod}
use axebergos.Prelude.Table
use axebergos.Prelude.Table.{get-insert, get-remove}
use axebergos.Kernel.Object.Handles.{
  ObjectEntry, ObjectTable, insert, retain, release, refcount, update,
}
use axebergos.Kernel.Object.Counts.{IsCounted, release_lem}

module _ {T : Type 0} where
  pub refcount-insert :
      (t : ObjectTable T) (obj : T) (h : ℕ)
      → refcount (insert t obj).0 h ≡ (if t.next_id == h then 1 else refcount t h)
  unfolding insert refcount
  refcount-insert t obj h =
      ground (arith, get-insert t.next_id h (record { object = obj; refcount = 1 }) t.objects)

  -- A table with one entry written over an entry that it has.
  abbrev pub put : ObjectTable T → ℕ → ObjectEntry T → ObjectTable T
  put t k e = record t { objects = Table.insert k e t.objects }

  pub retain-some :
      (t : ObjectTable T) (k : ℕ) (e : ObjectEntry T)
      → Table.get k t.objects ≡ some e
      → (retain t k).0 ≡ put t k (record e { refcount = (e.refcount + 1) % u64_mod })
  unfolding retain
  retain-some t k e q = rw (retain, q) refl

  pub retain-none : (t : ObjectTable T) (k : ℕ) → Table.get k t.objects ≡ none → (retain t k).0 ≡ t
  unfolding retain
  retain-none t k q = rw (retain, q) refl

  pub update-some :
      (t : ObjectTable T) (k : ℕ) (f : T → T) (e : ObjectEntry T)
      → Table.get k t.objects ≡ some e
      → update t k f ≡ put t k (record e { object = f e.object })
  unfolding update
  update-some t k f e q = rw (update, q) refl

  pub update-none :
      (t : ObjectTable T) (k : ℕ) (f : T → T) → Table.get k t.objects ≡ none → update t k f ≡ t
  unfolding update
  update-none t k f q = rw (update, q) refl

  pub put-IsCounted :
      (t : ObjectTable T) (k : ℕ) (e e' : ObjectEntry T)
      → IsCounted t
      → Table.get k t.objects ≡ some e
      → 0 < e'.refcount
      → IsCounted (put t k e')
  put-IsCounted t k e e' s q pos = record {
    counted = λ h g p. ground (arith, p, pos, s.counted h g, get-insert k h e' t.objects);
    fresh = λ h p. ground (arith, p, q, s.fresh h, s.fresh k, get-insert k h e' t.objects);
  }

  pub refcount-retain :
      (t : ObjectTable T) (k h : ℕ)
      → IsCounted t
      → refcount t h + 1 < u64_mod
      → refcount (retain t k).0 h
        ≡ (if (k == h) && ltb 0 (refcount t h) then refcount t h + 1 else refcount t h)
  unfolding refcount
  refcount-retain t k h s small = elim (Option-cases (Table.get k t.objects)) [
    | inl q ↦ rw (retain-none t k q) (ground (arith, q))
    | inr (e, q) ↦
        rw
          (
            retain-some t k e q,
            get-insert k h (record e { refcount = (e.refcount + 1) % u64_mod }) t.objects,
          )
          (ground (arith, q, small, s.counted k e q))
  ]

  pub refcount-update :
      (t : ObjectTable T) (k h : ℕ) (f : T → T) → refcount (update t k f) h ≡ refcount t h
  unfolding refcount
  refcount-update t k h f = elim (Option-cases (Table.get k t.objects)) [
    | inl q ↦ rw (update-none t k f q) refl
    | inr (e, q) ↦
        rw (update-some t k f e q, get-insert k h (record e { object = f e.object }) t.objects)
          (ground (arith, q))
  ]

  pub refcount-release :
      (t : ObjectTable T) (k h : ℕ)
      → IsCounted t
      → refcount (release t k).0 h ≡ (if k == h then refcount t h - 1 else refcount t h)
  refcount-release t k h s =
      let (own, answer, object, others) = release_lem t k s in
      elim (Bool-cases (k == h)) [
        | inl e ↦ let same : k ≡ h = ground (arith, e) in rw (e, ← same) own
        | inr e ↦ rw e (others h (λ q. ground (arith, e, q))).0
      ]

  pub next_id-insert :
      (t : ObjectTable T) (obj : T)
      → t.next_id + 1 < u64_mod
      → (insert t obj).0.next_id ≡ t.next_id + 1
  unfolding insert
  next_id-insert t obj small = omega (arith, small)

  pub next_id-retain : (t : ObjectTable T) (k : ℕ) → (retain t k).0.next_id ≡ t.next_id
  unfolding retain
  next_id-retain t k = ground arith

  pub next_id-release : (t : ObjectTable T) (k : ℕ) → (release t k).0.next_id ≡ t.next_id
  unfolding release
  next_id-release t k = ground arith

  pub next_id-update : (t : ObjectTable T) (k : ℕ) (f : T → T) → (update t k f).next_id ≡ t.next_id
  unfolding update
  next_id-update t k f = ground arith
