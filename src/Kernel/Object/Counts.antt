-- ===== src/Kernel/Object/Counts.antt =====
-- What the calls on the object table do to the reference counts.
use axebergos.Prelude.{
  ℕ, ◌+◌, ◌-◌, ◌<◌, ◌≡◌, ◌≢◌, refl, true, false, ◌==◌, number_key, Option, none, some, leb,
  if◌then◌else◌, arith, inl, inr, Bool-cases, Option-cases,
}
use axebergos.Prelude.Words.{u64_mod}
use axebergos.Prelude.Table
use axebergos.Prelude.Table.{get-insert, get-remove}
use axebergos.Kernel.Object.Handles.{
  ObjectEntry, ObjectTable, new_table, insert, release, refcount, get,
}

module _ {T : Type 0} where
  -- Every object in the table has a reference, and its handle was given out.
  pub record IsCounted (t : ObjectTable T) : Type 0 where
    pub counted : (h : ℕ) (e : ObjectEntry T) → Table.get h t.objects ≡ some e → 0 < e.refcount
    pub fresh : (h : ℕ) → Table.get h t.objects ≢ none → h < t.next_id

  pub new_table-IsCounted : IsCounted (new_table {T = T})
  unfolding new_table Table.get
  new_table-IsCounted = record {
    counted = λ h e q. ground (arith, q);
    fresh = λ h q. absurd (q refl);
  }

  pub insert-IsCounted :
      (t : ObjectTable T) (obj : T)
      → IsCounted t
      → t.next_id + 1 < u64_mod
      → IsCounted (insert t obj).0
  unfolding insert
  insert-IsCounted t obj s small = record {
    counted = λ h e q. ground (
      arith,
      q,
      s.counted h e,
      get-insert t.next_id h (record { object = obj; refcount = 1 }) t.objects,
    );
    fresh = λ h q. ground (
      arith,
      q,
      s.fresh h,
      get-insert t.next_id h (record { object = obj; refcount = 1 }) t.objects,
    );
  }

  release-none :
      (t : ObjectTable T) (h : ℕ) → Table.get h t.objects ≡ none → release t h ≡ (t, none)
  unfolding release
  release-none t h e = rw (release, e) refl

  -- The table without the object, and with one reference less.
  abbrev removed : ObjectTable T → ℕ → ObjectTable T
  removed t h = record t { objects = Table.remove h t.objects }

  abbrev lowered : ObjectTable T → ℕ → ObjectEntry T → ObjectTable T
  lowered t h entry = record t {
    objects = Table.insert h (record entry { refcount = entry.refcount - 1 }) t.objects;
  }

  release-last :
      (t : ObjectTable T) (h : ℕ) (entry : ObjectEntry T)
      → Table.get h t.objects ≡ some entry
      → (entry.refcount - 1 == 0) ≡ true
      → release t h ≡ (removed t h, some entry.object)
  unfolding release
  release-last t h entry e z = rw (release, e, z) refl

  release-shared :
      (t : ObjectTable T) (h : ℕ) (entry : ObjectEntry T)
      → Table.get h t.objects ≡ some entry
      → (entry.refcount - 1 == 0) ≡ false
      → release t h ≡ (lowered t h entry, none)
  unfolding release
  release-shared t h entry e z = rw (release, e, z) refl

  pub release-IsCounted : (t : ObjectTable T) (h : ℕ) → IsCounted t → IsCounted (release t h).0
  release-IsCounted t h s = elim (Option-cases (Table.get h t.objects)) [
    | inl e ↦ rw (release-none t h e) s
    | inr (entry, e) ↦ elim (Bool-cases (entry.refcount - 1 == 0)) [
      | inl z ↦ rw (release-last t h entry e z) record {
        counted = λ k g q. ground (arith, q, s.counted k g, get-remove h k t.objects);
        fresh = λ k q. ground (arith, q, s.fresh k, get-remove h k t.objects);
      }
      | inr z ↦ rw (release-shared t h entry e z) record {
        counted = λ k g q. ground (
          arith,
          z,
          q,
          s.counted k g,
          get-insert h k (record entry { refcount = entry.refcount - 1 }) t.objects,
        );
        fresh = λ k q. ground (
          arith,
          q,
          e,
          s.fresh k,
          s.fresh h,
          get-insert h k (record entry { refcount = entry.refcount - 1 }) t.objects,
        );
      }
    ]
  ]

  -- What `release_lem` says of an outcome.
  abbrev pub Released : ObjectTable T → ℕ → ObjectTable T × Option T → Type 0
  Released t h after =
      (refcount after.0 h ≡ refcount t h - 1)
      × (after.1 ≡ (if refcount t h == 1 then get t h else none))
      × (get after.0 h ≡ (if leb (refcount t h) 1 then none else get t h))
      × ((k : ℕ) → h ≢ k → (refcount after.0 k ≡ refcount t k) × (get after.0 k ≡ get t k))

  -- A release takes one reference; the last one removes the object and answers it, and no other
  -- object is touched.
  pub release_lem : (t : ObjectTable T) (h : ℕ) → IsCounted t → Released t h (release t h)
  unfolding refcount get
  release_lem t h s = elim (Option-cases (Table.get h t.objects)) [
    | inl e ↦ rw (release-none t h e, e) (omega arith, refl, refl, λ k n. (refl, refl))
    | inr (entry, e) ↦ elim (Bool-cases (entry.refcount - 1 == 0)) [
      | inl z ↦
          let one : entry.refcount ≡ 1 = ground (arith, z, s.counted h entry e) in
          rw (release-last t h entry e z, e, one, get-remove h h t.objects)
            (
              ground arith,
              ground arith,
              ground arith,
              λ k n.
                  let g = get-remove h k t.objects in (ground (arith, g, n), ground (arith, g, n)),
            )
      | inr z ↦
          let less = record entry { refcount = entry.refcount - 1 } in
          rw (release-shared t h entry e z, e, get-insert h h less t.objects)
            (
              ground arith,
              ground (arith, z),
              ground (arith, z),
              λ k n.
                  let g = get-insert h k less t.objects in
                  (ground (arith, g, n), ground (arith, g, n)),
            )
    ]
  ]
