-- ===== src/Kernel/Semaphore/Effect.antt =====
-- What the manager's calls and `undo_all` do to the values and to the adjustments on record.
use axebergos.Prelude.{
  ℕ, ◌+◌, ◌%◌, ◌<◌, ◌≡◌, refl, ◌&&◌, ◌==◌, number_key, pair_key, Option, none, some, List, [], ◌∷◌,
  inl, inr, if◌then◌else◌, get_elem?, set, get_elem?-set, Option-cases, arith,
}
use axebergos.Prelude.Words.{u32_mod, add_i32, neg_i32}
use axebergos.Prelude.Table
use axebergos.Prelude.Table.{Table, get-insert}
use axebergos.Kernel.Semaphore.Set.{Semaphore, SemaphoreSet, set_semop, is_completed}
use axebergos.Kernel.Semaphore.Values.{shifted, set_value, set_semop_value}
use axebergos.Kernel.Semaphore.Manager.{
  SemaphoreManager, SemAdj, record_adj, get_all, apply_adj, apply_all, undo_all, semop, note_undo,
  with_set,
}

-- The adjustments of a list that are for one semaphore, added up.
abbrev pub owed : ℕ → ℕ → List (ℕ × ℕ × ℕ) → ℕ
owed id num [] = 0
owed id num ((i, n, a) ∷ rest) = (if i == id && n == num then a else 0) + owed id num rest

owed-record_adj :
    (adjs : SemAdj) (i n a id num : ℕ)
    → owed id num (get_all (record_adj adjs i n a)) % u32_mod
      ≡ (owed id num (get_all adjs) + (if i == id && n == num then a else 0)) % u32_mod
unfolding record_adj get_all Table.get Table.insert
owed-record_adj [] i n a id num = ground arith
owed-record_adj (((j, m), b) ∷ rest) i n a id num =
    ground (arith, owed-record_adj rest i n a id num)

-- What a process owes a semaphore.
abbrev pub owed_adjs : Option SemAdj → ℕ → ℕ → ℕ
owed_adjs none id num = 0
owed_adjs (some adjs) id num = owed id num (get_all adjs)

owed_nil : (id num : ℕ) → owed id num (get_all []) ≡ 0
unfolding get_all
owed_nil id num = refl

module _ {T : Type 0} where
  abbrev pub found_value : Option (SemaphoreSet T) → ℕ → Option ℕ
  found_value none num = none
  found_value (some s) num = set_value s num

  -- The value of a semaphore, if its set and its number exist.
  abbrev pub value? : Table ℕ (SemaphoreSet T) → ℕ → ℕ → Option ℕ
  value? sets id num = found_value (Table.get id sets) num

  abbrev adjusted : Semaphore T → ℕ → T → ℕ → Semaphore T
  adjusted sem pid now a = record sem { value = add_i32 sem.value a; otime = now; pid = pid }

  abbrev adjusted_set : SemaphoreSet T → Semaphore T → ℕ → T → ℕ → ℕ → SemaphoreSet T
  adjusted_set s sem pid now n a = record s {
    semaphores = set s.semaphores n (adjusted sem pid now a);
    otime = now;
  }

  pub apply_adj_value :
      (sets : Table ℕ (SemaphoreSet T)) (pid : ℕ) (now : T) (i n a id num : ℕ)
      → value? (apply_adj sets pid now i n a) id num
        ≡ (if i == id && n == num then shifted (value? sets id num) a else value? sets id num)
  unfolding apply_adj
  apply_adj_value sets pid now i n a id num = elim (Option-cases (Table.get i sets)) [
    | inl e ↦ ground arith
    | inr (s, e) ↦ elim (Option-cases (get_elem? s.semaphores n)) [
      | inl d ↦ ground arith
      | inr (sem, d) ↦ ground (
        arith,
        get-insert i id (adjusted_set s sem pid now n a) sets,
        get_elem?-set s.semaphores n num (adjusted sem pid now a),
      )
    ]
  ]

  -- Undoing a list of adjustments adds to each value what the list owes it.
  pub apply_all_value :
      (es : List (ℕ × ℕ × ℕ)) (sets : Table ℕ (SemaphoreSet T)) (pid : ℕ) (now : T) (id num : ℕ)
      → shifted (value? (apply_all sets pid now es) id num) 0
        ≡ shifted (value? sets id num) (owed id num es)
  unfolding apply_all
  apply_all_value [] sets pid now id num = refl
  apply_all_value ((i, n, a) ∷ es) sets pid now id num = ground (
    arith,
    apply_adj_value sets pid now i n a id num,
    apply_all_value es (apply_adj sets pid now i n a) pid now id num,
  )

  abbrev pub owed_by : SemaphoreManager T → ℕ → ℕ → ℕ → ℕ
  owed_by m pid id num = owed_adjs (Table.get pid m.sem_adjs) id num

  pub undo_all_value :
      (m : SemaphoreManager T) (pid : ℕ) (now : T) (id num : ℕ)
      → shifted (value? (undo_all m pid now).sets id num) 0
        ≡ shifted (value? m.sets id num) (owed_by m pid id num)
  unfolding undo_all
  undo_all_value m pid now id num = elim (Option-cases (Table.get pid m.sem_adjs)) [
    | inl e ↦ ground arith
    | inr (adjs, e) ↦ ground (arith, apply_all_value (get_all adjs) m.sets pid now id num)
  ]

  pub semop_value :
      (m : SemaphoreManager T) (i n op pid : ℕ) (now : T) (id num : ℕ)
      → op < u32_mod
      → value? (semop m i n op pid now).0.sets id num ≡ (
          if is_completed (semop m i n op pid now).1 && (i == id && n == num)
          then shifted (value? m.sets id num) op
          else value? m.sets id num)
  unfolding semop with_set is_completed
  semop_value m i n op pid now id num small = elim (Option-cases (Table.get i m.sets)) [
    | inl e ↦ ground arith
    | inr (s, e) ↦ ground (
      arith,
      get-insert i id (set_semop s n op pid now).0 m.sets,
      set_semop_value s n op pid now num small,
    )
  ]

  pub semop-sem_adjs :
      (m : SemaphoreManager T) (i n op pid : ℕ) (now : T)
      → (semop m i n op pid now).0.sem_adjs ≡ m.sem_adjs
  unfolding semop with_set
  semop-sem_adjs m i n op pid now = ground arith

  pub note_undo-sets :
      (m : SemaphoreManager T) (i n op pid : ℕ) → (note_undo m i n op pid).sets ≡ m.sets
  unfolding note_undo
  note_undo-sets m i n op pid = refl

  pub note_undo_owed :
      (m : SemaphoreManager T) (i n op pid id num : ℕ)
      → owed_by (note_undo m i n op pid) pid id num % u32_mod
        ≡ (owed_by m pid id num + (if i == id && n == num then neg_i32 op else 0)) % u32_mod
  unfolding note_undo
  note_undo_owed m i n op pid id num = elim (Option-cases (Table.get pid m.sem_adjs)) [
    | inl e ↦ ground (
      arith,
      get-insert pid pid (record_adj [] i n (neg_i32 op)) m.sem_adjs,
      owed-record_adj [] i n (neg_i32 op) id num,
      owed_nil id num,
    )
    | inr (adjs, e) ↦ ground (
      arith,
      get-insert pid pid (record_adj adjs i n (neg_i32 op)) m.sem_adjs,
      owed-record_adj adjs i n (neg_i32 op) id num,
    )
  ]
