-- ===== src/Kernel/Semaphore/Undo.antt =====
-- SEM_UNDO: what `undo_all` gives back.
use axebergos.Prelude.{
  ℕ, ◌<◌, ◌≡◌, ◌↔◌, refl, ◌∙◌, number_key, true, Option, none, some, List, [], ◌∷◌, inl, inr, ok,
  Option-cases, arith,
}
use axebergos.Prelude.Words.{u32_mod}
use axebergos.Prelude.Table
use axebergos.Prelude.Table.{Table}
use axebergos.Kernel.Semaphore.Set.{SemaphoreSet, getval}
use axebergos.Kernel.Semaphore.Values.{shifted}
use axebergos.Kernel.Semaphore.Manager.{
  SemaphoreManager, get_all, apply_adj, apply_all, undo_all, semop, semop_with_undo, semctl_getval,
}
use axebergos.Kernel.Semaphore.Effect.{
  value?, owed_by, apply_adj_value, undo_all_value, semop_value, semop-sem_adjs, note_undo-sets,
  note_undo_owed,
}

-- Values stay i32 words.
abbrev IsWord : Option ℕ → Type 0
IsWord none = Unit
IsWord (some v) = v < u32_mod

value_back :
    (o : Option ℕ) (v : ℕ) → IsWord o → v < u32_mod → shifted o 0 ≡ shifted (some v) 0 → o ≡ some v
value_back o v w small e = ground arith

module _ {T : Type 0} where
  -- The value plus the debt: a call with SEM_UNDO leaves it as it is.
  abbrev pub settled : SemaphoreManager T → ℕ → ℕ → ℕ → Option ℕ
  settled m pid id num = shifted (value? m.sets id num) (owed_by m pid id num)

  settled-semop_with_undo :
      (m : SemaphoreManager T) (i n op pid : ℕ) (now : T) (id num : ℕ)
      → op < u32_mod
      → settled (semop_with_undo m i n op pid now true).0 pid id num ≡ settled m pid id num
  unfolding semop_with_undo
  settled-semop_with_undo m i n op pid now id num small = ground (
    arith,
    semop_value m i n op pid now id num small,
    semop-sem_adjs m i n op pid now,
    note_undo_owed (semop m i n op pid now).0 i n op pid id num,
    note_undo-sets (semop m i n op pid now).0 i n op pid,
  )

  apply_all-IsWord :
      (es : List (ℕ × ℕ × ℕ)) (sets : Table ℕ (SemaphoreSet T)) (pid : ℕ) (now : T) (id num : ℕ)
      → IsWord (value? sets id num)
      → IsWord (value? (apply_all sets pid now es) id num)
  unfolding apply_all
  apply_all-IsWord [] sets pid now id num w = w
  apply_all-IsWord ((i, n, a) ∷ es) sets pid now id num w =
      apply_all-IsWord es (apply_adj sets pid now i n a) pid now id num
        (rw (apply_adj_value sets pid now i n a id num) (ground arith))

  undo_all-IsWord :
      (m : SemaphoreManager T) (pid : ℕ) (now : T) (id num : ℕ)
      → IsWord (value? m.sets id num)
      → IsWord (value? (undo_all m pid now).sets id num)
  unfolding undo_all
  undo_all-IsWord m pid now id num w = elim (Option-cases (Table.get pid m.sem_adjs)) [
    | inl e ↦ rw (e, undo_all) w
    | inr (adjs, e) ↦ rw (e, undo_all) (apply_all-IsWord (get_all adjs) m.sets pid now id num w)
  ]

  semop_with_undo-IsWord :
      (m : SemaphoreManager T) (i n op pid : ℕ) (now : T) (id num : ℕ)
      → op < u32_mod
      → IsWord (value? m.sets id num)
      → IsWord (value? (semop_with_undo m i n op pid now true).0.sets id num)
  unfolding semop_with_undo
  semop_with_undo-IsWord m i n op pid now id num small w = ground (
    arith,
    semop_value m i n op pid now id num small,
    note_undo-sets (semop m i n op pid now).0 i n op pid,
  )

  -- A process's calls with SEM_UNDO, in order: set, semaphore number, operation and time.
  pub run_undo : SemaphoreManager T → ℕ → List (ℕ × ℕ × ℕ × T) → SemaphoreManager T
  run_undo m pid [] = m
  run_undo m pid ((i, n, op, now) ∷ calls) =
      run_undo (semop_with_undo m i n op pid now true).0 pid calls

  abbrev pub AreWords : List (ℕ × ℕ × ℕ × T) → Type 0
  AreWords [] = Unit
  AreWords ((i, n, op, now) ∷ calls) = (op < u32_mod) × AreWords calls

  settled-run_undo :
      (calls : List (ℕ × ℕ × ℕ × T)) (m : SemaphoreManager T) (pid id num : ℕ)
      → AreWords calls
      → IsWord (value? m.sets id num)
      → (settled (run_undo m pid calls) pid id num ≡ settled m pid id num)
        × IsWord (value? (run_undo m pid calls).sets id num)
  unfolding run_undo
  settled-run_undo [] m pid id num small w = (refl, w)
  settled-run_undo ((i, n, op, now) ∷ calls) m pid id num small w =
      let (same, w') =
        settled-run_undo calls (semop_with_undo m i n op pid now true).0 pid id num small.1
          (semop_with_undo-IsWord m i n op pid now id num small.0 w) in
      (same ∙ settled-semop_with_undo m i n op pid now id num small.0, w')

  semctl_getval-value? :
      (m : SemaphoreManager T) (id num v : ℕ)
      → (semctl_getval m id num ≡ ok v) ↔ (value? m.sets id num ≡ some v)
  unfolding semctl_getval getval
  semctl_getval-value? m id num v = ground arith

  -- A process that owes nothing makes any calls with SEM_UNDO, on any sets, completed or not, and
  -- exits: `undo_all` gives back every value that is an i32, through overflow too.
  pub undo_all-run_undo :
      (m : SemaphoreManager T) (pid : ℕ) (calls : List (ℕ × ℕ × ℕ × T)) (now : T) (id num v : ℕ)
      → Table.get pid m.sem_adjs ≡ none
      → AreWords calls
      → v < u32_mod
      → semctl_getval m id num ≡ ok v
      → semctl_getval (undo_all (run_undo m pid calls) pid now) id num ≡ ok v
  undo_all-run_undo m pid calls now id num v clear small w e =
      let e' : value? m.sets id num ≡ some v = (semctl_getval-value? m id num v).0 e in
      let (same, w') = settled-run_undo calls m pid id num small (rw e' w) in
      (semctl_getval-value? _ id num v).1 (
        value_back _ v (undo_all-IsWord (run_undo m pid calls) pid now id num w') w
          (undo_all_value (run_undo m pid calls) pid now id num ∙ same ∙ ground arith))
