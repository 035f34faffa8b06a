-- ===== src/Kernel/Semaphore/Keys.antt =====
-- The manager's keys and ids.
use axebergos.Prelude.{
  ℕ, ◌+◌, ◌≤◌, ◌<◌, ◌≡◌, ◌≢◌, refl, Bool, not, ◌==◌, number_key, none, some, inl, inr, Result, ok,
  Option-cases, arith, List, [], ◌∷◌, length, get_elem?,
}
use axebergos.Prelude.Words.{u32_mod, i32_half}
use axebergos.Prelude.Table
use axebergos.Prelude.Table.{Table, get-insert, get-remove, get-retain}
use axebergos.Kernel.Ipc.{
  IsLive, IsKeyed, IsKeyed-insert_private, IsKeyed-insert, IsKeyed-update, IsKeyed-remove,
}
use axebergos.Kernel.Semaphore.Set.{SemaphoreSet, new_set, set_semop, SemError}
use axebergos.Kernel.Semaphore.Manager.{
  SemaphoreManager, new_manager, semget, with_set, semop, note_undo, semop_with_undo, undo_all,
  apply_adj, apply_all, get_all, semctl_setval, semctl_setall, semctl_rmid,
}

module _ {T : Type 0} where
  abbrev pub HasSetKeys : SemaphoreManager T → Type 0
  HasSetKeys m = IsKeyed m.sets m.key_map m.next_id

  pub new_manager-HasSetKeys : HasSetKeys new_manager
  unfolding new_manager Table.get
  new_manager-HasSetKeys = record { live = λ key id e. cc; fresh = λ id l. absurd (l refl) }

  semget-HasSetKeys :
      (m : SemaphoreManager T) (key nsems uid gid : ℕ) (create : Bool) (now epoch : T)
      → HasSetKeys m
      → m.next_id + 1 < u32_mod
      → HasSetKeys (semget m key nsems uid gid create now epoch).0
  unfolding semget
  semget-HasSetKeys m key nsems uid gid create now epoch h small = ground (
    arith,
    IsKeyed-insert_private (new_set m.next_id nsems uid gid now epoch) h small,
    IsKeyed-insert key (new_set m.next_id nsems uid gid now epoch) h small,
  )

  with_set-HasSetKeys {ℓ} :
      {A : Type ℓ} (m : SemaphoreManager T) (id : ℕ)
      (f : SemaphoreSet T → SemaphoreSet T × Result A SemError)
      → HasSetKeys m
      → HasSetKeys (with_set m id f).0
  unfolding with_set
  with_set-HasSetKeys m id f h = elim (Option-cases (Table.get id m.sets)) [
    | inl e ↦ rw (e, with_set) h
    | inr (s, e) ↦ rw (e, with_set) (IsKeyed-update id (f s).0 (λ n. cc) h)
  ]

  semctl_rmid-HasSetKeys :
      (m : SemaphoreManager T) (id : ℕ) → HasSetKeys m → HasSetKeys (semctl_rmid m id).0
  unfolding semctl_rmid
  semctl_rmid-HasSetKeys m id h = ground (arith, IsKeyed-remove id h)

  apply_all-IsKeyed :
      (es : List (ℕ × ℕ × ℕ)) (sets : Table ℕ (SemaphoreSet T)) (keys : Table ℕ ℕ) (n pid : ℕ)
      (now : T)
      → IsKeyed sets keys n
      → IsKeyed (apply_all sets pid now es) keys n
  unfolding apply_all apply_adj
  apply_all-IsKeyed [] sets keys n pid now h = h
  apply_all-IsKeyed ((i, k, a) ∷ es) sets keys n pid now h =
      apply_all-IsKeyed es (apply_adj sets pid now i k a) keys n pid now
        (elim (Option-cases (Table.get i sets)) [
          | inl e ↦ rw (e, apply_adj) h
          | inr (s, e) ↦ elim (Option-cases (get_elem? s.semaphores k)) [
            | inl d ↦ rw (e, apply_adj, d) h
            | inr (sem, d) ↦ rw (e, apply_adj, d) (IsKeyed-update i _ (λ z. cc) h)
          ]
        ])

  undo_all-HasSetKeys :
      (m : SemaphoreManager T) (pid : ℕ) (now : T) → HasSetKeys m → HasSetKeys (undo_all m pid now)
  unfolding undo_all
  undo_all-HasSetKeys m pid now h = elim (Option-cases (Table.get pid m.sem_adjs)) [
    | inl e ↦ rw (e, undo_all) h
    | inr (adjs, e) ↦
        rw (e, undo_all) (apply_all-IsKeyed (get_all adjs) m.sets m.key_map m.next_id pid now h)
  ]

  semop_with_undo-HasSetKeys :
      (m : SemaphoreManager T) (i n op pid : ℕ) (now : T) (undo : Bool)
      → HasSetKeys m
      → HasSetKeys (semop_with_undo m i n op pid now undo).0
  unfolding semop_with_undo semop note_undo
  semop_with_undo-HasSetKeys m i n op pid now undo h =
      ground (arith, with_set-HasSetKeys m i (λ s. set_semop s n op pid now) h)

-- The calls that change the manager.
pub data Call (T : Type 0) : Type 0 where
  gets : ℕ → ℕ → ℕ → ℕ → Bool → T → T → Call T
  ops : ℕ → ℕ → ℕ → ℕ → T → Bool → Call T
  sets : ℕ → ℕ → ℕ → ℕ → T → Call T
  sets_all : ℕ → List ℕ → ℕ → T → Call T
  exits : ℕ → T → Call T
  removes : ℕ → Call T

module _ {T : Type 0} where
  unfoldable pub step : SemaphoreManager T → Call T → SemaphoreManager T
  step m (gets key nsems uid gid create now epoch) = (semget m key nsems uid gid create now epoch).0
  step m (ops id num op pid now undo) = (semop_with_undo m id num op pid now undo).0
  step m (sets id num value pid now) = (semctl_setval m id num value pid now).0
  step m (sets_all id values pid now) = (semctl_setall m id values pid now).0
  step m (exits pid now) = undo_all m pid now
  step m (removes id) = (semctl_rmid m id).0

  unfoldable pub run : SemaphoreManager T → List (Call T) → SemaphoreManager T
  unfolding step
  run m [] = m
  run m (c ∷ cs) = run (step m c) cs

  pub step-HasSetKeys :
      (m : SemaphoreManager T) (c : Call T)
      → HasSetKeys m
      → m.next_id + 1 < u32_mod
      → HasSetKeys (step m c)
  unfolding step semctl_setval semctl_setall
  step-HasSetKeys m (gets key nsems uid gid create now epoch) h small =
      semget-HasSetKeys m key nsems uid gid create now epoch h small
  step-HasSetKeys m (ops id num op pid now undo) h small =
      semop_with_undo-HasSetKeys m id num op pid now undo h
  step-HasSetKeys m (sets id num value pid now) h small = with_set-HasSetKeys m id _ h
  step-HasSetKeys m (sets_all id values pid now) h small = with_set-HasSetKeys m id _ h
  step-HasSetKeys m (exits pid now) h small = undo_all-HasSetKeys m pid now h
  step-HasSetKeys m (removes id) h small = semctl_rmid-HasSetKeys m id h

  pub step-next_id :
      (m : SemaphoreManager T) (c : Call T)
      → m.next_id + 1 < u32_mod
      → (step m c).next_id ≤ m.next_id + 1
  unfolding step semget semop_with_undo semop note_undo with_set semctl_setval semctl_setall
      undo_all semctl_rmid
  step-next_id m (gets key nsems uid gid create now epoch) small = ground arith
  step-next_id m (ops id num op pid now undo) small = ground arith
  step-next_id m (sets id num value pid now) small = ground arith
  step-next_id m (sets_all id values pid now) small = ground arith
  step-next_id m (exits pid now) small = ground arith
  step-next_id m (removes id) small = ground arith

  run-HasSetKeys :
      (cs : List (Call T)) (m : SemaphoreManager T)
      → HasSetKeys m
      → m.next_id + length cs < u32_mod
      → HasSetKeys (run m cs)
  unfolding run
  run-HasSetKeys [] m h small = h
  run-HasSetKeys (c ∷ cs) m h small =
      run-HasSetKeys cs (step m c) (step-HasSetKeys m c h (omega arith))
        (omega (arith, step-next_id m c (omega arith)))

  -- Over any history shorter than the id space, each key names a live set and each live id is below
  -- `next_id`.
  pub run-new_manager-HasSetKeys :
      (cs : List (Call T)) → 1 + length cs < u32_mod → HasSetKeys (run new_manager cs)
  run-new_manager-HasSetKeys cs small =
      run-HasSetKeys cs new_manager new_manager-HasSetKeys (unfold new_manager in small)

  -- In a manager whose keys name live sets: a key that is not negative and that `semget` resolved
  -- resolves to the same live set in the state after it, whatever owner and flag the second call
  -- asks for, and whatever size up to the manager's maximum, and the second call changes nothing.
  pub semget-semget :
      (m m' : SemaphoreManager T) (key nsems uid gid : ℕ) (create : Bool) (now epoch : T)
      (id nsems' uid' gid' : ℕ) (create' : Bool) (now' : T)
      → HasSetKeys m
      → key < i32_half
      → semget m key nsems uid gid create now epoch ≡ (m', ok id)
      → nsems' ≤ m.max_sems_per_set
      → (semget m' key nsems' uid' gid' create' now' epoch ≡ (m', ok id)) × IsLive m'.sets id
  unfolding semget
  semget-semget m m' key nsems uid gid create now epoch id nsems' uid' gid' create' now' h pos e
        small =
      ground (
        arith,
        h.live key id,
        get-insert key key m.next_id m.key_map,
        get-insert m.next_id m.next_id (new_set m.next_id nsems uid gid now epoch) m.sets,
      )

  -- After `semctl_rmid` of a live set: its id is dead, no key names it, and every other set and
  -- every key of another set are as before.
  semctl_rmid_lem :
      (m : SemaphoreManager T) (id : ℕ)
      → HasSetKeys m
      → IsLive m.sets id
      → let m' = (semctl_rmid m id).0 in
        (Table.get id m'.sets ≡ none)
        × ((k : ℕ) → Table.get k m'.key_map ≢ some id)
        × ((j : ℕ) → j ≢ id → Table.get j m'.sets ≡ Table.get j m.sets)
        × ((k j : ℕ) → j ≢ id → Table.get k m.key_map ≡ some j → Table.get k m'.key_map ≡ some j)
  unfolding semctl_rmid
  semctl_rmid_lem m id h l = (
    ground (arith, get-remove id id m.sets),
    λ k e. ground (arith, get-retain (λ v. not (v == id)) k m.key_map),
    λ j n. ground (arith, get-remove id j m.sets),
    λ k j n e. ground (arith, get-retain (λ v. not (v == id)) k m.key_map),
  )
