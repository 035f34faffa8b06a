-- ===== src/Kernel/Semaphore/Manager.antt =====
-- kernel/semaphore.rs, `SemAdj` and `SemaphoreManager`.
use axebergos.Prelude.{
  ℕ, ◌+◌, ◌%◌, Bool, ◌&&◌, not, ◌==◌, number_key, pair_key, List, [], ◌∷◌, none, some, Result, ok,
  err, if◌then◌else◌, ltb, length, get_elem?, set,
}
use axebergos.Prelude.Table
use axebergos.Prelude.Table.{Table}
use axebergos.Prelude.Words.{u32_mod, add_i32, neg_i32, is_neg_i32}
use axebergos.Kernel.Semaphore.Set.{
  SemaphoreSet, SemOpResult, SemError, not_found, too_many, SemSetStats, new_set, getval, setval,
  getall, setall, set_semop, is_completed,
}

-- `SemAdj`: (set id, semaphore number) to the adjustment to apply on exit.
abbrev pub SemAdj : Type 0
SemAdj = Table (ℕ × ℕ) ℕ

pub record SemaphoreManager (T : Type 0) : Type 0 where
  pub sets : Table ℕ (SemaphoreSet T)
  pub key_map : Table ℕ ℕ
  pub next_id : ℕ
  pub max_sems_per_set : ℕ
  pub sem_adjs : Table ℕ SemAdj

-- `SemAdj::record`.
unfoldable pub record_adj : SemAdj → ℕ → ℕ → ℕ → SemAdj
record_adj adjs sem_id sem_num adjustment = elim (Table.get (sem_id, sem_num) adjs) [
  | none ↦ Table.insert (sem_id, sem_num) (add_i32 0 adjustment) adjs
  | some entry ↦ Table.insert (sem_id, sem_num) (add_i32 entry adjustment) adjs
]

-- `SemAdj::get_all`.
unfoldable pub get_all : SemAdj → List (ℕ × ℕ × ℕ)
get_all [] = []
get_all (((id, num), adj) ∷ rest) = (id, num, adj) ∷ get_all rest

module _ {T : Type 0} where
  unfoldable pub new_manager : SemaphoreManager T
  new_manager = record {
    sets = [];
    key_map = [];
    next_id = 1;
    max_sems_per_set = 250;
    sem_adjs = [];
  }

  -- Both ways to create a set: under no key, or under `key`.
  unfoldable pub create_set :
      SemaphoreManager T → Table ℕ ℕ → ℕ → ℕ → ℕ → T → T → SemaphoreManager T × Result ℕ SemError
  unfolding new_set
  create_set m key_map nsems uid gid now epoch = (
    record m {
      sets = Table.insert m.next_id (new_set m.next_id nsems uid gid now epoch) m.sets;
      key_map = key_map;
      next_id = (m.next_id + 1) % u32_mod;
    },
    ok m.next_id,
  )

  unfoldable pub semget :
      SemaphoreManager T → ℕ → ℕ → ℕ → ℕ → Bool → T → T → SemaphoreManager T × Result ℕ SemError
  unfolding create_set
  semget m key nsems uid gid create now epoch =
      if ltb m.max_sems_per_set nsems
      then (m, err too_many)
      else if is_neg_i32 key
      then create_set m m.key_map nsems uid gid now epoch
      else elim (Table.get key m.key_map) [
        | some id ↦ (m, ok id)
        | none ↦
            if create
            then create_set m (Table.insert key m.next_id m.key_map) nsems uid gid now epoch
            else (m, err not_found)
      ]

  -- `self.sets.get_mut(&id).ok_or(NotFound)?`, and a call of a method on the set that is found.
  unfoldable pub with_set {ℓ} :
      {A : Type ℓ}
      → SemaphoreManager T
      → ℕ
      → (SemaphoreSet T → SemaphoreSet T × Result A SemError)
      → SemaphoreManager T × Result A SemError
  with_set m id f = elim (Table.get id m.sets) [
    | none ↦ (m, err not_found)
    | some s ↦ (record m { sets = Table.insert id (f s).0 m.sets }, (f s).1)
  ]

  unfoldable pub semop :
      SemaphoreManager T → ℕ → ℕ → ℕ → ℕ → T → SemaphoreManager T × Result SemOpResult SemError
  unfolding with_set set_semop
  semop m id sem_num sem_op pid now = with_set m id λ s. set_semop s sem_num sem_op pid now

  -- The adjustment is recorded only for an operation that completed and is not a wait for zero.
  unfoldable pub note_undo : SemaphoreManager T → ℕ → ℕ → ℕ → ℕ → SemaphoreManager T
  unfolding record_adj
  note_undo m id sem_num sem_op pid = record m {
    sem_adjs =
        Table.insert pid
          (elim (Table.get pid m.sem_adjs) [
            | none ↦ record_adj [] id sem_num (neg_i32 sem_op)
            | some adj ↦ record_adj adj id sem_num (neg_i32 sem_op)
          ])
          m.sem_adjs;
  }

  unfoldable pub semop_with_undo :
      SemaphoreManager T
      → ℕ
      → ℕ
      → ℕ
      → ℕ
      → T
      → Bool
      → SemaphoreManager T × Result SemOpResult SemError
  unfolding semop note_undo is_completed
  semop_with_undo m id sem_num sem_op pid now sem_undo =
      let (m', result) = semop m id sem_num sem_op pid now in
      (
        if sem_undo && is_completed result && not (sem_op == 0)
            then note_undo m' id sem_num sem_op pid
            else m',
        result,
      )

  -- One round of the loop in `undo_all`.
  unfoldable pub apply_adj : Table ℕ (SemaphoreSet T) → ℕ → T → ℕ → ℕ → ℕ → Table ℕ (SemaphoreSet T)
  apply_adj sets pid now sem_id sem_num adjustment = elim (Table.get sem_id sets) [
    | none ↦ sets
    | some s ↦ elim (get_elem? s.semaphores sem_num) [
      | none ↦ sets
      | some sem ↦
          Table.insert sem_id
            (record s {
              semaphores =
                  set s.semaphores sem_num
                    (record sem { value = add_i32 sem.value adjustment; otime = now; pid = pid });
              otime = now;
            })
            sets
    ]
  ]

  unfoldable pub apply_all :
      Table ℕ (SemaphoreSet T) → ℕ → T → List (ℕ × ℕ × ℕ) → Table ℕ (SemaphoreSet T)
  apply_all sets pid now [] = sets
  apply_all sets pid now ((sem_id, sem_num, adjustment) ∷ rest) =
      apply_all (apply_adj sets pid now sem_id sem_num adjustment) pid now rest

  unfoldable pub undo_all : SemaphoreManager T → ℕ → T → SemaphoreManager T
  undo_all m pid now = elim (Table.get pid m.sem_adjs) [
    | none ↦ m
    | some adj ↦ record m {
      sem_adjs = Table.remove pid m.sem_adjs;
      sets = apply_all m.sets pid now (get_all adj);
    }
  ]

  unfoldable pub semctl_getval : SemaphoreManager T → ℕ → ℕ → Result ℕ SemError
  unfolding getval
  semctl_getval m id sem_num = elim (Table.get id m.sets) [
    | none ↦ err not_found
    | some s ↦ getval s sem_num
  ]

  unfoldable pub semctl_setval :
      SemaphoreManager T → ℕ → ℕ → ℕ → ℕ → T → SemaphoreManager T × Result (Unit {0}) SemError
  unfolding with_set setval
  semctl_setval m id sem_num value pid now = with_set m id λ s. setval s sem_num value pid now

  unfoldable pub semctl_getall : SemaphoreManager T → ℕ → Result (List ℕ) SemError
  unfolding getall
  semctl_getall m id = elim (Table.get id m.sets) [ none ↦ err not_found | some s ↦ ok (getall s) ]

  unfoldable pub semctl_setall :
      SemaphoreManager T → ℕ → List ℕ → ℕ → T → SemaphoreManager T × Result (Unit {0}) SemError
  unfolding with_set setall
  semctl_setall m id values pid now = with_set m id λ s. setall s values pid now

  unfoldable pub semctl_stat : SemaphoreManager T → ℕ → Result (SemSetStats T) SemError
  semctl_stat m id = elim (Table.get id m.sets) [
    | none ↦ err not_found
    | some s ↦ ok (record {
      nsems = length s.semaphores;
      uid = s.uid;
      gid = s.gid;
      mode = s.mode;
      ctime = s.ctime;
      otime = s.otime;
    })
  ]

  unfoldable pub semctl_rmid :
      SemaphoreManager T → ℕ → SemaphoreManager T × Result (Unit {0}) SemError
  semctl_rmid m id = elim (Table.get id m.sets) [
    | none ↦ (m, err not_found)
    | some s ↦ (
      record m {
        sets = Table.remove id m.sets;
        key_map = Table.retain (λ v. not (v == id)) m.key_map;
      },
      ok tt,
    )
  ]
