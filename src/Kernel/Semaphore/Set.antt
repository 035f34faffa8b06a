-- ===== src/Kernel/Semaphore/Set.antt =====
-- kernel/semaphore.rs, `Semaphore` and `SemaphoreSet`.
use axebergos.Prelude.{
  ℕ, ◌+◌, ◌%◌, Bool, true, false, ◌==◌, number_key, List, [], ◌∷◌, map, none, some, Result, ok, err,
  ok_or, if◌then◌else◌, length, get_elem?, set, replicate, map_option,
}
use axebergos.Prelude.Words.{u32_mod, add_i32, sub_i32, abs_i32, ge_i32, is_neg_i32, is_pos_i32}

pub record Semaphore (T : Type 0) : Type 0 where
  pub value : ℕ
  pub waiting_inc : ℕ
  pub waiting_zero : ℕ
  pub otime : T
  pub pid : ℕ

pub record SemaphoreSet (T : Type 0) : Type 0 where
  pub id : ℕ
  pub semaphores : List (Semaphore T)
  pub uid : ℕ
  pub gid : ℕ
  pub mode : ℕ
  pub ctime : T
  pub otime : T

pub data SemOpResult : Type 0 where
  completed would_block : SemOpResult

pub data SemError : Type 0 where
  invalid_sem_num invalid_argument not_found permission_denied already_exists too_many : SemError

pub record SemSetStats (T : Type 0) : Type 0 where
  pub nsems : ℕ
  pub uid : ℕ
  pub gid : ℕ
  pub mode : ℕ
  pub ctime : T
  pub otime : T

unfoldable pub is_completed : Result SemOpResult SemError → Bool
is_completed (ok completed) = true
is_completed (ok would_block) = false
is_completed (err e) = false

module _ {T : Type 0} where
  -- `Semaphore::new` and `SemaphoreSet::new`; `epoch` is the time 0.0.
  unfoldable pub new_semaphore : ℕ → T → Semaphore T
  new_semaphore initial epoch = record {
    value = initial;
    waiting_inc = 0;
    waiting_zero = 0;
    otime = epoch;
    pid = 0;
  }

  unfoldable pub new_set : ℕ → ℕ → ℕ → ℕ → T → T → SemaphoreSet T
  unfolding new_semaphore
  new_set id nsems uid gid now epoch = record {
    id = id;
    semaphores = replicate nsems (new_semaphore 0 epoch);
    uid = uid;
    gid = gid;
    mode = 0o644;
    ctime = now;
    otime = epoch;
  }

  unfoldable pub getval : SemaphoreSet T → ℕ → Result ℕ SemError
  getval s sem_num =
      ok_or (map_option (λ sem. sem.value) (get_elem? s.semaphores sem_num)) invalid_sem_num

  unfoldable pub setval :
      SemaphoreSet T → ℕ → ℕ → ℕ → T → SemaphoreSet T × Result (Unit {0}) SemError
  setval s sem_num value pid now = elim (get_elem? s.semaphores sem_num) [
    | none ↦ (s, err invalid_sem_num)
    | some sem ↦ (
      record s {
        semaphores =
            set s.semaphores sem_num (record sem { value = value; pid = pid; otime = now });
        otime = now;
      },
      ok tt,
    )
  ]

  unfoldable pub getall : SemaphoreSet T → List ℕ
  getall s = map (λ sem. sem.value) s.semaphores

  -- The loop of `setall`, over semaphores and values together.
  unfoldable pub set_values : List (Semaphore T) → List ℕ → ℕ → T → List (Semaphore T)
  set_values [] values pid now = []
  set_values (sem ∷ sems) [] pid now = sem ∷ sems
  set_values (sem ∷ sems) (v ∷ values) pid now =
      record sem { value = v; pid = pid; otime = now } ∷ set_values sems values pid now

  unfoldable pub setall :
      SemaphoreSet T → List ℕ → ℕ → T → SemaphoreSet T × Result (Unit {0}) SemError
  unfolding set_values
  setall s values pid now =
      if length values == length s.semaphores
      then (record s { semaphores = set_values s.semaphores values pid now; otime = now }, ok tt)
      else (s, err invalid_argument)

  -- The body of `SemaphoreSet::semop` on the semaphore that it looks up.
  unfoldable pub semop_on : Semaphore T → ℕ → ℕ → T → Semaphore T × SemOpResult
  semop_on sem sem_op pid now =
      if is_pos_i32 sem_op
      then (record sem { value = add_i32 sem.value sem_op; pid = pid; otime = now }, completed)
      else if is_neg_i32 sem_op
      then if ge_i32 sem.value (abs_i32 sem_op)
        then (
          record sem { value = sub_i32 sem.value (abs_i32 sem_op); pid = pid; otime = now },
          completed,
        )
        else (record sem { waiting_inc = (sem.waiting_inc + 1) % u32_mod }, would_block)
      else if sem.value == 0
      then (record sem { pid = pid; otime = now }, completed)
      else (record sem { waiting_zero = (sem.waiting_zero + 1) % u32_mod }, would_block)

  -- The set's own `otime` is written on the branches that complete.
  unfoldable pub set_semop :
      SemaphoreSet T → ℕ → ℕ → ℕ → T → SemaphoreSet T × Result SemOpResult SemError
  set_semop s sem_num sem_op pid now = elim (get_elem? s.semaphores sem_num) [
    | none ↦ (s, err invalid_sem_num)
    | some sem ↦
        let (sem', result) = semop_on sem sem_op pid now in
        (
          record s {
            semaphores = set s.semaphores sem_num sem';
            otime = elim result [ completed ↦ now | would_block ↦ s.otime ];
          },
          ok result,
        )
  ]

  unfoldable pub getpid : SemaphoreSet T → ℕ → Result ℕ SemError
  getpid s sem_num =
      ok_or (map_option (λ sem. sem.pid) (get_elem? s.semaphores sem_num)) invalid_sem_num

  unfoldable pub getncnt : SemaphoreSet T → ℕ → Result ℕ SemError
  getncnt s sem_num =
      ok_or (map_option (λ sem. sem.waiting_inc) (get_elem? s.semaphores sem_num)) invalid_sem_num

  unfoldable pub getzcnt : SemaphoreSet T → ℕ → Result ℕ SemError
  getzcnt s sem_num =
      ok_or (map_option (λ sem. sem.waiting_zero) (get_elem? s.semaphores sem_num)) invalid_sem_num
