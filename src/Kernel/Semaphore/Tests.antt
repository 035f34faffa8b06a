-- ===== src/Kernel/Semaphore/Tests.antt =====
-- Runs of the semaphore code, and its theorems at concrete inputs. Times are numbers here.
use axebergos.Prelude.{
  ℕ, ◌+◌, ◌-◌, ◌^◌, ◌<◌, ◌≤◌, ◌≡◌, refl, true, false, List, [], ◌∷◌, ok, ◌⊎◌, ◌&&◌, ◌==◌,
  number_key, if◌then◌else◌, arith,
}
use axebergos.Prelude.Words.{u32_mod, i32_half}
use axebergos.Prelude.Table
use axebergos.Kernel.Ipc.{IsLive}
use axebergos.Kernel.Semaphore.Set.{
  Semaphore, SemaphoreSet, completed, would_block, semop_on, set_semop, is_completed,
}
use axebergos.Kernel.Semaphore.Values.{
  shifted, set_value, set_semop_value, semop_on_cases, semop_on_least,
}
use axebergos.Kernel.Semaphore.Manager.{
  SemaphoreManager, new_manager, semget, semop_with_undo, semctl_getval, undo_all, apply_all,
  apply_adj, get_all,
}
use axebergos.Kernel.Semaphore.Undo.{run_undo, undo_all-run_undo}
use axebergos.Kernel.Ipc.{IsRising}
use axebergos.Kernel.Semaphore.Ids.{created, run-new_manager-IsRising}
use axebergos.Kernel.Semaphore.Keys.{
  HasSetKeys, Call, gets, ops, exits, removes, run, run-new_manager-HasSetKeys, semget-semget,
}

-- -3 as an i32.
abbrev minus_three : ℕ
minus_three = 2 ^ 32 - 3

abbrev ten : Semaphore ℕ
ten = record { value = 10; waiting_inc = 0; waiting_zero = 0; otime = 0; pid = 0 }

abbrev pair : SemaphoreSet ℕ
pair = record {
  id = 1;
  semaphores = ten ∷ ten ∷ [];
  uid = 0;
  gid = 0;
  mode = 0o644;
  ctime = 0;
  otime = 0;
}

abbrev managed : SemaphoreManager ℕ
managed = record {
  sets = (1, pair) ∷ [];
  key_map = (42, 1) ∷ [];
  next_id = 2;
  max_sems_per_set = 250;
  sem_adjs = [];
}

taken : semctl_getval (semop_with_undo managed 1 0 minus_three 7 5 true).0 1 0 ≡ ok 7
unfolding semctl_getval semop_with_undo semop_on Table.get Table.insert
taken = refl

given_back :
    semctl_getval (undo_all (semop_with_undo managed 1 0 minus_three 7 5 true).0 7 6) 1 0 ≡ ok 10
unfolding semctl_getval semop_with_undo semop_on undo_all apply_all apply_adj get_all Table.get
    Table.insert Table.remove
given_back = refl

set_semop_value_example : set_value (set_semop pair 0 minus_three 7 5).0 0 ≡ (
    if is_completed (set_semop pair 0 minus_three 7 5).1 && ◌==◌ {A = ℕ} 0 0
    then shifted (set_value pair 0) minus_three
    else set_value pair 0)
set_semop_value_example = set_semop_value pair 0 minus_three 7 5 0 (omega arith)

semop_on_cases_example :
    ((semop_on ten minus_three 7 5).1 ≡ would_block)
      × ((semop_on ten minus_three 7 5).0.value ≡ 10)
      × (((i32_half ≤ minus_three) × (10 + minus_three < u32_mod)) ⊎ ((minus_three ≡ 0) × (0 < 10)))
    ⊎ ((semop_on ten minus_three 7 5).1 ≡ completed)
      × (((i32_half ≤ minus_three)
            × ((semop_on ten minus_three 7 5).0.value + u32_mod ≡ 10 + minus_three))
          ⊎ ((minus_three < i32_half)
              × (0 < minus_three)
              × (10 + minus_three < i32_half)
              × ((semop_on ten minus_three 7 5).0.value ≡ 10 + minus_three))
          ⊎ ((minus_three < i32_half)
              × (0 < minus_three)
              × (i32_half ≤ 10 + minus_three)
              × (i32_half ≤ (semop_on ten minus_three 7 5).0.value)
              × ((semop_on ten minus_three 7 5).0.value ≡ 10 + minus_three))
          ⊎ ((minus_three ≡ 0) × (◌≡◌ {A = ℕ} 10 0) × ((semop_on ten minus_three 7 5).0.value ≡ 0)))
semop_on_cases_example =
    semop_on_cases ten minus_three 7 5 (omega arith) (omega arith) (omega arith)

semop_on_least_example :
    ((semop_on ten i32_half 7 5).1 ≡ completed) × (i32_half ≤ (semop_on ten i32_half 7 5).0.value)
semop_on_least_example = semop_on_least ten 7 5 (omega arith)

undo_all-run_undo_example :
    semctl_getval
      (undo_all (run_undo managed 7 ((1, 0, minus_three, 5) ∷ (1, 1, 4, 6) ∷ [])) 7 9)
      1
      0
    ≡ ok 10
unfolding semctl_getval Table.get
undo_all-run_undo_example =
    undo_all-run_undo managed 7 ((1, 0, minus_three, 5) ∷ (1, 1, 4, 6) ∷ []) 9 1 0 10 refl
      (omega arith) (omega arith) refl

abbrev history : List (Call ℕ)
history =
    gets 42 2 0 0 true 1 0
    ∷ ops 1 0 5 7 2 true
    ∷ exits 7 3
    ∷ removes 1
    ∷ gets 42 1 0 0 true 4 0
    ∷ []

run-new_manager-IsRising_example :
    HasSetKeys (run new_manager history) × IsRising 1 (created new_manager history)
run-new_manager-IsRising_example = run-new_manager-IsRising history (omega arith)

managed-HasSetKeys : HasSetKeys {T = ℕ} (run new_manager (gets 42 2 0 0 true 1 0 ∷ []))
managed-HasSetKeys = run-new_manager-HasSetKeys (gets 42 2 0 0 true 1 0 ∷ []) (omega arith)

abbrev opened : SemaphoreManager ℕ
opened = run new_manager (gets 42 2 0 0 true 1 0 ∷ [])

semget-semget_example : (semget opened 42 9 5 5 false 8 0 ≡ (opened, ok 1)) × IsLive opened.sets 1
unfolding run new_manager semget Table.get Table.insert
semget-semget_example =
    semget-semget opened opened 42 2 0 0 true 1 0 1 9 5 5 false 8 managed-HasSetKeys (omega arith)
      refl (omega arith)
