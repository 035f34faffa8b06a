-- ===== src/Kernel/Semaphore/Values.antt =====
-- What `semop` does to the values of a set.
use axebergos.Prelude.{
  ℕ, ◌+◌, ◌≤◌, ◌<◌, ◌≡◌, ◌≢◌, ◌&&◌, ◌==◌, number_key, Option, none, some, inl, inr, ◌⊎◌, ok,
  if◌then◌else◌, get_elem?, get_elem?-set, Option-cases, arith,
}
use axebergos.Prelude.Words.{u32_mod, i32_half, add_i32}
use axebergos.Kernel.Semaphore.Set.{
  Semaphore, SemaphoreSet, completed, would_block, set_semop, semop_on, is_completed,
}

abbrev pub value_of : {T : Type 0} → Option (Semaphore T) → Option ℕ
value_of none = none
value_of (some sem) = some sem.value

-- A value moved by an operation, in i32.
abbrev pub shifted : Option ℕ → ℕ → Option ℕ
shifted none op = none
shifted (some v) op = some (add_i32 v op)

module _ {T : Type 0} where
  abbrev pub set_value : SemaphoreSet T → ℕ → Option ℕ
  set_value s num = value_of (get_elem? s.semaphores num)

  semop_on_value :
      (sem : Semaphore T) (op pid : ℕ) (now : T)
      → op < u32_mod
      → (semop_on sem op pid now).0.value ≡ (
          if is_completed (ok (semop_on sem op pid now).1) then add_i32 sem.value op else sem.value)
  unfolding semop_on is_completed
  semop_on_value sem op pid now small = ground arith

  -- On every branch: a call that completes adds the operation to the value at its index, and a call
  -- that blocks or fails changes no value.
  pub set_semop_value :
      (s : SemaphoreSet T) (num op pid : ℕ) (now : T) (k : ℕ)
      → op < u32_mod
      → set_value (set_semop s num op pid now).0 k ≡ (
          if is_completed (set_semop s num op pid now).1 && num == k
          then shifted (set_value s k) op
          else set_value s k)
  unfolding set_semop is_completed
  set_semop_value s num op pid now k small = elim (Option-cases (get_elem? s.semaphores num)) [
    | inl e ↦ ground arith
    | inr (sem, e) ↦ ground (
      arith,
      semop_on_value sem op pid now small,
      get_elem?-set s.semaphores num k (semop_on sem op pid now).0,
    )
  ]

  -- For a value that is not negative and an operation other than the least i32. A decrement blocks
  -- exactly when the sum would be negative, a wait for zero exactly when the value is not zero, and a
  -- call that blocks leaves the value. A decrement that completes leaves the sum, a wait for zero that
  -- completes leaves zero. An increment always completes: it leaves the sum when that is below 2^31,
  -- and else, by overflow, a negative i32, the sum less 2^32, whose bits are those of the sum.
  pub semop_on_cases :
      (sem : Semaphore T) (op pid : ℕ) (now : T)
      → sem.value < i32_half
      → op < u32_mod
      → op ≢ i32_half
      → ((semop_on sem op pid now).1 ≡ would_block)
          × ((semop_on sem op pid now).0.value ≡ sem.value)
          × (((i32_half ≤ op) × (sem.value + op < u32_mod)) ⊎ ((op ≡ 0) × (0 < sem.value)))
        ⊎ ((semop_on sem op pid now).1 ≡ completed)
          × (((i32_half ≤ op) × ((semop_on sem op pid now).0.value + u32_mod ≡ sem.value + op))
              ⊎ ((op < i32_half)
                  × (0 < op)
                  × (sem.value + op < i32_half)
                  × ((semop_on sem op pid now).0.value ≡ sem.value + op))
              ⊎ ((op < i32_half)
                  × (0 < op)
                  × (i32_half ≤ sem.value + op)
                  × (i32_half ≤ (semop_on sem op pid now).0.value)
                  × ((semop_on sem op pid now).0.value ≡ sem.value + op))
              ⊎ ((op ≡ 0) × (sem.value ≡ 0) × ((semop_on sem op pid now).0.value ≡ 0)))
  unfolding semop_on
  semop_on_cases sem op pid now v small least = ground arith

  -- The least i32 is its own absolute value and below every value: it never blocks, and takes any
  -- value that is not negative to a negative one.
  pub semop_on_least :
      (sem : Semaphore T) (pid : ℕ) (now : T)
      → sem.value < i32_half
      → ((semop_on sem i32_half pid now).1 ≡ completed)
        × (i32_half ≤ (semop_on sem i32_half pid now).0.value)
  unfolding semop_on
  semop_on_least sem pid now v = ground arith
