-- ===== src/Kernel/WorkStealing/Deque.antt =====
-- kernel/work_stealing/deque.rs: the Chase-Lev deque, an atomic access at a time. The owner pushes and
-- pops at the bottom, any number of thieves steal at the top, and a schedule says whose turn it is. The
-- accesses are taken as sequentially consistent. usize has 64 bits. The owner's loads of `bottom`,
-- which only it writes, go with the access that follows them. A slot that was never written is `none`.
pub mod Words
pub mod Spec
pub mod Invariant
pub mod Left
pub mod Changes
pub mod Access
pub mod Push
pub mod Pop
pub mod Claim
pub mod Owner
pub mod Thief
pub mod Refinement
pub mod Underflow
mod Tests
use Prim.Native.Nat.{bit_or}
use axebergos.Prelude.{
  ℕ, ◌+◌, ◌*◌, ◌-◌, ◌/◌, ◌%◌, ◌^◌, Bool, true, false, not, ◌==◌, number_key, List, [], ◌∷◌, ◌++◌,
  Option, none, some, leb, if◌then◌else◌,
}
use axebergos.Prelude.Words.{u32_mod, u64_mod, is_pos_i64}

-- `Inner`, with its `Buffer`.
pub record Inner (T : Type 0) : Type 0 where
  pub bottom : ℕ
  pub top : ℕ
  pub slots : ℕ → Option T
  pub capacity : ℕ

abbrev pub wrapping_sub : ℕ → ℕ → ℕ
wrapping_sub a b = (a + u64_mod - b) % u64_mod

abbrev pub wrapping_add : ℕ → ℕ → ℕ
wrapping_add a b = (a + b) % u64_mod

abbrev pub unpack_bottom : ℕ → ℕ
unpack_bottom packed = packed % u32_mod

abbrev pub pack_bottom : ℕ → ℕ
pack_bottom bottom = bottom

-- The generation and the index.
abbrev pub unpack_top : ℕ → ℕ × ℕ
unpack_top packed = (packed / u32_mod % u32_mod, packed % u32_mod)

-- `(generation << 32) | top`, whose lower 32 bits are those of `top`.
unfoldable pub pack_top : ℕ → ℕ → ℕ
pack_top generation top = bit_or generation (top / u32_mod) % u32_mod * u32_mod + top % u32_mod

-- The packed top that a claim writes.
unfoldable pub next_top : ℕ → ℕ
unfolding pack_top
next_top packed =
    let (generation, top) = unpack_top packed in
    pack_top ((generation + 1) % u32_mod) (wrapping_add top 1)

module _ {T : Type 0} where
  unfoldable pub new_inner : ℕ → Inner T
  new_inner capacity = record { bottom = 0; top = 0; slots = λ i. none; capacity = capacity }

  -- `index & mask`, which is the remainder, since the capacity is a power of two.
  abbrev pub read_slot : Inner T → ℕ → Option T
  read_slot m index = m.slots (index % m.capacity)

  abbrev pub update_slots : (ℕ → Option T) → ℕ → T → ℕ → Option T
  update_slots slots i task j = if i == j then some task else slots j

  abbrev pub write_slot : Inner T → ℕ → T → Inner T
  write_slot m index task = record m { slots = update_slots m.slots (index % m.capacity) task }

-- Where the owner stands, with the variables that are live there.
pub data OwnerPc (T : Type 0) : Type 0 where
  idle : OwnerPc T
  push_checked push_written : T → ℕ → OwnerPc T
  pop_stored : ℕ → OwnerPc T
  pop_none : ℕ → OwnerPc T
  pop_read : ℕ → Option T → OwnerPc T
  pop_claimed : ℕ → OwnerPc T

-- Where a thief stands: after its load of `top`, after that of `bottom`, after its read.
pub data ThiefPc (T : Type 0) : Type 0 where
  resting : ThiefPc T
  top_loaded bottom_loaded : ℕ → ThiefPc T
  task_read : ℕ → Option T → ThiefPc T

-- What a call came to, at the step where it takes effect.
pub data Event (T : Type 0) : Type 0 where
  pushed : T → Event T
  refused : Event T
  popped : Option T → Event T
  pop_empty : Event T
  stolen : Option T → Event T
  steal_empty : Event T
  retried : Event T

-- The call that an idle owner starts.
pub data Request (T : Type 0) : Type 0 where
  push : T → Request T
  pop : Request T

module _ {T : Type 0} where
  -- `push` up to the check, `pop` up to its store.
  unfoldable pub begin : Inner T → Request T → Inner T × OwnerPc T × List (Event T)
  begin m (push task) =
      let bottom = unpack_bottom m.bottom in
      let size = wrapping_sub bottom ((unpack_top m.top).1) in
      if leb m.capacity size then (m, idle, refused ∷ []) else (m, push_checked task bottom, [])
  begin m pop =
      let old_bottom = unpack_bottom m.bottom in
      (record m { bottom = pack_bottom (wrapping_sub old_bottom 1) }, pop_stored old_bottom, [])

  -- `pop` from its load of `top` on.
  unfoldable pub pop_load : Inner T → ℕ → Inner T × OwnerPc T × List (Event T)
  pop_load m old_bottom =
      let top = (unpack_top m.top).1 in
      let size = wrapping_sub old_bottom top in
      if not (is_pos_i64 size)
      then (m, pop_none top, pop_empty ∷ [])
      else let task = read_slot m (wrapping_sub old_bottom 1) in
        if size == 1 then (m, pop_read m.top task, []) else (m, idle, popped task ∷ [])

  -- The claim of the last task.
  unfoldable pub pop_claim : Inner T → ℕ → Option T → Inner T × OwnerPc T × List (Event T)
  pop_claim m packed task =
      if m.top == packed
      then (
        record m { top = next_top packed },
        pop_claimed ((unpack_top packed).1),
        popped task ∷ [],
      )
      else (m, pop_claimed ((unpack_top packed).1), pop_empty ∷ [])

  unfoldable pub owner_step : Inner T → OwnerPc T → Request T → Inner T × OwnerPc T × List (Event T)
  unfolding begin pop_load pop_claim
  owner_step m idle request = begin m request
  owner_step m (push_checked task bottom) request =
      (write_slot m bottom task, push_written task bottom, [])
  owner_step m (push_written task bottom) request =
      (record m { bottom = pack_bottom (wrapping_add bottom 1) }, idle, pushed task ∷ [])
  owner_step m (pop_stored old_bottom) request = pop_load m old_bottom
  owner_step m (pop_none top) request = (record m { bottom = pack_bottom top }, idle, [])
  owner_step m (pop_read packed task) request = pop_claim m packed task
  owner_step m (pop_claimed top) request =
      (record m { bottom = pack_bottom (wrapping_add top 1) }, idle, [])

  -- `steal`.
  unfoldable pub thief_step : Inner T → ThiefPc T → Inner T × ThiefPc T × List (Event T)
  thief_step m resting = (m, top_loaded m.top, [])
  thief_step m (top_loaded packed) =
      let size = wrapping_sub (unpack_bottom m.bottom) ((unpack_top packed).1) in
      if not (is_pos_i64 size)
      then (m, resting, steal_empty ∷ [])
      else (m, bottom_loaded packed, [])
  thief_step m (bottom_loaded packed) =
      (m, task_read packed (read_slot m ((unpack_top packed).1)), [])
  thief_step m (task_read packed task) =
      if m.top == packed
      then (record m { top = next_top packed }, resting, stolen task ∷ [])
      else (m, resting, retried ∷ [])

-- Whose turn it is.
pub data Turn (T : Type 0) : Type 0 where
  owner : Request T → Turn T
  thief : ℕ → Turn T

pub record System (T : Type 0) : Type 0 where
  pub inner : Inner T
  pub worker : OwnerPc T
  pub thieves : ℕ → ThiefPc T

module _ {T : Type 0} where
  unfoldable pub new_system : ℕ → System T
  unfolding new_inner
  new_system capacity = record { inner = new_inner capacity; worker = idle; thieves = λ i. resting }

  abbrev pub update_thieves : (ℕ → ThiefPc T) → ℕ → ThiefPc T → ℕ → ThiefPc T
  update_thieves thieves i pc j = if i == j then pc else thieves j

  unfoldable pub step : System T → Turn T → System T × List (Event T)
  step s (owner request) =
      let (m, pc, events) = owner_step s.inner s.worker request in
      (record s { inner = m; worker = pc }, events)
  step s (thief i) =
      let (m, pc, events) = thief_step s.inner (s.thieves i) in
      (record s { inner = m; thieves = update_thieves s.thieves i pc }, events)

  unfoldable pub run : System T → List (Turn T) → System T × List (Event T)
  run s [] = (s, [])
  run s (t ∷ ts) =
      let (s', events) = step s t in let (s'', later) = run s' ts in (s'', events ++ later)
