-- ===== src/Kernel/Ipc.antt =====
-- The key tables of the System V objects (kernel/semaphore.rs and kernel/msgqueue.rs): a table of
-- objects by id, a map from keys to ids, and the id that is given out next.
use axebergos.Prelude.{
  ◌≤◌, ◌⊎◌, inl, inr, List, [], ◌∷◌, ◌++◌, ℕ, ◌+◌, ◌%◌, ◌<◌, ◌≡◌, ◌≢◌, not, ◌==◌, number_key, none,
  some, arith,
}
use axebergos.Prelude.Table
use axebergos.Prelude.Table.{Table, get-insert, get-remove, get-retain, keep_if}
use axebergos.Prelude.Words.{u32_mod}

module _ {V : Type 0} where
  abbrev pub IsLive : Table ℕ V → ℕ → Type 0
  IsLive objs id = Table.get id objs ≢ none

  -- Every key names a live object, and every live id was given out before `next_id`.
  pub record IsKeyed (objs : Table ℕ V) (keys : Table ℕ ℕ) (next_id : ℕ) : Type 0 where
    pub live : (key id : ℕ) → Table.get key keys ≡ some id → IsLive objs id
    pub fresh : (id : ℕ) → IsLive objs id → id < next_id

  pub IsKeyed-fresh :
      {objs : Table ℕ V} {keys : Table ℕ ℕ} {n : ℕ} → IsKeyed objs keys n → Table.get n objs ≡ none
  IsKeyed-fresh {objs} {keys} {n} h = ground (arith, h.fresh n)

  pub IsKeyed-insert_private :
      {objs : Table ℕ V} {keys : Table ℕ ℕ} {n : ℕ} (v : V)
      → IsKeyed objs keys n
      → n + 1 < u32_mod
      → IsKeyed (Table.insert n v objs) keys ((n + 1) % u32_mod)
  IsKeyed-insert_private {objs} {keys} {n} v h small = record {
    live = λ key id e. ground (arith, h.live key id e, get-insert n id v objs);
    fresh = λ id e. ground (arith, h.fresh id, get-insert n id v objs);
  }

  pub IsKeyed-insert :
      {objs : Table ℕ V} {keys : Table ℕ ℕ} {n : ℕ} (key : ℕ) (v : V)
      → IsKeyed objs keys n
      → n + 1 < u32_mod
      → IsKeyed (Table.insert n v objs) (Table.insert key n keys) ((n + 1) % u32_mod)
  IsKeyed-insert {objs} {keys} {n} key v h small = record {
    live = λ k id e. ground (arith, h.live k id, get-insert n id v objs, get-insert key k n keys);
    fresh = λ id e. ground (arith, h.fresh id, get-insert n id v objs);
  }

  pub IsKeyed-update :
      {objs : Table ℕ V} {keys : Table ℕ ℕ} {n : ℕ} (i : ℕ) (v : V)
      → IsLive objs i
      → IsKeyed objs keys n
      → IsKeyed (Table.insert i v objs) keys n
  IsKeyed-update {objs} {keys} {n} i v l h = record {
    live = λ key id e. ground (arith, h.live key id e, get-insert i id v objs);
    fresh = λ id e. ground (arith, h.fresh id, h.fresh i l, get-insert i id v objs);
  }

  pub IsKeyed-remove :
      {objs : Table ℕ V} {keys : Table ℕ ℕ} {n : ℕ} (i : ℕ)
      → IsKeyed objs keys n
      → IsKeyed (Table.remove i objs) (Table.retain (λ v. not (v == i)) keys) n
  IsKeyed-remove {objs} {keys} {n} i h = record {
    live = λ key id e.
        ground
          (arith, h.live key id, get-remove i id objs, get-retain (λ v. not (v == i)) key keys);
    fresh = λ id e. ground (arith, h.fresh id, get-remove i id objs);
  }

-- Ids that grow from `n` on, so that none stands twice.
abbrev pub IsRising : ℕ → List ℕ → Type 0
IsRising n [] = Unit
IsRising n (id ∷ ids) = (n ≤ id) × IsRising (id + 1) ids

pub IsRising-from : (m n : ℕ) (ids : List ℕ) → m ≤ n → IsRising n ids → IsRising m ids
IsRising-from m n [] le h = tt
IsRising-from m n (id ∷ ids) le h = (omega (arith, le, h.0), h.1)

-- What a call gives out: no id, or the next one.
abbrev pub GivesOut : ℕ → ℕ → List ℕ → Type 0
GivesOut n n' ids = ((ids ≡ []) × (n ≤ n')) ⊎ ((ids ≡ n ∷ []) × (n' ≡ n + 1))

pub IsRising-append :
    (n n' : ℕ) (ids later : List ℕ)
    → GivesOut n n' ids
    → IsRising n' later
    → IsRising n (ids ++ later)
IsRising-append n n' ids later (inl (e, le)) h = rw e (IsRising-from n n' later le h)
IsRising-append n n' ids later (inr (e, next)) h = rw e (omega arith, rw (← next) h)
