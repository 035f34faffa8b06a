-- ===== src/Kernel/Memory/Shared/Segments.antt =====
-- What stays true of the shared segments and their total.
use axebergos.Prelude.{
  ℕ, ◌+◌, ◌≤◌, ◌≡◌, refl, true, false, ◌==◌, number_key, List, [], ◌∷◌, ◌++◌, inl, inr, length,
  length-append, Bool-cases, arith,
}
use axebergos.Kernel.Memory.Cow.Owners.{one_if, occurs}
use axebergos.Kernel.Memory.Shared.{SharedMemory, is_attached, remove_first, attach, detach}

-- A segment: its count is that of the processes attached, each of them once.
pub record IsSegment (shm : SharedMemory) : Type 0 where
  pub counted : shm.refcount ≡ length shm.attached
  pub once : (pid : ℕ) → occurs pid shm.attached ≤ 1
  pub sized : length shm.bytes ≡ shm.size

is_attached-occurs : (pid : ℕ) (ps : List ℕ) → is_attached pid ps ≡ false → occurs pid ps ≡ 0
unfolding is_attached occurs
is_attached-occurs pid [] e = refl
is_attached-occurs pid (p ∷ ps) e = ground (arith, e, is_attached-occurs pid ps)

occurs-add : (x pid : ℕ) (ps : List ℕ) → occurs x (ps ++ pid ∷ []) ≡ occurs x ps + one_if (pid == x)
unfolding occurs
occurs-add x pid [] = omega arith
occurs-add x pid (p ∷ ps) = omega (arith, occurs-add x pid ps)

occurs-remove_first : (x pid : ℕ) (ps : List ℕ) → occurs x (remove_first pid ps) ≤ occurs x ps
unfolding occurs remove_first
occurs-remove_first x pid [] = omega arith
occurs-remove_first x pid (p ∷ ps) = ground (arith, occurs-remove_first x pid ps)

length-remove_first :
    (pid : ℕ) (ps : List ℕ)
    → is_attached pid ps ≡ true
    → length (remove_first pid ps) + 1 ≡ length ps
unfolding is_attached remove_first
length-remove_first pid [] e = ground (arith, e)
length-remove_first pid (p ∷ ps) e = ground (arith, e, length-remove_first pid ps)

pub attach-IsSegment : (shm : SharedMemory) (pid : ℕ) → IsSegment shm → IsSegment (attach shm pid)
unfolding attach
attach-IsSegment shm pid h = elim (Bool-cases (is_attached pid shm.attached)) [
  | inl e ↦ simp (attach, e) h
  | inr e ↦
      rw (attach, e)
        (record {
          counted = omega (arith, h.counted, length-append shm.attached (pid ∷ []));
          once = λ x. ground (
            arith,
            h.once x,
            occurs-add x pid shm.attached,
            is_attached-occurs pid shm.attached e,
          );
          sized = h.sized;
        })
]

pub detach-IsSegment : (shm : SharedMemory) (pid : ℕ) → IsSegment shm → IsSegment (detach shm pid).0
unfolding detach
detach-IsSegment shm pid h = elim (Bool-cases (is_attached pid shm.attached)) [
  | inr e ↦ simp (detach, e) h
  | inl e ↦
      rw (detach, e)
        (record {
          counted = omega (arith, h.counted, length-remove_first pid shm.attached e);
          once = λ x. omega (arith, h.once x, occurs-remove_first x pid shm.attached);
          sized = h.sized;
        })
]
