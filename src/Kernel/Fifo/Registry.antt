-- ===== src/Kernel/Fifo/Registry.antt =====
-- The registry of FIFOs: no two paths share a buffer.
use Prim.Native.String.{String}
use axebergos.Prelude.{
  ℕ, ◌<◌, ◌≡◌, text_key, [], ◌∷◌, some, length, set, ◌++◌, length-append, length-set, arith,
}
use axebergos.Prelude.Table
use axebergos.Prelude.Table.{get-insert, get-remove}
use axebergos.Kernel.Fifo.{FifoBuffer, FifoRegistry, new_registry, get}

-- Each path names a buffer of the store, and no other path names the same.
pub record IsUnaliased (r : FifoRegistry) : Type 0 where
  pub named : (p : String) (a : ℕ) → get r p ≡ some a → a < length r.store
  pub unaliased : (p q : String) (a : ℕ) → get r p ≡ some a → get r q ≡ some a → p ≡ q

-- A name for a new buffer.
pub bind-IsUnaliased :
    (r : FifoRegistry) (path : String) (f : FifoBuffer)
    → IsUnaliased r
    → IsUnaliased
        (record r { fifos = Table.insert path (length r.store) r.fifos; store = r.store ++ f ∷ [] })
unfolding get
bind-IsUnaliased r path f s = record {
  named = λ p a q. ground (
    arith,
    q,
    s.named p a,
    get-insert path p (length r.store) r.fifos,
    length-append r.store (f ∷ []),
  );
  unaliased = λ p q a h k. ground (
    arith,
    h,
    k,
    s.unaliased p q a,
    s.named p a,
    s.named q a,
    text_key.same_iff path p,
    text_key.same_iff path q,
    get-insert path p (length r.store) r.fifos,
    get-insert path q (length r.store) r.fifos,
  );
}

pub remove-IsUnaliased :
    (r : FifoRegistry) (path : String)
    → IsUnaliased r
    → IsUnaliased (record r { fifos = Table.remove path r.fifos })
unfolding get
remove-IsUnaliased r path s = record {
  named = λ p a q. ground (arith, q, s.named p a, get-remove path p r.fifos);
  unaliased = λ p q a h k.
      ground (arith, h, k, s.unaliased p q a, get-remove path p r.fifos, get-remove path q r.fifos);
}

pub set-IsUnaliased :
    (r : FifoRegistry) (a : ℕ) (f : FifoBuffer)
    → IsUnaliased r
    → IsUnaliased (record r { store = set r.store a f })
unfolding get
set-IsUnaliased r a f s = record {
  named = λ p b q. rw (length-set r.store a f) (s.named p b q);
  unaliased = s.unaliased;
}

pub new_registry-IsUnaliased : IsUnaliased new_registry
unfolding new_registry get Table.get
new_registry-IsUnaliased = record {
  named = λ p a q. ground (arith, q);
  unaliased = λ p q a h k. ground (arith, h);
}
