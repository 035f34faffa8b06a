-- ===== src/Kernel/Fifo/Names.antt =====
-- The registry of FIFOs answers as a map from paths to buffers, in which nothing is shared.
use Prim.Native.String.{String}
use axebergos.Prelude.{◌≡◌}
use axebergos.Prelude.Table
use axebergos.Kernel.Fifo.{FifoRegistry}
use axebergos.Kernel.Fifo.Registry.{IsUnaliased}
use axebergos.Kernel.Fifo.Requests.{Answer, look, Names}

-- The registry stands for the names.
record Stands (r : FifoRegistry) (v : Names) : Type 0 where
  sound : IsUnaliased r
  sized : r.default_capacity ≡ 65536
  same : (q : String) → look r q ≡ v q

record Serves (x : FifoRegistry × Answer) (y : Names × Answer) : Type 0 where
  stands : Stands x.0 y.0
  told_same : x.1 ≡ y.1
