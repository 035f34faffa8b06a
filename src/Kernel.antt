-- ===== src/Kernel.antt =====
-- The kernel's subsystems, src/kernel: one module for each source file that is modelled.
pub mod Ipc
pub mod Channel
pub mod Semaphore
pub mod Memory
pub mod MsgQueue
pub mod Flock
pub mod Signal
pub mod Object
pub mod Fifo
pub mod Timer
pub mod WorkStealing
