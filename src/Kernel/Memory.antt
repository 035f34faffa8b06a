-- ===== src/Kernel/Memory.antt =====
-- kernel/memory.rs: the memory of processes.
pub mod Cow
pub mod Pool
pub mod Shared
