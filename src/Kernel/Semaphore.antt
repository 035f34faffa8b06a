-- ===== src/Kernel/Semaphore.antt =====
-- kernel/semaphore.rs: System V semaphore sets, SEM_UNDO and the manager. A value and an operation
-- are i32 bit patterns (Prelude.Words), and arithmetic wraps, as in the release build. A time is a
-- value of an abstract type `T`: the code stores times and does nothing else with them. A method
-- takes the state and returns the new one with its result. `Set` and `Manager` are the code.
pub mod Set
pub mod Manager
pub mod Values
pub mod Effect
pub mod Undo
pub mod Keys
pub mod Ids
mod Tests
