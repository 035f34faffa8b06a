-- ===== src/Lib.antt =====
-- axebergos: a verification library for the kernel of axeberg, an operating system in Rust that runs
-- in the browser.
--
-- The kernel (src/kernel) is one value behind a thread-local RefCell, and its subsystems are records
-- of that value with methods that take `&mut self`. A system call (src/kernel/syscall.rs) finds the
-- current process, checks it, and calls a method of a subsystem; it runs to its end before another
-- one begins. So each method is here a function from the state before to the state after and the
-- answer, and a history of the kernel is a list of calls. An error is a value of the answer's type.
--
-- Which file models which part (the functions keep the source's names where they can):
--   Kernel/Semaphore, Kernel/Semaphore/Set, Kernel/Semaphore/Manager: src/kernel/semaphore.rs, the
--     System V semaphore sets, their manager and the undo lists (SEM_UNDO);
--   Kernel/MsgQueue, Kernel/MsgQueue/Manager: src/kernel/msgqueue.rs, the message queues;
--   Kernel/Flock: src/kernel/flock.rs, whole-file and byte-range locks;
--   Kernel/Signal, Kernel/Signal/Process: src/kernel/signal.rs, the signals and the signal state of a
--     process; Kernel/Signal/Action: `process_signals` of src/kernel/syscall.rs, which takes a
--     process's next signal and changes the process by it;
--   Kernel/Object and its File, Pipe, Console and Handles: src/kernel/object.rs, the objects behind
--     the descriptors, and the table that counts their references;
--   Kernel/Fifo: src/kernel/fifo.rs, the named pipes and their registry;
--   Kernel/Timer: src/kernel/timer.rs, the timers and their queue;
--   Kernel/Memory/Cow: src/kernel/memory.rs, the pages that a fork shares until one side writes;
--   Kernel/Memory/Shared, Kernel/Memory/Pool: src/kernel/memory.rs, the shared segments and the pools;
--   Kernel/WorkStealing/Deque: src/kernel/work_stealing/deque.rs, the Chase-Lev deque.
-- Kernel/Ipc is what the two System V tables share, and Kernel/Channel is the interface of a bounded
-- stream of bytes, which the pipe and the FIFO fill: its theorems hold of both. The other modules below
-- a part are named for what they prove of it, and its Tests runs it. Prelude holds the shared helpers.
--
-- Concurrency. Only the deque is shared by threads. There a call is a sequence of atomic accesses, a
-- step of the model is one access of the owner or of one of the thieves, and a schedule is the list of
-- whose turn it is; the accesses are taken as sequentially consistent. A task is a value without a
-- destructor: what a call reads and does not answer is not dropped in the model. Its indices have 32 bits and
-- grow for ever, so its theorems are about schedules of fewer than 2^32 accesses.
--
-- Numbers. An i32, u32, i64 or u64 is a natural number below 2^32 or 2^64; a signed one is its two's
-- complement bit pattern (Prelude/Words). Additions wrap as the release build does; a debug build
-- panics there. `saturating_sub` is the subtraction of the naturals. usize has 64 bits, as in a native build:
-- in the browser it has 32, where a cast of a u64 position to usize drops its upper bits. A timer's f64
-- times are a type of their own with a comparison and an addition, and are no NaN.
-- Where the source panics (a vector of 2^63 bytes, a pool of objects of no bytes) the answer is `none`.
--
-- Data. A HashMap is an association list (Prelude/Table), whose order of iteration stands for the
-- map's; a HashSet is a list without repeats; a VecDeque is a list; the BinaryHeap of timers is the
-- list of its entries. An Rc<RefCell<_>> is the address of a store. Bytes are numbers, and no theorem
-- needs that they are below 256. A read is given the length of its buffer and answers the bytes that
-- it puts at the start of it.
--
-- Fuel. Two kinds of loop are no recursion on a list. That of the timers' `tick` pops one entry of the
-- heap in each round: its fuel is the number of entries. Those that read and write a memory in pages
-- pass at least one byte in each round: their fuel is the number of bytes.
--
-- Not modelled: the system calls' own checks and the process table, but for `process_signals`; the
-- task executor, the worker threads and their injector queue; the regions of a process's memory and
-- the mapped files; users, terminals, sockets and mounts; the virtual file systems; the shell and its
-- programs; the package manager; the WebAssembly runtime, the compositor and the platform bindings,
-- which are glue over the browser; tracing and debugging, which observe; and methods that only read
-- one field, print, or list keys.
pub mod Prelude
pub mod Kernel
