-- ===== src/Lib.antt =====
-- The paging OS simulator of ossim_mm_tlb_hk241: its memory management, its scheduler and its threads.
--
-- The program simulates CPUs that run processes. A CPU takes a process from the scheduler
-- (src/sched.c), which keeps one array queue (src/queue.c) per priority. A process allocates,
-- frees, reads and writes regions of its virtual memory (src/mm-vm.c). Its page table
-- (src/mm.c, with the macros of include/mm.h and include/bitops.h) maps pages to frames of a RAM
-- device; a page that has to give way goes to a swap device (src/mm-memphy.c). The TLB
-- (src/cpu-tlb.c over src/cpu-tlbcache.c) stands between the two. All paths here are below
-- ossim_mm_tlb_hk241/.
--
--   Base       what the modules share: tests on numbers, arrays, faults, `&` and `|` of words
--   Paging     include/bitops.h and include/mm.h; Paging.Pte has the setters of src/mm.c
--   Memphy     src/mm-memphy.c over `struct memphy_struct`
--   Pcb        the structs of include/os-mm.h and include/common.h
--   Mm         src/mm.c: frames, the mapping of pages, the copy of pages between devices
--   Vm         src/mm-vm.c: areas and their growth; Vm.Region has __alloc and __free, and
--              Vm.Region.Heap is about sequences of their calls; Vm.Access has
--              pg_getpage, pg_getval, pg_setval, __read, __write and free_pcb_memph; Vm.Print has
--              the print functions of src/mm.c
--   Queue      src/queue.c; Queue.Refine relates the array to a list
--   Sched      src/sched.c, with MLQ_SCHED as in include/os-cfg.h
--   TlbCache   src/cpu-tlbcache.c, over a device of Memphy
--   CpuTlb     src/cpu-tlb.c: allocation and access through the TLB, and its flush routines
--   Cpu        src/cpu.c: one instruction of a process; Cpu.Heap is about the heap of its process
--   Timer      src/timer.c; Timer.World has the timer and its devices in any interleaving
--   Loader     src/loader.c, over the stdio functions it calls
--   Os         src/os.c: the threads of the CPUs and of the loader as steps on shared state, and
--              `main`, with read_config in Os.ReadConfig; Os.Refine relates them to
--              Timer.World, Os.Placed is about where a process is, and Os.Ranked about the
--              priorities in the queues
--   Mem        src/mem.c, the memory from before paging, and the instructions of src/cpu.c on it
--   Demo       src/paging.c, a demo that runs two copies of a process
--   Sample     a concrete process for the tests
--
-- A definition carries the name of its function, without the prefix MEMPHY_ or the underscores. An
-- `int` or `uint32_t` is its bit pattern below 2 ^ 32, an `unsigned long` has 64 bits, and a `BYTE`
-- is its pattern below 256; conversions and wrap-around are written out, and the overflow of an
-- `int`, which C leaves undefined, wraps around. A function that returns through pointers returns a
-- tuple, its return value first. `none` of the outer option is a fault: an access out of bounds,
-- through NULL or to an unset variable. Pointers that the program never sets to NULL are values, so
-- the guards against NULL on them have no counterpart. `malloc` does not fail, and what it leaves
-- in a block is an argument. A function that holds a lock throughout is one step. The devices are
-- part of the process that works on them.
--
-- Loops are recursions on the rounds left, which the loop's own bound gives: pages, frames,
-- queue entries and priorities are counted. Only the cursor of MEMPHY_mv_csr runs on fuel, of
-- `maxsz` rounds; its loop makes no more, since it stops at `numstep = maxsz`.
--
-- The program's threads are a step relation (Os.Step): a step of the timer, or of one CPU or the
-- loader up to its next access to shared state. What runs under a lock is one step, a wait on a
-- condition is a state without a step until its test fails. The run of one instruction is one
-- step too, although only its parts are locked. Waking up without a signal and the order of
-- waiters make no difference, since every wait is in a loop. The counters of threads and
-- processes are not negative.
--
-- What the file system and `fscanf` do is a parameter (Loader.Stdio), and a theorem that needs
-- it says so by a hypothesis (IsScanner): a number or a word that stands next in the stream is
-- read and passed over.
--
-- The print functions return the calls of `printf` that they make (Vm.Print, Mem.Dump); the other
-- functions are modelled without their trace output.
--
-- Not modelled: the trace output, and MEMPHY_dump, which has no effect.
pub mod Base
pub mod Paging
pub mod Memphy
pub mod Pcb
pub mod Sample
pub mod Mm
pub mod Vm
pub mod TlbCache
pub mod CpuTlb
pub mod Cpu
pub mod Demo
pub mod Timer
pub mod Mem
pub mod Loader
pub mod Os
pub mod Queue
pub mod Sched
