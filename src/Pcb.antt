-- ===== src/Pcb.antt =====
-- The structs of include/os-mm.h and include/common.h that the memory management works on.
-- Linked lists are lists. A process holds the devices it points to by value while it runs; they
-- are shared between processes, one of which is in the memory management at a time.
use hk232_assignment_os.Base.{ℕ, List}
use hk232_assignment_os.Memphy.{Memphy}

-- `struct vm_rg_struct`
pub record VmRg : Type 0 where
  pub rg_start : ℕ
  pub rg_end : ℕ

-- `struct vm_area_struct`, without the pointer back to its owner, which nothing follows.
pub record VmArea : Type 0 where
  pub vm_id : ℕ
  pub vm_start : ℕ
  pub vm_end : ℕ
  pub sbrk : ℕ
  pub vm_freerg_list : List VmRg

-- `struct mm_struct`, without `allocated` and `fifo_pgn_tail`, which no code touches.
pub record Mm : Type 0 where
  pub pgd : ℕ → ℕ
  pub mmap : List VmArea
  pub symrgtbl : ℕ → VmRg
  pub fifo_pgn : List ℕ

-- `enum ins_opcode_t`
pub data Opcode : Type 0 where
  calc alloc free read write : Opcode

-- `struct inst_t`
pub record Inst : Type 0 where
  pub opcode : Opcode
  pub arg_0 : ℕ
  pub arg_1 : ℕ
  pub arg_2 : ℕ

-- `struct pcb_t`, without the obsolete `page_table` and `mswp`, which only os.c sets.
pub record Pcb : Type 0 where
  pub pid : ℕ
  pub priority : ℕ
  pub code : List Inst
  pub regs : ℕ → ℕ
  pub pc : ℕ
  pub prio : ℕ
  pub tlb : Memphy
  pub mm : Mm
  pub mram : Memphy
  pub active_mswp : Memphy
  pub bp : ℕ
