-- ===== src/Sample.antt =====
-- A concrete process and its devices, for the tests.
use hk232_assignment_os.Base.{ℕ, ◌%◌, [], ◌∷◌, ◌==◌, if◌then◌else◌}
use hk232_assignment_os.Memphy.{Memphy}
use hk232_assignment_os.Pcb.{VmRg, VmArea, Mm, Pcb}

-- 1024 bytes of RAM with frames 2 and 3 free.
abbrev pub ram : Memphy
ram = record {
  storage = λ i. i % 100;
  maxsz = 1024;
  rdmflg = 1;
  cursor = 0;
  free_fp_list = 2 ∷ 3 ∷ [];
  used_fp_list = [];
}

-- 16384 bytes of swap with frames 2 and 4 free.
abbrev pub swap_space : Memphy
swap_space = record ram { storage = λ i. i % 7; maxsz = 16384; free_fp_list = 2 ∷ 4 ∷ [] }

abbrev pub first_region : VmRg
first_region = record { rg_start = 0; rg_end = 40 }

abbrev pub last_region : VmRg
last_region = record { rg_start = 100; rg_end = 256 }

abbrev pub area : VmArea
area = record {
  vm_id = 1;
  vm_start = 0;
  vm_end = 256;
  sbrk = 256;
  vm_freerg_list = first_region ∷ last_region ∷ [];
}

-- Symbol 4 has the bytes 40 to 99, every other symbol an empty region.
abbrev pub symbols : ℕ → VmRg
symbols k =
    if k == 4 then record { rg_start = 40; rg_end = 100 } else record { rg_start = 0; rg_end = 0 }

-- Page 5 is present, with bits 8 and 9 for frame 1; page 3 is absent, with bits for swap frame 8.
abbrev pub entries : ℕ → ℕ
entries p = if p == 5 then 0x8000_0100 else (if p == 3 then 0x100 else 0)

abbrev pub memory : Mm
memory = record { pgd = entries; mmap = area ∷ []; symrgtbl = symbols; fifo_pgn = 7 ∷ 5 ∷ [] }

abbrev pub process : Pcb
process = record {
  pid = 1;
  priority = 3;
  code = [];
  regs = λ i. 0;
  pc = 0;
  prio = 3;
  tlb = ram;
  mm = memory;
  mram = ram;
  active_mswp = swap_space;
  bp = 0;
}

-- The process with no page to evict.
abbrev pub no_victim : Pcb
no_victim = record process { mm = record memory { fifo_pgn = [] } }
