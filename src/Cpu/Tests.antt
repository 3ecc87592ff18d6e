-- ===== src/Cpu/Tests.antt =====
-- A process of two instructions.
use hk232_assignment_os.Base.{ℕ, ◌+◌, ◌≡◌, refl, some, List, [], ◌∷◌, arith}
use hk232_assignment_os.Pcb.{Opcode, Inst, Pcb}
use hk232_assignment_os.Sample.{first_region, last_region, area, process}
use hk232_assignment_os.CpuTlb.{tlbfree_data, tlballoc, refresh_loop, refresh, forget_loop}
use hk232_assignment_os.Vm.Region.{alloc, free}
use hk232_assignment_os.Vm.{
  get_free_vmrg_area, deref_vma, get_vma_by_num, first_fit, enlist_vm_freerg_list,
}
use hk232_assignment_os.Paging.{paging_pgn, page_present}
use hk232_assignment_os.TlbCache.{tlb_cache_read, line_of}
use hk232_assignment_os.Cpu.{execute, run}
use hk232_assignment_os.Cpu.Keeping.{kept_fields}
use hk232_assignment_os.Cpu.Advance.{runs, runs_advance}
use hk232_assignment_os.Vm.Region.Heap.{IsHeap}
use hk232_assignment_os.Cpu.Heap.Runs.{runs-IsHeap}

abbrev frees : List Inst
frees =
    record { opcode = Opcode.free; arg_0 = 7; arg_1 = 0; arg_2 = 0 }
    ∷ record { opcode = Opcode.calc; arg_0 = 0; arg_1 = 0; arg_2 = 0 }
    ∷ []

abbrev ready : Pcb
ready = record process { code = frees }

abbrev after_one : (m : ℕ × Pcb) × (run ready ≡ some m)
unfolding run execute tlbfree_data
after_one = (_, refl)

abbrev after_two : (q : Pcb) × (runs 2 ready ≡ some q)
unfolding run execute tlbfree_data
after_two = (_, refl)

runs_advance_example :
    kept_fields after_two.0 ≡ (ready.pid, ready.priority, ready.prio, frees, 0 + 2)
runs_advance_example = runs_advance 2 ready after_two.0 (omega arith) (omega arith) after_two.1

-- Bytes are allocated and a symbol is freed.
abbrev program : List Inst
program =
    record { opcode = Opcode.alloc; arg_0 = 60; arg_1 = 2; arg_2 = 0 }
    ∷ record { opcode = Opcode.free; arg_0 = 4; arg_1 = 0; arg_2 = 0 }
    ∷ record { opcode = Opcode.calc; arg_0 = 0; arg_1 = 0; arg_2 = 0 }
    ∷ []

abbrev loaded : Pcb
loaded = record process { code = program }

abbrev after_program : (q : Pcb) × (runs 3 loaded ≡ some q)
unfolding run execute tlbfree_data tlballoc alloc get_free_vmrg_area deref_vma get_vma_by_num
    first_fit refresh_loop refresh paging_pgn page_present free enlist_vm_freerg_list forget_loop
    tlb_cache_read line_of
after_program = (_, refl)

loaded-IsHeap : IsHeap (4 ∷ []) loaded
loaded-IsHeap = record {
  area = area;
  first = first_region;
  others = last_region ∷ [];
  one_area = refl;
  ends = refl;
  regions = ((omega arith, omega arith), ((omega arith, omega arith), tt));
  bound = ((omega arith, (omega arith, omega arith)), tt);
  distinct = (refl, tt);
  partition = λ a. ground arith;
}

runs-IsHeap_example : IsHeap (2 ∷ []) after_program.0
runs-IsHeap_example =
    runs-IsHeap 3 (4 ∷ []) loaded after_program.0 refl (omega arith) (omega arith) loaded-IsHeap
      (omega arith, refl, (refl, tt)) (omega arith) after_program.1
