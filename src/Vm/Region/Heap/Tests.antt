-- ===== src/Vm/Region/Heap/Tests.antt =====
-- Allocations and releases in a concrete process, and in a new one.
use hk232_assignment_os.Base.{
  ℕ, ◌+◌, ◌≤◌, ◌≡◌, refl, ltb, if◌then◌else◌, some, List, [], ◌∷◌, All, length, arith,
}
use hk232_assignment_os.Pcb.{VmArea, Pcb}
use hk232_assignment_os.Sample.{area, first_region, last_region, memory, process}
use hk232_assignment_os.Mm.{init_mm}
use hk232_assignment_os.Mm.Mapping.{with_free}
use hk232_assignment_os.Vm.{first_fit, use_up, get_free_vmrg_area, deref_vma, get_vma_by_num}
use hk232_assignment_os.Vm.Region.{alloc}
use hk232_assignment_os.Vm.Region.FreeList.{covers}
use hk232_assignment_os.Vm.Region.Heap.{IsHeap, sbrk_of}
use hk232_assignment_os.Vm.Region.Heap.Steps.{Allocated, alloc-Allocated}
use hk232_assignment_os.Vm.Region.Heap.Run.{Op, calls, Served, calls-IsHeap}
use hk232_assignment_os.Vm.Region.Heap.Apart.{fresh_symbols_apart}

-- Six frames are free.
abbrev roomy : Pcb
roomy = with_free process (2 ∷ 3 ∷ 5 ∷ 6 ∷ 7 ∷ 8 ∷ [])

roomy-IsHeap : IsHeap (4 ∷ []) roomy
roomy-IsHeap = record {
  area = area;
  first = first_region;
  others = last_region ∷ [];
  one_area = refl;
  ends = refl;
  regions = ((omega arith, omega arith), ((omega arith, omega arith), tt));
  bound = ((omega arith, (omega arith, omega arith)), tt);
  distinct = (refl, tt);
  partition = λ a. ground arith;
}

abbrev sixty : (m : ℕ × ℕ × Pcb) × (alloc roomy 0 2 60 ≡ some m)
unfolding alloc first_fit use_up get_free_vmrg_area deref_vma get_vma_by_num
sixty = (_, refl)

alloc-Allocated_example : Allocated (4 ∷ []) roomy 2 60 sixty.0
alloc-Allocated_example =
    alloc-Allocated (4 ∷ []) roomy roomy-IsHeap 2 60 sixty.0 (omega arith) refl (omega arith)
      sixty.1

abbrev five_calls : List Op
five_calls =
    Op.acquire 2 60 ∷ Op.acquire 3 300 ∷ Op.release 4 ∷ Op.acquire 4 10 ∷ Op.acquire 5 20 ∷ []

calls-IsHeap_example : Served (4 ∷ []) five_calls roomy
calls-IsHeap_example =
    calls-IsHeap five_calls (4 ∷ []) roomy roomy-IsHeap
      (omega arith, refl, (omega arith, refl, (refl, (omega arith, refl, (omega arith, refl, tt)))))
      (omega arith, omega arith)

abbrev raw_area : VmArea
raw_area = record area { vm_freerg_list = [] }

abbrev new_process : Pcb
new_process = record roomy { mm = init_mm memory raw_area (λ i. 9) }

abbrev four_calls : List Op
four_calls = Op.acquire 0 300 ∷ Op.acquire 1 100 ∷ Op.release 0 ∷ Op.acquire 2 50 ∷ []

fresh_symbols_apart_example :
    (answers : List ℕ) × (p' : Pcb) × (calls four_calls new_process ≡ some (answers, p'))
    × (length answers ≡ 4)
    × All (λ r. r ≡ 0) answers
    × (covers (p'.mm.symrgtbl 1) 310 + covers (p'.mm.symrgtbl 2) 310
        ≤ (if ltb 310 (sbrk_of p') then 1 else 0))
fresh_symbols_apart_example =
    fresh_symbols_apart new_process memory raw_area (λ i. 9) four_calls 1 2 310 refl refl
      (omega arith, refl, (omega arith, refl, (refl, (omega arith, refl, tt)))) (omega arith)
      (omega arith) (omega arith) refl refl
