-- ===== src/Vm/Region/Heap/Apart.antt =====
-- The symbols in use of a process whose memory `init_mm` has set up.
use hk232_assignment_os.Base.{
  ℕ, ◌+◌, ◌≤◌, ◌≡◌, ◌≢◌, refl, true, ltb, if◌then◌else◌, some, List, [], ◌∷◌, All, length, member,
  arith,
}
use hk232_assignment_os.Paging.{max_pgn}
use hk232_assignment_os.Pcb.{VmRg, VmArea, Mm, Pcb}
use hk232_assignment_os.Mm.{init_mm, init_vm_rg, enlist_vm_rg_node}
use hk232_assignment_os.Vm.Region.FreeList.{covers}
use hk232_assignment_os.Vm.Region.Heap.{owned, IsHeap, sbrk_of, sbrk_of_area}
use hk232_assignment_os.Vm.Region.Heap.Run.{Op, calls, in_use, IsProper, demand, calls-IsHeap}

owned-member :
    (table : ℕ → VmRg) (i : ℕ) (live : List ℕ) (a : ℕ)
    → member i live ≡ true
    → covers (table i) a ≤ owned table live a
owned-member table i [] a h = cc
owned-member table i (j ∷ live) a h = ground (arith, owned-member table i live a)

owned_both :
    (table : ℕ → VmRg) (i j : ℕ) (live : List ℕ) (a : ℕ)
    → i ≢ j
    → member i live ≡ true
    → member j live ≡ true
    → covers (table i) a + covers (table j) a ≤ owned table live a
owned_both table i j [] a other h1 h2 = cc
owned_both table i j (k ∷ live) a other h1 h2 = ground (
  arith,
  other,
  owned_both table i j live a other,
  owned-member table i live a,
  owned-member table j live a,
)

-- A byte lies in at most one of two symbols in use, and above the break in none.
symbols_apart :
    (live : List ℕ) (p : Pcb)
    → IsHeap live p
    → (i j a : ℕ) → i ≢ j
    → member i live ≡ true
    → member j live ≡ true
    → covers (p.mm.symrgtbl i) a + covers (p.mm.symrgtbl j) a ≤ (if ltb a (sbrk_of p) then 1 else 0)
symbols_apart live p h i j a other h1 h2 =
    rw (← sbrk_of_area live p h)
      (omega (arith, h.partition a, owned_both p.mm.symrgtbl i j live a other h1 h2))

-- The memory that `init_mm` sets up, where `malloc` left the free list empty.
init_mm-IsHeap :
    (p : Pcb) (raw : Mm) (raw_vma : VmArea) (block : ℕ → ℕ)
    → raw_vma.vm_freerg_list ≡ []
    → p.mm ≡ init_mm raw raw_vma block
    → IsHeap [] p
unfolding init_mm init_vm_rg enlist_vm_rg_node
init_mm-IsHeap p raw raw_vma block empty new = record {
  area = record raw_vma { vm_id = 1; vm_start = 0; vm_end = 0; sbrk = 0 };
  first = record { rg_start = 0; rg_end = 0 };
  others = [];
  one_area = rw new (rw empty refl);
  ends = refl;
  regions = ((omega arith, omega arith), tt);
  bound = tt;
  distinct = tt;
  partition = λ a. ground arith;
}

-- On the memory that `init_mm` sets up, where `malloc` left the free list empty, with frames and
-- pages enough: any sequence of allocations and releases that allocates no symbol in use and frees
-- none that is not is served, every call returns 0, and after it no byte lies in the regions of
-- two symbols in use, and none at or above the break of the area in the region of one.
pub fresh_symbols_apart :
    (p : Pcb) (raw : Mm) (raw_vma : VmArea) (block : ℕ → ℕ) (ops : List Op) (i j a : ℕ)
    → raw_vma.vm_freerg_list ≡ []
    → p.mm ≡ init_mm raw raw_vma block
    → IsProper [] ops
    → demand ops ≤ length p.mram.free_fp_list
    → demand ops ≤ max_pgn
    → i ≢ j
    → member i (in_use [] ops) ≡ true
    → member j (in_use [] ops) ≡ true
    → (answers : List ℕ) × (p' : Pcb) × (calls ops p ≡ some (answers, p'))
      × (length answers ≡ length ops)
      × All (λ r. r ≡ 0) answers
      × (covers (p'.mm.symrgtbl i) a + covers (p'.mm.symrgtbl j) a
          ≤ (if ltb a (sbrk_of p') then 1 else 0))
unfolding init_mm
fresh_symbols_apart p raw raw_vma block ops i j a empty new proper frames room other h1 h2 =
    let s =
      calls-IsHeap ops [] p (init_mm-IsHeap p raw raw_vma block empty new) proper
        (frames, rw new (omega arith)) in
    (
      s.answers,
      s.after,
      s.served,
      s.one_each,
      s.accepted,
      symbols_apart (in_use [] ops) s.after s.heap i j a other h1 h2,
    )
