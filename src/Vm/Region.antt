-- ===== src/Vm/Region.antt =====
-- src/mm-vm.c, part 2: `__alloc`, `__free` and their entries for the CPU.
pub mod FreeList
pub mod Laws
pub mod Grow
pub mod Heap
use hk232_assignment_os.Base.{
  ℕ, ◌+◌, ◌-◌, ◌%◌, ◌^◌, Bool, ◌||◌, ltb, if◌then◌else◌, Option, none, some, ◌>>=◌, ◌>>◌,
}
use hk232_assignment_os.Paging.{minus_one, is_neg, page_alignsz, to_ulong, to_int}
use hk232_assignment_os.Pcb.{VmRg, VmArea, Mm, Pcb}
use hk232_assignment_os.Vm.{
  max_symtbl_sz, get_symrg, set_symrg, enlist_vm_freerg_list, deref_vma, get_free_vmrg_area,
  inc_vma_limit,
}

-- What follows in `__alloc` when no free region fits. The result of `inc_vma_limit` is ignored.
unfoldable pub alloc_at_brk : Pcb → ℕ → ℕ → ℕ → Option (ℕ × ℕ × Pcb)
alloc_at_brk caller vmaid rgid size = do
  (_, old_vma) ← deref_vma caller.mm vmaid
  let inc_sz = page_alignsz size
  let old_sbrk = to_int old_vma.sbrk
  (_, grown) ← inc_vma_limit caller vmaid inc_sz
  let stop = to_ulong ((old_sbrk + size) % 2 ^ 32)
  mm ← set_symrg grown.mm rgid (record { rg_start = to_ulong old_sbrk; rg_end = stop })
  (_, cur_vma) ← deref_vma mm vmaid
  let remainder : VmRg = record { rg_start = stop; rg_end = cur_vma.vm_end }
  let enlisted : Option (ℕ × ℕ × Pcb) =
      enlist_vm_freerg_list mm remainder >>= λ e. some (0, old_sbrk, record grown { mm = e.1 })
  if ltb stop cur_vma.vm_end then enlisted else some (0, old_sbrk, record grown { mm = mm })

-- The return value, `alloc_addr` and the process.
unfoldable pub alloc : Pcb → ℕ → ℕ → ℕ → Option (ℕ × ℕ × Pcb)
alloc caller vmaid rgid size = get_free_vmrg_area caller vmaid size >>= λ r. elim r.0 [
  | some rgnode ↦
      (set_symrg r.1.mm rgid rgnode >>= λ mm.
      some (0, to_int rgnode.rg_start, record r.1 { mm = mm }))
  | none ↦ alloc_at_brk r.1 vmaid rgid size
]

-- The return value and the process; what `enlist_vm_freerg_list` returns is ignored.
unfoldable pub free : Pcb → ℕ → ℕ → Option (ℕ × Pcb)
free caller vmaid rgid =
    let freed : Option (ℕ × Pcb) = (do
      rgnode ← get_symrg caller.mm rgid
      (_, mm) ← enlist_vm_freerg_list caller.mm rgnode
      some (0, record caller { mm = mm })) in
    if is_neg rgid || ltb max_symtbl_sz rgid then some (minus_one, caller) else freed

unfoldable pub pgalloc : Pcb → ℕ → ℕ → Option (ℕ × Pcb)
pgalloc proc size reg_index = alloc proc 0 reg_index size >>= λ r. some (r.0, r.2)

unfoldable pub pgfree_data : Pcb → ℕ → Option (ℕ × Pcb)
pgfree_data proc reg_index = free proc 0 reg_index
