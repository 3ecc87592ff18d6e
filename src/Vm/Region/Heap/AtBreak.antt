-- ===== src/Vm/Region/Heap/AtBreak.antt =====
-- `__alloc` at the break of the area, however the mapping of the new pages ends.
use mathlib.Core.Option.{some-injective}
use hk232_assignment_os.Base.{
  ℕ, ◌+◌, ◌*◌, ◌^◌, ◌<◌, ◌≡◌, refl, sym, ap, ◌∙◌, false, Option, none, some, List, ◌∷◌, All, arith,
}
use hk232_assignment_os.Paging.{page_alignsz}
use hk232_assignment_os.Pcb.{VmRg, VmArea, Pcb}
use hk232_assignment_os.Mm.{vm_map_ram}
use hk232_assignment_os.Mm.Keeping.{vm_map_ram_fixed}
use hk232_assignment_os.Vm.{max_symtbl_sz}
use hk232_assignment_os.Vm.Region.{alloc, alloc_at_brk}
use hk232_assignment_os.Vm.Region.FreeList.{IsRegion, has_fit}
use hk232_assignment_os.Vm.Region.Laws.{with_area, free_area, deref_vma-with_area}
use hk232_assignment_os.Vm.Region.Grow.{
  pages, grown_area, grown, page_alignsz_lem, inc_vma_limit_lem, alloc_at_brk_lem, alloc_brk,
}

module _ (c : Pcb) (vma : VmArea) (rg : VmRg) (rgs : List VmRg) (size n rgid : ℕ)
    (inb : rgid < max_symtbl_sz) (en : n ≡ pages size) (hs : vma.sbrk + n * 256 + 255 < 2 ^ 31)
    (ends : vma.vm_end ≡ vma.sbrk) where
  -- The mapping that `__alloc` asks for.
  abbrev mapping : Option (ℕ × Pcb)
  mapping =
      vm_map_ram (with_area c (grown_area (free_area vma (rg ∷ rgs)) n)) vma.sbrk
        (vma.sbrk + n * 256) vma.vm_end n

  alloc_at_brk_faults :
      mapping ≡ none → alloc_at_brk (with_area c (free_area vma (rg ∷ rgs))) 0 rgid size ≡ none
  unfolding alloc_at_brk
  alloc_at_brk_faults e =
      let area = free_area vma (rg ∷ rgs) in
      let al : page_alignsz size ≡ n * 256 =
        page_alignsz_lem size (omega arith) ∙ ap (λ (k : ℕ). k * 256) (sym en) in
      rw (deref_vma-with_area c area)
        (rw (al, inc_vma_limit_lem c area n hs (omega arith)) (rw e refl))

  grown_by_mapping :
      (m : ℕ × ℕ × Pcb) (o : Option (ℕ × Pcb))
      → mapping ≡ o
      → alloc_at_brk (with_area c (free_area vma (rg ∷ rgs))) 0 rgid size ≡ some m
      → (c' : Pcb) × (c'.mm.symrgtbl ≡ c.mm.symrgtbl)
        × (m ≡ (0, vma.sbrk, grown vma rg rgs size n rgid inb en hs ends c'))
  grown_by_mapping m none e returned = cc (alloc_at_brk_faults e)
  grown_by_mapping m (some (r, c')) e returned =
      let kept = vm_map_ram_fixed _ _ _ _ n (r, c') e in
      let same : c' ≡ with_area c' (grown_area (free_area vma (rg ∷ rgs)) n) =
        ap (λ l. record c' { mm = record c'.mm { mmap = l } }) (ap (λ t. t.5) kept) in
      (
        c',
        ap (λ t. t.6) kept,
        some-injective _ _ (
            sym returned
            ∙ alloc_at_brk_lem vma rg rgs size n rgid inb en hs ends c r c'
                (e ∙ ap (λ p. some (r, p)) same)),
      )

  -- Where no free region fits, a call that returns has bound the symbol at the old break, and
  -- left the other symbols alone.
  pub alloc_moves_brk :
      (m : ℕ × ℕ × Pcb)
      → size < 2 ^ 31
      → All IsRegion (rg ∷ rgs)
      → has_fit (rg ∷ rgs) size ≡ false
      → alloc (with_area c (free_area vma (rg ∷ rgs))) 0 rgid size ≡ some m
      → (c' : Pcb) × (c'.mm.symrgtbl ≡ c.mm.symrgtbl)
        × (m ≡ (0, vma.sbrk, grown vma rg rgs size n rgid inb en hs ends c'))
  alloc_moves_brk m s wf full e =
      grown_by_mapping m mapping refl
        (sym (alloc_brk vma rg rgs size n rgid inb en hs ends s wf full c) ∙ e)
