-- ===== src/Vm/Region/Grow.antt =====
-- `__alloc` where no free region fits: the area is enlarged at its break.
use hk232_assignment_os.Base.{
  Option, ℕ, ◌+◌, ◌*◌, ◌/◌, ◌%◌, ◌^◌, ◌≤◌, ◌<◌, ◌≡◌, sym, ap, ◌∙◌, true, false, ltb, if◌then◌else◌,
  some, List, [], ◌∷◌, All, arith, inl, inr, Bool-cases, ◌>>=◌, length, drop, take, ltb→lt,
}
use hk232_assignment_os.Paging.{minus_one, is_neg, pagesz, max_pgn, sdiv, page_alignsz, paging_pgn}
use hk232_assignment_os.Pcb.{VmRg, VmArea, Mm, Pcb}
use hk232_assignment_os.Mm.{vm_map_ram}
use hk232_assignment_os.Mm.Mapping.{
  with_free, rev_onto, Mapped, vm_map_ram-Mapped, vm_map_ram_loses_frames,
}
use hk232_assignment_os.Vm.{
  max_symtbl_sz, get_vma_by_num, vma_walk, get_vm_area_node_at_brk, validate_overlap_vm_area,
  inc_vma_limit,
}
use hk232_assignment_os.Vm.Region.{alloc, alloc_at_brk}
use hk232_assignment_os.Vm.Region.FreeList.{IsRegion, has_fit}
use hk232_assignment_os.Vm.Region.Laws.{
  with_area, with_symbol, free_area, deref_vma-with_area, get_free_fails, enlist_lem,
}

-- The pages that `size` bytes take.
abbrev pub pages : ℕ → ℕ
pages size = (size + 255) / 256

pub page_alignsz_lem : (size : ℕ) → size + 255 < 2 ^ 31 → page_alignsz size ≡ pages size * 256
unfolding page_alignsz sdiv
page_alignsz_lem size h = ground arith

page_alignsz_aligned : (n : ℕ) → n * 256 + 255 < 2 ^ 31 → page_alignsz (n * 256) ≡ n * 256
page_alignsz_aligned n h = omega (arith, page_alignsz_lem (n * 256) h)

sdiv_pages : (n : ℕ) → n * 256 < 2 ^ 31 → sdiv (n * 256) pagesz ≡ n
unfolding sdiv
sdiv_pages n h = ground arith

-- The area after growing by `n` pages.
abbrev pub grown_area : VmArea → ℕ → VmArea
grown_area vma n = record vma { vm_end = vma.vm_end + n * 256; sbrk = vma.sbrk + n * 256 }

module _ (c : Pcb) (vma : VmArea) (n : ℕ) where
  pub inc_vma_limit_lem :
      vma.sbrk + n * 256 + 255 < 2 ^ 31
      → vma.vm_end + n * 256 + 255 < 2 ^ 31
      → inc_vma_limit (with_area c vma) 0 (n * 256) ≡ (
          vm_map_ram (with_area c (grown_area vma n)) vma.sbrk (vma.sbrk + n * 256) vma.vm_end n
          >>= λ r. some ((if is_neg r.0 then minus_one else 0), r.1))
  unfolding inc_vma_limit get_vm_area_node_at_brk validate_overlap_vm_area get_vma_by_num vma_walk
  inc_vma_limit_lem hs he =
      let a = page_alignsz_aligned n (omega arith) in
      let d = sdiv_pages n (omega arith) in
      let pos : is_neg (n * 256) ≡ false = ground arith in
      let e1 : (vma.sbrk + n * 256) % 2 ^ 64 ≡ vma.sbrk + n * 256 = omega arith in
      let e2 : (vma.vm_end + n * 256) % 2 ^ 64 ≡ vma.vm_end + n * 256 = omega arith in
      let e3 : vma.sbrk % 2 ^ 32 ≡ vma.sbrk = omega arith in
      let e4 : (vma.sbrk + n * 256) % 2 ^ 32 ≡ vma.sbrk + n * 256 = omega arith in
      let e5 : vma.vm_end % 2 ^ 32 ≡ vma.vm_end = omega arith in
      rw (a, d) (rw pos (rw (e1, e2) (rw (e3, e4, e5))))

-- The free list after growing by `n` pages for `size` bytes: the rest of the last page goes first.
abbrev pub with_remainder : VmArea → List VmRg → ℕ → ℕ → List VmRg
with_remainder vma l size n =
    if ltb size (n * 256)
    then record { rg_start = vma.sbrk + size; rg_end = vma.vm_end + n * 256 } ∷ l
    else l

-- The symbol's new region at the break.
abbrev pub at_brk : VmArea → ℕ → VmRg
at_brk vma size = record { rg_start = vma.sbrk; rg_end = vma.sbrk + size }

module _ (vma : VmArea) (rg : VmRg) (rgs : List VmRg) (size n rgid : ℕ) (inb : rgid < max_symtbl_sz)
    (en : n ≡ pages size) (hs : vma.sbrk + n * 256 + 255 < 2 ^ 31)
    (ends : vma.vm_end ≡ vma.sbrk) where
  -- The process once the area has grown and the symbol is bound.
  abbrev pub grown : Pcb → Pcb
  grown c' =
      with_symbol
        (with_area c' (free_area (grown_area vma n) (with_remainder vma (rg ∷ rgs) size n))) rgid
        (at_brk vma size)

  -- Whatever the mapping of the pages returned, `__alloc` goes on in the same way.
  pub alloc_at_brk_lem :
      (c : Pcb) (r : ℕ) (c' : Pcb)
      → vm_map_ram
          (with_area c (grown_area (free_area vma (rg ∷ rgs)) n))
          vma.sbrk
          (vma.sbrk + n * 256)
          vma.vm_end
          n
        ≡ some (r, with_area c' (grown_area (free_area vma (rg ∷ rgs)) n))
      → alloc_at_brk (with_area c (free_area vma (rg ∷ rgs))) 0 rgid size
        ≡ some (0, vma.sbrk, grown c')
  unfolding alloc_at_brk
  alloc_at_brk_lem c r c' mapped =
      let area = free_area vma (rg ∷ rgs) in
      let al : page_alignsz size ≡ n * 256 =
        page_alignsz_lem size (omega arith) ∙ ap (λ (k : ℕ). k * 256) (sym en) in
      let e3 : vma.sbrk % 2 ^ 32 ≡ vma.sbrk = omega arith in
      let e4 : (vma.sbrk + size) % 2 ^ 32 ≡ vma.sbrk + size = omega arith in
      let ok : ltb rgid max_symtbl_sz ≡ true = ground arith in
      let pos : is_neg vma.sbrk ≡ false = ground arith in
      let pos' : is_neg (vma.sbrk + size) ≡ false = ground arith in
      let bound = with_symbol c' rgid (at_brk vma size) in
      rw (deref_vma-with_area c area) (
        rw (al, inc_vma_limit_lem c area n hs (omega arith))
          (rw mapped (
            rw e3 (
              rw e4 (
                rw ok (
                  rw (pos, pos', deref_vma-with_area bound (grown_area area n))
                    (elim (Bool-cases (ltb size (n * 256))) [
                      | inl part ↦
                          let t : ltb (vma.sbrk + size) (vma.vm_end + n * 256) ≡ true =
                            ground arith in
                          let remainder : VmRg = record {
                            rg_start = vma.sbrk + size;
                            rg_end = vma.vm_end + n * 256;
                          } in
                          rw (
                            t,
                            part,
                            enlist_lem bound (grown_area vma n) rg rgs remainder
                                (omega (arith, ltb→lt _ _ part)),
                          )
                      | inr whole ↦
                          let t : ltb (vma.sbrk + size) (vma.vm_end + n * 256) ≡ false =
                            ground arith in
                          rw (t, whole)
                    ])))))))

  pub alloc_brk :
      size < 2 ^ 31
      → All IsRegion (rg ∷ rgs)
      → has_fit (rg ∷ rgs) size ≡ false
      → (c : Pcb)
      → alloc (with_area c (free_area vma (rg ∷ rgs))) 0 rgid size
        ≡ alloc_at_brk (with_area c (free_area vma (rg ∷ rgs))) 0 rgid size
  unfolding alloc
  alloc_brk s wf full c = rw (get_free_fails c vma rg rgs size s wf full)

  module _ (wf : All IsRegion (rg ∷ rgs)) (full : has_fit (rg ∷ rgs) size ≡ false) (c : Pcb)
      (fs : List ℕ) where
    -- `__alloc` for a symbol of the table, in a process of one area that has a free list, ends at
    -- its break and stays below 2 ^ 31 with the growth, when no free region fits, the frames free
    -- in RAM are enough for the pages of `size` bytes and the page table has room for them: it
    -- returns 0, binds the symbol to `size` bytes at the old break and moves break and end of the
    -- area up by whole pages. The rest of the last page goes to the free list, the frames leave
    -- the free list of RAM, and every new page is mapped to one of them.
    pub alloc_grows :
        n ≤ length fs
        → paging_pgn vma.vm_end + n ≤ max_pgn
        → (mm' : Mm) × (alloc (with_free (with_area c (free_area vma (rg ∷ rgs))) fs) 0 rgid size
            ≡ some (0, vma.sbrk, grown (record (with_free c (drop n fs)) { mm = mm' })))
          × Mapped n
              (paging_pgn vma.vm_end)
              (rev_onto (take n fs) [])
              (with_area c (grown_area (free_area vma (rg ∷ rgs)) n)).mm
              mm'
    alloc_grows enough room =
        let (mm', e, m) =
          vm_map_ram-Mapped (with_area c (grown_area (free_area vma (rg ∷ rgs)) n)) fs vma.sbrk
            (vma.sbrk + n * 256) vma.vm_end n (omega arith) enough room in
        let c' = record (with_free c (drop n fs)) { mm = mm' } in
        let same : ◌≡◌ {A = Option (ℕ × Pcb)} (some (0, c'))
            (some (0, with_area c' (grown_area (free_area vma (rg ∷ rgs)) n))) =
          ap (λ l. some (0, record c' { mm = record mm' { mmap = l } })) m.same_mmap in
        (
          mm',
          alloc_brk (omega arith) wf full (with_free c fs)
              ∙ alloc_at_brk_lem (with_free c fs) 0 c' (e ∙ same),
          m,
        )

    -- In a process as for `alloc_grows`, with fewer frames than pages and nothing to evict,
    -- `__alloc` returns 0 all the same: the symbol is bound and the area has grown, though no page
    -- is mapped and the frames are gone.
    pub alloc_ignores_oom :
        length fs < n
        → c.mm.fifo_pgn ≡ []
        → alloc (with_free (with_area c (free_area vma (rg ∷ rgs))) fs) 0 rgid size
          ≡ some (0, vma.sbrk, grown (with_free c []))
    alloc_ignores_oom few no_page =
        alloc_brk (omega arith) wf full (with_free c fs)
        ∙ alloc_at_brk_lem (with_free c fs) minus_one (with_free c []) (
            vm_map_ram_loses_frames (with_area c (grown_area (free_area vma (rg ∷ rgs)) n)) fs
              vma.sbrk (vma.sbrk + n * 256) vma.vm_end n (omega arith) few no_page)
