-- ===== src/Vm/Region/Laws.antt =====
-- `__alloc` and `__free` on a process with one memory area, as `init_mm` makes it.
use hk232_assignment_os.Base.{
  ℕ, ◌+◌, ◌-◌, ◌%◌, ◌^◌, ◌≤◌, ◌<◌, ◌≡◌, refl, true, false, ◌||◌, ◌==◌, ltb, leb, none, some, List,
  [], ◌∷◌, All, arith, update, ◌>>=◌,
}
use hk232_assignment_os.Paging.{minus_one, is_neg}
use hk232_assignment_os.Pcb.{VmRg, VmArea, Pcb}
use hk232_assignment_os.Vm.{
  first_fit, max_symtbl_sz, deref_vma, get_vma_by_num, vma_walk, get_free_vmrg_area,
  enlist_vm_freerg_list,
}
use hk232_assignment_os.Vm.Region.{alloc, free}
use hk232_assignment_os.Vm.Region.FreeList.{
  covers, cover, IsRegion, has_fit, first_fit-cover, first_fit_fails,
}

-- The process with the one area `vma`.
abbrev pub with_area : Pcb → VmArea → Pcb
with_area c vma = record c { mm = record c.mm { mmap = vma ∷ [] } }

pub deref_vma-with_area :
    (c : Pcb) (vma : VmArea) → deref_vma (with_area c vma).mm 0 ≡ some (0, vma)
unfolding deref_vma get_vma_by_num vma_walk
deref_vma-with_area c vma = refl

-- The process with symbol `rgid` bound to a region.
abbrev pub with_symbol : Pcb → ℕ → VmRg → Pcb
with_symbol c rgid rg = record c { mm = record c.mm { symrgtbl = update c.mm.symrgtbl rgid rg } }

-- The area with a given list of free regions.
abbrev pub free_area : VmArea → List VmRg → VmArea
free_area vma l = record vma { vm_freerg_list = l }

module _ (c : Pcb) (vma : VmArea) (rg : VmRg) (rgs : List VmRg) (size : ℕ) (s : size < 2 ^ 31)
    (wf : All IsRegion (rg ∷ rgs)) where
  get_free_fits :
      has_fit (rg ∷ rgs) size ≡ true
      → let r = first_fit (rg ∷ rgs) size in
        get_free_vmrg_area (with_area c (free_area vma (rg ∷ rgs))) 0 size
        ≡ some (some r.0, with_area c (free_area vma r.1))
  unfolding get_free_vmrg_area
  get_free_fits fit =
      let (stop, small, _) = first_fit-cover (rg ∷ rgs) size 0 s wf fit in
      let valid : ((first_fit (rg ∷ rgs) size).0.rg_start == 2 ^ 64 - 1) ≡ false =
        ground (arith, stop, small) in
      rw (deref_vma-with_area c (free_area vma (rg ∷ rgs))) (rw valid)

  pub get_free_fails :
      has_fit (rg ∷ rgs) size ≡ false
      → get_free_vmrg_area (with_area c (free_area vma (rg ∷ rgs))) 0 size
        ≡ some (none, with_area c (free_area vma (rg ∷ rgs)))
  unfolding get_free_vmrg_area
  get_free_fails full =
      rw (deref_vma-with_area c (free_area vma (rg ∷ rgs)))
        (rw (first_fit_fails (rg ∷ rgs) size s wf full))

  pub alloc_fits_first :
      (rgid : ℕ)
      → rgid < max_symtbl_sz
      → has_fit (rg ∷ rgs) size ≡ true
      → let r = first_fit (rg ∷ rgs) size in
        alloc (with_area c (free_area vma (rg ∷ rgs))) 0 rgid size
        ≡ some (0, r.0.rg_start, with_symbol (with_area c (free_area vma r.1)) rgid r.0)
  unfolding alloc
  alloc_fits_first rgid inb fit =
      let r = first_fit (rg ∷ rgs) size in
      let (stop, small, _) = first_fit-cover (rg ∷ rgs) size 0 s wf fit in
      let ok : ltb rgid max_symtbl_sz ≡ true = ground arith in
      let start : r.0.rg_start % 2 ^ 32 ≡ r.0.rg_start = omega (arith, stop, small) in
      rw (get_free_fits fit) (rw ok (rw start refl))

  -- `__alloc` in a process of one area, for fewer than 2 ^ 31 bytes and a symbol in the table,
  -- when a region of the free list has room: it returns 0, binds the symbol to `size` bytes taken
  -- from the free list and returns their start. Every address lies in the new region and the
  -- remaining list together as often as it lay in the list before; the rest of the process, the
  -- end of its area and its page table included, is unchanged.
  pub alloc_fits :
      (rgid : ℕ)
      → rgid < max_symtbl_sz
      → has_fit (rg ∷ rgs) size ≡ true
      → (new : VmRg) × (left : List VmRg) × (alloc
            (with_area c (free_area vma (rg ∷ rgs)))
            0
            rgid
            size
          ≡ some (0, new.rg_start, with_symbol (with_area c (free_area vma left)) rgid new))
        × (new.rg_end ≡ new.rg_start + size)
        × ((a : ℕ) → cover (rg ∷ rgs) a ≡ covers new a + cover left a)
  alloc_fits rgid inb fit =
      let r = first_fit (rg ∷ rgs) size in
      let (stop, _, _) = first_fit-cover (rg ∷ rgs) size 0 s wf fit in
      (
        r.0,
        r.1,
        alloc_fits_first rgid inb fit,
        stop,
        (λ a. (first_fit-cover (rg ∷ rgs) size a s wf fit).2),
      )

module _ (c : Pcb) (vma : VmArea) (rg : VmRg) (rgs : List VmRg) where
  pub enlist_lem :
      (new : VmRg)
      → new.rg_start < new.rg_end
      → enlist_vm_freerg_list (with_area c (free_area vma (rg ∷ rgs))).mm new
        ≡ some (0, (with_area c (free_area vma (new ∷ rg ∷ rgs))).mm)
  unfolding enlist_vm_freerg_list
  enlist_lem new h = let ordered : leb new.rg_end new.rg_start ≡ false = ground arith in rw ordered

  -- `__free` in a process of one area with a free list that is not empty, of a symbol in the
  -- table whose region is not empty: it returns 0 and puts the region at the head of the free
  -- list. The symbol keeps its region.
  pub free_lem :
      (rgid : ℕ)
      → rgid < max_symtbl_sz
      → (c.mm.symrgtbl rgid).rg_start < (c.mm.symrgtbl rgid).rg_end
      → free (with_area c (free_area vma (rg ∷ rgs))) 0 rgid
        ≡ some (0, with_area c (free_area vma (c.mm.symrgtbl rgid ∷ rg ∷ rgs)))
  unfolding free
  free_lem rgid h ordered =
      let ok : ltb rgid max_symtbl_sz ≡ true = ground arith in
      let valid : (is_neg rgid || ltb max_symtbl_sz rgid) ≡ false = ground arith in
      rw valid (rw ok (rw (enlist_lem (c.mm.symrgtbl rgid) ordered)))

  -- An empty region is refused by the free list, and the refusal ignored.
  pub free_empty :
      (rgid : ℕ)
      → rgid < max_symtbl_sz
      → (c.mm.symrgtbl rgid).rg_end ≤ (c.mm.symrgtbl rgid).rg_start
      → free (with_area c (free_area vma (rg ∷ rgs))) 0 rgid
        ≡ some (0, with_area c (free_area vma (rg ∷ rgs)))
  unfolding free enlist_vm_freerg_list
  free_empty rgid h empty =
      let ok : ltb rgid max_symtbl_sz ≡ true = ground arith in
      let valid : (is_neg rgid || ltb max_symtbl_sz rgid) ≡ false = ground arith in
      let refused : leb (c.mm.symrgtbl rgid).rg_end (c.mm.symrgtbl rgid).rg_start ≡ true =
        ground arith in
      rw valid (rw ok (rw refused refl))

-- `__free` with a symbol number of 30 passes the range test and reads past the table; above 30, a
-- negative `int` included, it returns -1 and changes nothing.
pub free_out_of_range :
    (c : Pcb) (vmaid rgid : ℕ)
    → max_symtbl_sz < rgid
    → (free c vmaid max_symtbl_sz ≡ none) × (free c vmaid rgid ≡ some (minus_one, c))
unfolding free
free_out_of_range c vmaid rgid h =
    let invalid : (is_neg rgid || ltb max_symtbl_sz rgid) ≡ true = ground arith in
    (refl, rw invalid)

-- A symbol of such a process freed twice in a row: both calls return 0, and every byte of its
-- region is then on the free list twice more than before.
pub free_twice :
    (c : Pcb) (vma : VmArea) (rg : VmRg) (rgs : List VmRg) (rgid a : ℕ)
    → rgid < max_symtbl_sz
    → (c.mm.symrgtbl rgid).rg_start ≤ a
    → a < (c.mm.symrgtbl rgid).rg_end
    → (l : List VmRg) × ((free (with_area c (free_area vma (rg ∷ rgs))) 0 rgid >>= λ r.
          free r.1 0 rgid)
        ≡ some (0, with_area c (free_area vma l)))
      × (cover l a ≡ 2 + cover (rg ∷ rgs) a)
free_twice c vma rg rgs rgid a h lo hi =
    let sym' = c.mm.symrgtbl rgid in
    (
      sym' ∷ sym' ∷ rg ∷ rgs,
      rw (free_lem c vma rg rgs rgid h (omega arith))
          (free_lem c vma sym' (rg ∷ rgs) rgid h (omega arith)),
      ground arith,
    )
