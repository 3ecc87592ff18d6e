-- ===== src/Vm/Region/Heap/Steps.antt =====
-- One call of `__alloc` or `__free`.
use mathlib.Core.Option.{some-injective}
use hk232_assignment_os.Base.{
  ℕ, ◌+◌, ◌*◌, ◌^◌, ◌≤◌, ◌<◌, ◌≡◌, refl, sym, ap, subst, ◌∙◌, ◌≢◌, true, false, ltb, leb,
  if◌then◌else◌, some, List, [], ◌∷◌, All, length, member, Distinct, remove, remove-Distinct, arith,
  inl, inr, Bool-cases, leb→le,
}
use hk232_assignment_os.Pcb.{VmRg, VmArea, Pcb}
use hk232_assignment_os.Vm.{max_symtbl_sz, first_fit}
use hk232_assignment_os.Vm.Region.{alloc, free}
use hk232_assignment_os.Vm.Region.FreeList.{
  covers, cover, IsRegion, has_fit, first_fit-cover, first_fit-IsRegion,
}
use hk232_assignment_os.Vm.Region.Laws.{
  with_area, with_symbol, free_area, alloc_fits_first, free_lem, free_empty,
}
use hk232_assignment_os.Vm.Region.Grow.{pages, grown_area, with_remainder, at_brk}
use hk232_assignment_os.Vm.Region.Heap.AtBreak.{alloc_moves_brk}
use hk232_assignment_os.Vm.Region.Heap.{
  owned, AreBound, IsHeap, sbrk_of, sbrk_of_area, owned-update, AreBound-update, owned-remove,
  AreBound-remove, AreBound-member,
}

-- A process whose symbol `rgid` has just been bound to a new region.
bound-IsHeap :
    (c : Pcb) (vma : VmArea) (live : List ℕ) (rgid : ℕ) (new : VmRg) (left : List VmRg)
    → 0 < length left
    → vma.vm_end ≡ vma.sbrk
    → All IsRegion left
    → IsRegion new
    → rgid < max_symtbl_sz
    → member rgid live ≡ false
    → AreBound c.mm.symrgtbl live
    → Distinct live
    → ((a : ℕ)
        → owned c.mm.symrgtbl live a + (covers new a + cover left a)
          ≡ (if ltb a vma.sbrk then 1 else 0))
    → IsHeap (rgid ∷ live) (with_symbol (with_area c (free_area vma left)) rgid new)
bound-IsHeap c vma live rgid new [] some_left ends wf reg inb idle b d total = absurd (omega arith)
bound-IsHeap c vma live rgid new (l ∷ ls) some_left ends wf reg inb idle b d total = record {
  area = vma;
  first = l;
  others = ls;
  one_area = refl;
  ends = ends;
  regions = wf;
  bound = (ground arith, AreBound-update c.mm.symrgtbl rgid new live idle b);
  distinct = (idle, d);
  partition = λ a. ground (arith, total a, owned-update c.mm.symrgtbl rgid new live a idle);
}

-- What a call of `__alloc` that has returned `m` comes to.
pub record Allocated (live : List ℕ) (p : Pcb) (rgid size : ℕ) (m : ℕ × ℕ × Pcb) : Type 0 where
  pub returned : m.0 ≡ 0
  pub heap : IsHeap (rgid ∷ live) m.2
  pub address : (m.2.mm.symrgtbl rgid).rg_start ≡ m.1
  pub room : (m.2.mm.symrgtbl rgid).rg_end ≡ m.1 + size
  pub others : (j : ℕ) → j ≢ rgid → m.2.mm.symrgtbl j ≡ p.mm.symrgtbl j
  pub break : sbrk_of m.2 ≤ sbrk_of p + pages size * 256

module _ (live : List ℕ) (p : Pcb) (h : IsHeap live p) where
  -- The process, with its area written out.
  pub same_process : p ≡ with_area p (free_area h.area (h.first ∷ h.others))
  same_process = ap (λ l. record p { mm = record p.mm { mmap = l } }) h.one_area

  module _ (rgid size : ℕ) (inb : rgid < max_symtbl_sz) (idle : member rgid live ≡ false)
      (room : h.area.sbrk + pages size * 256 + 255 < 2 ^ 31) where
    fit-Allocated :
        has_fit (h.first ∷ h.others) size ≡ true
        → let r = first_fit (h.first ∷ h.others) size in
          Allocated live p rgid size
            (0, r.0.rg_start, with_symbol (with_area p (free_area h.area r.1)) rgid r.0)
    fit-Allocated fit =
        let rgs = h.first ∷ h.others in
        let small : size < 2 ^ 31 = omega arith in
        let (reg, wf, some_left) = first_fit-IsRegion rgs size small h.regions fit in
        let (stop, _, _) = first_fit-cover rgs size 0 small h.regions fit in
        let r = first_fit rgs size in
        record {
          returned = refl;
          heap =
              bound-IsHeap p h.area live rgid r.0 r.1 some_left h.ends wf reg inb idle h.bound
                h.distinct
                (λ a.
                  omega (arith, h.partition a, (first_fit-cover rgs size a small h.regions fit).2));
          address = ground arith;
          room = ground (arith, stop);
          others = λ j other. ground (arith, other);
          break = omega (arith, sbrk_of_area live p h);
        }

    brk-Allocated :
        (c : Pcb)
        → c.mm.symrgtbl ≡ p.mm.symrgtbl
        → Allocated live p rgid size (
          0,
          h.area.sbrk,
          with_symbol
              (with_area c (
                free_area
                  (grown_area h.area (pages size))
                  (with_remainder h.area (h.first ∷ h.others) size (pages size))))
              rgid
              (at_brk h.area size),
        )
    brk-Allocated c same =
        let n = pages size in
        let covered : size ≤ n * 256 = omega arith in
        let rgs = h.first ∷ h.others in
        record {
          returned = refl;
          heap =
              bound-IsHeap c (grown_area h.area n) live rgid (at_brk h.area size)
                (with_remainder h.area rgs size n) (ground arith) (ground (arith, h.ends))
                (ground (arith, h.ends, h.regions)) (ground arith) inb idle (rw same h.bound)
                h.distinct (λ a. rw same (ground (arith, h.partition a, h.ends)));
          address = ground arith;
          room = ground arith;
          others = λ j other. rw same (ground (arith, other));
          break = omega (arith, sbrk_of_area live p h);
        }

    bound_at : (m : ℕ × ℕ × Pcb) → alloc p 0 rgid size ≡ some m → Allocated live p rgid size m
    bound_at m e =
        let small : size < 2 ^ 31 = omega arith in
        let e' = ap (λ q. alloc q 0 rgid size) (sym same_process) ∙ e in
        elim (Bool-cases (has_fit (h.first ∷ h.others) size)) [
          | inl fit ↦
              let result =
                sym (alloc_fits_first p h.area h.first h.others size small h.regions rgid inb fit)
                ∙ e' in
              subst (Allocated live p rgid size) (some-injective _ _ result) (fit-Allocated fit)
          | inr full ↦
              let (c, same, result) =
                alloc_moves_brk p h.area h.first h.others size (pages size) rgid inb refl room
                  h.ends m small h.regions full e' in
              subst (Allocated live p rgid size) (sym result) (brk-Allocated c same)
        ]

  -- In a process that is a heap, `__alloc` of a symbol of the table that is not in use, where the
  -- break with the pages for the symbol stays below 2 ^ 31: if it returns, it returns 0, the
  -- process is a heap with the symbol in use, the symbol has `size` bytes from the returned
  -- address on, the other symbols are unchanged and the break has moved by those pages at most. So
  -- it is when a free region has room, when frames are taken or pages evicted, and when no frame
  -- is left.
  pub alloc-Allocated :
      (rgid size : ℕ) (m : ℕ × ℕ × Pcb)
      → rgid < max_symtbl_sz
      → member rgid live ≡ false
      → sbrk_of p + pages size * 256 + 255 < 2 ^ 31
      → alloc p 0 rgid size ≡ some m
      → Allocated live p rgid size m
  alloc-Allocated rgid size m inb idle room e =
      bound_at rgid size inb idle (omega (arith, sbrk_of_area live p h)) m e

-- What a call of `__free` that has left `p'` comes to.
pub record Freed (live : List ℕ) (p : Pcb) (rgid : ℕ) (p' : Pcb) : Type 0 where
  pub heap : IsHeap (remove rgid live) p'
  pub symbols : p'.mm.symrgtbl ≡ p.mm.symrgtbl
  pub frames : p'.mram ≡ p.mram
  pub break : sbrk_of p' ≡ sbrk_of p

module _ (live : List ℕ) (p : Pcb) (h : IsHeap live p) (rgid : ℕ)
    (used : member rgid live ≡ true) where
  released-IsHeap :
      (l : List VmRg)
      → 0 < length l
      → All IsRegion l
      → ((a : ℕ) → cover l a ≡ covers (p.mm.symrgtbl rgid) a + cover (h.first ∷ h.others) a)
      → Freed live p rgid (with_area p (free_area h.area l))
  released-IsHeap [] some_free wf added = absurd (omega arith)
  released-IsHeap (rg ∷ rgs) some_free wf added = record {
    heap = record {
      area = h.area;
      first = rg;
      others = rgs;
      one_area = refl;
      ends = h.ends;
      regions = wf;
      bound = AreBound-remove p.mm.symrgtbl rgid live h.bound;
      distinct = remove-Distinct rgid live h.distinct;
      partition =
          λ a. omega (arith, h.partition a, added a, owned-remove p.mm.symrgtbl rgid live a used);
    };
    symbols = refl;
    frames = refl;
    break = sbrk_of_area live p h;
  }

  -- `__free` of a symbol in use returns 0: its bytes are free again, and the other symbols keep
  -- theirs.
  pub free-Freed : (p' : Pcb) × (free p 0 rgid ≡ some (0, p')) × Freed live p rgid p'
  free-Freed =
      let (inb, reg) = AreBound-member p.mm.symrgtbl rgid live used h.bound in
      let rg = p.mm.symrgtbl rgid in
      let same = ap (λ q. free q 0 rgid) (same_process live p h) in
      elim (Bool-cases (leb rg.rg_end rg.rg_start)) [
        | inl empty ↦ (
          _,
          same ∙ free_empty p h.area h.first h.others rgid inb (leb→le _ _ empty),
          released-IsHeap (h.first ∷ h.others) (omega arith) h.regions (λ a. ground arith),
        )
        | inr more ↦ (
          _,
          same ∙ free_lem p h.area h.first h.others rgid inb (ground arith),
          released-IsHeap (rg ∷ h.first ∷ h.others) (omega arith) (reg, h.regions) (λ a. refl),
        )
      ]

  -- A symbol in use whose region is empty may as well not be in use.
  pub unused-IsHeap :
      (p.mm.symrgtbl rgid).rg_end ≤ (p.mm.symrgtbl rgid).rg_start → IsHeap (remove rgid live) p
  unused-IsHeap empty =
      subst (IsHeap (remove rgid live)) (sym (same_process live p h))
        (released-IsHeap (h.first ∷ h.others) (omega arith) h.regions (λ a. ground arith)).heap
