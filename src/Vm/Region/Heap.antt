-- ===== src/Vm/Region/Heap.antt =====
-- Which bytes are whose in a process with one memory area, under `__alloc` and `__free`.
-- The program does not keep the list of the symbols in use; here it is a ghost variable.
mod AtBreak
pub mod Steps
pub mod Run
pub mod Apart
mod Tests
use hk232_assignment_os.Base.{
  ℕ, ◌+◌, ◌^◌, ◌<◌, ◌≡◌, refl, true, false, ltb, if◌then◌else◌, List, [], ◌∷◌, All, member,
  Distinct, remove, update, arith,
}
use hk232_assignment_os.Pcb.{VmRg, VmArea, Pcb}
use hk232_assignment_os.Vm.{max_symtbl_sz}
use hk232_assignment_os.Vm.Region.FreeList.{covers, cover, IsRegion}

-- How many of the listed symbols have byte `a` in their regions.
abbrev pub owned : (ℕ → VmRg) → List ℕ → ℕ → ℕ
owned table [] a = 0
owned table (i ∷ live) a = covers (table i) a + owned table live a

-- Every listed symbol is in the table and has a region of user space.
abbrev pub AreBound : (ℕ → VmRg) → List ℕ → Type 0
AreBound table live = All (λ i. (i < max_symtbl_sz) × IsRegion (table i)) live

-- A process with one area that ends at its break and a free list that is not empty: every byte
-- below the break lies in the region of exactly one symbol in use or in exactly one free region,
-- and no other byte lies in any.
pub record IsHeap (live : List ℕ) (p : Pcb) : Type 0 where
  pub area : VmArea
  pub first : VmRg
  pub others : List VmRg
  pub one_area : p.mm.mmap ≡ record area { vm_freerg_list = first ∷ others } ∷ []
  pub ends : area.vm_end ≡ area.sbrk
  pub regions : All IsRegion (first ∷ others)
  pub bound : AreBound p.mm.symrgtbl live
  pub distinct : Distinct live
  pub partition :
      (a : ℕ)
      → owned p.mm.symrgtbl live a + cover (first ∷ others) a ≡ (if ltb a area.sbrk then 1 else 0)

-- The break of the first area.
abbrev pub sbrk_of : Pcb → ℕ
sbrk_of p = elim p.mm.mmap [ [] ↦ 0 | vma ∷ _ ↦ vma.sbrk ]

pub sbrk_of_area : (live : List ℕ) (p : Pcb) (h : IsHeap live p) → h.area.sbrk ≡ sbrk_of p
sbrk_of_area live p h = rw (h.one_area, sbrk_of) refl

pub owned-update :
    (table : ℕ → VmRg) (i : ℕ) (rg : VmRg) (live : List ℕ) (a : ℕ)
    → member i live ≡ false
    → owned (update table i rg) live a ≡ owned table live a
owned-update table i rg [] a h = refl
owned-update table i rg (j ∷ live) a h = ground (arith, owned-update table i rg live a)

pub AreBound-update :
    (table : ℕ → VmRg) (i : ℕ) (rg : VmRg) (live : List ℕ)
    → member i live ≡ false
    → AreBound table live
    → AreBound (update table i rg) live
AreBound-update table i rg [] h b = tt
AreBound-update table i rg (j ∷ live) h b = ground (arith, AreBound-update table i rg live)

pub owned-remove :
    (table : ℕ → VmRg) (i : ℕ) (live : List ℕ) (a : ℕ)
    → member i live ≡ true
    → owned table live a ≡ covers (table i) a + owned table (remove i live) a
owned-remove table i [] a h = cc
owned-remove table i (j ∷ live) a h = ground (arith, owned-remove table i live a)

pub AreBound-remove :
    (table : ℕ → VmRg) (i : ℕ) (live : List ℕ)
    → AreBound table live
    → AreBound table (remove i live)
AreBound-remove table i [] b = tt
AreBound-remove table i (j ∷ live) b = ground (arith, AreBound-remove table i live)

pub AreBound-member :
    (table : ℕ → VmRg) (i : ℕ) (live : List ℕ)
    → member i live ≡ true
    → AreBound table live
    → (i < max_symtbl_sz) × IsRegion (table i)
AreBound-member table i [] h b = cc
AreBound-member table i (j ∷ live) h b = ground (arith, AreBound-member table i live)
