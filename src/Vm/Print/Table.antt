-- ===== src/Vm/Print/Table.antt =====
-- What `print_pgtbl` prints, as `pgread`, `pgwrite`, `tlbread` and `tlbwrite` call it.
use hk232_assignment_os.Base.{
  ℕ, zero, suc, ◌+◌, ◌-◌, ◌*◌, ◌/◌, ◌%◌, ◌^◌, ◌≤◌, ◌≡◌, refl, true, ltb, if◌then◌else◌, none, some,
  List, [], ◌∷◌, get_elem?, arith,
}
use hk232_assignment_os.Base.Output.{Printed, printf}
use hk232_assignment_os.Paging.{minus_one, max_pgn, paging_pgn}
use hk232_assignment_os.Paging.Arith.{paging_pgn_arith}
use hk232_assignment_os.Pcb.{VmArea, Pcb}
use hk232_assignment_os.Vm.{deref_vma, get_vma_by_num, vma_walk}
use hk232_assignment_os.Vm.Print.{print_entries, last_address, print_pgtbl}

-- The line of a page table entry.
abbrev pub entry_line : Pcb → ℕ → Printed
entry_line p pgn = printf "%08ld: %08x\n" (pgn * 4 ∷ p.mm.pgd pgn ∷ [])

-- The lines are those of `n` entries from `pgn` on, and no others.
abbrev pub Lists : List Printed → Pcb → ℕ → ℕ → Type 0
Lists lines p pgn n =
    (i : ℕ) → get_elem? lines i ≡ (if ltb i n then some (entry_line p (pgn + i)) else none)

cons-Lists :
    (lines : List Printed) (p : Pcb) (pgn n i : ℕ)
    → Lists lines p (pgn + 1) n
    → get_elem? (entry_line p pgn ∷ lines) i
      ≡ (if ltb i (suc n) then some (entry_line p (pgn + i)) else none)
cons-Lists lines p pgn n zero h = let e : pgn + 0 ≡ pgn = omega arith in rw e (ground arith)
cons-Lists lines p pgn n (suc i) h =
    let e : pgn + suc i ≡ pgn + 1 + i = omega arith in rw e (ground (arith, h i))

print_entries-Lists :
    (n pgn : ℕ) (p : Pcb)
    → pgn + n ≤ max_pgn
    → (lines : List Printed) × (print_entries n pgn p ≡ some lines) × Lists lines p pgn n
unfolding print_entries
print_entries-Lists zero pgn p room = ([], refl, (λ i. ground arith))
print_entries-Lists (suc n) pgn p room =
    let (lines, e, h) = print_entries-Lists n (pgn + 1) p (omega arith) in
    let ok : ltb pgn max_pgn ≡ true = ground arith in
    (entry_line p pgn ∷ lines, rw ok (rw e refl), (λ i. cons-Lists lines p pgn n i h))

last_address_whole :
    (p : Pcb) (vma : VmArea)
    → p.mm.mmap ≡ vma ∷ []
    → last_address p minus_one ≡ some (vma.vm_end % 2 ^ 32)
unfolding last_address deref_vma get_vma_by_num vma_walk
last_address_whole p vma one = rw one refl

-- `print_pgtbl` of the whole table, in a process of one area: it returns 0 and prints its
-- parameters and then, in order, exactly the entries of the first `n` pages, where `n` is the
-- number of whole pages below the end of the area modulo 2 ^ 14: all of them, except that of a
-- table that is used up to its last page it prints none.
pub print_pgtbl-Lists :
    (p : Pcb) (vma : VmArea)
    → p.mm.mmap ≡ vma ∷ []
    → (lines : List Printed) × (print_pgtbl p 0 minus_one
        ≡ some (
          0,
          printf "print_pgtbl: %d - %d" (0 ∷ vma.vm_end % 2 ^ 32 ∷ []) ∷ printf "\n" [] ∷ lines,
        ))
      × Lists lines p 0 (vma.vm_end / 256 % 2 ^ 14)
unfolding print_pgtbl
print_pgtbl-Lists p vma one =
    let stop = vma.vm_end % 2 ^ 32 in
    let n = vma.vm_end / 256 % 2 ^ 14 in
    let (lines, e, h) = print_entries-Lists n 0 p (omega arith) in
    let start : paging_pgn 0 ≡ 0 = omega (arith, paging_pgn_arith 0) in
    let count : paging_pgn stop - 0 ≡ n = omega (arith, paging_pgn_arith stop) in
    (lines, rw (last_address_whole p vma one) (rw (start, count) (rw e refl)), h)
