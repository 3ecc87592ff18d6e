-- ===== src/Vm/Print.antt =====
-- The print functions of src/mm.c: a function returns its value and what it has printed.
pub mod Table
use Prim.Native.String.{String}
use hk232_assignment_os.Base.{
  ℕ, zero, suc, ◌+◌, ◌-◌, ◌*◌, ◌%◌, ◌^◌, ◌==◌, if◌then◌else◌, Option, none, some, List, [], ◌∷◌,
  ◌++◌, ◌>>=◌,
}
use hk232_assignment_os.Base.Output.{Printed, printf}
use hk232_assignment_os.Paging.{minus_one, max_pgn, paging_pgn}
use hk232_assignment_os.Pcb.{VmRg, VmArea, Pcb}
use hk232_assignment_os.Mm.{get_pte}
use hk232_assignment_os.Vm.{deref_vma}

-- The `while` loop of a list's print function, and the line after it.
unfoldable pub print_nodes : {A : Type 0} → String → (A → List ℕ) → List A → List Printed
print_nodes line numbers [] = printf "\n" [] ∷ []
print_nodes line numbers (node ∷ rest) = printf line (numbers node) ∷ print_nodes line numbers rest

unfoldable pub print_list :
    {A : Type 0} → String → String → (A → List ℕ) → List A → ℕ × List Printed
print_list title line numbers [] = (minus_one, printf title [] ∷ printf "NULL list\n" [] ∷ [])
print_list title line numbers (node ∷ rest) =
    (0, printf title [] ∷ printf "\n" [] ∷ print_nodes line numbers (node ∷ rest))

unfoldable pub print_list_fp : List ℕ → ℕ × List Printed
unfolding print_list
print_list_fp ifp = print_list "print_list_fp: " "fp[%d]\n" (λ fpn. fpn ∷ []) ifp

unfoldable pub print_list_rg : List VmRg → ℕ × List Printed
unfolding print_list
print_list_rg irg =
    print_list "print_list_rg: " "rg[%ld->%ld]\n" (λ rg. rg.rg_start ∷ rg.rg_end ∷ []) irg

unfoldable pub print_list_vma : List VmArea → ℕ × List Printed
unfolding print_list
print_list_vma ivma =
    print_list "print_list_vma: " "va[%ld->%ld]\n" (λ vma. vma.vm_start ∷ vma.vm_end ∷ []) ivma

unfoldable pub print_list_pgn : List ℕ → ℕ × List Printed
unfolding print_list
print_list_pgn ip = print_list "print_list_pgn: " "va[%d]-\n" (λ pgn. pgn ∷ []) ip

-- The `for` loop of `print_pgtbl` with its rounds left.
unfoldable pub print_entries : ℕ → ℕ → Pcb → Option (List Printed)
print_entries zero pgit caller = some []
print_entries (suc left) pgit caller = do
  pte ← get_pte caller.mm pgit
  rest ← print_entries left (pgit + 1) caller
  some (printf "%08ld: %08x\n" (pgit * 4 ∷ pte ∷ []) ∷ rest)

-- `end` as it is used: -1 stands for the end of the first area.
unfoldable pub last_address : Pcb → ℕ → Option ℕ
last_address caller end =
    let whole : Option ℕ = deref_vma caller.mm 0 >>= λ r. some (r.1.vm_end % 2 ^ 32) in
    if end == minus_one then whole else some end

-- `caller` is followed before it is tested, so the test against NULL has no effect.
unfoldable pub print_pgtbl : Pcb → ℕ → ℕ → Option (ℕ × List Printed)
unfolding print_entries last_address
print_pgtbl caller start end = do
  stop ← last_address caller end
  let pgn_start = paging_pgn start
  lines ← print_entries (paging_pgn stop - pgn_start) pgn_start caller
  some (0, printf "print_pgtbl: %d - %d" (start ∷ stop ∷ []) ∷ printf "\n" [] ∷ lines)
