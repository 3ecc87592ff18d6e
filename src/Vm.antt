-- ===== src/Vm.antt =====
-- src/mm-vm.c, part 1: virtual memory areas and the free regions in them. Each operation on a
-- process holds `mmvm_lock` throughout, so it is one step. `none` is a fault. A pointer to an
-- area is the area's place in the list `mmap`.
pub mod Access
pub mod Region
pub mod Print
mod Tests
use hk232_assignment_os.Base.{
  ℕ, zero, suc, ◌+◌, ◌-◌, ◌*◌, ◌%◌, ◌^◌, Bool, true, false, not, ◌&&◌, ◌||◌, ◌==◌, ltb, leb,
  if◌then◌else◌, Option, none, some, List, [], ◌∷◌, update, get_elem?, set, ◌>>=◌, ◌>>◌, check,
}
use hk232_assignment_os.Paging.{
  minus_one, is_neg, slt, pagesz, sdiv, page_alignsz, to_ulong, to_int,
}
use hk232_assignment_os.Pcb.{VmRg, VmArea, Mm, Pcb}
use hk232_assignment_os.Mm.{vm_map_ram}

abbrev pub max_symtbl_sz : ℕ
max_symtbl_sz = 30

-- The accesses to `symrgtbl[rgid]`.
abbrev pub get_symrg : Mm → ℕ → Option VmRg
get_symrg mm rgid = if ltb rgid max_symtbl_sz then some (mm.symrgtbl rgid) else none

abbrev pub set_symrg : Mm → ℕ → VmRg → Option Mm
set_symrg mm rgid rg =
    if ltb rgid max_symtbl_sz
    then some (record mm { symrgtbl = update mm.symrgtbl rgid rg })
    else none

-- The return value and the new `mm`. `rg_elmt` comes fresh from `malloc` at each call: linked
-- before an empty list its next pointer stays unset, which counts as a fault.
unfoldable pub enlist_vm_freerg_list : Mm → VmRg → Option (ℕ × Mm)
enlist_vm_freerg_list mm rg_elmt = elim mm.mmap [
  | [] ↦ none
  | vma ∷ rest ↦
      if leb rg_elmt.rg_end rg_elmt.rg_start
      then some (minus_one, mm)
      else (elim vma.vm_freerg_list [
        | [] ↦ none
        | rg_node ∷ nodes ↦ some (
          0,
          record mm { mmap = record vma { vm_freerg_list = rg_elmt ∷ rg_node ∷ nodes } ∷ rest },
        )
      ])
]

-- The loop of `get_vma_by_num` at the area `k` of `mmap`, with the areas from there on.
unfoldable pub vma_walk : List VmArea → ℕ → ℕ → ℕ → Option (Option ℕ)
vma_walk [] k vmait vmaid = some none
vma_walk (pvma ∷ []) k vmait vmaid = if slt vmait vmaid then none else some (some k)
vma_walk (pvma ∷ next ∷ rest) k vmait vmaid =
    let further = vma_walk (next ∷ rest) (k + 1) (to_int next.vm_id) vmaid in
    if slt vmait vmaid then further else some (some k)

-- `some none` is NULL.
unfoldable pub get_vma_by_num : Mm → ℕ → Option (Option ℕ)
unfolding vma_walk
get_vma_by_num mm vmaid = elim mm.mmap [ [] ↦ some none | _ ∷ _ ↦ vma_walk mm.mmap 0 0 vmaid ]

-- The area that a caller works on: NULL is followed, which is a fault.
unfoldable pub deref_vma : Mm → ℕ → Option (ℕ × VmArea)
deref_vma mm vmaid = do
  at ← get_vma_by_num mm vmaid
  k ← at
  vma ← get_elem? mm.mmap k
  some (k, vma)

-- `none` is NULL; the test lets 30 pass, one past the table.
unfoldable pub get_symrg_byid : Mm → ℕ → Option ℕ
get_symrg_byid mm rgid = if is_neg rgid || ltb max_symtbl_sz rgid then none else some rgid

abbrev pub invalid_rg : VmRg
invalid_rg = record { rg_start = 2 ^ 64 - 1; rg_end = 2 ^ 64 - 1 }

-- The last region of the list, used up, stays as a region of size 0; any other takes over its
-- successor's bounds and place.
unfoldable pub use_up : VmRg → List VmRg → List VmRg
use_up rg [] = record rg { rg_start = rg.rg_end } ∷ []
use_up rg (next ∷ rest) = next ∷ rest

-- The loop of `get_free_vmrg_area`: the new region and the list after.
unfoldable pub first_fit : List VmRg → ℕ → VmRg × List VmRg
first_fit [] size = (invalid_rg, [])
first_fit (rg ∷ rest) size =
    let stop = (rg.rg_start + to_ulong size) % 2 ^ 64 in
    let (newrg, rest') = first_fit rest size in
    if leb stop rg.rg_end
    then (
      record { rg_start = rg.rg_start; rg_end = stop },
      (if ltb stop rg.rg_end then record rg { rg_start = stop } ∷ rest else use_up rg rest),
    )
    else (newrg, rg ∷ rest')

abbrev pub set_vma : Mm → ℕ → VmArea → Mm
set_vma mm k vma = record mm { mmap = set mm.mmap k vma }

-- The inner option is the new region, or `none` for the return value -1.
unfoldable pub get_free_vmrg_area : Pcb → ℕ → ℕ → Option (Option VmRg × Pcb)
get_free_vmrg_area caller vmaid size = do
  (k, cur_vma) ← deref_vma caller.mm vmaid
  some (elim cur_vma.vm_freerg_list [
    | [] ↦ (none, caller)
    | _ ∷ _ ↦
        let (newrg, left) = first_fit cur_vma.vm_freerg_list size in
        let mm' = set_vma caller.mm k (record cur_vma { vm_freerg_list = left }) in
        ((if newrg.rg_start == 2 ^ 64 - 1 then none else some newrg), record caller { mm = mm' })
  ])

unfoldable pub get_vm_area_node_at_brk : Pcb → ℕ → ℕ → ℕ → Option VmRg
unfolding deref_vma
get_vm_area_node_at_brk caller vmaid size alignedsz = do
  (_, cur_vma) ← deref_vma caller.mm vmaid
  some (record { rg_start = cur_vma.sbrk; rg_end = (cur_vma.sbrk + to_ulong size) % 2 ^ 64 })

-- The loop of `validate_overlap_vm_area` from area `k` on; `cur` is the area to pass over.
unfoldable pub overlaps : List VmArea → ℕ → ℕ → ℕ → ℕ → Bool
overlaps [] k cur vmastart vmaend = false
overlaps (iter ∷ rest) k cur vmastart vmaend =
    not (k == cur || leb iter.vm_end (to_ulong vmastart) || leb (to_ulong vmaend) iter.vm_start)
    || overlaps rest (k + 1) cur vmastart vmaend

unfoldable pub validate_overlap_vm_area : Pcb → ℕ → ℕ → ℕ → Option ℕ
unfolding overlaps
validate_overlap_vm_area caller vmaid vmastart vmaend = do
  at ← get_vma_by_num caller.mm vmaid
  some (elim at [
    | none ↦ minus_one
    | some cur ↦ if overlaps caller.mm.mmap 0 cur vmastart vmaend then 1 else 0
  ])

-- The return value and the process. The area is enlarged before the frames are asked for.
unfoldable pub inc_vma_limit : Pcb → ℕ → ℕ → Option (ℕ × Pcb)
inc_vma_limit caller vmaid inc_sz =
    let inc_amt = page_alignsz inc_sz in
    let incnumpage = sdiv inc_amt pagesz in
    (do
      area ← get_vm_area_node_at_brk caller vmaid inc_sz inc_amt
      (k, cur_vma) ← deref_vma caller.mm vmaid
      overlap ← validate_overlap_vm_area caller vmaid (to_int area.rg_start) (to_int area.rg_end)
      let grown = record cur_vma {
        vm_end = (cur_vma.vm_end + to_ulong inc_sz) % 2 ^ 64;
        sbrk = (cur_vma.sbrk + to_ulong inc_sz) % 2 ^ 64;
      }
      let caller' = record caller { mm = set_vma caller.mm k grown }
      let map_result =
          vm_map_ram caller' (to_int area.rg_start) (to_int area.rg_end) (to_int cur_vma.vm_end)
            incnumpage
      if is_neg overlap
          then some (minus_one, caller)
          else (map_result >>= λ r. some ((if is_neg r.0 then minus_one else 0), r.1)))
