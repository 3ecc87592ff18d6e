-- ===== src/Mm.antt =====
-- src/mm.c: page tables, frames and the swapping of page contents. A function that may fault, by
-- an access out of bounds, through NULL or to an unset variable, returns an option.
mod Tests
pub mod Swap
pub mod Mapping
pub mod Keeping
use hk232_assignment_os.Base.{
  ℕ, zero, suc, ◌+◌, ◌-◌, ◌*◌, ◌%◌, ◌^◌, Bool, true, false, not, ◌&&◌, ◌==◌, ltb, if◌then◌else◌,
  Option, none, some, List, [], ◌∷◌, update, ◌>>=◌, ◌>>◌, check,
}
use hk232_assignment_os.Paging.{
  minus_one, is_neg, pagesz, max_pgn, paging_pgn, paging_fpn, to_ulong, rounds,
}
use hk232_assignment_os.Paging.Pte.{pte_set_fpn, pte_set_swap}
use hk232_assignment_os.Memphy.{Memphy, get_freefp}
use hk232_assignment_os.Memphy
use hk232_assignment_os.Pcb.{VmRg, VmArea, Mm, Pcb}

-- The accesses to `pgd[i]`.
abbrev pub get_pte : Mm → ℕ → Option ℕ
get_pte mm i = if ltb i max_pgn then some (mm.pgd i) else none

abbrev pub set_pte : Mm → ℕ → ℕ → Option Mm
set_pte mm i pte = if ltb i max_pgn then some (record mm { pgd = update mm.pgd i pte }) else none

unfoldable pub init_vm_rg : ℕ → ℕ → VmRg
init_vm_rg rg_start rg_end = record { rg_start = to_ulong rg_start; rg_end = to_ulong rg_end }

unfoldable pub enlist_vm_rg_node : List VmRg → VmRg → List VmRg
enlist_vm_rg_node rglist rgnode = rgnode ∷ rglist

unfoldable pub enlist_pgn_node : Mm → ℕ → Mm
enlist_pgn_node mm pgn = record mm { fifo_pgn = pgn ∷ mm.fifo_pgn }

-- The last node of a page list that is not NULL, taken off: `find_victim_page` of src/mm-vm.c.
unfoldable pub split_last : ℕ → List ℕ → ℕ × List ℕ
split_last pg [] = (pg, [])
split_last pg (next ∷ rest) = let (last, front) = split_last next rest in (last, pg ∷ front)

-- `none` is the return value -1, with nothing changed.
unfoldable pub find_victim_page : Mm → Option (ℕ × Mm)
find_victim_page mm = elim mm.fifo_pgn [
  | [] ↦ none
  | pg ∷ rest ↦
      let (last, front) = split_last pg rest in some (last, record mm { fifo_pgn = front })
]

-- The loop of `__swap_cp_page`, with its rounds left. A refused read leaves `data` unset.
unfoldable pub swap_loop : ℕ → ℕ → Memphy → ℕ → Memphy → ℕ → Option (Memphy × Memphy)
swap_loop zero cellidx mpsrc srcfpn mpdst dstfpn = some (mpsrc, mpdst)
swap_loop (suc left) cellidx mpsrc srcfpn mpdst dstfpn = do
  (_, got, mpsrc') ← Memphy.read mpsrc ((srcfpn * pagesz + cellidx) % 2 ^ 32)
  byte ← got
  (_, mpdst') ← Memphy.write mpdst ((dstfpn * pagesz + cellidx) % 2 ^ 32) byte
  swap_loop left (cellidx + 1) mpsrc' srcfpn mpdst' dstfpn

-- The two devices after the copy; the function returns 0.
unfoldable pub swap_cp_page : Memphy → ℕ → Memphy → ℕ → Option (Memphy × Memphy)
swap_cp_page mpsrc srcfpn mpdst dstfpn = swap_loop pagesz 0 mpsrc srcfpn mpdst dstfpn

-- The loop of `vmap_page_range`, with its rounds left: too short a list of frames is a fault.
unfoldable pub map_loop : ℕ → ℕ → List ℕ → Mm → Option Mm
map_loop zero pgn frames mm = some mm
map_loop (suc left) pgn [] mm = none
map_loop (suc left) pgn (fpn ∷ frames) mm = do
  pte ← get_pte mm pgn
  mm' ← set_pte mm pgn (pte_set_fpn pte fpn)
  map_loop left (pgn + 1) frames (enlist_pgn_node mm' pgn)

-- The process and `ret_rg`; the function returns 0.
unfoldable pub vmap_page_range : Pcb → ℕ → ℕ → List ℕ → Option (Pcb × VmRg)
vmap_page_range caller addr pgnum frames = do
  let start = to_ulong addr
  mm ← map_loop (rounds pgnum) (paging_pgn addr) frames caller.mm
  some (
    record caller { mm = mm },
    record { rg_start = start; rg_end = (start + to_ulong (pgnum * pagesz % 2 ^ 32)) % 2 ^ 64 },
  )

abbrev pub oom : ℕ
oom = 2 ^ 32 - 3000

-- What a round of `alloc_pages_range` comes to: a frame, or no victim or no swap space.
pub data Frame : Type 0 where
  got : ℕ → Pcb → Frame
  short : Pcb → Frame

-- The victim's content goes to a free swap frame, and its frame is reused.
unfoldable pub evict : Pcb → Option Frame
evict caller = elim (find_victim_page caller.mm) [
  | none ↦ some (short caller)
  | some (victim_page, mm) ↦ elim (get_freefp caller.active_mswp) [
    | none ↦ some (short (record caller { mm = mm }))
    | some (swpfpn, mswp) ↦ (do
      vicpte ← get_pte mm victim_page
      let vicfpn = paging_fpn vicpte
      (mram', mswp') ← swap_cp_page caller.mram vicfpn mswp swpfpn
      mm' ← set_pte mm victim_page (pte_set_swap vicpte 0 swpfpn)
      some (got vicfpn (record caller { mm = mm'; mram = mram'; active_mswp = mswp' })))
  ]
]

unfoldable pub next_frame : Pcb → Option Frame
next_frame caller = elim (get_freefp caller.mram) [
  | some (fpn, mram) ↦ some (got fpn (record caller { mram = mram }))
  | none ↦ evict caller
]

-- The `for` loop, with its rounds left: the return value, the frame list and the process.
unfoldable pub alloc_loop : ℕ → Pcb → List ℕ → Option (ℕ × List ℕ × Pcb)
alloc_loop zero caller frm_lst = some (0, frm_lst, caller)
alloc_loop (suc left) caller frm_lst = next_frame caller >>= λ r. elim r [
  | got fpn caller' ↦ alloc_loop left caller' (fpn ∷ frm_lst)
  | short caller' ↦
      some (elim frm_lst [ [] ↦ (minus_one, [], caller') | _ ∷ _ ↦ (oom, [], caller') ])
]

unfoldable pub alloc_pages_range : Pcb → ℕ → List ℕ → Option (ℕ × List ℕ × Pcb)
alloc_pages_range caller req_pgnum frm_lst = alloc_loop (rounds req_pgnum) caller frm_lst

-- The return value and the process. `astart` and `aend` are not used.
unfoldable pub vm_map_ram : Pcb → ℕ → ℕ → ℕ → ℕ → Option (ℕ × Pcb)
vm_map_ram caller astart aend mapstart incpgnum = alloc_pages_range caller incpgnum [] >>= λ r.
    let (ret_alloc, frm_lst, caller') = r in
    let mapped : Option (ℕ × Pcb) =
      vmap_page_range caller' mapstart incpgnum frm_lst >>= λ m. some (0, m.0) in
    if is_neg ret_alloc && not (ret_alloc == oom)
    then some (minus_one, caller')
    else (if ret_alloc == oom then some (minus_one, caller') else mapped)

-- The loop of `init_mm`, with its rounds left.
unfoldable pub clear_pgd : ℕ → ℕ → (ℕ → ℕ) → ℕ → ℕ
clear_pgd zero i pgd = pgd
clear_pgd (suc left) i pgd = clear_pgd left (i + 1) (update pgd i 0)

-- `raw`, `raw_vma` and `block` are what `malloc` left in the three blocks: `fifo_pgn` and the
-- symbol table are not set, and the first region is linked before what `vm_freerg_list` held.
unfoldable pub init_mm : Mm → VmArea → (ℕ → ℕ) → Mm
init_mm raw raw_vma block = record raw {
  pgd = clear_pgd max_pgn 0 block;
  mmap =
      record raw_vma {
        vm_id = 1;
        vm_start = 0;
        vm_end = 0;
        sbrk = 0;
        vm_freerg_list = enlist_vm_rg_node raw_vma.vm_freerg_list (init_vm_rg 0 0);
      }
      ∷ [];
}
