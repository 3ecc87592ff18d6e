-- ===== src/Vm/Access.antt =====
-- src/mm-vm.c, part 3: access to a process's memory through its page table.
pub mod Present
pub mod Failing
pub mod SwapIn
pub mod Release
use hk232_assignment_os.Base.{
  ℕ, zero, suc, ◌+◌, ◌-◌, ◌*◌, ◌%◌, ◌^◌, Bool, true, false, ◌==◌, if◌then◌else◌, Option, none, some,
  update, ◌>>=◌, ◌>>◌,
}
use hk232_assignment_os.Paging.{
  minus_one, max_pgn, nbits, pagesz, paging_pgn, paging_offst, paging_fpn, paging_swp, page_present,
  to_ulong, to_int,
}
use hk232_assignment_os.Paging.Pte.{pte_set_fpn, pte_set_swap}
use hk232_assignment_os.Memphy
use hk232_assignment_os.Memphy.{Memphy, get_freefp, put_freefp}
use hk232_assignment_os.Pcb.{VmRg, VmArea, Mm, Pcb}
use hk232_assignment_os.Mm.{get_pte, set_pte, enlist_pgn_node, find_victim_page, swap_cp_page}
use hk232_assignment_os.Vm.{get_symrg, get_symrg_byid, get_vma_by_num}

-- The swap of `pg_getpage` once a victim and a swap frame are at hand: the process, with the
-- target page online in the victim's frame.
unfoldable pub bring_in : Pcb → ℕ → ℕ → ℕ → ℕ → Option Pcb
bring_in caller pgn tgtfpn vicpgn swpfpn = do
  vicpte ← get_pte caller.mm vicpgn
  let vicfpn = paging_fpn vicpte
  (mram1, mswp1) ← swap_cp_page caller.mram vicfpn caller.active_mswp swpfpn
  (mswp2, mram2) ← swap_cp_page mswp1 tgtfpn mram1 vicfpn
  mm1 ← set_pte caller.mm vicpgn (pte_set_swap vicpte 0 swpfpn)
  pte ← get_pte mm1 pgn
  mm2 ← set_pte mm1 pgn (pte_set_fpn pte vicfpn)
  some (record caller { mm = enlist_pgn_node mm2 pgn; mram = mram2; active_mswp = mswp2 })

-- The branch of `pg_getpage` for a page that is not present: `some none` is the return value -1.
unfoldable pub fault_in : Pcb → ℕ → ℕ → Option (Option Pcb × Pcb)
fault_in caller pgn pte = elim (find_victim_page caller.mm) [
  | none ↦ some (none, caller)
  | some (vicpgn, mm) ↦ elim (get_freefp caller.active_mswp) [
    | none ↦ some (none, record caller { mm = mm })
    | some (swpfpn, mswp) ↦
        (bring_in (record caller { mm = mm; active_mswp = mswp }) pgn (paging_swp pte) vicpgn swpfpn
          >>= λ c. some (some c, c))
  ]
]

-- The frame, or `none` for the return value -1, and the process. `mm` is always `caller->mm`.
unfoldable pub pg_getpage : Pcb → ℕ → Option (Option ℕ × Pcb)
pg_getpage caller pgn = get_pte caller.mm pgn >>= λ pte.
    let online : Option (Option ℕ × Pcb) = some (some (paging_fpn pte), caller) in
    let brought : Option (Option ℕ × Pcb) = fault_in caller pgn pte >>= λ r. elim r.0 [
      | none ↦ some (none, r.1)
      | some c ↦ (get_pte c.mm pgn >>= λ p. some (some (paging_fpn p), c))
    ] in
    if page_present pte then online else brought

-- PAGING_ADDR_FPN_LOBIT
abbrev pub addr_fpn_lobit : ℕ
addr_fpn_lobit = nbits pagesz

abbrev pub phyaddr : ℕ → ℕ → ℕ
phyaddr fpn off = (fpn * 2 ^ addr_fpn_lobit % 2 ^ 32 + off) % 2 ^ 32

-- The return value, what is stored through `data`, and the process.
unfoldable pub pg_getval : Pcb → ℕ → Option (ℕ × Option ℕ × Pcb)
pg_getval caller addr = pg_getpage caller (paging_pgn addr) >>= λ r. elim r.0 [
  | none ↦ some (minus_one, none, r.1)
  | some fpn ↦ (do
    (_, byte, mram) ← Memphy.read r.1.mram (phyaddr fpn (paging_offst addr))
    some (0, byte, record r.1 { mram = mram }))
]

unfoldable pub pg_setval : Pcb → ℕ → ℕ → Option (ℕ × Pcb)
pg_setval caller addr value = pg_getpage caller (paging_pgn addr) >>= λ r. elim r.0 [
  | none ↦ some (minus_one, r.1)
  | some fpn ↦ (do
    (_, mram) ← Memphy.write r.1.mram (phyaddr fpn (paging_offst addr)) value
    some (0, record r.1 { mram = mram }))
]

-- The region of a symbol and the area, or `none` where one of them is NULL.
unfoldable pub identify : Pcb → ℕ → ℕ → Option (Option VmRg)
identify caller vmaid rgid = do
  at ← get_vma_by_num caller.mm vmaid
  elim (get_symrg_byid caller.mm rgid) [
    | none ↦ some none
    | some k ↦ elim at [
      | none ↦ some none
      | some _ ↦ (get_symrg caller.mm k >>= λ currg. some (some currg))
    ]
  ]

-- The result of `pg_getval` is ignored.
unfoldable pub read : Pcb → ℕ → ℕ → ℕ → Option (ℕ × Option ℕ × Pcb)
read caller vmaid rgid offset = identify caller vmaid rgid >>= λ at. elim at [
  | none ↦ some (minus_one, none, caller)
  | some currg ↦
      (pg_getval caller (to_int (currg.rg_start + to_ulong offset)) >>= λ r. some (0, r.1, r.2))
]

unfoldable pub write : Pcb → ℕ → ℕ → ℕ → ℕ → Option (ℕ × Pcb)
write caller vmaid rgid offset value = identify caller vmaid rgid >>= λ at. elim at [
  | none ↦ some (minus_one, caller)
  | some currg ↦
      (pg_setval caller (to_int (currg.rg_start + to_ulong offset)) value >>= λ r. some (0, r.1))
]

-- The byte read goes to the parameter `destination`, which is a copy: no register changes. An
-- unset byte is used only for that and for the trace.
unfoldable pub pgread : Pcb → ℕ → ℕ → ℕ → Option (ℕ × Pcb)
pgread proc source offset destination = read proc 0 source offset >>= λ r. some (r.0, r.2)

unfoldable pub pgwrite : Pcb → ℕ → ℕ → ℕ → Option (ℕ × Pcb)
pgwrite proc byte destination offset = write proc 0 destination offset byte

-- The loop of `free_pcb_memph`, with its rounds left.
unfoldable pub free_loop : ℕ → ℕ → (ℕ → ℕ) → Memphy → Memphy → Memphy × Memphy
free_loop zero pagenum pgd mram mswp = (mram, mswp)
free_loop (suc left) pagenum pgd mram mswp =
    let present = page_present (pgd pagenum) in
    free_loop left (pagenum + 1) pgd
      (if present then mram else put_freefp mram (paging_fpn (pgd pagenum)))
      (if present then put_freefp mswp (paging_swp (pgd pagenum)) else mswp)

unfoldable pub free_pcb_memph : Pcb → Pcb
free_pcb_memph caller =
    let (mram, mswp) = free_loop max_pgn 0 caller.mm.pgd caller.mram caller.active_mswp in
    record caller { mram = mram; active_mswp = mswp }
