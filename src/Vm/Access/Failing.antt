-- ===== src/Vm/Access/Failing.antt =====
-- Accesses that fail, and what `__read` and `__write` make of that.
use hk232_assignment_os.Base.{ℕ, ◌+◌, ◌<◌, ◌≡◌, refl, true, false, ◌||◌, ltb, none, some, [], arith}
use hk232_assignment_os.Paging.{
  minus_one, is_neg, max_pgn, paging_pgn, page_present, to_int, to_ulong,
}
use hk232_assignment_os.Paging.Address.{pgn-offst}
use hk232_assignment_os.Pcb.{VmArea, Pcb}
use hk232_assignment_os.Mm.{find_victim_page}
use hk232_assignment_os.Vm.{max_symtbl_sz, get_symrg_byid, get_vma_by_num, vma_walk}
use hk232_assignment_os.Vm.Region.Laws.{with_area}
use hk232_assignment_os.Vm.Access.{
  pg_getpage, pg_getval, pg_setval, fault_in, identify, read, write,
}

pg_getpage_fails :
    (c : Pcb) (pgn : ℕ)
    → pgn < max_pgn
    → page_present (c.mm.pgd pgn) ≡ false
    → c.mm.fifo_pgn ≡ []
    → pg_getpage c pgn ≡ some (none, c)
unfolding pg_getpage fault_in find_victim_page
pg_getpage_fails c pgn b p e =
    let ok : ltb pgn max_pgn ≡ true = ground arith in rw ok (rw (p) (rw (e, find_victim_page)))

identify_symbol :
    (c : Pcb) (vma : VmArea) (rgid : ℕ)
    → rgid < max_symtbl_sz
    → identify (with_area c vma) 0 rgid ≡ some (some (c.mm.symrgtbl rgid))
unfolding identify get_vma_by_num vma_walk get_symrg_byid
identify_symbol c vma rgid h =
    let ok : ltb rgid max_symtbl_sz ≡ true = ground arith in
    let valid : (is_neg rgid || ltb max_symtbl_sz rgid) ≡ false = ground arith in rw valid (rw ok)

-- The virtual address of an offset in a symbol's region.
abbrev pub address : Pcb → ℕ → ℕ → ℕ
address c rgid offset = to_int ((c.mm.symrgtbl rgid).rg_start + to_ulong offset)

-- In a process of one area, an access through a symbol of the table to a page that is not
-- present, with no page to evict, fails in `pg_getval` and `pg_setval`; `__read` and `__write`
-- return 0 for it all the same, with no byte read and nothing written.
pub access_failure_ignored :
    (c : Pcb) (vma : VmArea) (rgid offset v : ℕ)
    → rgid < max_symtbl_sz
    → page_present (c.mm.pgd (paging_pgn (address c rgid offset))) ≡ false
    → c.mm.fifo_pgn ≡ []
    → (pg_getval (with_area c vma) (address c rgid offset)
        ≡ some (minus_one, none, with_area c vma))
      × (read (with_area c vma) 0 rgid offset ≡ some (0, none, with_area c vma))
      × (pg_setval (with_area c vma) (address c rgid offset) v ≡ some (minus_one, with_area c vma))
      × (write (with_area c vma) 0 rgid offset v ≡ some (0, with_area c vma))
unfolding read write pg_getval pg_setval
access_failure_ignored c vma rgid offset v h p e =
    let addr = address c rgid offset in
    let gone = pg_getpage_fails (with_area c vma) (paging_pgn addr) (pgn-offst addr).1 p e in
    let id = identify_symbol c vma rgid h in (rw gone, rw id (rw gone), rw gone, rw id (rw gone))

-- In a process of one area, `__read` and `__write` refuse a symbol number above 30, a negative
-- `int` included, with -1; the number 30 passes the test and is read past the end of the table.
pub symbol_out_of_range :
    (c : Pcb) (vma : VmArea) (rgid offset v : ℕ)
    → max_symtbl_sz < rgid
    → (read (with_area c vma) 0 rgid offset ≡ some (minus_one, none, with_area c vma))
      × (write (with_area c vma) 0 rgid offset v ≡ some (minus_one, with_area c vma))
      × (read (with_area c vma) 0 max_symtbl_sz offset ≡ none)
      × (write (with_area c vma) 0 max_symtbl_sz offset v ≡ none)
unfolding read write identify get_vma_by_num vma_walk get_symrg_byid
symbol_out_of_range c vma rgid offset v h =
    let invalid : (is_neg rgid || ltb max_symtbl_sz rgid) ≡ true = ground arith in
    (rw invalid, rw invalid, refl, refl)
