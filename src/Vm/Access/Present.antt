-- ===== src/Vm/Access/Present.antt =====
-- Access to pages that are present.
use hk232_assignment_os.Base.{
  ℕ, ◌+◌, ◌*◌, ◌/◌, ◌%◌, ◌^◌, ◌≤◌, ◌<◌, ◌≡◌, ◌≢◌, ap, ◌∙◌, true, ◌==◌, ltb, if◌then◌else◌, some,
  arith, update, ==_iff,
}
use hk232_assignment_os.Paging.{
  max_pgn, memramsz, paging_pgn, paging_offst, paging_fpn, page_present,
}
use hk232_assignment_os.Paging.Pte.{pte_set_fpn, pte_set_swap}
use hk232_assignment_os.Paging.Arith.{paging_fpn_arith, paging_offst_arith, pte_set_swap_arith}
use hk232_assignment_os.Paging.Address.{pgn-offst}
use hk232_assignment_os.Paging.PteFields.{
  pte_set_fpn_fields, pte_set_swap_fields, paging_fpn-pte_set_fpn,
}
use hk232_assignment_os.Memphy.{Memphy}
use hk232_assignment_os.Memphy.Storage.{read-write}
use hk232_assignment_os.Pcb.{Pcb}
use hk232_assignment_os.Vm.Access.{pg_getpage, pg_getval, pg_setval, phyaddr}

-- The entry of the page of an address, and the place in RAM that the code goes to for it.
abbrev pub entry_of : Pcb → ℕ → ℕ
entry_of c addr = c.mm.pgd (paging_pgn addr)

abbrev pub place : Pcb → ℕ → ℕ
place c addr = paging_fpn (entry_of c addr) * 256 + paging_offst addr

place-lt : (c : Pcb) (addr : ℕ) → place c addr < memramsz
place-lt c addr = omega (arith, paging_fpn_arith (entry_of c addr), paging_offst_arith addr)

phyaddr-place :
    (c : Pcb) (addr : ℕ) → phyaddr (paging_fpn (entry_of c addr)) (paging_offst addr) ≡ place c addr
phyaddr-place c addr = omega (arith, place-lt c addr)

pub pg_getpage_present :
    (c : Pcb) (pgn : ℕ)
    → pgn < max_pgn
    → page_present (c.mm.pgd pgn) ≡ true
    → pg_getpage c pgn ≡ some (some (paging_fpn (c.mm.pgd pgn)), c)
unfolding pg_getpage
pg_getpage_present c pgn b p = let ok : ltb pgn max_pgn ≡ true = ground arith in rw ok (rw p)

-- A RAM of random access with at least the 1024 bytes of PAGING_MEMRAMSZ.
pub record IsRam (mp : Memphy) : Type 0 where
  pub random : mp.rdmflg ≢ 0
  pub enough : memramsz ≤ mp.maxsz

pg_setval_present :
    (c : Pcb) (addr v : ℕ)
    → IsRam c.mram
    → page_present (entry_of c addr) ≡ true
    → pg_setval c addr v
      ≡ some (
        0,
        record c { mram = record c.mram { storage = update c.mram.storage (place c addr) v } },
      )
unfolding pg_setval
pg_setval_present c addr v ram p =
    rw (pg_getpage_present c (paging_pgn addr) (pgn-offst addr).1 p) (
      rw (phyaddr-place c addr) (
        rw
          (read-write c.mram (place c addr) (place c addr) v ram.random
            (omega (arith, ram.enough, place-lt c addr))
            (omega (arith, ram.enough, place-lt c addr))).0))

-- On a RAM of random access with at least 1024 bytes, a byte written through a present page is
-- read back at every address of a present page that the code takes to the same place, any other
-- such address gives the byte that was there, and neither access faults.
pub pg_getval-pg_setval :
    (c : Pcb) (a b v : ℕ)
    → IsRam c.mram
    → page_present (entry_of c a) ≡ true
    → page_present (entry_of c b) ≡ true
    → (c' : Pcb) × (pg_setval c a v ≡ some (0, c'))
      × (pg_getval c' b
          ≡ some (0, some (if place c a == place c b then v else c.mram.storage (place c b)), c'))
unfolding pg_getval
pg_getval-pg_setval c a b v ram pa pb =
    let mram' = record c.mram { storage = update c.mram.storage (place c a) v } in
    let c' = record c { mram = mram' } in
    (
      c',
      pg_setval_present c a v ram pa,
      rw (pg_getpage_present c' (paging_pgn b) (pgn-offst b).1 pb) (
          rw (phyaddr-place c b) (
            rw
              (read-write c.mram (place c a) (place c b) v ram.random
                (omega (arith, ram.enough, place-lt c a))
                (omega (arith, ram.enough, place-lt c b))).1)),
    )

-- Two pages whose 32-bit entries are set online in any two frames below 256, in a RAM of at least
-- 1024 bytes, share their bytes: what is written at an address of one is read at the same offset of
-- the other.
pub online_pages_alias :
    (c : Pcb) (a b v p q f g : ℕ)
    → IsRam c.mram
    → p < 2 ^ 32
    → q < 2 ^ 32
    → f < 256
    → g < 256
    → entry_of c a ≡ pte_set_fpn p f
    → entry_of c b ≡ pte_set_fpn q g
    → paging_offst a ≡ paging_offst b
    → (c' : Pcb) × (pg_setval c a v ≡ some (0, c')) × (pg_getval c' b ≡ some (0, some v, c'))
online_pages_alias c a b v p q f g ram hp hq hf hg ea eb off =
    let (c', w, r) =
      pg_getval-pg_setval c a b v ram (rw ea (pte_set_fpn_fields p f hp).1)
        (rw eb (pte_set_fpn_fields q g hq).1) in
    (c', w, r ∙ ap (λ t. some (0, some (if t then v else c.mram.storage (place c b)), c')) same)
  where
    same : (place c a == place c b) ≡ true
    same = (==_iff _ _).1 (
        omega (
          arith,
          ap paging_fpn ea,
          ap paging_fpn eb,
          paging_fpn-pte_set_fpn p f hp,
          paging_fpn-pte_set_fpn q g hq,
        ))

-- A page of the table whose 32-bit entry `pte_set_swap` has swapped out counts as present:
-- `pg_getpage` brings nothing in, and takes bits 3 and 4 of the swap offset for the frame.
pub pg_getpage_swapped :
    (c : Pcb) (pgn pte t off : ℕ)
    → pgn < max_pgn
    → pte < 2 ^ 32
    → c.mm.pgd pgn ≡ pte_set_swap pte t off
    → pg_getpage c pgn ≡ some (some (off / 8 % 4), c)
pg_getpage_swapped c pgn pte t off b h e =
    pg_getpage_present c pgn b (rw e (pte_set_swap_fields pte t off h).1)
    ∙ ap (λ f. some (some f, c)) frame
  where
    frame : paging_fpn (c.mm.pgd pgn) ≡ off / 8 % 4
    frame =
        rw e
          (omega (arith, paging_fpn_arith (pte_set_swap pte t off), pte_set_swap_arith pte t off h))
