-- ===== src/CpuTlb/Hit.antt =====
-- What the operations make of the TLB's answers.
use hk232_assignment_os.Base.{
  ℕ, zero, suc, ◌+◌, ◌-◌, ◌/◌, ◌%◌, ◌^◌, ◌≤◌, ◌<◌, ◌≡◌, ◌≢◌, refl, true, false, ◌==◌, ltb, some,
  update, arith, Bool-cases, inl, inr,
}
use hk232_assignment_os.Paging.{max_pgn, pagesz, paging_pgn, paging_offst, paging_fpn, page_present}
use hk232_assignment_os.Paging.Arith.{paging_offst_arith}
use hk232_assignment_os.Memphy.{Memphy}
use hk232_assignment_os.Memphy.Storage.{read-write}
use hk232_assignment_os.Pcb.{Pcb}
use hk232_assignment_os.TlbCache.{sign_extend, tlb_cache_read}
use hk232_assignment_os.TlbCache.Lines.{HasLines}
use hk232_assignment_os.TlbCache.Answers.{tlb_cache_in_bounds, tlb_cache_answers}
use hk232_assignment_os.Vm.Region.{alloc}
use hk232_assignment_os.Vm.Access.{phyaddr}
use hk232_assignment_os.Vm.Access.Present.{IsRam}
use hk232_assignment_os.CpuTlb.{lookup, refresh, refresh_loop, tlballoc, tlbwrite}

-- A page is refreshed without a fault, and the TLB keeps its lines.
refresh-HasLines :
    (c : Pcb) (pgnum : ℕ)
    → HasLines c.tlb
    → pgnum < max_pgn
    → (tlb : Memphy) × (refresh c pgnum ≡ some tlb) × HasLines tlb
unfolding refresh
refresh-HasLines c pgnum h b =
    let ok : ltb pgnum max_pgn ≡ true = ground arith in
    let pte = c.mm.pgd pgnum in
    let value = sign_extend (paging_fpn pte % 2 ^ 8) in
    let ((tlb, w, h'), _, _) = tlb_cache_in_bounds c.tlb c.pid pgnum value h (omega arith) in
    elim (Bool-cases (page_present pte)) [
      | inr absent ↦ rw ok (rw absent (c.tlb, refl, h))
      | inl present ↦ elim (tlb_cache_answers c.tlb c.pid pgnum h (omega arith)) [
        | inr (o, e) ↦ rw ok (rw present (rw e (rw w (tlb, refl, h'))))
        | inl (found, e) ↦ elim (Bool-cases (sign_extend found == paging_fpn pte)) [
          | inl same ↦ rw ok (rw present (rw e (rw same (c.tlb, refl, h))))
          | inr other ↦ rw ok (rw present (rw e (rw other (rw w (tlb, refl, h')))))
        ]
      ]
    ]

refresh_loop-HasLines :
    (left pgnum : ℕ) (c : Pcb)
    → HasLines c.tlb
    → pgnum + left ≤ max_pgn
    → (tlb : Memphy) × (refresh_loop left pgnum c ≡ some (record c { tlb = tlb })) × HasLines tlb
unfolding refresh_loop
refresh_loop-HasLines zero pgnum c h b = (c.tlb, refl, h)
refresh_loop-HasLines (suc left) pgnum c h b =
    let (tlb, e, h') = refresh-HasLines c pgnum h (omega arith) in
    let next : (pgnum + 1) % 2 ^ 32 ≡ pgnum + 1 = omega arith in
    rw e
      (rw next (refresh_loop-HasLines left (pgnum + 1) (record c { tlb = tlb }) h' (omega arith)))

-- `tlballoc` succeeds where `__alloc` does, if the TLB has a line, the size does not overflow and
-- the pages lie in the page table: it returns 0 with the process that `__alloc` leaves, of which
-- only the TLB is changed further.
pub tlballoc_lem :
    (c c' : Pcb) (size reg_index addr : ℕ)
    → alloc c 0 reg_index size ≡ some (0, addr, c')
    → HasLines c'.tlb
    → size + 255 < 2 ^ 32
    → paging_pgn addr + (size + 255) / 256 ≤ max_pgn
    → (tlb : Memphy) × (tlballoc c size reg_index ≡ some (0, record c' { tlb = tlb }))
      × HasLines tlb
unfolding tlballoc
tlballoc_lem c c' size reg_index addr e h small room =
    let n : (size + pagesz - 1) % 2 ^ 32 / pagesz ≡ (size + 255) / 256 = omega arith in
    let (tlb, e', h') = refresh_loop-HasLines ((size + 255) / 256) (paging_pgn addr) c' h room in
    rw e (rw (n, e') (tlb, refl, h'))

-- The address that `tlbwrite` goes to.
abbrev pub target : Pcb → ℕ → ℕ → ℕ
target c destination offset = (c.regs destination + offset) % 2 ^ 32

-- On a TLB hit with a frame other than 255, for one of the ten registers, on a RAM of at least 1024
-- bytes, `tlbwrite` returns 0 and writes to frame 0, whatever frame the TLB gave: it takes the
-- return value of `tlb_cache_read` for the frame.
pub tlbwrite_hit :
    (c : Pcb) (byte destination offset frame : ℕ)
    → destination < 10
    → tlb_cache_read c.tlb c.pid (paging_pgn (target c destination offset)) ≡ some (0, some frame)
    → frame ≢ 255
    → IsRam c.mram
    → tlbwrite c byte destination offset
      ≡ some (
        0,
        record c {
          mram = record c.mram {
            storage = update c.mram.storage (paging_offst (target c destination offset)) byte;
          };
        },
      )
unfolding tlbwrite lookup
tlbwrite_hit c byte destination offset frame inb hit other ram =
    let addr = target c destination offset in
    let ok : ltb destination 10 ≡ true = ground arith in
    let found : (frame == 255) ≡ false = ground arith in
    let place : phyaddr 0 (paging_offst addr) ≡ paging_offst addr =
      omega (arith, paging_offst_arith addr) in
    let inside : paging_offst addr < c.mram.maxsz =
      omega (arith, ram.enough, paging_offst_arith addr) in
    rw ok (
      rw hit (
        rw found (
          rw place (
            rw
              (read-write c.mram (paging_offst addr) (paging_offst addr) byte ram.random inside
                inside).0
              refl))))
