-- ===== src/Paging/Tests.antt =====
-- Concrete page table entries and addresses.
use hk232_assignment_os.Base.{◌+◌, ◌*◌, ◌/◌, ◌%◌, ◌^◌, ◌<◌, ◌≡◌, arith}
use hk232_assignment_os.Paging.Log.{IsLog, nbits-IsLog}
use hk232_assignment_os.Paging.{
  nbits, cpu_bus_width, pagesz, max_pgn, paging_pgn, paging_offst, paging_fpn,
}
use hk232_assignment_os.Paging.Pte.{pte_set_fpn}
use hk232_assignment_os.Paging.Address.{pgn-offst}
use hk232_assignment_os.Paging.PteFields.{paging_fpn-pte_set_fpn}

pgn-offst_example :
    (paging_pgn 0x1234 * pagesz + paging_offst 0x1234 ≡ 0x1234 % 2 ^ cpu_bus_width)
    × (paging_pgn 0x1234 < max_pgn)
    × (paging_offst 0x1234 < pagesz)
pgn-offst_example = pgn-offst 0x1234

paging_fpn-pte_set_fpn_example : paging_fpn (pte_set_fpn 0 3) ≡ 3 / 256 % 4
paging_fpn-pte_set_fpn_example = paging_fpn-pte_set_fpn 0 3 (omega arith)

nbits-IsLog_example : IsLog 0x12345 (nbits 0x12345)
nbits-IsLog_example = nbits-IsLog 0x12345 (omega arith) (omega arith)
