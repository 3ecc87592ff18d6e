-- ===== src/Paging/Address.antt =====
-- The split of a virtual address by PAGING_PGN and PAGING_OFFST.
use hk232_assignment_os.Base.{ℕ, ◌+◌, ◌*◌, ◌%◌, ◌^◌, ◌<◌, ◌≡◌, arith}
use hk232_assignment_os.Paging.{cpu_bus_width, pagesz, max_pgn, paging_offst, paging_pgn}
use hk232_assignment_os.Paging.Arith.{paging_pgn_arith, paging_offst_arith}

-- For every word, page number and offset give back its low 22 bits, the page number is an index
-- of the page table, and the offset lies within the page.
pub pgn-offst :
    (addr : ℕ)
    → (paging_pgn addr * pagesz + paging_offst addr ≡ addr % 2 ^ cpu_bus_width)
      × (paging_pgn addr < max_pgn)
      × (paging_offst addr < pagesz)
pgn-offst addr = omega (arith, paging_pgn_arith addr, paging_offst_arith addr)

-- Two addresses on the 22-bit bus with the same page number and offset are the same address.
pub pgn-offst_injective :
    (a b : ℕ)
    → a < 2 ^ cpu_bus_width
    → b < 2 ^ cpu_bus_width
    → paging_pgn a ≡ paging_pgn b
    → paging_offst a ≡ paging_offst b
    → a ≡ b
pgn-offst_injective a b ha hb p q = omega (arith, pgn-offst a, pgn-offst b)
