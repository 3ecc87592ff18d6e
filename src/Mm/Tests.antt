-- ===== src/Mm/Tests.antt =====
-- Frames and pages of a concrete process.
use hk232_assignment_os.Base.{ℕ, ◌+◌, ◌*◌, ◌≤◌, ◌<◌, ◌≡◌, ◌⊎◌, some, [], ◌∷◌, arith}
use hk232_assignment_os.Paging.{pagesz, paging_pgn}
use hk232_assignment_os.Paging.Arith.{paging_pgn_arith}
use hk232_assignment_os.Memphy.{Memphy}
use hk232_assignment_os.Pcb.{Mm}
use hk232_assignment_os.Sample.{ram, swap_space, memory, process}
use hk232_assignment_os.Mm.{swap_cp_page, vm_map_ram}
use hk232_assignment_os.Mm.Swap.{HoldsFrame, swap_cp_page_copies}
use hk232_assignment_os.Mm.Mapping.{with_free, Mapped, vm_map_ram-Mapped}

ram-HoldsFrame : HoldsFrame ram 1
ram-HoldsFrame = record { random = omega arith; within = omega arith; small = omega arith }

swap_space-HoldsFrame : HoldsFrame swap_space 8
swap_space-HoldsFrame = record { random = omega arith; within = omega arith; small = omega arith }

swap_cp_page_copies_example :
    (dst' : Memphy) × (swap_cp_page swap_space 8 ram 1 ≡ some (swap_space, dst'))
    × ((i : ℕ) → i < pagesz → dst'.storage (1 * pagesz + i) ≡ swap_space.storage (8 * pagesz + i))
    × ((j : ℕ) → (j < 1 * pagesz) ⊎ (1 * pagesz + pagesz ≤ j) → dst'.storage j ≡ ram.storage j)
    × (dst'.free_fp_list ≡ 2 ∷ 3 ∷ [])
swap_cp_page_copies_example =
    swap_cp_page_copies swap_space ram 8 1 swap_space-HoldsFrame ram-HoldsFrame

vm_map_ram-Mapped_example :
    (mm' : Mm) × (vm_map_ram (with_free process (2 ∷ 3 ∷ [])) 256 768 256 2
      ≡ some (0, record (with_free process []) { mm = mm' }))
    × Mapped 2 (paging_pgn 256) (3 ∷ 2 ∷ []) memory mm'
vm_map_ram-Mapped_example =
    vm_map_ram-Mapped process (2 ∷ 3 ∷ []) 256 768 256 2 (omega arith) (omega arith)
      (omega (arith, paging_pgn_arith 256))
