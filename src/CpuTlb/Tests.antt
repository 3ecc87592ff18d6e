-- ===== src/CpuTlb/Tests.antt =====
-- The TLB of a concrete process.
use hk232_assignment_os.Base.{◌≡◌, refl, some, [], ◌∷◌, ◌==◌, if◌then◌else◌, update, arith}
use hk232_assignment_os.Paging.{paging_pgn, paging_offst, paging_fpn, page_present, getval}
use hk232_assignment_os.Paging.Arith.{paging_pgn_arith}
use hk232_assignment_os.Memphy.{Memphy}
use hk232_assignment_os.Pcb.{Pcb}
use hk232_assignment_os.Sample.{ram, process, area, first_region}
use hk232_assignment_os.TlbCache.{tlb_cache_read, line_of}
use hk232_assignment_os.TlbCache.Lines.{HasLines}
use hk232_assignment_os.Vm.{get_free_vmrg_area, deref_vma, get_vma_by_num, vma_walk, first_fit}
use hk232_assignment_os.Vm.Region.{alloc}
use hk232_assignment_os.Vm.Region.Laws.{with_area, with_symbol, free_area}
use hk232_assignment_os.CpuTlb.{tlballoc, tlbwrite}
use hk232_assignment_os.CpuTlb.Hit.{target, tlballoc_lem, tlbwrite_hit}

-- The process after `__alloc` of 60 bytes for symbol 2.
abbrev allocated : Pcb
allocated =
    with_symbol
      (with_area process
        (free_area area (first_region ∷ record { rg_start = 160; rg_end = 256 } ∷ [])))
      2 (record { rg_start = 100; rg_end = 160 })

process-allocated : alloc process 0 2 60 ≡ some (0, 100, allocated)
unfolding alloc get_free_vmrg_area deref_vma get_vma_by_num vma_walk first_fit
process-allocated = refl

ram-HasLines : HasLines ram
ram-HasLines = record { one_line = omega arith; small = omega arith }

tlballoc_lem_example :
    (tlb : Memphy) × (tlballoc process 60 2 ≡ some (0, record allocated { tlb = tlb }))
    × HasLines tlb
tlballoc_lem_example =
    tlballoc_lem process allocated 60 2 100 process-allocated ram-HasLines (omega arith)
      (omega (arith, paging_pgn_arith 100))

-- A cache whose first line holds page 0 of process 1, with an entry of low byte 128.
abbrev hot : Pcb
hot = record process {
  tlb = record ram { storage = λ i. if i == 0 then 1 else (if i == 5 then 128 else 0) };
}

hot_hit : tlb_cache_read hot.tlb hot.pid (paging_pgn (target hot 3 7)) ≡ some (0, some 3)
unfolding tlb_cache_read line_of page_present paging_fpn paging_pgn getval
hot_hit = refl

tlbwrite_hit_example :
    tlbwrite hot 42 3 7
    ≡ some (
      0,
      record hot {
        mram = record ram { storage = update ram.storage (paging_offst (target hot 3 7)) 42 };
      },
    )
tlbwrite_hit_example =
    tlbwrite_hit hot 42 3 7 3 (omega arith) hot_hit (omega arith)
      (record { random = omega arith; enough = omega arith })
