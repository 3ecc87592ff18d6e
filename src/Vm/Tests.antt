-- ===== src/Vm/Tests.antt =====
-- Allocation and access in a concrete process.
use hk232_assignment_os.Base.{
  get_elem?, ℕ, ◌+◌, ◌*◌, ◌/◌, ◌%◌, ◌<◌, ◌≡◌, ◌≢◌, refl, true, false, ◌==◌, if◌then◌else◌, none,
  some, List, [], ◌∷◌, All, arith,
}
use hk232_assignment_os.Base.Output.{Printed, printf}
use hk232_assignment_os.Vm.Print.{print_pgtbl, print_list_rg}
use hk232_assignment_os.Vm.Print.Table.{Lists, print_pgtbl-Lists}
use hk232_assignment_os.Paging.{minus_one, max_pgn, pagesz, paging_pgn, paging_fpn, page_present}
use hk232_assignment_os.Paging.Arith.{
  paging_pgn_arith, paging_offst_arith, paging_fpn_arith, paging_swp_arith, page_present_arith,
}
use hk232_assignment_os.Paging.Pte.{pte_set_fpn, pte_set_swap}
use hk232_assignment_os.Pcb.{Mm, Pcb}
use hk232_assignment_os.Sample.{
  ram, swap_space, first_region, last_region, area, memory, process, no_victim,
}
use hk232_assignment_os.Mm.Mapping.{with_free, Mapped}
use hk232_assignment_os.Vm.Region.{alloc}
use hk232_assignment_os.Vm.Region.FreeList.{IsRegion}
use hk232_assignment_os.Vm.Region.Laws.{with_area}
use hk232_assignment_os.Vm.Region.Grow.{grown, grown_area, alloc_grows, alloc_ignores_oom}
use hk232_assignment_os.Vm.Access.{pg_getpage, pg_getval, pg_setval}
use hk232_assignment_os.Vm.Access.Present.{
  entry_of, place, IsRam, pg_getval-pg_setval, online_pages_alias, pg_getpage_swapped,
}
use hk232_assignment_os.Vm.Access.Failing.{address}
use hk232_assignment_os.Vm.Access.{free_pcb_memph}
use hk232_assignment_os.Vm.Access.Release.{free_pcb_memph_absent}
use hk232_assignment_os.Vm.Access.SwapIn.{CanSwap, pg_getpage_swaps}

regions-IsRegion : All IsRegion (first_region ∷ last_region ∷ [])
regions-IsRegion = ((omega arith, omega arith), ((omega arith, omega arith), tt))

alloc_grows_example :
    (mm' : Mm) × (alloc (with_free process (2 ∷ 3 ∷ [])) 0 2 300
      ≡ some (
        0,
        256,
        grown area first_region
            (last_region ∷ [])
            300
            2
            2
            (omega arith)
            refl
            (omega arith)
            refl
            (record (with_free process []) { mm = mm' }),
      ))
    × Mapped 2 (paging_pgn 256) (3 ∷ 2 ∷ []) (with_area process (grown_area area 2)).mm mm'
alloc_grows_example =
    alloc_grows area first_region (last_region ∷ []) 300 2 2 (omega arith) refl (omega arith) refl
      regions-IsRegion refl process (2 ∷ 3 ∷ []) (omega arith) (omega (arith, paging_pgn_arith 256))

alloc_ignores_oom_example :
    alloc (with_free no_victim (2 ∷ 3 ∷ [])) 0 2 600
    ≡ some (
      0,
      256,
      grown area first_region
          (last_region ∷ [])
          600
          3
          2
          (omega arith)
          refl
          (omega arith)
          refl
          (with_free no_victim []),
    )
alloc_ignores_oom_example =
    alloc_ignores_oom area first_region (last_region ∷ []) 600 3 2 (omega arith) refl (omega arith)
      refl regions-IsRegion refl no_victim (2 ∷ 3 ∷ []) (omega arith) refl

ram-IsRam : IsRam ram
ram-IsRam = record { random = omega arith; enough = omega arith }

page_5 : page_present (memory.pgd 5) ≡ true
page_5 = ground (arith, page_present_arith 0x8000_0100)

page_3 : page_present (memory.pgd 3) ≡ false
page_3 = ground (arith, page_present_arith 0x100)

page_0 : page_present (memory.pgd 0) ≡ false
page_0 = ground (arith, page_present_arith 0)

present_1283 : page_present (entry_of process 1283) ≡ true
present_1283 = let e : paging_pgn 1283 ≡ 5 = omega (arith, paging_pgn_arith 1283) in rw e page_5

pg_getval-pg_setval_example :
    (c' : Pcb) × (pg_setval process 1283 77 ≡ some (0, c'))
    × (pg_getval c' 1283
        ≡ some (
          0,
          some (
              if place process 1283 == place process 1283
              then 77
              else ram.storage (place process 1283)),
          c',
        ))
pg_getval-pg_setval_example =
    pg_getval-pg_setval process 1283 1283 77 ram-IsRam present_1283 present_1283

-- Pages 0 and 1 online in frames 2 and 3.
abbrev two_online : Pcb
two_online = record process {
  mm = record memory { pgd = λ p. if p == 0 then pte_set_fpn 0 2 else pte_set_fpn 0 3 };
}

entry_7 : entry_of two_online 7 ≡ pte_set_fpn 0 2
entry_7 = let e : paging_pgn 7 ≡ 0 = omega (arith, paging_pgn_arith 7) in rw e refl

entry_263 : entry_of two_online 263 ≡ pte_set_fpn 0 3
entry_263 = let e : paging_pgn 263 ≡ 1 = omega (arith, paging_pgn_arith 263) in rw e refl

online_pages_alias_example :
    (c' : Pcb) × (pg_setval two_online 7 99 ≡ some (0, c'))
    × (pg_getval c' 263 ≡ some (0, some 99, c'))
online_pages_alias_example =
    online_pages_alias two_online 7 263 99 0 0 2 3 ram-IsRam (omega arith) (omega arith)
      (omega arith) (omega arith) entry_7 entry_263
      (omega (arith, paging_offst_arith 7, paging_offst_arith 263))

-- Every page swapped out to offset 16.
abbrev all_swapped : Pcb
all_swapped = record process { mm = record memory { pgd = λ p. pte_set_swap 0 0 16 } }

pg_getpage_swapped_example : pg_getpage all_swapped 6 ≡ some (some (16 / 8 % 4), all_swapped)
pg_getpage_swapped_example =
    pg_getpage_swapped all_swapped 6 0 0 16 (omega arith) (omega arith) refl

address_0 : page_present (no_victim.mm.pgd (paging_pgn (address no_victim 4 2))) ≡ false
address_0 =
    let e : paging_pgn (address no_victim 4 2) ≡ 0 = omega (arith, paging_pgn_arith 42) in
    rw e page_0

victim_frame : paging_fpn (memory.pgd 5) ≡ 1
victim_frame = omega (arith, paging_fpn_arith 0x8000_0100)

process-CanSwap : CanSwap process 3 5 8 2 (7 ∷ []) (4 ∷ [])
process-CanSwap = record {
  page_in_table = omega arith;
  victim_in_table = omega arith;
  different = omega arith;
  absent = page_3;
  from_swap = omega (arith, paging_swp_arith 0x100);
  oldest = refl;
  free_swap = refl;
  apart = omega arith;
  in_ram =
      rw victim_frame (record { random = omega arith; within = omega arith; small = omega arith });
  in_swap = record { random = omega arith; within = omega arith; small = omega arith };
  swap_room = record { random = omega arith; within = omega arith; small = omega arith };
}

pg_getpage_swaps_example :
    (c' : Pcb) × (pg_getpage process 3 ≡ some (some (paging_fpn (c'.mm.pgd 3)), c'))
    × (c'.mm.pgd 3 ≡ pte_set_fpn 0x100 (paging_fpn 0x8000_0100))
    × (c'.mm.pgd 5 ≡ pte_set_swap 0x8000_0100 0 2)
    × ((j : ℕ) → j ≢ 3 → j ≢ 5 → c'.mm.pgd j ≡ memory.pgd j)
    × (c'.mm.fifo_pgn ≡ 3 ∷ 7 ∷ [])
    × (c'.active_mswp.free_fp_list ≡ 4 ∷ [])
    × ((i : ℕ)
        → i < pagesz
        → c'.mram.storage (paging_fpn 0x8000_0100 * pagesz + i)
          ≡ swap_space.storage (8 * pagesz + i))
    × ((i : ℕ)
        → i < pagesz
        → c'.active_mswp.storage (2 * pagesz + i)
          ≡ ram.storage (paging_fpn 0x8000_0100 * pagesz + i))
pg_getpage_swaps_example = pg_getpage_swaps process 3 5 8 2 (7 ∷ []) (4 ∷ []) process-CanSwap

-- A process with no page.
abbrev new_process : Pcb
new_process = record process { mm = record memory { pgd = λ p. 0 } }

free_pcb_memph_absent_example :
    (get_elem? (free_pcb_memph new_process).mram.free_fp_list 9 ≡ some 0)
    × (get_elem? (free_pcb_memph new_process).mram.free_fp_list (max_pgn + 9) ≡ none)
    × ((free_pcb_memph new_process).active_mswp ≡ swap_space)
free_pcb_memph_absent_example = free_pcb_memph_absent new_process 9 (λ j b. refl) (omega arith)

print_pgtbl-Lists_example :
    (lines : List Printed) × (print_pgtbl process 0 minus_one
      ≡ some (0, printf "print_pgtbl: %d - %d" (0 ∷ 256 ∷ []) ∷ printf "\n" [] ∷ lines))
    × Lists lines process 0 1
print_pgtbl-Lists_example = print_pgtbl-Lists process area refl

nothing_free :
    print_list_rg [] ≡ (minus_one, printf "print_list_rg: " [] ∷ printf "NULL list\n" [] ∷ [])
unfolding print_list_rg
nothing_free = refl
