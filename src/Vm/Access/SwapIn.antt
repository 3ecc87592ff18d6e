-- ===== src/Vm/Access/SwapIn.antt =====
-- The exchange of a victim for a page that is not present, in `pg_getpage`.
use hk232_assignment_os.Base.{
  ℕ, ◌+◌, ◌*◌, ◌<◌, ◌≡◌, ◌≢◌, refl, true, false, ltb, some, List, [], ◌∷◌, ◌++◌, arith, update,
  update_ne,
}
use hk232_assignment_os.Paging.{max_pgn, pagesz, paging_fpn, paging_swp, page_present}
use hk232_assignment_os.Paging.Pte.{pte_set_fpn, pte_set_swap}
use hk232_assignment_os.Memphy.{Memphy, get_freefp}
use hk232_assignment_os.Pcb.{Mm, Pcb}
use hk232_assignment_os.Mm.{enlist_pgn_node}
use hk232_assignment_os.Mm.Swap.{HoldsFrame, pasted, swap_cp_page_lem, find_victim_last}
use hk232_assignment_os.Vm.Access.{pg_getpage, fault_in, bring_in}

-- What the code works with: the page and its victim, the victim's frame, the swap frame that the
-- page is fetched from and the free one that the victim goes to.
pub record CanSwap (c : Pcb) (pgn vic tgt swp : ℕ) (older rest : List ℕ) : Type 0 where
  pub page_in_table : pgn < max_pgn
  pub victim_in_table : vic < max_pgn
  pub different : vic ≢ pgn
  pub absent : page_present (c.mm.pgd pgn) ≡ false
  pub from_swap : paging_swp (c.mm.pgd pgn) ≡ tgt
  pub oldest : c.mm.fifo_pgn ≡ older ++ vic ∷ []
  pub free_swap : c.active_mswp.free_fp_list ≡ swp ∷ rest
  pub apart : tgt ≢ swp
  pub in_ram : HoldsFrame c.mram (paging_fpn (c.mm.pgd vic))
  pub in_swap : HoldsFrame c.active_mswp tgt
  pub swap_room : HoldsFrame c.active_mswp swp

module _ (c : Pcb) (pgn vic tgt swp : ℕ) (older rest : List ℕ)
    (h : CanSwap c pgn vic tgt swp older rest) where
  abbrev frame : ℕ
  frame = paging_fpn (c.mm.pgd vic)

  -- The devices after the two copies.
  abbrev swap_after : Memphy
  swap_after =
      pasted (record c.active_mswp { free_fp_list = rest }) c.mram.storage (frame * pagesz + 0)
        (swp * pagesz + 0) pagesz

  abbrev ram_after : Memphy
  ram_after = pasted c.mram swap_after.storage (tgt * pagesz + 0) (frame * pagesz + 0) pagesz

  abbrev mm_after : Mm
  mm_after = record c.mm {
    pgd =
        update (update c.mm.pgd vic (pte_set_swap (c.mm.pgd vic) 0 swp)) pgn
          (pte_set_fpn (c.mm.pgd pgn) frame);
    fifo_pgn = pgn ∷ older;
  }

  abbrev after : Pcb
  after = record c { mm = mm_after; mram = ram_after; active_mswp = swap_after }

  first_copy : HoldsFrame (record c.active_mswp { free_fp_list = rest }) swp
  first_copy = record {
    random = h.swap_room.random;
    within = h.swap_room.within;
    small = h.swap_room.small;
  }

  second_copy : HoldsFrame swap_after tgt
  second_copy = record {
    random = h.in_swap.random;
    within = h.in_swap.within;
    small = h.in_swap.small;
  }

  bring_in_lem :
      bring_in
        (record c {
          mm = record c.mm { fifo_pgn = older };
          active_mswp = record c.active_mswp { free_fp_list = rest };
        })
        pgn
        tgt
        vic
        swp
      ≡ some after
  unfolding bring_in enlist_pgn_node
  bring_in_lem =
      let v : ltb vic max_pgn ≡ true = ground (arith, h.victim_in_table) in
      let p : ltb pgn max_pgn ≡ true = ground (arith, h.page_in_table) in
      let keep = update_ne c.mm.pgd vic pgn (pte_set_swap (c.mm.pgd vic) 0 swp) h.different in
      rw v (
        rw
          (swap_cp_page_lem c.mram (record c.active_mswp { free_fp_list = rest }) frame swp h.in_ram
            first_copy)
          (rw (swap_cp_page_lem swap_after c.mram tgt frame second_copy h.in_ram) (rw p (rw keep))))

  get_free_swap :
      get_freefp c.active_mswp ≡ some (swp, record c.active_mswp { free_fp_list = rest })
  unfolding get_freefp
  get_free_swap = rw (h.free_swap, get_freefp)

  fault_in_lem : fault_in c pgn (c.mm.pgd pgn) ≡ some (some after, after)
  unfolding fault_in
  fault_in_lem =
      rw (find_victim_last c.mm older vic h.oldest, fault_in)
        (rw (get_free_swap, fault_in) (rw h.from_swap (rw bring_in_lem)))

  pg_getpage_lem : pg_getpage c pgn ≡ some (some (paging_fpn (after.mm.pgd pgn)), after)
  unfolding pg_getpage
  pg_getpage_lem =
      let p : ltb pgn max_pgn ≡ true = ground (arith, h.page_in_table) in
      rw p (rw h.absent (rw fault_in_lem (rw p)))

-- `pg_getpage` for a page that is not present, with a page on the FIFO list to evict, a free swap
-- frame, random access devices that hold the frames concerned, and a swap frame to fetch from
-- that is not the free one: the page gets the victim's frame with its content from swap, the
-- victim's content goes to the free swap frame, both entries say so, the page is the newest of
-- the FIFO list, and no other entry changes.
pub pg_getpage_swaps :
    (c : Pcb) (pgn vic tgt swp : ℕ) (older rest : List ℕ)
    → CanSwap c pgn vic tgt swp older rest
    → (c' : Pcb) × (pg_getpage c pgn ≡ some (some (paging_fpn (c'.mm.pgd pgn)), c'))
      × (c'.mm.pgd pgn ≡ pte_set_fpn (c.mm.pgd pgn) (paging_fpn (c.mm.pgd vic)))
      × (c'.mm.pgd vic ≡ pte_set_swap (c.mm.pgd vic) 0 swp)
      × ((j : ℕ) → j ≢ pgn → j ≢ vic → c'.mm.pgd j ≡ c.mm.pgd j)
      × (c'.mm.fifo_pgn ≡ pgn ∷ older)
      × (c'.active_mswp.free_fp_list ≡ rest)
      × ((i : ℕ)
          → i < pagesz
          → c'.mram.storage (paging_fpn (c.mm.pgd vic) * pagesz + i)
            ≡ c.active_mswp.storage (tgt * pagesz + i))
      × ((i : ℕ)
          → i < pagesz
          → c'.active_mswp.storage (swp * pagesz + i)
            ≡ c.mram.storage (paging_fpn (c.mm.pgd vic) * pagesz + i))
pg_getpage_swaps c pgn vic tgt swp older rest h = (
  after c pgn vic tgt swp older rest h,
  pg_getpage_lem c pgn vic tgt swp older rest h,
  ground arith,
  ground (arith, h.different),
  (λ j np nv. ground arith),
  refl,
  refl,
  (λ i b. ground (arith, h.apart)),
  (λ i b. ground arith),
)
