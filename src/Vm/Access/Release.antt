-- ===== src/Vm/Access/Release.antt =====
-- What `free_pcb_memph` gives back.
use hk232_assignment_os.Base.{
  ℕ, zero, suc, ◌+◌, ◌<◌, ◌≡◌, refl, false, some, List, ◌∷◌, get_elem?, arith, Bool-cases, inl, inr,
  ltb, ltb→lt, ltb_false→le,
}
use hk232_assignment_os.Paging.{max_pgn, paging_fpn, page_present}
use hk232_assignment_os.Paging.Arith.{paging_fpn_arith, page_present_arith}
use hk232_assignment_os.Memphy.{Memphy, put_freefp}
use hk232_assignment_os.Pcb.{Pcb}
use hk232_assignment_os.Vm.Access.{free_loop, free_pcb_memph}

-- `n` entries of 0 before a list.
abbrev zeros : ℕ → List ℕ → List ℕ
zeros zero l = l
zeros (suc n) l = zeros n (0 ∷ l)

get_elem?-zeros_beyond : (n i : ℕ) (l : List ℕ) → get_elem? (zeros n l) (n + i) ≡ get_elem? l i
get_elem?-zeros_beyond zero i l = let e : 0 + i ≡ i = omega arith in rw e refl
get_elem?-zeros_beyond (suc n) i l =
    let e : suc n + i ≡ n + suc i = omega arith in rw e (get_elem?-zeros_beyond n (suc i) (0 ∷ l))

get_elem?-zeros : (n i : ℕ) (l : List ℕ) → i < n → get_elem? (zeros n l) i ≡ some 0
get_elem?-zeros zero i l h = absurd (omega arith)
get_elem?-zeros (suc n) i l h = elim (Bool-cases (ltb i n)) [
  | inl before ↦ get_elem?-zeros n i (0 ∷ l) (ltb→lt i n before)
  | inr last ↦
      let e : i ≡ n + 0 = omega (arith, ltb_false→le i n last) in
      rw e (get_elem?-zeros_beyond n 0 (0 ∷ l))
]

free_loop_absent :
    (n k : ℕ) (pgd : ℕ → ℕ) (mram mswp : Memphy)
    → ((j : ℕ) → j < k + n → pgd j ≡ 0)
    → free_loop n k pgd mram mswp ≡ (record mram { free_fp_list = zeros n mram.free_fp_list }, mswp)
unfolding free_loop put_freefp
free_loop_absent zero k pgd mram mswp h = refl
free_loop_absent (suc n) k pgd mram mswp h =
    let none_here : page_present (pgd k) ≡ false =
      rw (h k (omega arith)) (ground (arith, page_present_arith 0)) in
    let frame : paging_fpn (pgd k) ≡ 0 =
      rw (h k (omega arith)) (omega (arith, paging_fpn_arith 0)) in
    rw none_here (
      rw frame (
        free_loop_absent n (k + 1) pgd (record mram { free_fp_list = 0 ∷ mram.free_fp_list }) mswp
          (λ j b. h j (omega arith))))

-- For a process whose page table is as `init_mm` leaves it, so that it holds no frame,
-- `free_pcb_memph` puts frame 0 on the free list of RAM once for each page of the table, and
-- leaves the swap device as it is.
pub free_pcb_memph_absent :
    (c : Pcb) (i : ℕ)
    → ((j : ℕ) → j < max_pgn → c.mm.pgd j ≡ 0)
    → i < max_pgn
    → (get_elem? (free_pcb_memph c).mram.free_fp_list i ≡ some 0)
      × (get_elem? (free_pcb_memph c).mram.free_fp_list (max_pgn + i)
          ≡ get_elem? c.mram.free_fp_list i)
      × ((free_pcb_memph c).active_mswp ≡ c.active_mswp)
unfolding free_pcb_memph
free_pcb_memph_absent c i absent h =
    let e =
      free_loop_absent max_pgn 0 c.mm.pgd c.mram c.active_mswp (λ j b. absent j (omega arith)) in
    rw e (
      get_elem?-zeros max_pgn i c.mram.free_fp_list h,
      get_elem?-zeros_beyond max_pgn i c.mram.free_fp_list,
      refl,
    )
