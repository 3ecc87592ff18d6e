-- ===== src/Paging/Pte.antt =====
-- Page table entries: `init_pte`, `pte_set_swap` and `pte_set_fpn` of src/mm.c.
use hk232_assignment_os.Base.{ℕ, ◌==◌, if◌then◌else◌}
use hk232_assignment_os.Paging.{
  minus_one, present_mask, swapped_mask, dirty_mask, pte_fpn_mask, pte_swptyp_mask, pte_swpoff_mask,
  setbit, clrbit, setval,
}

-- The new entry; the functions return 0.
unfoldable pub pte_set_swap : ℕ → ℕ → ℕ → ℕ
pte_set_swap pte swptyp swpoff =
    let p = setbit (setbit pte present_mask) swapped_mask in
    setval (setval p swptyp pte_swptyp_mask 0) swpoff pte_swpoff_mask 5

unfoldable pub pte_set_fpn : ℕ → ℕ → ℕ
pte_set_fpn pte fpn = setval (clrbit (setbit pte present_mask) swapped_mask) fpn pte_fpn_mask 0

-- The return value and the new entry.
unfoldable pub init_pte : ℕ → ℕ → ℕ → ℕ → ℕ → ℕ → ℕ → ℕ × ℕ
init_pte pte pre fpn drt swp swptyp swpoff =
    if pre == 0
    then (0, pte)
    else (if swp == 0
        then (if fpn == 0 then (minus_one, pte) else (
          0,
          setval (clrbit (clrbit (setbit pte present_mask) swapped_mask) dirty_mask) fpn
              pte_fpn_mask 0,
        ))
        else (
          0,
          setval
              (setval (clrbit (setbit (setbit pte present_mask) swapped_mask) dirty_mask) swptyp
                pte_swptyp_mask 0)
              swpoff pte_swpoff_mask 5,
        ))
