-- ===== src/Paging/PteFields.antt =====
-- What the setters of page table entries store, and what the readers of src/mm-vm.c get back.
use hk232_assignment_os.Base.{
  ℕ, ◌+◌, ◌*◌, ◌/◌, ◌%◌, ◌^◌, ◌<◌, ◌≡◌, bit_and, if◌then◌else◌, Bool, true, false, not, ◌==◌, arith,
}
use hk232_assignment_os.Base.Bits.{bit_and_field}
use hk232_assignment_os.Paging.{
  minus_one, swapped_mask, pte_fpn_mask, pte_swptyp_mask, pte_swpoff_mask, getval, paging_fpn,
  paging_swp, page_present,
}
use hk232_assignment_os.Paging.Pte.{pte_set_swap, pte_set_fpn, init_pte}
use hk232_assignment_os.Paging.Arith.{
  paging_fpn_arith, paging_swp_arith, page_present_arith, fpn_field_arith, swptyp_field_arith,
  swpoff_field_arith, pte_set_fpn_arith, pte_set_swap_arith, online_arith, swapped_arith,
}

-- The swapped bit of an entry.
abbrev pub is_swapped : ℕ → Bool
is_swapped pte = not (bit_and pte swapped_mask == 0)

is_swapped_arith : (x : ℕ) → is_swapped x ≡ not (x / 2 ^ 30 % 2 == 0)
is_swapped_arith x = ground (arith, bit_and_field 30 1 x)

-- `pte_set_fpn` on any 32-bit entry: the result is present, not swapped, has the low 13 bits of
-- the frame number in its FPN field, and keeps bits 13 to 29.
pub pte_set_fpn_fields :
    (pte fpn : ℕ)
    → pte < 2 ^ 32
    → let p = pte_set_fpn pte fpn in
      (p < 2 ^ 32)
      × (page_present p ≡ true)
      × (is_swapped p ≡ false)
      × (getval p pte_fpn_mask 0 ≡ fpn % 2 ^ 13)
      × (p / 2 ^ 13 % 2 ^ 17 ≡ pte / 2 ^ 13 % 2 ^ 17)
pte_set_fpn_fields pte fpn h = ground (
  arith,
  pte_set_fpn_arith pte fpn h,
  page_present_arith (pte_set_fpn pte fpn),
  is_swapped_arith (pte_set_fpn pte fpn),
  fpn_field_arith (pte_set_fpn pte fpn),
)

-- `pte_set_swap` on any 32-bit entry: the result has the present and the swapped bit set, the
-- swap type and offset in their fields as far as they fit, and bits 26 to 29 kept.
pub pte_set_swap_fields :
    (pte t off : ℕ)
    → pte < 2 ^ 32
    → let p = pte_set_swap pte t off in
      (p < 2 ^ 32)
      × (page_present p ≡ true)
      × (is_swapped p ≡ true)
      × (getval p pte_swptyp_mask 0 ≡ t % 2 ^ 5)
      × (getval p pte_swpoff_mask 5 ≡ off % 2 ^ 21)
      × (p / 2 ^ 26 % 2 ^ 4 ≡ pte / 2 ^ 26 % 2 ^ 4)
pte_set_swap_fields pte t off h = ground (
  arith,
  pte_set_swap_arith pte t off h,
  page_present_arith (pte_set_swap pte t off),
  is_swapped_arith (pte_set_swap pte t off),
  swptyp_field_arith (pte_set_swap pte t off),
  swpoff_field_arith (pte_set_swap pte t off),
)

-- PAGING_FPN on a 32-bit entry set by `pte_set_fpn` reads bits 8 and 9 of the frame number, and
-- not the number.
pub paging_fpn-pte_set_fpn :
    (pte fpn : ℕ) → pte < 2 ^ 32 → paging_fpn (pte_set_fpn pte fpn) ≡ fpn / 256 % 4
paging_fpn-pte_set_fpn pte fpn h =
    omega (arith, pte_set_fpn_arith pte fpn h, paging_fpn_arith (pte_set_fpn pte fpn))

-- PAGING_SWP on a 32-bit entry set by `pte_set_swap` gives the swap offset without its low three
-- bits and without those from bit 9 on.
pub paging_swp-pte_set_swap :
    (pte t off : ℕ) → pte < 2 ^ 32 → paging_swp (pte_set_swap pte t off) ≡ off / 8 % 64 * 8
paging_swp-pte_set_swap pte t off h =
    omega (arith, pte_set_swap_arith pte t off h, paging_swp_arith (pte_set_swap pte t off))

-- `init_pte` on every branch, for a 32-bit entry: an absent page and a present one without a
-- frame leave the entry alone, the latter with -1; else the status bits and the fields are set as
-- arithmetic says, the dirty bit is cleared, and the other bits are kept.
pub init_pte_branches :
    (pte pre fpn drt swp t off : ℕ)
    → pte < 2 ^ 32
    → init_pte pte pre fpn drt swp t off ≡ (
        if pre == 0
        then (0, pte)
        else (if swp == 0
            then (if fpn == 0 then (minus_one, pte) else (
              0,
              2 ^ 31 + pte / 2 ^ 29 % 2 * 2 ^ 29 + pte / 2 ^ 13 % 2 ^ 15 * 2 ^ 13 + fpn % 2 ^ 13,
            ))
            else (
              0,
              2 ^ 31
                  + 2 ^ 30
                  + pte / 2 ^ 29 % 2 * 2 ^ 29
                  + pte / 2 ^ 26 % 4 * 2 ^ 26
                  + off % 2 ^ 21 * 2 ^ 5
                  + t % 2 ^ 5,
            )))
unfolding init_pte
init_pte_branches pte pre fpn drt swp t off h =
    rw (online_arith pte fpn h, swapped_arith pte t off h)
