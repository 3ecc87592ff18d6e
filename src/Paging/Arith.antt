-- ===== src/Paging/Arith.antt =====
-- The macros of include/mm.h as arithmetic on the fields of a word.
use hk232_assignment_os.Base.{ℕ, ◌+◌, ◌*◌, ◌/◌, ◌%◌, ◌^◌, ◌<◌, ◌≡◌, not, ◌==◌, arith}
use hk232_assignment_os.Base.Bits.{bit_and_field, bit_and_outside, bit_or_fill, bit_or_bit}
use hk232_assignment_os.Paging.{
  setbit, clrbit, setval, paging_offst, paging_pgn, paging_fpn, paging_swp, page_present,
  present_mask, swapped_mask, dirty_mask, pte_fpn_mask, pte_swptyp_mask, pte_swpoff_mask, getval,
}
use hk232_assignment_os.Paging.Pte.{pte_set_swap, pte_set_fpn}

pub paging_pgn_arith : (x : ℕ) → paging_pgn x ≡ x / 256 % 16384
unfolding paging_pgn
paging_pgn_arith x = omega (arith, bit_and_field 8 14 x)

pub paging_offst_arith : (x : ℕ) → paging_offst x ≡ x % 256
unfolding paging_offst
paging_offst_arith x = omega (arith, bit_and_field 0 8 x)

pub paging_fpn_arith : (x : ℕ) → paging_fpn x ≡ x / 256 % 4
unfolding paging_fpn
paging_fpn_arith x = omega (arith, bit_and_field 8 2 x)

pub paging_swp_arith : (x : ℕ) → paging_swp x ≡ x / 256 % 64 * 8
unfolding paging_swp
paging_swp_arith x = omega (arith, bit_and_field 8 6 x)

pub page_present_arith : (x : ℕ) → page_present x ≡ not (x / 2 ^ 31 % 2 == 0)
unfolding page_present
page_present_arith x = ground (arith, bit_and_field 31 1 x)

pub set_present_arith : (v : ℕ) → v < 2 ^ 32 → setbit v present_mask ≡ 2 ^ 31 + v % 2 ^ 31
unfolding setbit
set_present_arith v h = omega (arith, bit_or_bit 31 v)

pub set_swapped_arith : (v : ℕ) → setbit v swapped_mask ≡ v / 2 ^ 31 * 2 ^ 31 + 2 ^ 30 + v % 2 ^ 30
unfolding setbit
set_swapped_arith v = omega (arith, bit_or_bit 30 v)

pub clear_swapped_arith :
    (v : ℕ) → v < 2 ^ 32 → clrbit v swapped_mask ≡ v / 2 ^ 31 * 2 ^ 31 + v % 2 ^ 30
unfolding clrbit
clear_swapped_arith v h = omega (arith, bit_and_outside 30 31 1 v (omega arith))

pub clear_dirty_arith :
    (v : ℕ) → v < 2 ^ 32 → clrbit v dirty_mask ≡ v / 2 ^ 29 * 2 ^ 29 + v % 2 ^ 28
unfolding clrbit
clear_dirty_arith v h = omega (arith, bit_and_outside 28 29 3 v (omega arith))

pub set_fpn_arith :
    (v fpn : ℕ) → v < 2 ^ 32 → setval v fpn pte_fpn_mask 0 ≡ v / 2 ^ 13 * 2 ^ 13 + fpn % 2 ^ 13
unfolding setval
set_fpn_arith v fpn h = ground (
  arith,
  bit_and_outside 0 13 19 v (omega arith),
  bit_and_field 0 13 (fpn * 2 ^ 0 % 2 ^ 32),
  bit_or_fill 0 13 (v / 2 ^ 13 % 2 ^ 19) (fpn % 2 ^ 13) 0,
)

pub set_swptyp_arith :
    (v t : ℕ) → v < 2 ^ 32 → setval v t pte_swptyp_mask 0 ≡ v / 2 ^ 5 * 2 ^ 5 + t % 2 ^ 5
unfolding setval
set_swptyp_arith v t h = ground (
  arith,
  bit_and_outside 0 5 27 v (omega arith),
  bit_and_field 0 5 (t * 2 ^ 0 % 2 ^ 32),
  bit_or_fill 0 5 (v / 2 ^ 5 % 2 ^ 27) (t % 2 ^ 5) 0,
)

pub set_swpoff_arith :
    (v off : ℕ)
    → v < 2 ^ 32
    → setval v off pte_swpoff_mask 5 ≡ v / 2 ^ 26 * 2 ^ 26 + off % 2 ^ 21 * 2 ^ 5 + v % 2 ^ 5
unfolding setval
set_swpoff_arith v off h = ground (
  arith,
  bit_and_outside 5 26 6 v (omega arith),
  bit_and_field 5 21 (off * 2 ^ 5 % 2 ^ 32),
  bit_or_fill 5 26 (v / 2 ^ 26 % 2 ^ 6) (off % 2 ^ 21) (v % 2 ^ 5),
)

-- The two fields of a page table entry, as the masks of include/mm.h define them.
pub fpn_field_arith : (v : ℕ) → getval v pte_fpn_mask 0 ≡ v % 2 ^ 13
unfolding getval
fpn_field_arith v = omega (arith, bit_and_field 0 13 v)

pub swptyp_field_arith : (v : ℕ) → getval v pte_swptyp_mask 0 ≡ v % 2 ^ 5
unfolding getval
swptyp_field_arith v = omega (arith, bit_and_field 0 5 v)

pub swpoff_field_arith : (v : ℕ) → getval v pte_swpoff_mask 5 ≡ v / 2 ^ 5 % 2 ^ 21
unfolding getval
swpoff_field_arith v = omega (arith, bit_and_field 5 21 v)

-- The entries that the setters leave.
pub pte_set_fpn_arith :
    (pte fpn : ℕ)
    → pte < 2 ^ 32
    → pte_set_fpn pte fpn ≡ 2 ^ 31 + pte / 2 ^ 13 % 2 ^ 17 * 2 ^ 13 + fpn % 2 ^ 13
unfolding pte_set_fpn
pte_set_fpn_arith pte fpn h =
    let a = setbit pte present_mask in
    let b = clrbit a swapped_mask in
    ground (arith, set_present_arith pte h, clear_swapped_arith a, set_fpn_arith b fpn)

pub pte_set_swap_arith :
    (pte t off : ℕ)
    → pte < 2 ^ 32
    → pte_set_swap pte t off
      ≡ 2 ^ 31 + 2 ^ 30 + pte / 2 ^ 26 % 2 ^ 4 * 2 ^ 26 + off % 2 ^ 21 * 2 ^ 5 + t % 2 ^ 5
unfolding pte_set_swap
pte_set_swap_arith pte t off h =
    let a = setbit pte present_mask in
    let b = setbit a swapped_mask in
    let c = setval b t pte_swptyp_mask 0 in
    ground (
      arith,
      set_present_arith pte h,
      set_swapped_arith a,
      set_swptyp_arith b t,
      set_swpoff_arith c off,
    )

-- The entries that `init_pte` leaves on its two setting branches.
pub online_arith :
    (pte fpn : ℕ)
    → pte < 2 ^ 32
    → setval (clrbit (clrbit (setbit pte present_mask) swapped_mask) dirty_mask) fpn pte_fpn_mask 0
      ≡ 2 ^ 31 + pte / 2 ^ 29 % 2 * 2 ^ 29 + pte / 2 ^ 13 % 2 ^ 15 * 2 ^ 13 + fpn % 2 ^ 13
online_arith pte fpn h =
    let a = setbit pte present_mask in
    let b = clrbit a swapped_mask in
    let c = clrbit b dirty_mask in
    ground (
      arith,
      set_present_arith pte h,
      clear_swapped_arith a,
      clear_dirty_arith b,
      set_fpn_arith c fpn,
    )

pub swapped_arith :
    (pte t off : ℕ)
    → pte < 2 ^ 32
    → setval
        (setval
          (clrbit (setbit (setbit pte present_mask) swapped_mask) dirty_mask)
          t
          pte_swptyp_mask
          0)
        off
        pte_swpoff_mask
        5
      ≡ 2 ^ 31
        + 2 ^ 30
        + pte / 2 ^ 29 % 2 * 2 ^ 29
        + pte / 2 ^ 26 % 4 * 2 ^ 26
        + off % 2 ^ 21 * 2 ^ 5
        + t % 2 ^ 5
swapped_arith pte t off h =
    let a = setbit pte present_mask in
    let b = setbit a swapped_mask in
    let c = clrbit b dirty_mask in
    let d = setval c t pte_swptyp_mask 0 in
    ground (
      arith,
      set_present_arith pte h,
      set_swapped_arith a,
      clear_dirty_arith b,
      set_swptyp_arith c t,
      set_swpoff_arith d off,
    )
