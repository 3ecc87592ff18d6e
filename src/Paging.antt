-- ===== src/Paging.antt =====
-- include/bitops.h and the macros of include/mm.h. A `uint32_t` is a number below 2 ^ 32, and an
-- `int` is its bit pattern, also below 2 ^ 32; `<<` drops the bits above bit 31.
pub mod Pte
pub mod Arith
pub mod Address
pub mod Log
pub mod PteFields
mod Tests
use hk232_assignment_os.Base.{
  ℕ, ◌+◌, ◌-◌, ◌*◌, ◌/◌, ◌%◌, ◌^◌, bit_and, bit_or, Bool, not, ◌==◌, ltb, leb, if◌then◌else◌,
}

-- The `int` -1, and whether an `int` is negative.
abbrev pub minus_one : ℕ
minus_one = 2 ^ 32 - 1

abbrev pub is_neg : ℕ → Bool
is_neg x = leb (2 ^ 31) x

-- `<` on `int`.
abbrev pub slt : ℕ → ℕ → Bool
slt a b = ltb ((a + 2 ^ 31) % 2 ^ 32) ((b + 2 ^ 31) % 2 ^ 32)

abbrev pub lnot : ℕ → ℕ
lnot m = 2 ^ 32 - 1 - m

abbrev pub div_round_up : ℕ → ℕ → ℕ
div_round_up n d = (n + d - 1) / d

abbrev pub bit : ℕ → ℕ
bit nr = 1 * 2 ^ nr

abbrev pub genmask : ℕ → ℕ → ℕ
genmask h l = bit_and (lnot 0 * 2 ^ l % 2 ^ 32) (lnot 0 / 2 ^ (32 - h - 1))

abbrev nbits2 : ℕ → ℕ
nbits2 n = if bit_and n 2 == 0 then 0 else 1

abbrev nbits4 : ℕ → ℕ
nbits4 n = if bit_and n 0xC == 0 then nbits2 n else 2 + nbits2 (n / 2 ^ 2)

abbrev nbits8 : ℕ → ℕ
nbits8 n = if bit_and n 0xF0 == 0 then nbits4 n else 4 + nbits4 (n / 2 ^ 4)

abbrev nbits16 : ℕ → ℕ
nbits16 n = if bit_and n 0xFF00 == 0 then nbits8 n else 8 + nbits8 (n / 2 ^ 8)

abbrev nbits32 : ℕ → ℕ
nbits32 n = if bit_and n 0xFFFF_0000 == 0 then nbits16 n else 16 + nbits16 (n / 2 ^ 16)

abbrev pub nbits : ℕ → ℕ
nbits n = if n == 0 then 0 else nbits32 n

abbrev pub cpu_bus_width : ℕ
cpu_bus_width = 22

abbrev pub pagesz : ℕ
pagesz = 256

abbrev pub memramsz : ℕ
memramsz = bit 10

abbrev pub memswpsz : ℕ
memswpsz = bit 14

abbrev pub max_pgn : ℕ
max_pgn = div_round_up (bit cpu_bus_width) pagesz

abbrev pub present_mask : ℕ
present_mask = bit 31

abbrev pub swapped_mask : ℕ
swapped_mask = bit 30

abbrev pub dirty_mask : ℕ
dirty_mask = bit 28

abbrev pub pte_fpn_mask : ℕ
pte_fpn_mask = genmask 12 0

abbrev pub pte_swptyp_mask : ℕ
pte_swptyp_mask = genmask 4 0

abbrev pub pte_swpoff_mask : ℕ
pte_swpoff_mask = genmask 25 5

unfoldable pub setbit : ℕ → ℕ → ℕ
setbit v mask = bit_or v mask

unfoldable pub clrbit : ℕ → ℕ → ℕ
clrbit v mask = bit_and v (lnot mask)

unfoldable pub setval : ℕ → ℕ → ℕ → ℕ → ℕ
setval v value mask offst =
    bit_or (bit_and v (lnot mask)) (bit_and (value * 2 ^ offst % 2 ^ 32) mask)

unfoldable pub getval : ℕ → ℕ → ℕ → ℕ
getval v mask offst = bit_and v mask / 2 ^ offst

abbrev pub offst_mask : ℕ
offst_mask = genmask (nbits pagesz - 1) 0

abbrev pub pgn_mask : ℕ
pgn_mask = genmask (cpu_bus_width - 1) (nbits pagesz)

-- PAGING_FPN_MASK, which is about a physical address and not about a page table entry.
abbrev pub fpn_mask : ℕ
fpn_mask = genmask (nbits memramsz - 1) (nbits pagesz)

abbrev pub swp_mask : ℕ
swp_mask = genmask (nbits memswpsz - 1) (nbits pagesz)

unfoldable pub paging_offst : ℕ → ℕ
unfolding getval
paging_offst x = getval x offst_mask 0

unfoldable pub paging_pgn : ℕ → ℕ
unfolding getval
paging_pgn x = getval x pgn_mask (nbits pagesz)

unfoldable pub paging_fpn : ℕ → ℕ
unfolding getval
paging_fpn x = getval x fpn_mask (nbits pagesz)

unfoldable pub paging_swp : ℕ → ℕ
paging_swp pte = bit_and pte swp_mask / 2 ^ 5

unfoldable pub page_present : ℕ → Bool
page_present pte = not (bit_and pte present_mask == 0)

-- `/` on `int` by a positive divisor: C divides towards zero.
unfoldable pub sdiv : ℕ → ℕ → ℕ
sdiv a d = if is_neg a then (2 ^ 32 - (2 ^ 32 - a) / d) % 2 ^ 32 else a / d

-- PAGING_PAGE_ALIGNSZ in `int` arithmetic.
unfoldable pub page_alignsz : ℕ → ℕ
unfolding sdiv
page_alignsz sz = sdiv ((sz + pagesz - 1) % 2 ^ 32) pagesz * pagesz % 2 ^ 32

-- From `int` to `unsigned long`, which has 64 bits.
abbrev pub to_ulong : ℕ → ℕ
to_ulong x = if is_neg x then x + (2 ^ 64 - 2 ^ 32) else x

-- From `unsigned long` to `int`.
abbrev pub to_int : ℕ → ℕ
to_int x = x % 2 ^ 32

-- The rounds of a loop that counts an `int` from 0 up to `n`.
abbrev pub rounds : ℕ → ℕ
rounds n = if is_neg n then 0 else n
