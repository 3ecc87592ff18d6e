-- ===== src/TlbCache.antt =====
-- src/cpu-tlbcache.c: the TLB as a device. A `BYTE` is a signed char, as on the platform that the
-- makefile builds for, so a byte of 128 or more that is read as an `int` is negative. `none` is a
-- fault: an access out of bounds, or the division by a cache of no lines.
pub mod Lines
pub mod Answers
mod Tests
use hk232_assignment_os.Base.{
  ℕ, zero, suc, ◌+◌, ◌-◌, ◌*◌, ◌/◌, ◌%◌, ◌^◌, Bool, not, ◌&&◌, ◌||◌, ◌==◌, ltb, leb, if◌then◌else◌,
  Option, none, some, bit_or, ◌>>=◌, ◌>>◌, check,
}
use hk232_assignment_os.Paging.{minus_one, is_neg, paging_fpn, page_present}
use hk232_assignment_os.Memphy.{Memphy, load, store}

abbrev pub cache_line_size : ℕ
cache_line_size = 6

-- The `int` value of a byte, and an `int` shifted to the left.
abbrev pub sign_extend : ℕ → ℕ
sign_extend b = if leb 128 b then b + (2 ^ 32 - 2 ^ 8) else b

abbrev pub shl : ℕ → ℕ → ℕ
shl x k = x * 2 ^ k % 2 ^ 32

-- `%` on `int` by a positive divisor: the result has the sign of the dividend.
abbrev pub srem : ℕ → ℕ → ℕ
srem a d = if is_neg a then (2 ^ 32 - (2 ^ 32 - a) % d) % 2 ^ 32 else a % d

-- `pgnum % cache_size`, where the bytes of the page's line start.
unfoldable pub line_of : Memphy → ℕ → Option ℕ
line_of mp pgnum = do
  check (not (mp.maxsz / cache_line_size == 0))
  some (srem pgnum (mp.maxsz / cache_line_size))

abbrev pub load_int : Memphy → ℕ → Option ℕ
load_int mp addr = load mp addr >>= λ b. some (sign_extend b)

-- The return value and what is stored through `data` (`none`: nothing).
unfoldable pub tlb_cache_read : Memphy → ℕ → ℕ → Option (ℕ × Option ℕ)
tlb_cache_read mp pid pgnum = do
  tlbnb ← line_of mp pgnum
  plb_pid ← load_int mp tlbnb
  p1 ← load_int mp (tlbnb + 1)
  p2 ← load_int mp (tlbnb + 2)
  let hit : Option (ℕ × Option ℕ) = load_int mp (tlbnb + 3) >>= λ b3.
      load_int mp (tlbnb + 4) >>= λ b4. load_int mp (tlbnb + 5) >>= λ b5.
      let plb_pte = bit_or (bit_or (shl b3 16) (shl b4 8)) b5 in
      some (
        if page_present plb_pte
        then (0, some (paging_fpn plb_pte % 2 ^ 8))
        else (minus_one, some (2 ^ 8 - 1)))
  if (pid == plb_pid) && (pgnum == bit_or (shl p1 8) p2) then hit else some (minus_one, none)

-- The return value and the device. A negative page number is refused, so `>>` is a division.
unfoldable pub tlb_cache_write : Memphy → ℕ → ℕ → ℕ → Option (ℕ × Memphy)
tlb_cache_write mp pid pgnum pte =
    let written : Option (ℕ × Memphy) = (do
      tlbnb ← line_of mp pgnum
      m0 ← store mp tlbnb (pid % 2 ^ 8)
      m1 ← store m0 (tlbnb + 1) (pgnum / 2 ^ 8 % 2 ^ 8)
      m2 ← store m1 (tlbnb + 2) (pgnum % 2 ^ 8)
      m3 ← store m2 (tlbnb + 3) (pte / 2 ^ 16 % 2 ^ 8)
      m4 ← store m3 (tlbnb + 4) (pte / 2 ^ 8 % 2 ^ 8)
      m5 ← store m4 (tlbnb + 5) (pte % 2 ^ 8)
      some (0, m5)) in
    if is_neg pgnum then some (minus_one, mp) else written

-- The return value and the byte.
unfoldable pub tlbmemphy_read : Memphy → ℕ → Option (ℕ × ℕ)
tlbmemphy_read mp addr = load mp addr >>= λ value. some (0, value)

unfoldable pub tlbmemphy_write : Memphy → ℕ → ℕ → Option (ℕ × Memphy)
tlbmemphy_write mp addr byte = store mp addr byte >>= λ mp'. some (0, mp')

-- `block` is what `malloc` left. The return value and the device.
unfoldable pub init_tlbmemphy : Memphy → (ℕ → ℕ) → ℕ → ℕ × Memphy
init_tlbmemphy mp block max_size =
    if is_neg max_size || (max_size == 0)
    then (minus_one, mp)
    else (0, record mp { storage = block; maxsz = max_size; rdmflg = 1 })
