-- ===== src/Memphy/Storage.antt =====
-- Reading and writing a device.
use hk232_assignment_os.Base.{
  ℕ, zero, suc, ◌+◌, ◌%◌, ◌^◌, ◌≤◌, ◌<◌, ◌≡◌, ◌≢◌, ◌==◌, ltb, if◌then◌else◌, none, some, update,
  arith,
}
use native.Mathlib.Nat.{mod-eq_of_lt, mod_self}
use hk232_assignment_os.Paging.{minus_one}
use hk232_assignment_os.Memphy.{Memphy, csr_loop, mv_csr, read, write, seq_read, seq_write}

-- A random access device gives back the byte last written at an address, and a write changes no
-- other byte.
pub read-write :
    (mp : Memphy) (a b v : ℕ)
    → mp.rdmflg ≢ 0
    → a < mp.maxsz
    → b < mp.maxsz
    → let mp' = record mp { storage = update mp.storage a v } in
      (write mp a v ≡ some (0, mp'))
      × (read mp' b ≡ some (0, some (if a == b then v else mp.storage b), mp'))
unfolding read write
read-write mp a b v r ha hb = (ground arith, ground arith)

-- Past its end a random access device faults, on a read and on a write alike.
pub access_out_of_bounds :
    (mp : Memphy) (a v : ℕ)
    → mp.rdmflg ≢ 0
    → mp.maxsz ≤ a
    → (read mp a ≡ none) × (write mp a v ≡ none)
unfolding read write
access_out_of_bounds mp a v r ha = (ground arith, ground arith)

-- A sequential device refuses every access: `MEMPHY_read` and `MEMPHY_write` pass it to the
-- sequential routines, which return -1 unless `rdmflg` is set.
pub sequential_refused :
    (mp : Memphy) (a v : ℕ)
    → mp.rdmflg ≡ 0
    → (read mp a ≡ some (minus_one, none, mp)) × (write mp a v ≡ some (minus_one, mp))
unfolding read write seq_read seq_write
sequential_refused mp a v r = (ground arith, ground arith)

-- The cursor loop from a cursor that equals the step count.
csr_loop_lem :
    (fuel maxsz offset k : ℕ)
    → k + fuel ≡ maxsz
    → k < maxsz
    → maxsz < 2 ^ 31
    → k ≤ offset
    → offset < 2 ^ 31
    → csr_loop fuel maxsz offset k k ≡ (if ltb offset maxsz then offset else 0)
unfolding csr_loop
csr_loop_lem zero maxsz offset k e hk hm ho hs = absurd (omega arith)
csr_loop_lem (suc zero) maxsz offset k e hk hm ho hs =
    let wrap : (k + 1) % maxsz ≡ 0 = rw (last) (mod_self maxsz) in ground (arith, wrap)
  where
    last : k + 1 ≡ maxsz
    last = omega arith
csr_loop_lem (suc (suc fuel)) maxsz offset k e hk hm ho hs =
    let step : (k + 1) % maxsz ≡ k + 1 = mod-eq_of_lt (omega arith) in
    rw step (ground (arith, csr_loop_lem (suc fuel) maxsz offset (k + 1)))

-- On a device of a positive size, for an offset that is not negative, MEMPHY_mv_csr ends within
-- `maxsz` rounds with the cursor at the offset, or at the start where the offset lies past the
-- end.
pub cursor-mv_csr :
    (mp : Memphy) (offset : ℕ)
    → 0 < mp.maxsz
    → mp.maxsz < 2 ^ 31
    → offset < 2 ^ 31
    → (mv_csr mp offset).cursor ≡ (if ltb offset mp.maxsz then offset else 0)
unfolding mv_csr
cursor-mv_csr mp offset pos hm ho =
    csr_loop_lem mp.maxsz mp.maxsz offset 0 (omega arith) pos hm (omega arith) ho
