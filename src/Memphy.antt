-- ===== src/Memphy.antt =====
-- src/mm-memphy.c, the physical devices. A device is handled by value, so the guards against a
-- null device have no counterpart: os.c passes the addresses of its own structs only.
-- A `BYTE` is its bit pattern, below 256. What `malloc` leaves in a block is an argument.
pub mod Storage
pub mod Frames
mod Tests
use hk232_assignment_os.Base.{
  ℕ, zero, suc, ◌+◌, ◌/◌, ◌%◌, ◌^◌, Bool, true, false, not, ◌&&◌, ◌==◌, ltb, if◌then◌else◌, Option,
  none, some, List, [], ◌∷◌, update, ◌>>=◌, ◌>>◌, check,
}
use hk232_assignment_os.Paging.{minus_one, slt, pagesz}

-- `struct memphy_struct` of include/os-mm.h. `maxsz` is not negative. A list of frames is the
-- list of its `fpn` fields.
pub record Memphy : Type 0 where
  pub storage : ℕ → ℕ
  pub maxsz : ℕ
  pub rdmflg : ℕ
  pub cursor : ℕ
  pub free_fp_list : List ℕ
  pub used_fp_list : List ℕ

-- The accesses to `mp->storage[addr]`.
abbrev pub load : Memphy → ℕ → Option ℕ
load mp addr = if ltb addr mp.maxsz then some (mp.storage addr) else none

abbrev pub store : Memphy → ℕ → ℕ → Option Memphy
store mp addr v =
    if ltb addr mp.maxsz then some (record mp { storage = update mp.storage addr v }) else none

-- The loop of MEMPHY_mv_csr over `cursor` and `numstep`, on fuel.
unfoldable pub csr_loop : ℕ → ℕ → ℕ → ℕ → ℕ → ℕ
csr_loop zero maxsz offset cursor numstep = cursor
csr_loop (suc fuel) maxsz offset cursor numstep =
    let rest = csr_loop fuel maxsz offset ((cursor + 1) % maxsz) (numstep + 1) in
    if slt numstep offset && slt numstep maxsz then rest else cursor

-- At most `maxsz` rounds are made.
unfoldable pub mv_csr : Memphy → ℕ → Memphy
mv_csr mp offset = record mp { cursor = csr_loop mp.maxsz mp.maxsz offset 0 0 }

-- The return value, what is stored through `value` (`none`: nothing), and the device.
unfoldable pub seq_read : Memphy → ℕ → Option (ℕ × Option ℕ × Memphy)
seq_read mp addr =
    if mp.rdmflg == 0
    then some (minus_one, none, mp)
    else (do let mp' = mv_csr mp addr; v ← load mp' addr; some (0, some v, mp'))

unfoldable pub read : Memphy → ℕ → Option (ℕ × Option ℕ × Memphy)
read mp addr =
    if mp.rdmflg == 0 then seq_read mp addr else (do v ← load mp addr; some (0, some v, mp))

unfoldable pub seq_write : Memphy → ℕ → ℕ → Option (ℕ × Memphy)
seq_write mp addr value =
    if mp.rdmflg == 0
    then some (minus_one, mp)
    else (do mp' ← store (mv_csr mp addr) addr value; some (0, mp'))

unfoldable pub write : Memphy → ℕ → ℕ → Option (ℕ × Memphy)
write mp addr v =
    if mp.rdmflg == 0 then seq_write mp addr v else (do mp' ← store mp addr v; some (0, mp'))

-- The nodes that the loop of MEMPHY_format appends.
unfoldable pub format_rest : ℕ → ℕ → List ℕ
format_rest zero iter = []
format_rest (suc left) iter = iter ∷ format_rest left (iter + 1)

-- The first node's `fp_next` is set by the loop only: with one frame it is what `malloc` left,
-- and leads to `garbage`. A `pagesz` of 0 is a division by zero.
unfoldable pub format : List ℕ → Memphy → ℕ → Option (ℕ × Memphy)
unfolding format_rest
format garbage mp pagesz = do
  check (not (pagesz == 0))
  let numfp = mp.maxsz / pagesz
  some (elim numfp [
    | zero ↦ (minus_one, mp)
    | suc zero ↦ (0, record mp { free_fp_list = 0 ∷ garbage })
    | suc (suc n) ↦ (0, record mp { free_fp_list = 0 ∷ format_rest (suc n) 1 })
  ])

-- `none` is the return value -1, with the device as it was.
unfoldable pub get_freefp : Memphy → Option (ℕ × Memphy)
get_freefp mp = elim mp.free_fp_list [
  | [] ↦ none
  | fpn ∷ rest ↦ some (fpn, record mp { free_fp_list = rest })
]

unfoldable pub put_freefp : Memphy → ℕ → Memphy
put_freefp mp fpn = record mp { free_fp_list = fpn ∷ mp.free_fp_list }

-- `raw` is the device before, and `block` and `garbage` are what `malloc` left.
unfoldable pub init_memphy : Memphy → (ℕ → ℕ) → List ℕ → ℕ → ℕ → Option Memphy
init_memphy raw block garbage max_size randomflg = do
  (_, mp) ← format garbage (record raw { storage = block; maxsz = max_size }) pagesz
  let mp' = record mp { rdmflg = if randomflg == 0 then 0 else 1 }
  some (if mp'.rdmflg == 0 then record mp' { cursor = 0 } else mp')
