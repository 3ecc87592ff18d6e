-- ===== src/CpuTlb.antt =====
-- src/cpu-tlb.c: allocation and access through the TLB. Each operation on a process holds
-- `tlb_lock` throughout, so it is one step. `none` is a fault, the use of an unset byte included.
pub mod Hit
pub mod Flush
mod Tests
use hk232_assignment_os.Base.{
  ℕ, zero, suc, ◌+◌, ◌-◌, ◌*◌, ◌/◌, ◌%◌, ◌^◌, Bool, false, not, ◌&&◌, ◌||◌, ◌==◌, ltb, leb,
  if◌then◌else◌, Option, none, some, update, ◌>>=◌, ◌>>◌, check,
}
use hk232_assignment_os.Paging.{
  minus_one, is_neg, pagesz, paging_pgn, paging_offst, paging_fpn, page_present, to_int,
}
use hk232_assignment_os.Memphy
use hk232_assignment_os.Memphy.{Memphy}
use hk232_assignment_os.Pcb.{Pcb}
use hk232_assignment_os.Mm.{get_pte}
use hk232_assignment_os.TlbCache.{
  sign_extend, tlb_cache_read, tlb_cache_write, tlbmemphy_read, tlbmemphy_write,
}
use hk232_assignment_os.Vm.{max_symtbl_sz}
use hk232_assignment_os.Vm.Region.{alloc, free}
use hk232_assignment_os.Vm.Access
use hk232_assignment_os.Vm.Access.{pg_getpage, phyaddr}

abbrev pub entry_size : ℕ
entry_size = 16

abbrev pub valid_offset : ℕ
valid_offset = 12

-- The little-endian number in the first four bytes.
unfoldable pub decode_int : (ℕ → ℕ) → ℕ
decode_int src = src 0 + src 1 * 2 ^ 8 + src 2 * 2 ^ 16 + src 3 * 2 ^ 24

-- The loop of the two flush routines, with its rounds left: the number of entries they count and
-- the device. `entry` is the local array, of which TLBMEMPHY_read fills and TLBMEMPHY_write takes
-- only the first byte.
unfoldable pub flush_loop : ℕ → ℕ → ℕ → (ℕ → ℕ) → ℕ → Memphy → Option (ℕ × Memphy)
flush_loop zero i pid entry count mp = some (count, mp)
flush_loop (suc left) i pid entry count mp =
    if ltb mp.maxsz (i * entry_size + entry_size)
    then some (minus_one, mp)
    else (tlbmemphy_read mp (i * entry_size) >>= λ r.
        let entry1 = update entry 0 r.1 in
        let entry2 = update entry1 valid_offset 0 in
        let next = flush_loop left (i + 1) pid entry1 count mp in
        let flushed : Option (ℕ × Memphy) = tlbmemphy_write mp (i * entry_size) (entry2 0) >>= λ w.
        flush_loop left (i + 1) pid entry2 (count + 1) w.1 in
        if not (entry1 valid_offset == 0) && (decode_int entry1 == pid) then flushed else next)

-- `entry` is what the stack held.
unfoldable pub tlb_flush_tlb_of : Pcb → (ℕ → ℕ) → Memphy → Option (ℕ × Memphy)
tlb_flush_tlb_of proc entry mp = flush_loop (mp.maxsz / entry_size) 0 proc.pid entry 0 mp

unfoldable pub tlb_change_all_page_tables_of : Pcb → (ℕ → ℕ) → Memphy → Option (ℕ × Memphy)
tlb_change_all_page_tables_of proc entry mp =
    flush_loop (mp.maxsz / entry_size) 0 proc.pid entry 0 mp

-- A round of the loop of `tlballoc`, for one page: the TLB after.
unfoldable pub refresh : Pcb → ℕ → Option Memphy
refresh proc pgnum = do
  pte ← get_pte proc.mm pgnum
  let frame_number = paging_fpn pte
  let cached : Option Bool = tlb_cache_read proc.tlb proc.pid pgnum >>= λ r.
      let same : Option Bool =
        r.1 >>= λ frame_in_tlb. some (sign_extend frame_in_tlb == frame_number) in
      if r.0 == 0 then same else some false
  let written : Option Memphy =
      tlb_cache_write proc.tlb proc.pid pgnum (sign_extend (frame_number % 2 ^ 8)) >>= λ w. some w.1
  let kept : Option Memphy = cached >>= λ same. (if same then some proc.tlb else written)
  if page_present pte then kept else some proc.tlb

unfoldable pub refresh_loop : ℕ → ℕ → Pcb → Option Pcb
refresh_loop zero pgnum proc = some proc
refresh_loop (suc left) pgnum proc = refresh proc pgnum >>= λ tlb.
    refresh_loop left ((pgnum + 1) % 2 ^ 32) (record proc { tlb = tlb })

-- The return value and the process.
unfoldable pub tlballoc : Pcb → ℕ → ℕ → Option (ℕ × Pcb)
tlballoc proc size reg_index = do
  (val, addr, proc1) ← alloc proc 0 reg_index size
  let num_pages = (size + pagesz - 1) % 2 ^ 32 / pagesz
  let refreshed : Option (ℕ × Pcb) =
      refresh_loop num_pages (paging_pgn addr) proc1 >>= λ p. some (0, p)
  if val == 0 then refreshed else some (val, proc1)

-- The loop of `tlbfree_data`, with its rounds left. `dummy_frame_number` is the `char` -1.
unfoldable pub forget_loop : ℕ → ℕ → Pcb → Option Pcb
forget_loop zero page_number proc = some proc
forget_loop (suc left) page_number proc = do
  (found, _) ← tlb_cache_read proc.tlb proc.pid page_number
  let written : Option Memphy =
      tlb_cache_write proc.tlb proc.pid page_number (2 ^ 32 - 1) >>= λ w. some w.1
  tlb ← if found == 0 then written else some proc.tlb
  forget_loop left (page_number + 1) (record proc { tlb = tlb })

unfoldable pub tlbfree_data : Pcb → ℕ → Option (ℕ × Pcb)
tlbfree_data proc reg_index =
    let region = proc.mm.symrgtbl reg_index in
    let start_page = paging_pgn (to_int region.rg_start) in
    let end_page = paging_pgn ((region.rg_end + (2 ^ 64 - 1)) % 2 ^ 32) in
    let freed : Option (ℕ × Pcb) = (do
      (_, proc1) ← free proc 0 reg_index
      proc2 ← forget_loop (end_page + 1 - start_page) start_page proc1
      some (0, proc2)) in
    if leb max_symtbl_sz reg_index || ((region.rg_start == 0) && (region.rg_end == 0))
    then some (minus_one, proc)
    else freed

-- The accesses to `regs[i]`.
abbrev pub get_reg : Pcb → ℕ → Option ℕ
get_reg proc i = if ltb i 10 then some (proc.regs i) else none

-- What the lookup of a page comes to: `frmnum` and the process, or `none` for the return value -1.
-- `frmnum` is the return value of `tlb_cache_read`, unless the page is fetched by `pg_getpage`.
unfoldable pub lookup : Pcb → ℕ → Option (Option ℕ × Pcb)
lookup proc pgn = tlb_cache_read proc.tlb proc.pid pgn >>= λ r.
    let checked : ℕ = elim r.1 [ none ↦ 0 | some b ↦ b ] in
    if checked == 255 then pg_getpage proc pgn else some (some r.0, proc)

-- What follows a miss: the entry of the page goes to the TLB. `none` is the return value -1.
unfoldable pub cache_page : Pcb → ℕ → Option (Option (Unit {0}) × Pcb)
cache_page proc pgn = do
  pte ← get_pte proc.mm pgn
  (ret, tlb) ← tlb_cache_write proc.tlb proc.pid pgn pte
  some ((if ret == minus_one then none else some tt), record proc { tlb = tlb })

unfoldable pub set_reg : Pcb → ℕ → ℕ → Option (ℕ × Pcb)
set_reg proc destination byte = do
  check (ltb destination 10)
  some (0, record proc { regs = update proc.regs destination (sign_extend byte) })

-- The two ways that `tlbread` goes on.
unfoldable pub read_hit : Pcb → ℕ → ℕ → ℕ → Option (ℕ × Pcb)
read_hit proc frmnum offset destination = do
  (_, byte) ← tlbmemphy_read proc.mram (phyaddr frmnum offset)
  set_reg proc destination byte

unfoldable pub read_miss : Pcb → ℕ → ℕ → ℕ → ℕ → Option (ℕ × Pcb)
read_miss proc pgn source offset destination = Access.read proc 0 source offset >>= λ r.
    cache_page r.2 pgn >>= λ w. elim w.0 [
      | none ↦ some (minus_one, w.1)
      | some _ ↦ (r.1 >>= λ byte. set_reg w.1 destination byte)
    ]

unfoldable pub tlbread : Pcb → ℕ → ℕ → ℕ → Option (ℕ × Pcb)
tlbread proc source offset destination = do
  base ← get_reg proc source
  let pgn = paging_pgn ((base + offset) % 2 ^ 32)
  found ← lookup proc pgn
  elim found.0 [
    | none ↦ some (minus_one, found.1)
    | some frmnum ↦
        let hit = read_hit found.1 frmnum offset destination in
        let miss = read_miss found.1 pgn source offset destination in
        if is_neg frmnum || (frmnum == 0) then miss else hit
  ]

unfoldable pub write_miss : Pcb → ℕ → ℕ → ℕ → ℕ → Option (ℕ × Pcb)
write_miss proc pgn byte destination offset = do
  (val, proc1) ← Access.write proc 0 destination offset byte
  (cached, proc2) ← cache_page proc1 pgn
  some (elim cached [ none ↦ (minus_one, proc2) | some _ ↦ (val, proc2) ])

unfoldable pub tlbwrite : Pcb → ℕ → ℕ → ℕ → Option (ℕ × Pcb)
tlbwrite proc byte destination offset = do
  base ← get_reg proc destination
  let addr = (base + offset) % 2 ^ 32
  found ← lookup proc (paging_pgn addr)
  elim found.0 [
    | none ↦ some (minus_one, found.1)
    | some frmnum ↦
        let miss = write_miss found.1 (paging_pgn addr) byte destination offset in
        let hit : Option (ℕ × Pcb) =
          Memphy.write found.1.mram (phyaddr frmnum (paging_offst addr)) byte >>= λ w.
          some (w.0, record found.1 { mram = w.1 }) in
        if is_neg frmnum then miss else hit
  ]
