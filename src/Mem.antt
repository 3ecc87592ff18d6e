-- ===== src/Mem.antt =====
-- src/mem.c, the segmentation memory from before paging, with what its authors left of it, and the
-- instructions of src/cpu.c on it. With MM_PAGING no instruction comes here.
pub mod Address
pub mod Dump
use hk232_assignment_os.Base.{
  ℕ, zero, suc, ◌+◌, ◌-◌, ◌*◌, ◌/◌, ◌%◌, ◌^◌, bit_and, Bool, false, ◌||◌, ◌==◌, ltb, if◌then◌else◌,
  Option, none, some, update, ◌>>=◌,
}
use hk232_assignment_os.Paging.{lnot}
use hk232_assignment_os.Pcb.{Pcb}

-- ADDRESS_SIZE, OFFSET_LEN, FIRST_LV_LEN and SECOND_LV_LEN of include/common.h
abbrev pub address_size : ℕ
address_size = 20

abbrev pub offset_len : ℕ
offset_len = 10

abbrev pub first_lv_len : ℕ
first_lv_len = 5

abbrev pub second_lv_len : ℕ
second_lv_len = 5

abbrev pub num_pages : ℕ
num_pages = 2 ^ (address_size - offset_len)

abbrev pub page_size : ℕ
page_size = 2 ^ offset_len

-- A row of `_mem_stat`.
pub record Stat : Type 0 where
  pub proc : ℕ
  pub index : ℕ
  pub next : ℕ

-- The static variables of the file: a byte is its pattern.
pub record Mem : Type 0 where
  pub ram : ℕ → ℕ
  pub mem_stat : ℕ → Stat

-- `struct trans_table_t`, and `struct page_table_t`, whose entries are (v_index, p_index) and
-- (v_index, next_lv).
pub record TransTable : Type 0 where
  pub table : ℕ → ℕ × ℕ
  pub size : ℕ

pub record PageTable : Type 0 where
  pub table : ℕ → ℕ × TransTable
  pub size : ℕ

unfoldable pub init_mem : Mem → Mem
init_mem m = record {
  mem_stat =
      λ i. if ltb i num_pages then record { proc = 0; index = 0; next = 0 } else m.mem_stat i;
  ram = λ i. if ltb i (2 ^ address_size) then 0 else m.ram i;
}

unfoldable pub get_offset : ℕ → ℕ
get_offset addr = bit_and addr (lnot (lnot 0 * 2 ^ offset_len % 2 ^ 32))

unfoldable pub get_first_lv : ℕ → ℕ
get_first_lv addr = addr / 2 ^ (offset_len + second_lv_len)

unfoldable pub get_second_lv : ℕ → ℕ
get_second_lv addr =
    (addr / 2 ^ offset_len + (2 ^ 32 - get_first_lv addr * 2 ^ second_lv_len % 2 ^ 32)) % 2 ^ 32

-- The loop over the rows has no effect.
unfoldable pub get_trans_table : ℕ → PageTable → Option TransTable
get_trans_table index page_table = none

-- The loop over the rows from `i` on, with its rounds left.
unfoldable pub has_row : ℕ → ℕ → TransTable → ℕ → Bool
has_row zero i trans_table second_lv = false
has_row (suc left) i trans_table second_lv =
    ((trans_table.table i).0 == second_lv) || has_row left (i + 1) trans_table second_lv

-- The return value; `*physical_addr` is never assigned.
unfoldable pub translate : ℕ → PageTable → ℕ
translate virtual_addr page_table = elim (get_trans_table (get_first_lv virtual_addr) page_table) [
  | none ↦ 0
  | some trans_table ↦
      if has_row trans_table.size 0 trans_table (get_second_lv virtual_addr) then 1 else 0
]

-- The return value and the process. `mem_avail` stays 0, so the branch for memory at hand is not
-- taken.
unfoldable pub alloc_mem : ℕ → Pcb → ℕ × Pcb
alloc_mem size proc =
    let pages = if size % page_size == 0 then size / page_size + 1 else size / page_size in
    let mem_avail : ℕ = 0 in
    if mem_avail == 0
    then (0, proc)
    else (proc.bp, record proc { bp = (proc.bp + pages * page_size) % 2 ^ 32 })

unfoldable pub free_mem : ℕ → Pcb → ℕ
free_mem address proc = 0

-- The return value and `*data`, which stays unset on a failure. A success would use an unset
-- address, which is a fault.
unfoldable pub read_mem : Mem → ℕ → PageTable → Option (ℕ × Option ℕ)
read_mem m address page_table = if translate address page_table == 0 then some (1, none) else none

unfoldable pub write_mem : Mem → ℕ → PageTable → ℕ → Option (ℕ × Mem)
write_mem m address page_table byte =
    if translate address page_table == 0 then some (1, m) else none

-- The accesses to `regs[i]`.
abbrev get_reg : Pcb → ℕ → Option ℕ
get_reg proc i = if ltb i 10 then some (proc.regs i) else none

abbrev set_reg : Pcb → ℕ → ℕ → Option Pcb
set_reg proc i value =
    if ltb i 10 then some (record proc { regs = update proc.regs i value }) else none

-- The instructions of src/cpu.c.
unfoldable pub alloc : Pcb → ℕ → ℕ → Option (ℕ × Pcb)
alloc proc size reg_index =
    let (addr, proc1) = alloc_mem size proc in
    let stored : Option (ℕ × Pcb) = set_reg proc1 reg_index addr >>= λ p. some (0, p) in
    if addr == 0 then some (1, proc1) else stored

unfoldable pub free_data : Pcb → ℕ → Option ℕ
free_data proc reg_index = get_reg proc reg_index >>= λ address. some (free_mem address proc)

unfoldable pub read : Mem → PageTable → Pcb → ℕ → ℕ → ℕ → Option (ℕ × Pcb)
read m page_table proc source offset destination = get_reg proc source >>= λ base.
    read_mem m ((base + offset) % 2 ^ 32) page_table >>= λ r.
    let stored : Option (ℕ × Pcb) =
      r.1 >>= λ byte. set_reg proc destination byte >>= λ p. some (0, p) in
    if r.0 == 0 then some (1, proc) else stored

unfoldable pub write : Mem → PageTable → Pcb → ℕ → ℕ → ℕ → Option (ℕ × Mem)
write m page_table proc byte destination offset =
    get_reg proc destination >>= λ base. write_mem m ((base + offset) % 2 ^ 32) page_table byte
