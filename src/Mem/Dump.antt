-- ===== src/Mem/Dump.antt =====
-- `dump` of src/mem.c, as the list of what it prints. A `BYTE` is a signed char, printed as an
-- `unsigned int`.
use hk232_assignment_os.Base.{
  ℕ, zero, suc, ◌+◌, ◌-◌, ◌*◌, ◌^◌, ◌≤◌, ◌<◌, ◌≡◌, ◌⊎◌, refl, ◌==◌, if◌then◌else◌, List, [], ◌∷◌,
  ◌++◌, update, update_ne, arith,
}
use hk232_assignment_os.Base.Output.{Printed, printf}
use hk232_assignment_os.TlbCache.{sign_extend}
use hk232_assignment_os.Mem.{Mem, offset_len, num_pages, page_size}

-- The inner loop with its rounds left.
unfoldable pub dump_bytes : ℕ → ℕ → (ℕ → ℕ) → List Printed
dump_bytes zero j ram = []
dump_bytes (suc left) j ram =
    let rest = dump_bytes left (j + 1) ram in
    let line = printf "\t%05x: %02x\n" (j ∷ sign_extend (ram j) ∷ []) in
    if ram j == 0 then rest else line ∷ rest

-- The line of a page, and its bytes but for the last.
unfoldable pub dump_page : ℕ → Mem → List Printed
unfolding dump_bytes
dump_page i m =
    let stat = m.mem_stat i in
    let start = i * 2 ^ offset_len in
    let stop = (i + 1) * 2 ^ offset_len - 1 in
    let lines =
      printf "%03d: " (i ∷ [])
      ∷ printf "%05x-%05x - PID: %02d (idx %03d, nxt: %03d)\n"
          (start ∷ stop ∷ stat.proc ∷ stat.index ∷ stat.next ∷ [])
      ∷ dump_bytes (stop - start) start m.ram in
    if stat.proc == 0 then [] else lines

-- The outer loop with its rounds left.
unfoldable pub dump_pages : ℕ → ℕ → Mem → List Printed
dump_pages zero i m = []
dump_pages (suc left) i m = dump_page i m ++ dump_pages left (i + 1) m

unfoldable pub dump : Mem → List Printed
dump m = dump_pages num_pages 0 m

-- A byte outside the range of the loop makes no difference.
dump_bytes_same :
    (left j : ℕ) (ram : ℕ → ℕ) (k v : ℕ)
    → (k < j) ⊎ (j + left ≤ k)
    → dump_bytes left j (update ram k v) ≡ dump_bytes left j ram
unfolding dump_bytes
dump_bytes_same zero j ram k v h = refl
dump_bytes_same (suc left) j ram k v h =
    rw (update_ne ram k j v (omega arith), dump_bytes_same left (j + 1) ram k v (omega arith)) refl

-- The memory with byte `k` of `ram` set to `v`.
abbrev pub with_byte : Mem → ℕ → ℕ → Mem
with_byte m k v = record m { ram = update m.ram k v }

dump_page_same :
    (i : ℕ) (m : Mem) (k v : ℕ)
    → dump_page i (with_byte m (k * page_size + (page_size - 1)) v) ≡ dump_page i m
unfolding dump_page
dump_page_same i m k v =
    let start = i * page_size in
    let e =
      dump_bytes_same ((i + 1) * page_size - 1 - start) start m.ram
        (k * page_size + (page_size - 1)) v (omega arith) in
    rw e refl

dump_pages_same :
    (left i : ℕ) (m : Mem) (k v : ℕ)
    → dump_pages left i (with_byte m (k * page_size + (page_size - 1)) v) ≡ dump_pages left i m
unfolding dump_pages
dump_pages_same zero i m k v = refl
dump_pages_same (suc left) i m k v =
    rw (dump_page_same i m k v, dump_pages_same left (i + 1) m k v) refl

-- `dump` leaves out the last byte of every page: whatever it holds, the same is printed.
pub dump_misses_last :
    (m : Mem) (k v : ℕ) → dump (with_byte m (k * page_size + (page_size - 1)) v) ≡ dump m
unfolding dump
dump_misses_last m k v = dump_pages_same num_pages 0 m k v
