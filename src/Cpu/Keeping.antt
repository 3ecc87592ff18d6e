-- ===== src/Cpu/Keeping.antt =====
-- What the memory management leaves alone in a process: its number, its priorities, its code and
-- its program counter.
use hk232_assignment_os.Base.{ℕ, ◌≡◌, Option, some, List, arith}
use hk232_assignment_os.Pcb.{Inst, Pcb, VmRg}
use hk232_assignment_os.Mm.{enlist_pgn_node, find_victim_page, vm_map_ram}
use hk232_assignment_os.Mm.Keeping
use hk232_assignment_os.Mm.Keeping.{stable_fields}
use hk232_assignment_os.Vm.{get_free_vmrg_area, inc_vma_limit}
use hk232_assignment_os.Vm.Region.{alloc, alloc_at_brk, free}
use hk232_assignment_os.Vm.Access.{
  bring_in, fault_in, pg_getpage, pg_getval, pg_setval, read, write,
}

abbrev pub kept_fields : Pcb → ℕ × ℕ × ℕ × List Inst × ℕ
kept_fields p = (p.pid, p.priority, p.prio, p.code, p.pc)

vm_map_ram_fixed :
    (p : Pcb) (a b c n : ℕ) (m : ℕ × Pcb)
    → vm_map_ram p a b c n ≡ some m
    → kept_fields m.1 ≡ kept_fields p
vm_map_ram_fixed p a b c n m e = cc (Keeping.vm_map_ram_fixed p a b c n m e)

inc_vma_limit_fixed :
    (p : Pcb) (a n : ℕ) (m : ℕ × Pcb)
    → inc_vma_limit p a n ≡ some m
    → kept_fields m.1 ≡ kept_fields p
unfolding inc_vma_limit
inc_vma_limit_fixed p a n m e = grind (arith, e, vm_map_ram_fixed)

get_free_vmrg_area_fixed :
    (p : Pcb) (a n : ℕ) (m : Option VmRg × Pcb)
    → get_free_vmrg_area p a n ≡ some m
    → kept_fields m.1 ≡ kept_fields p
unfolding get_free_vmrg_area
get_free_vmrg_area_fixed p a n m e = ground (arith, e)

alloc_at_brk_fixed :
    (p : Pcb) (a b n : ℕ) (m : ℕ × ℕ × Pcb)
    → alloc_at_brk p a b n ≡ some m
    → kept_fields m.2 ≡ kept_fields p
unfolding alloc_at_brk
alloc_at_brk_fixed p a b n m e = grind (arith, e, inc_vma_limit_fixed)

pub alloc_fixed :
    (p : Pcb) (a b n : ℕ) (m : ℕ × ℕ × Pcb)
    → alloc p a b n ≡ some m
    → kept_fields m.2 ≡ kept_fields p
unfolding alloc
alloc_fixed p a b n m e = grind (arith, e, get_free_vmrg_area_fixed, alloc_at_brk_fixed)

pub free_fixed :
    (p : Pcb) (a b : ℕ) (m : ℕ × Pcb) → free p a b ≡ some m → kept_fields m.1 ≡ kept_fields p
unfolding free
free_fixed p a b m e = ground (arith, e)

bring_in_fixed :
    (p q : Pcb) (a b c d : ℕ) → bring_in p a b c d ≡ some q → stable_fields q ≡ stable_fields p
unfolding bring_in enlist_pgn_node
bring_in_fixed p q a b c d e = ground (arith, e)

fault_in_fixed :
    (p : Pcb) (a b : ℕ) (m : Option Pcb × Pcb)
    → fault_in p a b ≡ some m
    → (stable_fields m.1 ≡ stable_fields p) × ((c : Pcb) → m.0 ≡ some c → c ≡ m.1)
unfolding fault_in find_victim_page
fault_in_fixed p a b m e = (grind (arith, e, bring_in_fixed), λ c s. grind (arith, e, s))

pub pg_getpage_fixed :
    (p : Pcb) (n : ℕ) (m : Option ℕ × Pcb)
    → pg_getpage p n ≡ some m
    → stable_fields m.1 ≡ stable_fields p
unfolding pg_getpage
pg_getpage_fixed p n m e = grind (arith, e, fault_in_fixed)

pg_getval_fixed :
    (p : Pcb) (n : ℕ) (m : ℕ × Option ℕ × Pcb)
    → pg_getval p n ≡ some m
    → stable_fields m.2 ≡ stable_fields p
unfolding pg_getval
pg_getval_fixed p n m e = grind (arith, e, pg_getpage_fixed)

pg_setval_fixed :
    (p : Pcb) (n x : ℕ) (m : ℕ × Pcb)
    → pg_setval p n x ≡ some m
    → stable_fields m.1 ≡ stable_fields p
unfolding pg_setval
pg_setval_fixed p n x m e = grind (arith, e, pg_getpage_fixed)

pub read_fixed :
    (p : Pcb) (a b c : ℕ) (m : ℕ × Option ℕ × Pcb)
    → read p a b c ≡ some m
    → stable_fields m.2 ≡ stable_fields p
unfolding read
read_fixed p a b c m e = grind (arith, e, pg_getval_fixed)

pub write_fixed :
    (p : Pcb) (a b c x : ℕ) (m : ℕ × Pcb)
    → write p a b c x ≡ some m
    → stable_fields m.1 ≡ stable_fields p
unfolding write
write_fixed p a b c x m e = grind (arith, e, pg_setval_fixed)
