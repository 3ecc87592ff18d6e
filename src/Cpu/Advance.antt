-- ===== src/Cpu/Advance.antt =====
-- Every instruction advances the program counter of its process by one, and keeps its number, its
-- priorities and its code.
use hk232_assignment_os.Base.{
  ℕ, zero, suc, ◌+◌, ◌%◌, ◌^◌, ◌≤◌, ◌<◌, ◌≡◌, ◌∙◌, ap, Option, some, length, arith, ◌>>=◌,
  >>=-eq-some,
}
use native.Mathlib.Nat.{mod-eq_of_lt}
use hk232_assignment_os.Pcb.{Inst, Pcb}
use hk232_assignment_os.CpuTlb.{
  refresh_loop, tlballoc, forget_loop, tlbfree_data, lookup, cache_page, set_reg, read_hit,
  read_miss, tlbread, write_miss, tlbwrite,
}
use hk232_assignment_os.Mm.Keeping.{stable_fields}
use hk232_assignment_os.Cpu.{execute, run}
use hk232_assignment_os.Cpu.Keeping.{
  kept_fields, alloc_fixed, free_fixed, pg_getpage_fixed, read_fixed, write_fixed,
}

pub refresh_loop_fixed :
    (n k : ℕ) (p q : Pcb) → refresh_loop n k p ≡ some q → stable_fields q ≡ stable_fields p
unfolding refresh_loop
refresh_loop_fixed zero k p q e = ground (arith, e)
refresh_loop_fixed (suc n) k p q e =
    let next = refresh_loop_fixed n ((k + 1) % 2 ^ 32) in grind (arith, e, next)

tlballoc_fixed :
    (p : Pcb) (n k : ℕ) (m : ℕ × Pcb) → tlballoc p n k ≡ some m → kept_fields m.1 ≡ kept_fields p
unfolding tlballoc
tlballoc_fixed p n k m e = grind (arith, e, alloc_fixed, refresh_loop_fixed)

pub forget_loop_fixed :
    (n k : ℕ) (p q : Pcb) → forget_loop n k p ≡ some q → stable_fields q ≡ stable_fields p
unfolding forget_loop
forget_loop_fixed zero k p q e = ground (arith, e)
forget_loop_fixed (suc n) k p q e = let next = forget_loop_fixed n (k + 1) in grind (arith, e, next)

tlbfree_data_fixed :
    (p : Pcb) (k : ℕ) (m : ℕ × Pcb) → tlbfree_data p k ≡ some m → kept_fields m.1 ≡ kept_fields p
unfolding tlbfree_data
tlbfree_data_fixed p k m e = grind (arith, e, free_fixed, forget_loop_fixed)

lookup_fixed :
    (p : Pcb) (n : ℕ) (m : Option ℕ × Pcb)
    → lookup p n ≡ some m
    → stable_fields m.1 ≡ stable_fields p
unfolding lookup
lookup_fixed p n m e = grind (arith, e, pg_getpage_fixed)

cache_page_fixed :
    (p : Pcb) (n : ℕ) (m : Option (Unit {0}) × Pcb)
    → cache_page p n ≡ some m
    → stable_fields m.1 ≡ stable_fields p
unfolding cache_page
cache_page_fixed p n m e = ground (arith, e)

set_reg_fixed :
    (p : Pcb) (d b : ℕ) (m : ℕ × Pcb) → set_reg p d b ≡ some m → stable_fields m.1 ≡ stable_fields p
unfolding set_reg
set_reg_fixed p d b m e = ground (arith, e)

read_hit_fixed :
    (p : Pcb) (f o d : ℕ) (m : ℕ × Pcb)
    → read_hit p f o d ≡ some m
    → stable_fields m.1 ≡ stable_fields p
unfolding read_hit
read_hit_fixed p f o d m e = grind (arith, e, set_reg_fixed)

read_miss_fixed :
    (p : Pcb) (n s o d : ℕ) (m : ℕ × Pcb)
    → read_miss p n s o d ≡ some m
    → stable_fields m.1 ≡ stable_fields p
unfolding read_miss
read_miss_fixed p n s o d m e = grind (arith, e, read_fixed, cache_page_fixed, set_reg_fixed)

pub tlbread_fixed :
    (p : Pcb) (s o d : ℕ) (m : ℕ × Pcb)
    → tlbread p s o d ≡ some m
    → stable_fields m.1 ≡ stable_fields p
unfolding tlbread
tlbread_fixed p s o d m e = grind (arith, e, lookup_fixed, read_hit_fixed, read_miss_fixed)

write_miss_fixed :
    (p : Pcb) (n b d o : ℕ) (m : ℕ × Pcb)
    → write_miss p n b d o ≡ some m
    → stable_fields m.1 ≡ stable_fields p
unfolding write_miss
write_miss_fixed p n b d o m e = grind (arith, e, write_fixed, cache_page_fixed)

pub tlbwrite_fixed :
    (p : Pcb) (b d o : ℕ) (m : ℕ × Pcb)
    → tlbwrite p b d o ≡ some m
    → stable_fields m.1 ≡ stable_fields p
unfolding tlbwrite
tlbwrite_fixed p b d o m e = grind (arith, e, lookup_fixed, write_miss_fixed)

execute_fixed :
    (p : Pcb) (ins : Inst) (m : ℕ × Pcb) → execute p ins ≡ some m → kept_fields m.1 ≡ kept_fields p
unfolding execute
execute_fixed p ins m e =
    grind (arith, e, tlballoc_fixed, tlbfree_data_fixed, tlbread_fixed, tlbwrite_fixed)

-- At the end of its code `run` leaves the process as it is and returns 1. Before, a run that does
-- not fault adds one to the program counter and keeps the number, the priorities and the code.
pub run_advances :
    (p : Pcb) (m : ℕ × Pcb)
    → run p ≡ some m
    → (length p.code ≤ p.pc → m ≡ (1, p))
      × (p.pc < length p.code
          → kept_fields m.1 ≡ (p.pid, p.priority, p.prio, p.code, (p.pc + 1) % 2 ^ 32))
unfolding run
run_advances p m e = (λ b. ground (arith, e, b), λ b. grind (arith, e, b, execute_fixed))

-- `n` runs of a process.
abbrev pub runs : ℕ → Pcb → Option Pcb
runs zero p = some p
runs (suc n) p = run p >>= λ m. runs n m.1

-- While its code, of fewer than 2 ^ 32 instructions, lasts, `n` runs of a process that do not fault
-- take it `n` instructions further in the same code, with the same number and priorities.
pub runs_advance :
    (n : ℕ) (p q : Pcb)
    → length p.code < 2 ^ 32
    → p.pc + n ≤ length p.code
    → runs n p ≡ some q
    → kept_fields q ≡ (p.pid, p.priority, p.prio, p.code, p.pc + n)
runs_advance zero p q small b e = ground (arith, e)
runs_advance (suc n) p q small b e =
    let (m, first, rest) = >>=-eq-some (run p) _ e in
    let one = (run_advances p m first).1 (omega arith) in
    let code : m.1.code ≡ p.code = ap (λ x. x.3) one in
    let next : m.1.pc ≡ p.pc + 1 = ap (λ x. x.4) one ∙ mod-eq_of_lt (omega arith) in
    let others = runs_advance n m.1 q (rw code small) (rw (code, next) (omega arith)) rest in
    let count : (p.pc + 1) % 2 ^ 32 + n ≡ p.pc + suc n = omega arith in
    others
    ∙ ap (λ x. (x.0, x.1, x.2, x.3, x.4 + n)) one
    ∙ ap (λ k. (p.pid, p.priority, p.prio, p.code, k)) count
