-- ===== src/Demo.antt =====
-- src/paging.c: two copies of a process, run in turns, and a dump of the memory. `load` leaves the
-- pointers of a process to its page table and its devices unset, so that every instruction but
-- `calc`, which does not follow them, is a fault.
use hk232_assignment_os.Base.{
  ℕ, zero, suc, ◌+◌, ◌%◌, ◌^◌, ◌≤◌, ◌<◌, ◌≡◌, refl, ap, ◌∙◌, leb, false, Option, none, some, List,
  [], ◌∷◌, All, length, get_elem?, arith, ◌>>=◌,
}
use hk232_assignment_os.Base.Output.{Printed}
use hk232_assignment_os.Pcb.{Opcode, Inst, Pcb}
use hk232_assignment_os.Cpu.{execute, run}
use hk232_assignment_os.Loader.{Outcome, returns, faults, and_then, Stdio, Blocks, load}
use hk232_assignment_os.Mem.{Mem, num_pages}
use hk232_assignment_os.Mem.Dump.{dump, dump_pages, dump_page}

-- `run` on a process as `load` leaves it.
unfoldable pub run_loaded : Pcb → Option Pcb
run_loaded p =
    let ran : Option Pcb = run p >>= λ r. some r.1 in
    elim (get_elem? p.code p.pc) [
      | none ↦ ran
      | some ins ↦ elim ins.opcode [
        | Opcode.calc ↦ ran
        | Opcode.alloc ↦ none
        | Opcode.free ↦ none
        | Opcode.read ↦ none
        | Opcode.write ↦ none
      ]
    ]

-- The loop with its rounds left.
unfoldable pub run_both : ℕ → Pcb → Pcb → Option (Pcb × Pcb)
run_both zero proc ld = some (proc, ld)
run_both (suc left) proc ld = run_loaded proc >>= λ p. run_loaded ld >>= λ l. run_both left p l

-- The dump once the processes have been run.
abbrev pub report : Option (Pcb × Pcb) → Mem → Outcome (List Printed)
report none mem = faults
report (some ran) mem = returns (dump mem)

-- `main`: what it prints. `mem` is the memory of src/mem.c, which starts all zero.
unfoldable pub demo : {F : Type 0} → Stdio F → Blocks → Blocks → Mem → Outcome (List Printed)
demo io first second mem = and_then (load io 1 first "input/p0") (λ ld.
    and_then (load io ld.1 second "input/p0")
      (λ proc. report (run_both (length proc.0.code) proc.0 ld.0) mem))

abbrev pub IsCalc : Inst → Type 0
IsCalc ins = ins.opcode ≡ Opcode.calc

IsCalc-get :
    (code : List Inst) (i : ℕ)
    → All IsCalc code
    → i < length code
    → (ins : Inst) × (get_elem? code i ≡ some ins) × IsCalc ins
IsCalc-get [] i h b = absurd (omega arith)
IsCalc-get (x ∷ code) zero h b = (x, refl, h.0)
IsCalc-get (x ∷ code) (suc i) h b = IsCalc-get code i h.1 (omega arith)

run_loaded_calc :
    (p : Pcb)
    → All IsCalc p.code
    → p.pc < length p.code
    → run_loaded p ≡ some (record p { pc = (p.pc + 1) % 2 ^ 32 })
unfolding run_loaded run execute
run_loaded_calc p h b =
    let (ins, at, calc) = IsCalc-get p.code p.pc h b in
    let more : leb (length p.code) p.pc ≡ false = ground arith in
    simp (run_loaded, run, execute, at, calc, more)

-- Two processes of `calc` instructions only are run to their ends.
run_both_ends :
    (left : ℕ) (p l : Pcb)
    → All IsCalc p.code
    → All IsCalc l.code
    → p.pc + left ≤ length p.code
    → l.pc + left ≤ length l.code
    → length p.code < 2 ^ 32
    → length l.code < 2 ^ 32
    → (r : Pcb × Pcb) × (run_both left p l ≡ some r)
unfolding run_both
run_both_ends zero p l hp hl bp bl sp sl = ((p, l), refl)
run_both_ends (suc left) p l hp hl bp bl sp sl =
    rw (run_loaded_calc p hp (omega arith), run_loaded_calc l hl (omega arith))
      (run_both_ends left (record p { pc = (p.pc + 1) % 2 ^ 32 })
        (record l { pc = (l.pc + 1) % 2 ^ 32 }) hp hl (omega arith) (omega arith) sp sl)

dump_pages_empty :
    (left i : ℕ) (m : Mem) → ((k : ℕ) → (m.mem_stat k).proc ≡ 0) → dump_pages left i m ≡ []
unfolding dump_pages dump_page
dump_pages_empty zero i m h = refl
dump_pages_empty (suc left) i m h = rw (h i) (dump_pages_empty left (i + 1) m h)

-- On a memory of which no page is in use and a description of `calc` instructions only, the demo
-- ends without a fault and prints nothing.
pub demo_prints_nothing :
    {F : Type 0} (io : Stdio F) (first second : Blocks) (mem : Mem) (l p : Pcb × ℕ)
    → load io 1 first "input/p0" ≡ returns l
    → load io l.1 second "input/p0" ≡ returns p
    → l.0.pc ≡ 0
    → p.0.pc ≡ 0
    → All IsCalc l.0.code
    → All IsCalc p.0.code
    → length l.0.code ≡ length p.0.code
    → length p.0.code < 2 ^ 32
    → ((k : ℕ) → (mem.mem_stat k).proc ≡ 0)
    → demo io first second mem ≡ returns []
unfolding demo dump
demo_prints_nothing io first second mem l p el ep sl sp hl hp same small unused =
    let (r, e) =
      run_both_ends (length p.0.code) p.0 l.0 hp hl (omega arith) (omega arith) small
        (omega arith) in
    rw el (rw ep (ap (λ o. report o mem) e ∙ ap returns (dump_pages_empty num_pages 0 mem unused)))
