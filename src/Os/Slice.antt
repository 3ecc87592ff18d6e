-- ===== src/Os/Slice.antt =====
-- The time slice: how long a CPU keeps its process, whatever the other threads do in between.
use hk232_assignment_os.Base.{
  ℕ, suc, ◌+◌, ◌-◌, ◌%◌, ◌^◌, ◌<◌, ◌≤◌, ◌≡◌, ◌≢◌, inl, inr, sym, ap, ◌∙◌, false, ◌==◌, Option, some,
  List, [], ◌∷◌, length, arith, Option-cases, ◌>>=◌, >>=-eq-some,
}
use native.Mathlib.Nat.{mod-eq_of_lt}
use mathlib.Core.Option.{some-injective}
use hk232_assignment_os.Pcb.{Pcb}
use hk232_assignment_os.Cpu.{run}
use hk232_assignment_os.Cpu.Keeping.{kept_fields}
use hk232_assignment_os.Cpu.Advance.{run_advances}
use hk232_assignment_os.Os.{
  Shared, Cpu, top, recheck, cpu_top, cpu_recheck, cpu_at, cpu_routine, run_shared, lend,
}

-- A round of the loop for a CPU that keeps its process, the shared state at its two steps given.
abbrev pub turn : ℕ → Shared × Shared → Cpu → Option Cpu
turn time_slot ss c =
    cpu_routine time_slot ss.0 c >>= λ r. cpu_routine time_slot ss.1 r.1 >>= λ q. some q.1

abbrev pub turns : ℕ → List (Shared × Shared) → Cpu → Option Cpu
turns time_slot [] c = some c
turns time_slot (ss ∷ rest) c = turn time_slot ss c >>= λ d. turns time_slot rest d

run_shared_fields :
    (s : Shared) (p : Pcb) (r : Shared × Pcb)
    → p.pc < length p.code
    → run_shared s p ≡ some r
    → kept_fields r.1 ≡ (p.pid, p.priority, p.prio, p.code, (p.pc + 1) % 2 ^ 32)
unfolding run_shared
run_shared_fields s p r b e =
    let (m, first, rest) = >>=-eq-some (run (lend s p)) _ e in
    let one = (run_advances (lend s p) m first).1 b in
    let same : m.1 ≡ r.1 = ap (λ x. x.1) (some-injective _ _ rest) in
    ap kept_fields (sym same) ∙ one

keeps_top :
    (time_slot : ℕ) (s : Shared) (c : Cpu) (p : Pcb) (r : Shared × Cpu)
    → c.spot ≡ top
    → c.proc ≡ some p
    → c.time_left ≢ 0
    → p.pc < length p.code
    → cpu_routine time_slot s c ≡ some r
    → r.1 ≡ record c { spot = recheck }
unfolding cpu_routine cpu_at cpu_top
keeps_top time_slot s c p r at holds left b e =
    let e' : cpu_top s c ≡ some r = ap (λ x. cpu_at x time_slot s c) (sym at) ∙ e in
    let more : (p.pc == length p.code) ≡ false = ground arith in
    let slots : (c.time_left == 0) ≡ false = ground arith in ground (arith, e', holds, more, slots)

recheck_runs :
    (time_slot : ℕ) (s : Shared) (c d : Cpu) (p : Pcb) (r : Shared × Cpu)
    → d ≡ record c { spot = recheck }
    → c.proc ≡ some p
    → c.time_left ≢ 0
    → c.time_left < 2 ^ 32
    → p.pc < length p.code
    → cpu_routine time_slot s d ≡ some r
    → (q : Pcb) × (r.1.proc ≡ some q)
      × (r.1.spot ≡ top)
      × (r.1.time_left ≡ c.time_left - 1)
      × (kept_fields q ≡ (p.pid, p.priority, p.prio, p.code, (p.pc + 1) % 2 ^ 32))
unfolding cpu_routine cpu_at cpu_recheck
recheck_runs time_slot s c d p r same holds left small b e =
    let e' = rw same at e in
    elim (Option-cases (run_shared s p)) [
      | inl faults ↦ ground (arith, e', holds, faults)
      | inr ran ↦
          let (m, em) = ran in
          (
            m.1,
            ground (arith, e', holds, em),
            ground (arith, e', holds, em),
            ground (arith, e', holds, em, left, small),
            run_shared_fields s p m b em,
          )
    ]

-- A CPU at the top of its loop that holds a process keeps it while it has slots left, fewer than 2
-- ^ 32, and the code, of fewer than 2 ^ 32 instructions, lasts: in `n` rounds that do not fault,
-- for at most as many slots and instructions, it runs `n` instructions of that process and uses `n`
-- slots, whatever the shared state is at each of its steps.
pub turns_keep :
    (time_slot : ℕ) (states : List (Shared × Shared)) (c d : Cpu) (p : Pcb)
    → c.spot ≡ top
    → c.proc ≡ some p
    → length states ≤ c.time_left
    → c.time_left < 2 ^ 32
    → p.pc + length states ≤ length p.code
    → length p.code < 2 ^ 32
    → turns time_slot states c ≡ some d
    → (q : Pcb) × (d.proc ≡ some q)
      × (d.spot ≡ top)
      × (d.time_left ≡ c.time_left - length states)
      × (kept_fields q ≡ (p.pid, p.priority, p.prio, p.code, p.pc + length states))
turns_keep time_slot [] c d p at holds left small b short e =
    let same = some-injective _ _ e in
    (p, rw (← same) holds, rw (← same) at, rw (← same) (omega arith), ground arith)
turns_keep time_slot (ss ∷ rest) c d p at holds left small b short e =
    let (c1, e1, r1) = >>=-eq-some (turn time_slot ss c) _ e in
    let (u, eu, ru) = >>=-eq-some (cpu_routine time_slot ss.0 c) _ e1 in
    let (v, ev, rv) = >>=-eq-some (cpu_routine time_slot ss.1 u.1) _ ru in
    let some_left : c.time_left ≢ 0 = omega arith in
    let more : p.pc < length p.code = omega arith in
    let kept = keeps_top time_slot ss.0 c p u at holds some_left more eu in
    let (q, hq, at', left', one) =
      recheck_runs time_slot ss.1 c u.1 p v kept holds some_left small more ev in
    let same = some-injective _ _ rv in
    let code : q.code ≡ p.code = ap (λ x. x.3) one in
    let pc : q.pc ≡ p.pc + 1 = ap (λ x. x.4) one ∙ mod-eq_of_lt (omega arith) in
    let at1 : c1.spot ≡ top = ap (λ x. x.spot) (sym same) ∙ at' in
    let holds1 : c1.proc ≡ some q = ap (λ x. x.proc) (sym same) ∙ hq in
    let left1 : c1.time_left ≡ c.time_left - 1 = ap (λ x. x.time_left) (sym same) ∙ left' in
    let (z, hz, atz, leftz, others) =
      turns_keep time_slot rest c1 d q at1 holds1 (omega arith) (omega arith)
        (rw (code, pc) (omega arith)) (rw code short) r1 in
    let count : (p.pc + 1) % 2 ^ 32 + length rest ≡ p.pc + suc (length rest) = omega arith in
    (
      z,
      hz,
      atz,
      omega (arith, leftz, left1),
      others
          ∙ ap (λ x. (x.0, x.1, x.2, x.3, x.4 + length rest)) one
          ∙ ap (λ k. (p.pid, p.priority, p.prio, p.code, k)) count,
    )
