-- ===== src/Cpu/Heap/Runs.antt =====
-- The instructions of a program one after another.
use mathlib.Core.Option.{some-injective}
use hk232_assignment_os.Base.{
  ℕ, zero, suc, ◌+◌, ◌*◌, ◌%◌, ◌^◌, ◌≤◌, ◌<◌, ◌≡◌, refl, subst, ap, false, leb, some, List, [], ◌∷◌,
  length, get_elem?, take, drop, arith, >>=-eq-some,
}
use hk232_assignment_os.Pcb.{Opcode, Inst, Pcb}
use hk232_assignment_os.Vm.Region.Heap.{IsHeap, sbrk_of}
use hk232_assignment_os.Vm.Region.Heap.Run.{in_use, IsProper, demand}
use hk232_assignment_os.Cpu.{execute, run}
use hk232_assignment_os.Cpu.Advance.{runs, run_advances}
use hk232_assignment_os.Cpu.Heap.{ops_of, moved-IsHeap, execute-IsHeap}

-- The calls of a program are those of its first instruction and then those of the rest.
split_first :
    (op : Opcode) (a0 a1 a2 : ℕ) (code : List Inst) (live : List ℕ)
    → let ins : Inst = record { opcode = op; arg_0 = a0; arg_1 = a1; arg_2 = a2 } in
      let ops = ops_of (ins ∷ []) in
      IsProper live (ops_of (ins ∷ code))
      → IsProper live ops
        × IsProper (in_use live ops) (ops_of code)
        × (in_use live (ops_of (ins ∷ code)) ≡ in_use (in_use live ops) (ops_of code))
        × (demand (ops_of (ins ∷ code)) ≡ demand ops + demand (ops_of code))
split_first Opcode.calc a0 a1 a2 code live h = (tt, h, refl, omega arith)
split_first Opcode.alloc a0 a1 a2 code live h = ((h.0, h.1, tt), h.2, refl, omega arith)
split_first Opcode.free a0 a1 a2 code live h = ((h.0, tt), h.1, refl, omega arith)
split_first Opcode.read a0 a1 a2 code live h = (tt, h, refl, omega arith)
split_first Opcode.write a0 a1 a2 code live h = (tt, h, refl, omega arith)

drop-next :
    (k : ℕ) (l : List Inst) (x : Inst) (xs : List Inst)
    → drop k l ≡ x ∷ xs
    → (get_elem? l k ≡ some x) × (drop (suc k) l ≡ xs) × (k + suc (length xs) ≡ length l)
drop-next zero [] x xs e = cc
drop-next zero (y ∷ l) x xs e =
    (ap (λ t. get_elem? t 0) e, ap (drop 1) e, omega (arith, ap (λ (t : List Inst). length t) e))
drop-next (suc k) [] x xs e = cc
drop-next (suc k) (y ∷ l) x xs e =
    let (found, left, count) = drop-next k l x xs e in (found, left, omega (arith, count))

-- `run` on an instruction of the code.
run-IsHeap :
    (ins : Inst) (live : List ℕ) (p : Pcb) (m : ℕ × Pcb)
    → let ops = ops_of (ins ∷ []) in
      p.pc < length p.code
      → get_elem? p.code p.pc ≡ some ins
      → IsHeap live p
      → IsProper live ops
      → sbrk_of p + demand ops * 256 + 255 < 2 ^ 31
      → run p ≡ some m
      → IsHeap (in_use live ops) m.1 × (sbrk_of m.1 ≤ sbrk_of p + demand ops * 256)
unfolding run
run-IsHeap ins live p m inside at h proper room e =
    let more : leb (length p.code) p.pc ≡ false = ground arith in
    let p1 = record p { pc = (p.pc + 1) % 2 ^ 32 } in
    let executed : execute p1 ins ≡ some m = rw at at (rw more at e) in
    execute-IsHeap ins.opcode ins.arg_0 ins.arg_1 ins.arg_2 live p1 m
      (moved-IsHeap live p p1 refl refl h) proper room executed

-- The instructions that `n` runs from the program counter on come to, `rest` being what is left of
-- the code.
runs_rest :
    (n : ℕ) (rest : List Inst) (live : List ℕ) (p q : Pcb)
    → let ops = ops_of (take n rest) in
      drop p.pc p.code ≡ rest
      → length p.code < 2 ^ 32
      → n ≤ length rest
      → IsHeap live p
      → IsProper live ops
      → sbrk_of p + demand ops * 256 + 255 < 2 ^ 31
      → runs n p ≡ some q
      → IsHeap (in_use live ops) q
runs_rest zero rest live p q left small enough h proper room e =
    subst (IsHeap live) (some-injective _ _ e) h
runs_rest (suc n) [] live p q left small enough h proper room e = absurd (omega arith)
runs_rest (suc n) (ins ∷ rest) live p q left small enough h proper room e =
    let (m, first, later) = >>=-eq-some (run p) _ e in
    let (found, left', count) = drop-next p.pc p.code ins rest left in
    let (one, others, used, total) =
      split_first ins.opcode ins.arg_0 ins.arg_1 ins.arg_2 (take n rest) live proper in
    let inside : p.pc < length p.code = omega (arith, count) in
    let (h1, brk) = run-IsHeap ins live p m inside found h one (omega (arith, room, total)) first in
    let moved = (run_advances p m first).1 inside in
    let same_code : m.1.code ≡ p.code = ap (λ t. t.3) moved in
    let next : m.1.pc ≡ suc p.pc = omega (arith, ap (λ t. t.4) moved, inside, small) in
    rw used (
      runs_rest n rest (in_use live (ops_of (ins ∷ []))) m.1 q (rw (next, same_code) left')
        (rw same_code small) (omega arith) h1 others (omega (arith, room, total, brk)) later)

-- A process that is a heap and stands at the start of its code, of fewer than 2 ^ 32
-- instructions: if the first `n` of them allocate no symbol in use, free none that is not, and
-- ask for pages that fit below 2 ^ 31, then after `n` runs that do not fault the process is a
-- heap again, and its symbols in use are those that have been allocated last.
pub runs-IsHeap :
    (n : ℕ) (live : List ℕ) (p q : Pcb)
    → let ops = ops_of (take n p.code) in
      p.pc ≡ 0
      → length p.code < 2 ^ 32
      → n ≤ length p.code
      → IsHeap live p
      → IsProper live ops
      → sbrk_of p + demand ops * 256 + 255 < 2 ^ 31
      → runs n p ≡ some q
      → IsHeap (in_use live ops) q
runs-IsHeap n live p q start small enough h proper room e =
    let all : drop p.pc p.code ≡ p.code = rw start refl in
    runs_rest n p.code live p q all small enough h proper room e
