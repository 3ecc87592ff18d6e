-- ===== src/Cpu/Heap.antt =====
-- The heap of a process under its instructions. The symbols in use are those that the program has
-- allocated and not freed since.
pub mod Runs
use mathlib.Core.Option.{some-injective}
use hk232_assignment_os.Base.{
  ℕ, zero, suc, ◌+◌, ◌*◌, ◌%◌, ◌^◌, ◌≤◌, ◌<◌, ◌≡◌, refl, sym, subst, ◌∙◌, ap, true, false, leb,
  ◌||◌, ◌&&◌, ◌==◌, if◌then◌else◌, Option, none, some, List, [], ◌∷◌, ◌++◌, length, get_elem?, take,
  drop, member, remove, arith, inl, inr, Bool-cases, ◌>>=◌, >>=-eq-some,
}
use hk232_assignment_os.Pcb.{VmArea, VmRg, Mm, Opcode, Inst, Pcb}
use hk232_assignment_os.Paging.{minus_one, to_int, paging_pgn}
use hk232_assignment_os.Mm.Keeping.{stable_fields}
use hk232_assignment_os.Vm.{max_symtbl_sz}
use hk232_assignment_os.Vm.Region.{alloc, free}
use hk232_assignment_os.Vm.Region.Grow.{pages}
use hk232_assignment_os.Vm.Region.Heap.{IsHeap, sbrk_of, AreBound-member}
use hk232_assignment_os.Vm.Region.Heap.Steps.{
  Allocated, Freed, alloc-Allocated, free-Freed, unused-IsHeap,
}
use hk232_assignment_os.Vm.Region.Heap.Run.{Op, in_use, IsProper, demand}
use hk232_assignment_os.CpuTlb.{refresh_loop, tlballoc, forget_loop, tlbfree_data}
use hk232_assignment_os.Cpu.{execute, run}
use hk232_assignment_os.Cpu.Advance.{
  refresh_loop_fixed, forget_loop_fixed, tlbread_fixed, tlbwrite_fixed, runs, run_advances,
}

-- The calls of the memory management that instructions make.
abbrev pub ops_of : List Inst → List Op
ops_of [] = []
ops_of (ins ∷ code) = elim ins.opcode [
  | Opcode.calc ↦ ops_of code
  | Opcode.alloc ↦ Op.acquire ins.arg_1 ins.arg_0 ∷ ops_of code
  | Opcode.free ↦ Op.release ins.arg_0 ∷ ops_of code
  | Opcode.read ↦ ops_of code
  | Opcode.write ↦ ops_of code
]

-- A heap stays one where areas and symbols do.
pub moved-IsHeap :
    (live : List ℕ) (p q : Pcb)
    → q.mm.mmap ≡ p.mm.mmap
    → q.mm.symrgtbl ≡ p.mm.symrgtbl
    → IsHeap live p
    → IsHeap live q
moved-IsHeap live p q mmap symbols h = record {
  area = h.area;
  first = h.first;
  others = h.others;
  one_area = mmap ∙ h.one_area;
  ends = h.ends;
  regions = h.regions;
  bound = rw symbols h.bound;
  distinct = h.distinct;
  partition = λ a. rw symbols (h.partition a);
}

same-IsHeap :
    (live : List ℕ) (p q : Pcb)
    → stable_fields q ≡ stable_fields p
    → IsHeap live p
    → IsHeap live q × (sbrk_of q ≡ sbrk_of p)
same-IsHeap live p q same h =
    let mmap : q.mm.mmap ≡ p.mm.mmap = ap (λ t. t.5) same in
    (moved-IsHeap live p q mmap (ap (λ t. t.6) same) h, rw (mmap, sbrk_of) refl)

tlballoc-IsHeap :
    (live : List ℕ) (p : Pcb) (size rgid : ℕ) (m : ℕ × Pcb)
    → IsHeap live p
    → rgid < max_symtbl_sz
    → member rgid live ≡ false
    → sbrk_of p + pages size * 256 + 255 < 2 ^ 31
    → tlballoc p size rgid ≡ some m
    → IsHeap (rgid ∷ live) m.1 × (sbrk_of m.1 ≤ sbrk_of p + pages size * 256)
unfolding tlballoc
tlballoc-IsHeap live p size rgid m h inb idle room e =
    let (r, e1, rest) = >>=-eq-some (alloc p 0 rgid size) _ e in
    let a = alloc-Allocated live p h rgid size r inb idle room e1 in
    let rest' = rw a.returned at rest in
    let (q, e2, last) = >>=-eq-some (refresh_loop _ (paging_pgn r.1) r.2) _ rest' in
    let (h2, brk) = same-IsHeap (rgid ∷ live) r.2 q (refresh_loop_fixed _ _ r.2 q e2) a.heap in
    subst (λ (x : ℕ × Pcb). IsHeap (rgid ∷ live) x.1 × (sbrk_of x.1 ≤ sbrk_of p + pages size * 256))
      (some-injective _ _ last) (h2, omega (arith, brk, a.break))

symbol_in_table :
    (live : List ℕ) (p : Pcb)
    → IsHeap live p
    → (rgid : ℕ) → member rgid live ≡ true
    → rgid < max_symtbl_sz
symbol_in_table live p h rgid used = (AreBound-member p.mm.symrgtbl rgid live used h.bound).0

tlbfree_data-IsHeap :
    (live : List ℕ) (p : Pcb) (rgid : ℕ) (m : ℕ × Pcb)
    → IsHeap live p
    → member rgid live ≡ true
    → tlbfree_data p rgid ≡ some m
    → IsHeap (remove rgid live) m.1 × (sbrk_of m.1 ≡ sbrk_of p)
unfolding tlbfree_data
tlbfree_data-IsHeap live p rgid m h used e =
    let region = p.mm.symrgtbl rgid in
    let unused = leb max_symtbl_sz rgid || ((region.rg_start == 0) && (region.rg_end == 0)) in
    elim (Bool-cases unused) [
      | inl refused ↦
          let same = some-injective _ _ (rw refused at e) in
          let inb = symbol_in_table live p h rgid used in
          subst (λ (x : ℕ × Pcb). IsHeap (remove rgid live) x.1 × (sbrk_of x.1 ≡ sbrk_of p)) same
            (unused-IsHeap live p h rgid used (ground (arith, refused, inb)), refl)
      | inr found ↦
          let (r, e1, rest) = >>=-eq-some (free p 0 rgid) _ (rw found at e) in
          let (p1, served, f) = free-Freed live p h rgid used in
          let next : r.1 ≡ p1 = ap (λ x. x.1) (some-injective _ _ (sym e1 ∙ served)) in
          let (q, e2, last) = >>=-eq-some (forget_loop _ _ r.1) _ rest in
          let (h2, brk) =
            same-IsHeap (remove rgid live) p1 q (rw next at (forget_loop_fixed _ _ r.1 q e2))
              f.heap in
          subst (λ (x : ℕ × Pcb). IsHeap (remove rgid live) x.1 × (sbrk_of x.1 ≡ sbrk_of p))
            (some-injective _ _ last) (h2, brk ∙ f.break)
    ]

-- One instruction, by its opcode.
pub execute-IsHeap :
    (op : Opcode) (a0 a1 a2 : ℕ) (live : List ℕ) (p : Pcb) (m : ℕ × Pcb)
    → let ins : Inst = record { opcode = op; arg_0 = a0; arg_1 = a1; arg_2 = a2 } in
      let ops = ops_of (ins ∷ []) in
      IsHeap live p
      → IsProper live ops
      → sbrk_of p + demand ops * 256 + 255 < 2 ^ 31
      → execute p ins ≡ some m
      → IsHeap (in_use live ops) m.1 × (sbrk_of m.1 ≤ sbrk_of p + demand ops * 256)
unfolding execute
execute-IsHeap Opcode.calc a0 a1 a2 live p m h proper room e =
    let same = some-injective _ _ e in
    subst (λ (x : ℕ × Pcb). IsHeap live x.1 × (sbrk_of x.1 ≤ sbrk_of p + 0 * 256)) same
      (h, omega arith)
execute-IsHeap Opcode.alloc a0 a1 a2 live p m h proper room e =
    let (h1, brk) = tlballoc-IsHeap live p a0 a1 m h proper.0 proper.1 (omega (arith, room)) e in
    (h1, omega (arith, brk))
execute-IsHeap Opcode.free a0 a1 a2 live p m h proper room e =
    let (h1, brk) = tlbfree_data-IsHeap live p a0 m h proper.0 e in (h1, omega (arith, brk))
execute-IsHeap Opcode.read a0 a1 a2 live p m h proper room e =
    let (h1, brk) = same-IsHeap live p m.1 (tlbread_fixed p a0 a1 a2 m e) h in
    (h1, omega (arith, brk))
execute-IsHeap Opcode.write a0 a1 a2 live p m h proper room e =
    let (h1, brk) = same-IsHeap live p m.1 (tlbwrite_fixed p (a0 % 2 ^ 8) a1 a2 m e) h in
    (h1, omega (arith, brk))
