-- ===== src/Vm/Region/Heap/Run.antt =====
-- Sequences of allocations and releases, through the entries `pgalloc` and `pgfree_data`.
use hk232_assignment_os.Base.{
  ℕ, zero, suc, ◌+◌, ◌*◌, ◌-◌, ◌^◌, ◌≤◌, ◌<◌, ◌≡◌, refl, ap, ◌∙◌, true, false, Option, some, List,
  [], ◌∷◌, All, length, drop, member, remove, arith, inl, inr, Bool-cases, ◌>>=◌,
}
use hk232_assignment_os.Paging.{max_pgn, paging_pgn}
use hk232_assignment_os.Paging.Arith.{paging_pgn_arith}
use hk232_assignment_os.Pcb.{Pcb}
use hk232_assignment_os.Vm.{max_symtbl_sz}
use hk232_assignment_os.Vm.Region.{alloc, pgalloc, pgfree_data}
use hk232_assignment_os.Vm.Region.FreeList.{has_fit}
use hk232_assignment_os.Vm.Region.Laws.{alloc_fits_first}
use hk232_assignment_os.Vm.Region.Grow.{pages, alloc_grows}
use hk232_assignment_os.Vm.Region.Heap.{IsHeap, sbrk_of, sbrk_of_area}
use hk232_assignment_os.Vm.Region.Heap.Steps.{same_process, alloc-Allocated, free-Freed}

pub data Op : Type 0 where
  acquire : ℕ → ℕ → Op
  release : ℕ → Op

-- The return value and the process after one call.
abbrev pub call : Op → Pcb → Option (ℕ × Pcb)
call (Op.acquire rgid size) p = pgalloc p size rgid
call (Op.release rgid) p = pgfree_data p rgid

-- The return values of the calls and the process after them.
abbrev pub calls : List Op → Pcb → Option (List ℕ × Pcb)
calls [] p = some ([], p)
calls (op ∷ ops) p = call op p >>= λ r. calls ops r.1 >>= λ s. some (r.0 ∷ s.0, s.1)

-- The symbols in use after the calls.
abbrev pub in_use : List ℕ → List Op → List ℕ
in_use live [] = live
in_use live (Op.acquire rgid size ∷ ops) = in_use (rgid ∷ live) ops
in_use live (Op.release rgid ∷ ops) = in_use (remove rgid live) ops

-- No symbol is allocated while it is in use, or freed while it is not.
abbrev pub IsProper : List ℕ → List Op → Type 0
IsProper live [] = Unit
IsProper live (Op.acquire rgid size ∷ ops) =
    (rgid < max_symtbl_sz) × (member rgid live ≡ false) × IsProper (rgid ∷ live) ops
IsProper live (Op.release rgid ∷ ops) = (member rgid live ≡ true) × IsProper (remove rgid live) ops

-- The pages that the calls ask for at most.
abbrev pub demand : List Op → ℕ
demand [] = 0
demand (Op.acquire rgid size ∷ ops) = pages size + demand ops
demand (Op.release rgid ∷ ops) = demand ops

-- Enough frames are free in RAM for `n` more pages, and enough pages in the page table.
abbrev pub HasSupply : Pcb → ℕ → Type 0
HasSupply p n = (n ≤ length p.mram.free_fp_list) × (sbrk_of p + n * 256 ≤ max_pgn * 256)

length-drop : (n : ℕ) (xs : List ℕ) → length (drop n xs) ≡ length xs - n
length-drop zero xs = omega arith
length-drop (suc n) [] = omega arith
length-drop (suc n) (x ∷ xs) = omega (arith, length-drop n xs)

module _ (live : List ℕ) (p : Pcb) (h : IsHeap live p) (rgid size k : ℕ)
    (inb : rgid < max_symtbl_sz) (supply : HasSupply p (pages size + k)) where
  pgno_room : paging_pgn h.area.vm_end + pages size ≤ max_pgn
  pgno_room = omega (arith, supply.1, sbrk_of_area live p h, h.ends, paging_pgn_arith h.area.vm_end)

  alloc_returns : (m : ℕ × ℕ × Pcb) × (alloc p 0 rgid size ≡ some m) × HasSupply m.2 k
  alloc_returns =
      let same = ap (λ q. alloc q 0 rgid size) (same_process live p h) in
      let brk = sbrk_of_area live p h in
      let small : size < 2 ^ 31 = omega (arith, supply.1) in
      elim (Bool-cases (has_fit (h.first ∷ h.others) size)) [
        | inl fit ↦ (
          _,
          same ∙ alloc_fits_first p h.area h.first h.others size small h.regions rgid inb fit,
          (omega (arith, supply.0), omega (arith, supply.1, brk)),
        )
        | inr full ↦
            let (mm', e, _) =
              alloc_grows h.area h.first h.others size (pages size) rgid inb refl
                (omega (arith, supply.1, brk)) h.ends h.regions full p p.mram.free_fp_list
                (omega (arith, supply.0)) pgno_room in
            (
              _,
              same ∙ e,
              (
                omega (arith, supply.0, length-drop (pages size) p.mram.free_fp_list),
                omega (arith, supply.1, brk),
              ),
            )
      ]

-- What a sequence of calls comes to.
pub record Served (live : List ℕ) (ops : List Op) (p : Pcb) : Type 0 where
  pub answers : List ℕ
  pub after : Pcb
  pub served : calls ops p ≡ some (answers, after)
  pub one_each : length answers ≡ length ops
  pub accepted : All (λ r. r ≡ 0) answers
  pub heap : IsHeap (in_use live ops) after

-- Any sequence of allocations and releases that allocates no symbol in use and frees none that is
-- not, in a process that is a heap and has frames and pages enough for all that is asked for:
-- every call returns 0, and the process is a heap again, whose symbols in use are those that have
-- been allocated last.
pub calls-IsHeap :
    (ops : List Op) (live : List ℕ) (p : Pcb)
    → IsHeap live p
    → IsProper live ops
    → HasSupply p (demand ops)
    → Served live ops p
unfolding pgalloc pgfree_data
calls-IsHeap [] live p h proper supply = record {
  answers = [];
  after = p;
  served = refl;
  one_each = refl;
  accepted = tt;
  heap = h;
}
calls-IsHeap (Op.acquire rgid size ∷ ops) live p h proper supply =
    let (inb, idle, rest) = proper in
    let (m, e, supply') = alloc_returns live p h rgid size (demand ops) inb supply in
    let a = alloc-Allocated live p h rgid size m inb idle (omega (arith, supply.1)) e in
    let s = calls-IsHeap ops (rgid ∷ live) m.2 a.heap rest supply' in
    record {
      answers = m.0 ∷ s.answers;
      after = s.after;
      served = rw e (rw s.served refl);
      one_each = ap suc s.one_each;
      accepted = (a.returned, s.accepted);
      heap = s.heap;
    }
calls-IsHeap (Op.release rgid ∷ ops) live p h proper supply =
    let (p', e, f) = free-Freed live p h rgid proper.0 in
    let s =
      calls-IsHeap ops (remove rgid live) p' f.heap proper.1
        (rw f.frames supply.0, rw f.break supply.1) in
    record {
      answers = 0 ∷ s.answers;
      after = s.after;
      served = rw e (rw s.served refl);
      one_each = ap suc s.one_each;
      accepted = (refl, s.accepted);
      heap = s.heap;
    }
