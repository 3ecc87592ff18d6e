-- ===== src/Mm/Keeping.antt =====
-- What getting frames and mapping pages leave alone in a process: besides its own fields, its
-- areas and its symbols.
use hk232_assignment_os.Base.{
  ℕ, zero, suc, ◌+◌, ◌≡◌, ◌∙◌, Option, some, List, [], ◌∷◌, arith, >>=-eq-some,
}
use hk232_assignment_os.Pcb.{Inst, Pcb, VmRg, VmArea, Mm}
use hk232_assignment_os.Paging.{minus_one, rounds}
use hk232_assignment_os.Mm.{
  oom, Frame, got, short, evict, next_frame, alloc_loop, alloc_pages_range, map_loop,
  vmap_page_range, vm_map_ram, enlist_pgn_node, find_victim_page,
}

abbrev pub memory_fields : Mm → List VmArea × (ℕ → VmRg)
memory_fields mm = (mm.mmap, mm.symrgtbl)

abbrev pub stable_fields : Pcb → ℕ × ℕ × ℕ × List Inst × ℕ × List VmArea × (ℕ → VmRg)
stable_fields p = (p.pid, p.priority, p.prio, p.code, p.pc, p.mm.mmap, p.mm.symrgtbl)

map_loop_fixed :
    (n pgn : ℕ) (l : List ℕ) (mm mm' : Mm)
    → map_loop n pgn l mm ≡ some mm'
    → memory_fields mm' ≡ memory_fields mm
unfolding map_loop enlist_pgn_node
map_loop_fixed zero pgn l mm mm' e = ground (arith, e)
map_loop_fixed (suc n) pgn [] mm mm' e = cc
map_loop_fixed (suc n) pgn (f ∷ l) mm mm' e = grind (arith, e, map_loop_fixed n (pgn + 1) l)

abbrev frame_fields : Frame → ℕ × ℕ × ℕ × List Inst × ℕ × List VmArea × (ℕ → VmRg)
frame_fields (got fpn p) = stable_fields p
frame_fields (short p) = stable_fields p

evict_fixed : (p : Pcb) (r : Frame) → evict p ≡ some r → frame_fields r ≡ stable_fields p
unfolding evict find_victim_page
evict_fixed p r e = ground (arith, e)

next_frame_fixed : (p : Pcb) (r : Frame) → next_frame p ≡ some r → frame_fields r ≡ stable_fields p
unfolding next_frame
next_frame_fixed p r e = ground (arith, e, evict_fixed p r)

abbrev after_frame : ℕ → List ℕ → Frame → Option (ℕ × List ℕ × Pcb)
after_frame n l (got fpn p) = alloc_loop n p (fpn ∷ l)
after_frame n l (short p) = some (elim l [ [] ↦ (minus_one, [], p) | _ ∷ _ ↦ (oom, [], p) ])

alloc_loop_fixed :
    (n : ℕ) (p q : Pcb) (l l' : List ℕ) (v : ℕ)
    → alloc_loop n p l ≡ some (v, l', q)
    → stable_fields q ≡ stable_fields p
unfolding alloc_loop
alloc_loop_fixed zero p q l l' v e = ground (arith, e)
alloc_loop_fixed (suc n) p q l l' v e =
    let (r, er, rest) = >>=-eq-some (next_frame p) _ e in
    elim r
        as (λ r.
          frame_fields r ≡ stable_fields p
          → after_frame n l r ≡ some (v, l', q)
          → stable_fields q ≡ stable_fields p) [
            | got fpn p' ↦ λ h then. alloc_loop_fixed n p' q (fpn ∷ l) l' v then ∙ h
            | short p' ↦ λ h then. ground (arith, h, then)
          ]
      (next_frame_fixed p r er) rest

pub vm_map_ram_fixed :
    (p : Pcb) (a b c n : ℕ) (m : ℕ × Pcb)
    → vm_map_ram p a b c n ≡ some m
    → stable_fields m.1 ≡ stable_fields p
unfolding vm_map_ram alloc_pages_range vmap_page_range
vm_map_ram_fixed p a b c n m e =
    let (r, er, rest) = >>=-eq-some (alloc_loop (rounds n) p []) _ e in
    let h = alloc_loop_fixed (rounds n) p r.2 [] r.1 r.0 er in
    grind (arith, rest, h, map_loop_fixed)
