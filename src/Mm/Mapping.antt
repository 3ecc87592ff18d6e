-- ===== src/Mm/Mapping.antt =====
-- Getting frames and mapping pages to them: `alloc_pages_range`, `vmap_page_range`, `vm_map_ram`.
use mathlib.Core.Option.{some-injective}
use hk232_assignment_os.Base.{
  ℕ, zero, suc, ◌+◌, ◌^◌, ◌≤◌, ◌<◌, ◌≡◌, ◌⊎◌, refl, ap, ◌∙◌, true, false, ltb, some, List, [], ◌∷◌,
  update, length, get_elem?, take, drop, arith, update_self, update_ne, inl, inr,
}
use hk232_assignment_os.Paging.{minus_one, is_neg, max_pgn, paging_pgn}
use hk232_assignment_os.Paging.Pte.{pte_set_fpn}
use hk232_assignment_os.Memphy.{get_freefp}
use hk232_assignment_os.Pcb.{Mm, Pcb}
use hk232_assignment_os.Mm.{
  enlist_pgn_node, find_victim_page, map_loop, vmap_page_range, next_frame, evict, got, short,
  alloc_loop, alloc_pages_range, vm_map_ram, oom,
}

-- A list put before another in reverse.
abbrev pub rev_onto : List ℕ → List ℕ → List ℕ
rev_onto [] acc = acc
rev_onto (x ∷ xs) acc = rev_onto xs (x ∷ acc)

pub length-rev_onto : (xs acc : List ℕ) → length (rev_onto xs acc) ≡ length xs + length acc
length-rev_onto [] acc = omega arith
length-rev_onto (x ∷ xs) acc = omega (arith, length-rev_onto xs (x ∷ acc))

length-take_le : (n : ℕ) (xs : List ℕ) → n ≤ length xs → length (take n xs) ≡ n
length-take_le zero xs h = refl
length-take_le (suc n) [] h = absurd (omega arith)
length-take_le (suc n) (x ∷ xs) h = ap suc (length-take_le n xs (omega arith))

-- The process with `frames` left on the free list of its RAM.
abbrev pub with_free : Pcb → List ℕ → Pcb
with_free c frames = record c { mram = record c.mram { free_fp_list = frames } }

next_frame_free :
    (c : Pcb) (f : ℕ) (fs : List ℕ)
    → next_frame (with_free c (f ∷ fs)) ≡ some (got f (with_free c fs))
unfolding next_frame get_freefp
next_frame_free c f fs = refl

next_frame_short :
    (c : Pcb) → c.mm.fifo_pgn ≡ [] → next_frame (with_free c []) ≡ some (short (with_free c []))
unfolding next_frame get_freefp evict find_victim_page
next_frame_short c e = rw (e, find_victim_page)

-- With enough free frames the loop takes them in order, and nothing else changes.
alloc_loop_free :
    (n : ℕ) (c : Pcb) (fs acc : List ℕ)
    → n ≤ length fs
    → alloc_loop n (with_free c fs) acc
      ≡ some (0, rev_onto (take n fs) acc, with_free c (drop n fs))
unfolding alloc_loop
alloc_loop_free zero c fs acc h = refl
alloc_loop_free (suc n) c [] acc h = absurd (omega arith)
alloc_loop_free (suc n) c (f ∷ fs) acc h =
    rw (next_frame_free c f fs) (alloc_loop_free n c fs (f ∷ acc) (omega arith))

-- With too few frames and no page to evict it fails, after it has taken them all.
alloc_loop_short :
    (n : ℕ) (c : Pcb) (fs acc : List ℕ)
    → length fs < n
    → c.mm.fifo_pgn ≡ []
    → (r : ℕ) × (alloc_loop n (with_free c fs) acc ≡ some (r, [], with_free c []))
      × ((r ≡ minus_one) ⊎ (r ≡ oom))
unfolding alloc_loop
alloc_loop_short zero c fs acc h e = absurd (omega arith)
alloc_loop_short (suc n) c [] [] h e = (minus_one, rw (next_frame_short c e), inl refl)
alloc_loop_short (suc n) c [] (a ∷ acc) h e = (oom, rw (next_frame_short c e), inr refl)
alloc_loop_short (suc n) c (f ∷ fs) acc h e =
    rw (next_frame_free c f fs) (alloc_loop_short n c fs (f ∷ acc) (omega arith) e)

-- What mapping `n` pages from `pgn` on to the first frames of a list does to the page table.
pub record Mapped (n pgn : ℕ) (frames : List ℕ) (mm mm' : Mm) : Type 0 where
  pub online :
      (i f : ℕ)
      → i < n
      → get_elem? frames i ≡ some f
      → mm'.pgd (pgn + i) ≡ pte_set_fpn (mm.pgd (pgn + i)) f
  pub others : (j : ℕ) → (j < pgn) ⊎ (pgn + n ≤ j) → mm'.pgd j ≡ mm.pgd j
  pub same_mmap : mm'.mmap ≡ mm.mmap
  pub same_symrgtbl : mm'.symrgtbl ≡ mm.symrgtbl
  pub queued : length mm'.fifo_pgn ≡ n + length mm.fifo_pgn

-- One page mapped, before the others.
online_step :
    (n pgn f : ℕ) (frames : List ℕ) (mm mm' : Mm)
    → Mapped n
        (pgn + 1)
        frames
        (record mm {
          pgd = update mm.pgd pgn (pte_set_fpn (mm.pgd pgn) f);
          fifo_pgn = pgn ∷ mm.fifo_pgn;
        })
        mm'
    → (i g : ℕ) → i < suc n
    → get_elem? (f ∷ frames) i ≡ some g
    → mm'.pgd (pgn + i) ≡ pte_set_fpn (mm.pgd (pgn + i)) g
online_step n pgn f frames mm mm' m zero g lt e =
    let z : pgn + 0 ≡ pgn = omega arith in
    rw z (
      m.others pgn (omega arith)
      ∙ update_self mm.pgd pgn _
      ∙ ap (pte_set_fpn (mm.pgd pgn)) (some-injective f g e))
online_step n pgn f frames mm mm' m (suc i) g lt e =
    let z : pgn + suc i ≡ pgn + 1 + i = omega arith in
    let old : update mm.pgd pgn (pte_set_fpn (mm.pgd pgn) f) (pgn + 1 + i) ≡ mm.pgd (pgn + 1 + i) =
      update_ne mm.pgd pgn (pgn + 1 + i) _ (omega arith) in
    rw z (m.online i g (omega arith) e ∙ ap (λ p. pte_set_fpn p g) old)

map_loop-Mapped :
    (n pgn : ℕ) (frames : List ℕ) (mm : Mm)
    → n ≤ length frames
    → pgn + n ≤ max_pgn
    → (mm' : Mm) × (map_loop n pgn frames mm ≡ some mm') × Mapped n pgn frames mm mm'
unfolding map_loop enlist_pgn_node
map_loop-Mapped zero pgn frames mm h b = (
  mm,
  refl,
  record {
    online = λ i f lt e. absurd (omega arith);
    others = λ j h. refl;
    same_mmap = refl;
    same_symrgtbl = refl;
    queued = omega arith;
  },
)
map_loop-Mapped (suc n) pgn [] mm h b = absurd (omega arith)
map_loop-Mapped (suc n) pgn (f ∷ frames) mm h b =
    let ok : ltb pgn max_pgn ≡ true = ground arith in
    let pgd1 = update mm.pgd pgn (pte_set_fpn (mm.pgd pgn) f) in
    let mm1 = record mm { pgd = pgd1; fifo_pgn = pgn ∷ mm.fifo_pgn } in
    let (mm', e, m) = map_loop-Mapped n (pgn + 1) frames mm1 (omega arith) (omega arith) in
    rw ok (
      mm',
      e,
      record {
        online = online_step n pgn f frames mm mm' m;
        others = λ j out. m.others j (omega arith) ∙ update_ne mm.pgd pgn j _ (omega arith);
        same_mmap = m.same_mmap;
        same_symrgtbl = m.same_symrgtbl;
        queued = omega (arith, m.queued);
      },
    )

-- `vm_map_ram` for `n` pages that lie in the page table, with at least `n` frames free in RAM: it
-- returns 0, the first `n` frames of the free list leave it, and the pages from the mapping point
-- on are online in those frames, the last frame taken first. No other page table entry, no area,
-- no symbol and no device content changes.
pub vm_map_ram-Mapped :
    (c : Pcb) (fs : List ℕ) (astart aend mapstart n : ℕ)
    → n < 2 ^ 31
    → n ≤ length fs
    → paging_pgn mapstart + n ≤ max_pgn
    → (mm' : Mm) × (vm_map_ram (with_free c fs) astart aend mapstart n
        ≡ some (0, record (with_free c (drop n fs)) { mm = mm' }))
      × Mapped n (paging_pgn mapstart) (rev_onto (take n fs) []) c.mm mm'
unfolding vm_map_ram alloc_pages_range vmap_page_range
vm_map_ram-Mapped c fs astart aend mapstart n small enough room =
    let counted : is_neg n ≡ false = ground arith in
    let (mm', e, m) =
      map_loop-Mapped n (paging_pgn mapstart) (rev_onto (take n fs) []) c.mm
        (omega (arith, length-rev_onto (take n fs) [], length-take_le n fs enough)) room in
    rw counted (rw (alloc_loop_free n c fs [] enough) (rw e (mm', refl, m)))

-- `vm_map_ram` with fewer than `n` frames free in RAM and no page to evict: it returns -1, maps
-- nothing, and all frames that were free are gone from the free list.
pub vm_map_ram_loses_frames :
    (c : Pcb) (fs : List ℕ) (astart aend mapstart n : ℕ)
    → n < 2 ^ 31
    → length fs < n
    → c.mm.fifo_pgn ≡ []
    → vm_map_ram (with_free c fs) astart aend mapstart n ≡ some (minus_one, with_free c [])
unfolding vm_map_ram alloc_pages_range
vm_map_ram_loses_frames c fs astart aend mapstart n small few e =
    let counted : is_neg n ≡ false = ground arith in
    let (r, e', codes) = alloc_loop_short n c fs [] few e in
    rw counted (elim codes [ inl m ↦ rw (rw m at e') | inr m ↦ rw (rw m at e') ])
