-- ===== src/Mm/Swap.antt =====
-- The copy of a page between two devices, and the victim of a replacement.
use native.Mathlib.Nat.{mod-eq_of_lt}
use hk232_assignment_os.Base.{
  ℕ, zero, suc, ◌+◌, ◌-◌, ◌*◌, ◌%◌, ◌^◌, ◌≤◌, ◌<◌, ◌≡◌, ◌≢◌, refl, ap, ◌∙◌, fun_ext, ◌&&◌, ltb, leb,
  if◌then◌else◌, some, List, [], ◌∷◌, ◌++◌, update, arith, ◌⊎◌,
}
use hk232_assignment_os.Paging.{pagesz}
use hk232_assignment_os.Memphy.{Memphy}
use hk232_assignment_os.Memphy
use hk232_assignment_os.Pcb.{Mm}
use hk232_assignment_os.Mm.{swap_loop, swap_cp_page, split_last, find_victim_page, enlist_pgn_node}

-- A device of random access that holds frame `f` and is addressed by an `int`.
pub record HoldsFrame (mp : Memphy) (f : ℕ) : Type 0 where
  pub random : mp.rdmflg ≢ 0
  pub within : (f + 1) * pagesz ≤ mp.maxsz
  pub small : mp.maxsz < 2 ^ 31

-- The device with `n` bytes from `d` on replaced by those of `f` from `s` on.
abbrev pub pasted : Memphy → (ℕ → ℕ) → ℕ → ℕ → ℕ → Memphy
pasted mp f s d n = record mp {
  storage = λ j. if leb d j && ltb j (d + n) then f (s + (j - d)) else mp.storage j;
}

read_byte :
    (mp : Memphy) (f i : ℕ)
    → HoldsFrame mp f
    → i < pagesz
    → Memphy.read mp ((f * pagesz + i) % 2 ^ 32) ≡ some (0, some (mp.storage (f * pagesz + i)), mp)
unfolding Memphy.read
read_byte mp f i h b =
    let e : (f * pagesz + i) % 2 ^ 32 ≡ f * pagesz + i =
      mod-eq_of_lt (omega (arith, h.within, h.small)) in
    rw e (ground (arith, h.random, h.within))

write_byte :
    (mp : Memphy) (f i v : ℕ)
    → HoldsFrame mp f
    → i < pagesz
    → Memphy.write mp ((f * pagesz + i) % 2 ^ 32) v
      ≡ some (0, record mp { storage = update mp.storage (f * pagesz + i) v })
unfolding Memphy.write
write_byte mp f i v h b =
    let e : (f * pagesz + i) % 2 ^ 32 ≡ f * pagesz + i =
      mod-eq_of_lt (omega (arith, h.within, h.small)) in
    rw e (ground (arith, h.random, h.within))

pasted_next :
    (mp : Memphy) (f : ℕ → ℕ) (s d n : ℕ)
    → pasted (record mp { storage = update mp.storage d (f s) }) f (s + 1) (d + 1) n
      ≡ pasted mp f s d (suc n)
pasted_next mp f s d n = ap (λ g. record mp { storage = g }) (fun_ext λ j. ground arith)

swap_loop_lem :
    (n i : ℕ) (src dst : Memphy) (sf df : ℕ)
    → i + n ≤ pagesz
    → HoldsFrame src sf
    → HoldsFrame dst df
    → swap_loop n i src sf dst df
      ≡ some (src, pasted dst src.storage (sf * pagesz + i) (df * pagesz + i) n)
unfolding swap_loop
swap_loop_lem zero i src dst sf df b hs hd =
    ap (λ g. some (src, record dst { storage = g })) (fun_ext λ j. ground arith)
swap_loop_lem (suc n) i src dst sf df b hs hd =
    let dst' = record dst {
      storage = update dst.storage (df * pagesz + i) (src.storage (sf * pagesz + i));
    } in
    let hd' : HoldsFrame dst' df = record {
      random = hd.random;
      within = hd.within;
      small = hd.small;
    } in
    let es : sf * pagesz + (i + 1) ≡ sf * pagesz + i + 1 = omega arith in
    let ed : df * pagesz + (i + 1) ≡ df * pagesz + i + 1 = omega arith in
    rw
      (
        read_byte src sf i hs (omega arith),
        write_byte dst df i (src.storage (sf * pagesz + i)) hd (omega arith),
      )
      (swap_loop_lem n (i + 1) src dst' sf df (omega arith) hs hd'
        ∙ rw (es, ed)
            (ap (λ m. some (src, m))
              (pasted_next dst src.storage (sf * pagesz + i) (df * pagesz + i) n)))

pub swap_cp_page_lem :
    (src dst : Memphy) (sf df : ℕ)
    → HoldsFrame src sf
    → HoldsFrame dst df
    → swap_cp_page src sf dst df
      ≡ some (src, pasted dst src.storage (sf * pagesz + 0) (df * pagesz + 0) pagesz)
unfolding swap_cp_page
swap_cp_page_lem src dst sf df hs hd = swap_loop_lem pagesz 0 src dst sf df (omega arith) hs hd

-- `__swap_cp_page` between random access devices that hold the two frames copies the 256 bytes of
-- the source frame to the target frame. It changes no other byte of the target device, and
-- nothing of the source device.
pub swap_cp_page_copies :
    (src dst : Memphy) (sf df : ℕ)
    → HoldsFrame src sf
    → HoldsFrame dst df
    → (dst' : Memphy) × (swap_cp_page src sf dst df ≡ some (src, dst'))
      × ((i : ℕ) → i < pagesz → dst'.storage (df * pagesz + i) ≡ src.storage (sf * pagesz + i))
      × ((j : ℕ) → (j < df * pagesz) ⊎ (df * pagesz + pagesz ≤ j) → dst'.storage j ≡ dst.storage j)
      × (dst'.free_fp_list ≡ dst.free_fp_list)
swap_cp_page_copies src dst sf df hs hd = (
  pasted dst src.storage (sf * pagesz + 0) (df * pagesz + 0) pagesz,
  swap_cp_page_lem src dst sf df hs hd,
  (λ i h. ground arith),
  (λ j h. ground arith),
  refl,
)

split_last_nil : (pg : ℕ) → split_last pg [] ≡ (pg, [])
unfolding split_last
split_last_nil pg = refl

split_last_append : (pg : ℕ) (xs : List ℕ) (p : ℕ) → split_last pg (xs ++ p ∷ []) ≡ (p, pg ∷ xs)
unfolding split_last
split_last_append pg [] p = refl
split_last_append pg (x ∷ xs) p = rw (split_last_append x xs p)

pub find_victim_last :
    (mm : Mm) (xs : List ℕ) (oldest : ℕ)
    → mm.fifo_pgn ≡ xs ++ oldest ∷ []
    → find_victim_page mm ≡ some (oldest, record mm { fifo_pgn = xs })
unfolding find_victim_page
find_victim_last mm [] oldest e = rw (e, find_victim_page) (rw (split_last_nil oldest))
find_victim_last mm (x ∷ xs) oldest e =
    rw (e, find_victim_page) (rw (split_last_append x xs oldest))

-- The victim is the oldest page of the FIFO list, and it leaves the list. Enlisting another page
-- before the search does not change which page that is.
pub find_victim_page-enlist_pgn_node :
    (mm : Mm) (xs : List ℕ) (oldest pgn : ℕ)
    → mm.fifo_pgn ≡ xs ++ oldest ∷ []
    → find_victim_page (enlist_pgn_node mm pgn) ≡ some (oldest, record mm { fifo_pgn = pgn ∷ xs })
unfolding enlist_pgn_node
find_victim_page-enlist_pgn_node mm xs oldest pgn e =
    find_victim_last (record mm { fifo_pgn = pgn ∷ mm.fifo_pgn }) (pgn ∷ xs) oldest
      (ap (λ l. pgn ∷ l) e)
