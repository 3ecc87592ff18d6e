-- ===== src/TlbCache/Answers.antt =====
-- What `tlb_cache_read` finds after `tlb_cache_write`.
use hk232_assignment_os.Base.{
  ℕ, ◌⊎◌, ◌+◌, ◌/◌, ◌%◌, ◌^◌, ◌<◌, ◌≡◌, refl, ◌∙◌, true, false, ◌==◌, ◌&&◌, Option, none, some,
  arith, Bool-cases, inl, inr,
}
use native.Mathlib.Nat.{mod-eq_of_lt}
use hk232_assignment_os.Paging.{minus_one, page_present}
use hk232_assignment_os.Paging.Arith.{page_present_arith}
use hk232_assignment_os.Memphy.{Memphy}
use hk232_assignment_os.TlbCache.{cache_line_size, sign_extend, tlb_cache_read, tlb_cache_write}
use hk232_assignment_os.TlbCache.Lines.{
  HasLines, start, line_pgnum, line_pte, lined, read_lem, write_lem, two_bytes, three_bytes,
  lined-HasLines,
}

-- On a cache of at least one line neither operation faults, for any page number that is an `int`
-- and not negative, though lines start at every byte: a write succeeds, and a read gives a result.
pub tlb_cache_in_bounds :
    (mp : Memphy) (pid pgnum pte : ℕ)
    → HasLines mp
    → pgnum < 2 ^ 31
    → ((mp' : Memphy) × (tlb_cache_write mp pid pgnum pte ≡ some (0, mp')) × HasLines mp')
      × (r : ℕ × Option ℕ) × (tlb_cache_read mp pid pgnum ≡ some r)
tlb_cache_in_bounds mp pid pgnum pte c h = (
  (lined mp pid pgnum pte, write_lem mp pid pgnum pte c h, lined-HasLines mp pid pgnum pte c),
  _,
  read_lem mp pid pgnum c h,
)

module _ (mp : Memphy) (pid pgnum pte : ℕ) (c : HasLines mp) where
  -- On a cache of at least one line, an entry of three low bytes below 128 that has just been
  -- written, for a process number below 128 and a page number below 2 ^ 14 with a low byte below
  -- 128, is found, and taken to be of a page that is not present, as the line has no room for the
  -- entry's present bit: the read returns -1 and stores the byte of -1.
  pub tlb_cache_read-tlb_cache_write :
      pid < 128
      → pgnum < 2 ^ 14
      → pgnum % 256 < 128
      → pte % 256 < 128
      → pte / 2 ^ 8 % 256 < 128
      → pte / 2 ^ 16 % 256 < 128
      → (mp' : Memphy) × (tlb_cache_write mp pid pgnum pte ≡ some (0, mp'))
        × (tlb_cache_read mp' pid pgnum ≡ some (minus_one, some 255))
  tlb_cache_read-tlb_cache_write hp hg low b0 b1 b2 =
      let mp' = lined mp pid pgnum pte in
      let t = start mp pgnum in
      let own : (pid == sign_extend (mp'.storage t)) ≡ true = ground arith in
      let page : (pgnum == line_pgnum mp'.storage t) ≡ true =
        ground (arith, two_bytes (mp'.storage (t + 1)) (mp'.storage (t + 2))) in
      let absent : page_present (line_pte mp'.storage t) ≡ false = ground (
        arith,
        three_bytes (mp'.storage (t + 3)) (mp'.storage (t + 4)) (mp'.storage (t + 5)),
        page_present_arith (line_pte mp'.storage t),
      ) in
      (
        mp',
        write_lem mp pid pgnum pte c (omega arith),
        read_lem mp' pid pgnum (lined-HasLines mp pid pgnum pte c) (omega arith)
            ∙ rw (own, page) (rw absent refl),
      )

  -- The lines of two pages that follow each other overlap in five of their six bytes: for page
  -- numbers below 128 and below the number of lines, and a process number from 1 to 127, the
  -- entry of a page is not found again once that of the next page is written.
  pub tlb_cache_overlap :
      (next_pte : ℕ)
      → 0 < pid
      → pid < 128
      → pgnum + 1 < 128
      → pgnum + 1 < mp.maxsz / cache_line_size
      → (mp' mp'' : Memphy) × (tlb_cache_write mp pid pgnum pte ≡ some (0, mp'))
        × (tlb_cache_write mp' pid (pgnum + 1) next_pte ≡ some (0, mp''))
        × (tlb_cache_read mp'' pid pgnum ≡ some (minus_one, none))
  tlb_cache_overlap next_pte h0 hp hg inside =
      let mp' = lined mp pid pgnum pte in
      let mp'' = lined mp' pid (pgnum + 1) next_pte in
      let c' = lined-HasLines mp pid pgnum pte c in
      let t : start mp pgnum ≡ pgnum = mod-eq_of_lt (omega arith) in
      let t' : start mp (pgnum + 1) ≡ pgnum + 1 = mod-eq_of_lt inside in
      let other : (pgnum == line_pgnum mp''.storage (start mp pgnum)) ≡ false =
        rw t (rw t' (ground (arith, two_bytes pid ((pgnum + 1) / 256)))) in
      (
        mp',
        mp'',
        write_lem mp pid pgnum pte c (omega arith),
        write_lem mp' pid (pgnum + 1) next_pte c' (omega arith),
        read_lem mp'' pid pgnum (lined-HasLines mp' pid (pgnum + 1) next_pte c') (omega arith)
            ∙ elim (Bool-cases (pid == sign_extend (mp''.storage (start mp pgnum)))) [
              | inl e ↦ rw (e, other) refl
              | inr e ↦ rw e refl
            ],
      )

-- A read gives 0 with a byte, or -1.
pub tlb_cache_answers :
    (mp : Memphy) (pid pgnum : ℕ)
    → HasLines mp
    → pgnum < 2 ^ 31
    → ((b : ℕ) × (tlb_cache_read mp pid pgnum ≡ some (0, some b)))
      ⊎ ((o : Option ℕ) × (tlb_cache_read mp pid pgnum ≡ some (minus_one, o)))
tlb_cache_answers mp pid pgnum c h =
    let s = mp.storage in
    let t = start mp pgnum in
    let e = read_lem mp pid pgnum c h in
    elim (Bool-cases ((pid == sign_extend (s t)) && (pgnum == line_pgnum s t))) [
      | inr m ↦ inr (none, rw m at e)
      | inl m ↦ elim (Bool-cases (page_present (line_pte s t))) [
        | inl p ↦ inl (_, rw p at (rw m at e))
        | inr p ↦ inr (_, rw p at (rw m at e))
      ]
    ]
