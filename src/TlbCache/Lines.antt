-- ===== src/TlbCache/Lines.antt =====
-- The bytes of a line, as the two operations write and read them.
use hk232_assignment_os.Base.{
  ℕ, ◌+◌, ◌-◌, ◌*◌, ◌/◌, ◌%◌, ◌^◌, ◌≤◌, ◌<◌, ◌≡◌, refl, true, false, ◌==◌, ltb, if◌then◌else◌, ◌&&◌,
  none, some, update, arith, bit_or, Bool-cases, inl, inr,
}
use native.Mathlib.Nat.{mod-lt}
use hk232_assignment_os.Base.Bits.{bit_or_fill}
use hk232_assignment_os.Paging.{minus_one, is_neg, paging_fpn, page_present}
use hk232_assignment_os.Memphy.{Memphy}
use hk232_assignment_os.TlbCache.{
  cache_line_size, sign_extend, shl, line_of, tlb_cache_read, tlb_cache_write,
}

-- A cache of at least one line, addressed by an `int`.
pub record HasLines (mp : Memphy) : Type 0 where
  pub one_line : cache_line_size ≤ mp.maxsz
  pub small : mp.maxsz < 2 ^ 31

-- Where the line of a page starts.
abbrev pub start : Memphy → ℕ → ℕ
start mp pgnum = pgnum % (mp.maxsz / cache_line_size)

line_of_lem :
    (mp : Memphy) (pgnum : ℕ)
    → HasLines mp
    → pgnum < 2 ^ 31
    → line_of mp pgnum ≡ some (start mp pgnum)
unfolding line_of
line_of_lem mp pgnum c h = ground (arith, c.one_line)

start_lt : (mp : Memphy) (pgnum : ℕ) → HasLines mp → start mp pgnum + 5 < mp.maxsz
start_lt mp pgnum c =
    omega
      (arith, c.one_line, mod-lt pgnum {m = mp.maxsz / cache_line_size} (omega (arith, c.one_line)))

-- The page number and the entry as a line's bytes give them back.
abbrev pub line_pgnum : (ℕ → ℕ) → ℕ → ℕ
line_pgnum s t = bit_or (shl (sign_extend (s (t + 1))) 8) (sign_extend (s (t + 2)))

abbrev pub line_pte : (ℕ → ℕ) → ℕ → ℕ
line_pte s t =
    bit_or (bit_or (shl (sign_extend (s (t + 3))) 16) (shl (sign_extend (s (t + 4))) 8))
      (sign_extend (s (t + 5)))

pub read_lem :
    (mp : Memphy) (pid pgnum : ℕ)
    → HasLines mp
    → pgnum < 2 ^ 31
    → let s = mp.storage in
      let t = start mp pgnum in
      tlb_cache_read mp pid pgnum
      ≡ some (
          if (pid == sign_extend (s t)) && (pgnum == line_pgnum s t)
          then (if page_present (line_pte s t)
              then (0, some (paging_fpn (line_pte s t) % 2 ^ 8))
              else (minus_one, some (2 ^ 8 - 1)))
          else (minus_one, none))
unfolding tlb_cache_read
read_lem mp pid pgnum c h =
    let t = start mp pgnum in
    let b = start_lt mp pgnum c in
    let l0 : ltb t mp.maxsz ≡ true = ground arith in
    let l1 : ltb (t + 1) mp.maxsz ≡ true = ground arith in
    let l2 : ltb (t + 2) mp.maxsz ≡ true = ground arith in
    let l3 : ltb (t + 3) mp.maxsz ≡ true = ground arith in
    let l4 : ltb (t + 4) mp.maxsz ≡ true = ground arith in
    let l5 : ltb (t + 5) mp.maxsz ≡ true = ground arith in
    rw (line_of_lem mp pgnum c h) (
      rw (l0) (
        rw (l1) (
          rw (l2) (
            rw (l3, l4, l5)
              (elim (Bool-cases
                ((pid == sign_extend (mp.storage t)) && (pgnum == line_pgnum mp.storage t))) [
                  | inl e ↦ rw e refl
                  | inr e ↦ rw e refl
                ])))))

-- The bytes after a write.
abbrev pub lined : Memphy → ℕ → ℕ → ℕ → Memphy
lined mp pid pgnum pte =
    let t = start mp pgnum in
    record mp {
      storage =
          update
            (update
              (update
                (update (update (update mp.storage t (pid % 2 ^ 8)) (t + 1) (pgnum / 2 ^ 8 % 2 ^ 8))
                  (t + 2) (pgnum % 2 ^ 8))
                (t + 3) (pte / 2 ^ 16 % 2 ^ 8))
              (t + 4) (pte / 2 ^ 8 % 2 ^ 8))
            (t + 5) (pte % 2 ^ 8);
    }

pub write_lem :
    (mp : Memphy) (pid pgnum pte : ℕ)
    → HasLines mp
    → pgnum < 2 ^ 31
    → tlb_cache_write mp pid pgnum pte ≡ some (0, lined mp pid pgnum pte)
unfolding tlb_cache_write
write_lem mp pid pgnum pte c h =
    let t = start mp pgnum in
    let b = start_lt mp pgnum c in
    let l0 : ltb t mp.maxsz ≡ true = ground arith in
    let l1 : ltb (t + 1) mp.maxsz ≡ true = ground arith in
    let l2 : ltb (t + 2) mp.maxsz ≡ true = ground arith in
    let l3 : ltb (t + 3) mp.maxsz ≡ true = ground arith in
    let l4 : ltb (t + 4) mp.maxsz ≡ true = ground arith in
    let l5 : ltb (t + 5) mp.maxsz ≡ true = ground arith in
    let pos : is_neg pgnum ≡ false = ground arith in
    rw pos
      (rw (line_of_lem mp pgnum c h) (rw (l0) (rw (l1) (rw (l2) (rw l3 (rw l4 (rw l5 refl)))))))

-- Two bytes below 128, and three, put together.
pub two_bytes :
    (a b : ℕ) → a < 128 → b < 128 → bit_or (shl (sign_extend a) 8) (sign_extend b) ≡ a * 2 ^ 8 + b
two_bytes a b ha hb = ground (arith, bit_or_fill 0 8 a b 0)

pub three_bytes :
    (a b c : ℕ)
    → a < 128
    → b < 128
    → c < 128
    → bit_or (bit_or (shl (sign_extend a) 16) (shl (sign_extend b) 8)) (sign_extend c)
      ≡ a * 2 ^ 16 + b * 2 ^ 8 + c
three_bytes a b c ha hb hc =
    ground (arith, bit_or_fill 8 16 a b 0, bit_or_fill 0 8 (a * 2 ^ 8 + b) c 0)

pub lined-HasLines :
    (mp : Memphy) (pid pgnum pte : ℕ) → HasLines mp → HasLines (lined mp pid pgnum pte)
lined-HasLines mp pid pgnum pte c = record { one_line = c.one_line; small = c.small }
