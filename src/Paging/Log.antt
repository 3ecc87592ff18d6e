-- ===== src/Paging/Log.antt =====
-- NBITS against the binary logarithm.
use native.Mathlib.Nat.{mul-le-mul_left, lt-mul-div-succ, one-le-pow}
use native.Mathlib.Omega.{pow_step}
use hk232_assignment_os.Base.{
  ℕ, zero, suc, ◌+◌, ◌*◌, ◌/◌, ◌^◌, ◌≤◌, ◌<◌, ◌≡◌, ◌≢◌, false, ◌==◌, bit_and, arith, Bool-cases,
  inl, inr,
}
use hk232_assignment_os.Base.Bits.{bit_and_field}
use hk232_assignment_os.Paging.{nbits2, nbits4, nbits8, nbits16, nbits32, nbits}

pow_add : (k r : ℕ) → 2 ^ (k + r) ≡ 2 ^ k * 2 ^ r
pow_add zero r = let z : 0 + r ≡ r = omega arith in rw z (omega arith)
pow_add (suc k) r =
    let s : suc k + r ≡ suc (k + r) = omega arith in
    rw (s, pow_step 2 (k + r), pow_step 2 k, pow_add k r) (grind arith)

-- `r` is the position of the highest bit of `n`.
abbrev pub IsLog : ℕ → ℕ → Type 0
IsLog n r = (2 ^ r ≤ n) × (n < 2 * 2 ^ r)

shift-IsLog : (k n r : ℕ) → IsLog (n / 2 ^ k) r → IsLog n (k + r)
shift-IsLog k n r h =
    let above : n < 2 ^ k * (n / 2 ^ k + 1) = lt-mul-div-succ n (one-le-pow k 2 (omega arith)) in
    let bound : 2 ^ k * (n / 2 ^ k + 1) ≤ 2 ^ k * (2 * 2 ^ r) =
      mul-le-mul_left (2 ^ k) (omega (arith, h.1)) in
    let swap : 2 ^ k * (2 * 2 ^ r) ≡ 2 * (2 ^ k * 2 ^ r) = grind arith in
    rw (pow_add k r) (grind arith, omega (arith, above, bound, swap))

IsLog-nbits2 : (n : ℕ) → n ≢ 0 → n < 2 ^ 2 → IsLog n (nbits2 n)
IsLog-nbits2 n z b = ground (arith, bit_and_field 1 1 n)

IsLog-nbits4 : (n : ℕ) → n ≢ 0 → n < 2 ^ 4 → IsLog n (nbits4 n)
IsLog-nbits4 n z b = elim (Bool-cases (bit_and n 0xC == 0)) [
  | inl low ↦ rw low (IsLog-nbits2 n z (ground (arith, low, bit_and_field 2 2 n)))
  | inr high ↦ rw high (
      shift-IsLog 2 n (nbits2 (n / 2 ^ 2))
        (IsLog-nbits2 (n / 2 ^ 2) (ground (arith, high, bit_and_field 2 2 n)) (omega arith)))
]

IsLog-nbits8 : (n : ℕ) → n ≢ 0 → n < 2 ^ 8 → IsLog n (nbits8 n)
IsLog-nbits8 n z b = elim (Bool-cases (bit_and n 0xF0 == 0)) [
  | inl low ↦ rw low (IsLog-nbits4 n z (ground (arith, low, bit_and_field 4 4 n)))
  | inr high ↦ rw high (
      shift-IsLog 4 n (nbits4 (n / 2 ^ 4))
        (IsLog-nbits4 (n / 2 ^ 4) (ground (arith, high, bit_and_field 4 4 n)) (omega arith)))
]

IsLog-nbits16 : (n : ℕ) → n ≢ 0 → n < 2 ^ 16 → IsLog n (nbits16 n)
IsLog-nbits16 n z b = elim (Bool-cases (bit_and n 0xFF00 == 0)) [
  | inl low ↦ rw low (IsLog-nbits8 n z (ground (arith, low, bit_and_field 8 8 n)))
  | inr high ↦ rw high (
      shift-IsLog 8 n (nbits8 (n / 2 ^ 8))
        (IsLog-nbits8 (n / 2 ^ 8) (ground (arith, high, bit_and_field 8 8 n)) (omega arith)))
]

IsLog-nbits32 : (n : ℕ) → n ≢ 0 → n < 2 ^ 32 → IsLog n (nbits32 n)
IsLog-nbits32 n z b = elim (Bool-cases (bit_and n 0xFFFF_0000 == 0)) [
  | inl low ↦ rw low (IsLog-nbits16 n z (ground (arith, low, bit_and_field 16 16 n)))
  | inr high ↦ rw high (
      shift-IsLog 16 n (nbits16 (n / 2 ^ 16))
        (IsLog-nbits16 (n / 2 ^ 16) (ground (arith, high, bit_and_field 16 16 n)) (omega arith)))
]

-- NBITS of a word other than 0 is the position of its highest bit, the binary logarithm rounded
-- down.
pub nbits-IsLog : (n : ℕ) → n ≢ 0 → n < 2 ^ 32 → IsLog n (nbits n)
nbits-IsLog n z b = let e : (n == 0) ≡ false = ground arith in rw e (IsLog-nbits32 n z b)
