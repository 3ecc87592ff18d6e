-- ===== src/Base/Bits.antt =====
-- `&` and `|` of words, split into a high and a low part. With a mask that is a numeral these
-- lemmas turn the bit operations of the page table macros into arithmetic.
mod Step
use Step.{bit_or_step, bit_and_step}
use mathlib.Core.Path.{◌≡◌, refl, ap, ◌∙◌}
use native.Mathlib.Nat.{pow-suc, one-le-pow}
use native.Mathlib.Omega.{arith}
use Prim.Native.Nat.{
  ℕ, zero, suc, ◌+◌, ◌-◌, ◌*◌, ◌/◌, ◌%◌, ◌^◌, ◌≤◌, ◌<◌, bit_and, bit_or, bit_or-bitwise,
}

-- By induction on a bound of `x`, which its half respects too.
bit_and-zero_below : (bound x : ℕ) → x ≤ bound → bit_and x 0 ≡ 0
bit_and-zero_below zero x h = let e : x ≡ 0 = omega arith in rw e refl
bit_and-zero_below (suc k) x h =
    omega (arith, bit_and_step x 0, bit_and-zero_below k (x / 2) (omega arith))

bit_or-zero_below : (bound x : ℕ) → x ≤ bound → bit_or x 0 ≡ x
bit_or-zero_below zero x h = let e : x ≡ 0 = omega arith in rw e refl
bit_or-zero_below (suc k) x h =
    omega (arith, bit_or_step x 0, bit_or-zero_below k (x / 2) (omega arith))

pub bit_and-zero : (x : ℕ) → bit_and x 0 ≡ 0
bit_and-zero x = bit_and-zero_below x x (omega arith)

pub bit_or-zero : (x : ℕ) → bit_or x 0 ≡ x
bit_or-zero x = bit_or-zero_below x x (omega arith)

shift_suc : (x k : ℕ) → x * 2 ^ suc k ≡ x * 2 ^ k + x * 2 ^ k
shift_suc x k = omega (ap (λ (t : ℕ). x * t) (pow-suc 2 k), arith)

zero-bit_or : (b : ℕ) → bit_or 0 b ≡ b
zero-bit_or b = bit_or-bitwise 0 b

bit_and_at : (q p : ℕ) → bit_and (q * 1 + 0) (p * 1 + 0) ≡ bit_and q p
bit_and_at q p =
    let eq : q * 1 + 0 ≡ q = omega arith in let ep : p * 1 + 0 ≡ p = omega arith in rw (eq, ep)

bit_or_at : (q p : ℕ) → bit_or (q * 1 + 0) (p * 1 + 0) ≡ bit_or q p
bit_or_at q p =
    let eq : q * 1 + 0 ≡ q = omega arith in let ep : p * 1 + 0 ≡ p = omega arith in rw (eq, ep)

-- `&` and `|` act on the parts above and below bit `k` separately.
pub bit_and_parts :
    (k q r p n : ℕ)
    → r < 2 ^ k
    → n < 2 ^ k
    → bit_and (q * 2 ^ k + r) (p * 2 ^ k + n) ≡ bit_and q p * 2 ^ k + bit_and r n
bit_and_parts zero q r p n hr hn =
    let er : r ≡ 0 = omega arith in
    let en : n ≡ 0 = omega arith in rw (er, en) (omega (arith, bit_and_at q p))
bit_and_parts (suc k) q r p n hr hn = ground (
  arith,
  bit_and_step (q * 2 ^ suc k + r) (p * 2 ^ suc k + n),
  bit_and_step r n,
  shift_suc q k,
  shift_suc p k,
  shift_suc (bit_and q p) k,
  pow-suc 2 k,
  bit_and_parts k q (r / 2) p (n / 2) (omega (arith, pow-suc 2 k)) (omega (arith, pow-suc 2 k)),
)

pub bit_or_parts :
    (k q r p n : ℕ)
    → r < 2 ^ k
    → n < 2 ^ k
    → bit_or (q * 2 ^ k + r) (p * 2 ^ k + n) ≡ bit_or q p * 2 ^ k + bit_or r n
bit_or_parts zero q r p n hr hn =
    let er : r ≡ 0 = omega arith in
    let en : n ≡ 0 = omega arith in rw (er, en) (omega (arith, bit_or_at q p))
bit_or_parts (suc k) q r p n hr hn = ground (
  arith,
  bit_or_step (q * 2 ^ suc k + r) (p * 2 ^ suc k + n),
  bit_or_step r n,
  shift_suc q k,
  shift_suc p k,
  shift_suc (bit_or q p) k,
  pow-suc 2 k,
  bit_or_parts k q (r / 2) p (n / 2) (omega (arith, pow-suc 2 k)) (omega (arith, pow-suc 2 k)),
)

-- The same of a word `x` that is not yet split.
pub bit_and_split :
    (k x p n : ℕ)
    → n < 2 ^ k
    → bit_and x (p * 2 ^ k + n) ≡ bit_and (x / 2 ^ k) p * 2 ^ k + bit_and (x % 2 ^ k) n
bit_and_split k x p n hn =
    let e : x ≡ x / 2 ^ k * 2 ^ k + x % 2 ^ k = grind arith in
    ap (λ (y : ℕ). bit_and y (p * 2 ^ k + n)) e
    ∙ bit_and_parts k (x / 2 ^ k) (x % 2 ^ k) p n (grind (arith, one-le-pow k 2)) hn

pub bit_or_split :
    (k x p n : ℕ)
    → n < 2 ^ k
    → bit_or x (p * 2 ^ k + n) ≡ bit_or (x / 2 ^ k) p * 2 ^ k + bit_or (x % 2 ^ k) n
bit_or_split k x p n hn =
    let e : x ≡ x / 2 ^ k * 2 ^ k + x % 2 ^ k = grind arith in
    ap (λ (y : ℕ). bit_or y (p * 2 ^ k + n)) e
    ∙ bit_or_parts k (x / 2 ^ k) (x % 2 ^ k) p n (grind (arith, one-le-pow k 2)) hn

bit_and_low : (k r : ℕ) → r < 2 ^ k → bit_and r (2 ^ k - 1) ≡ r
bit_and_low zero r h = omega (arith, bit_and-zero r)
bit_and_low (suc k) r h = ground (
  arith,
  bit_and_step r (2 ^ suc k - 1),
  pow-suc 2 k,
  one-le-pow k 2,
  bit_and_low k (r / 2) (omega (arith, pow-suc 2 k)),
)

-- A mask of the `k` low bits is the remainder by `2 ^ k`.
pub bit_and_mask : (k x : ℕ) → bit_and x (2 ^ k - 1) ≡ x % 2 ^ k
bit_and_mask k x = ground (
  arith,
  one-le-pow k 2,
  bit_and_split k x 0 (2 ^ k - 1),
  bit_and-zero (x / 2 ^ k),
  bit_and_low k (x % 2 ^ k),
)

-- A mask of `w` bits from bit `l` on.
pub bit_and_field : (l w x : ℕ) → bit_and x ((2 ^ w - 1) * 2 ^ l + 0) ≡ x / 2 ^ l % 2 ^ w * 2 ^ l
bit_and_field l w x = omega (
  arith,
  bit_and_split l x (2 ^ w - 1) 0 (one-le-pow l 2 (omega arith)),
  ap (λ (t : ℕ). t * 2 ^ l) (bit_and_mask w (x / 2 ^ l)),
  bit_and-zero (x % 2 ^ l),
)

-- The complement of such a mask: `l` bits below it, and `t` bits from bit `s` on.
pub bit_and_outside :
    (l s t x : ℕ)
    → 2 ^ l ≤ 2 ^ s
    → bit_and x ((2 ^ t - 1) * 2 ^ s + (2 ^ l - 1)) ≡ x / 2 ^ s % 2 ^ t * 2 ^ s + x % 2 ^ s % 2 ^ l
bit_and_outside l s t x h = omega (
  arith,
  one-le-pow l 2 (omega arith),
  bit_and_split s x (2 ^ t - 1) (2 ^ l - 1) (omega (arith, one-le-pow l 2 (omega arith))),
  ap (λ (u : ℕ). u * 2 ^ s) (bit_and_mask t (x / 2 ^ s)),
  bit_and_mask l (x % 2 ^ s),
)

bit_or-one : (x : ℕ) → bit_or x 1 ≡ x / 2 * 2 + 1
bit_or-one x = omega (arith, bit_or_step x 1, bit_or-zero (x / 2))

-- `|` of a word with a hole of bits `l` to `s - 1` and a value that fits the hole.
pub bit_or_fill :
    (l s q f r : ℕ)
    → r < 2 ^ l
    → f * 2 ^ l + r < 2 ^ s
    → bit_or (q * 2 ^ s + r) (f * 2 ^ l) ≡ q * 2 ^ s + f * 2 ^ l + r
bit_or_fill l s q f r hr hf = ground (
  arith,
  bit_or_parts s q r 0 (f * 2 ^ l) (omega arith) (omega arith),
  bit_or_parts l 0 r f 0 hr (omega arith),
  ap (λ (u : ℕ). u * 2 ^ s) (bit_or-zero q),
  ap (λ (u : ℕ). u * 2 ^ l) (zero-bit_or f),
  bit_or-zero r,
)

-- One bit set.
pub bit_or_bit : (b x : ℕ) → bit_or x (1 * 2 ^ b + 0) ≡ (x / 2 ^ b / 2 * 2 + 1) * 2 ^ b + x % 2 ^ b
bit_or_bit b x = omega (
  arith,
  bit_or_split b x 1 0 (one-le-pow b 2 (omega arith)),
  ap (λ (u : ℕ). u * 2 ^ b) (bit_or-one (x / 2 ^ b)),
  bit_or-zero (x % 2 ^ b),
)
