-- ===== src/Base/Bits/Step.antt =====
-- One equation for the lowest binary digit of `&` and `|`.
use Prim.Native.Nat.{
  ℕ, zero, suc, ◌+◌, ◌-◌, ◌*◌, ◌/◌, ◌%◌, ◌≤◌, min, max, digits, bitwise, bit_and, bit_or,
  bit_and-bitwise, bit_or-bitwise,
}
use mathlib.Core.Path.{◌≡◌, refl, ap, ◌∙◌}
use native.Mathlib.Omega.{arith}

module _ (z : ℕ → ℕ) (f : ℕ → ℕ → ℕ) where
  -- Once the fuel is enough, more of it changes nothing.
  one_more : (n x y : ℕ) → x ≤ n → digits z f (suc n) x y ≡ digits z f n x y
  one_more zero zero y h = refl
  one_more zero (suc x) y h = absurd (omega arith)
  one_more (suc n) zero y h = refl
  one_more (suc n) (suc x) y h = rw (one_more n (suc x / 2) (y / 2) (omega arith))

  more : (k n x y : ℕ) → x ≤ n → digits z f (k + n) x y ≡ digits z f n x y
  more zero n x y h = let e : 0 + n ≡ n = omega arith in rw e refl
  more (suc k) n x y h =
      let e : suc k + n ≡ suc (k + n) = omega arith in
      rw e (one_more (k + n) x y (omega arith) ∙ more k n x y h)

  lowest_digit :
      ((y : ℕ) → z y ≡ f 0 (y % 2) + 2 * z (y / 2))
      → (x y : ℕ) → bitwise z f x y ≡ f (x % 2) (y % 2) + 2 * bitwise z f (x / 2) (y / 2)
  lowest_digit at_end zero y = at_end y
  lowest_digit at_end (suc x) y =
      let half = suc x / 2 in
      let e : x - half + half ≡ x = omega arith in
      omega (
        arith,
        more (x - half) half half (y / 2) (omega arith),
        ap (λ n. digits z f n half (y / 2)) e,
      )

pub bit_and_step : (x y : ℕ) → bit_and x y ≡ min (x % 2) (y % 2) + 2 * bit_and (x / 2) (y / 2)
bit_and_step x y = simp bit_and-bitwise (lowest_digit (λ _. 0) min (λ b. omega arith) x y)

pub bit_or_step : (x y : ℕ) → bit_or x y ≡ max (x % 2) (y % 2) + 2 * bit_or (x / 2) (y / 2)
bit_or_step x y = simp bit_or-bitwise (lowest_digit (λ b. b) max (λ b. omega arith) x y)
