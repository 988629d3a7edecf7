-- ===== src/Prelude/Bits/Step.antt =====
-- The law of the lowest digit for each operation on binary digits.
use Prim.Native.Nat.{
  ℕ, zero, suc, ◌+◌, ◌-◌, ◌*◌, ◌/◌, ◌%◌, ◌≤◌, min, max, bit_and, bit_or, bit_xor, digits, differ,
  bit_and-bitwise, bit_or-bitwise, bit_xor-bitwise,
}
use mathlib.Core.Path.{◌≡◌, refl, ap, ◌∙◌}
use native.Mathlib.Omega.{arith}

-- An operation on digits: `rest` says what it makes of the second number once the first is used up,
-- and `op` what it makes of two digits.
module _ (rest : ℕ → ℕ) (op : ℕ → ℕ → ℕ) where
  by_digits : (count x y : ℕ) → ℕ
  by_digits = digits rest op

  -- One more digit than the first number can have changes nothing.
  one_more : (count x y : ℕ) → x ≤ count → by_digits (suc count) x y ≡ by_digits count x y
  unfolding by_digits
  one_more zero zero y h = refl
  one_more (suc count) zero y h = refl
  one_more zero (suc x) y h = absurd (omega arith)
  one_more (suc count) (suc x) y h =
      ap (λ k. k * 2 + op (suc x % 2) (y % 2)) (one_more count (suc x / 2) (y / 2) (omega arith))

  some_more :
      (extra count total x y : ℕ)
      → total ≡ extra + count
      → x ≤ count
      → by_digits total x y ≡ by_digits count x y
  some_more zero count total x y e h = ap (λ n. by_digits n x y) (omega arith)
  some_more (suc extra) count total x y e h =
      let longer : total ≡ suc (extra + count) = omega arith in
      ap (λ n. by_digits n x y) longer
      ∙ one_more (extra + count) x y (omega arith)
      ∙ some_more extra count (extra + count) x y refl h

  -- The lowest digit, and the others.
  pub lowest :
      (x y : ℕ)
      → digits rest op (suc x) (suc x) y
        ≡ digits rest op (suc x / 2) (suc x / 2) (y / 2) * 2 + op (suc x % 2) (y % 2)
  unfolding by_digits
  lowest x y =
      let half = suc x / 2 in
      ap (λ k. k * 2 + op (suc x % 2) (y % 2))
        (some_more (x - half) half x half (y / 2) (omega arith) (omega arith))

pub bit_and_step : (x y : ℕ) → bit_and x y ≡ bit_and (x / 2) (y / 2) * 2 + min (x % 2) (y % 2)
bit_and_step zero y = omega (arith, bit_and-bitwise 0 y, bit_and-bitwise 0 (y / 2))
bit_and_step (suc x) y =
    rw (bit_and-bitwise (suc x) y, bit_and-bitwise (suc x / 2) (y / 2)) (lowest (λ y. zero) min x y)

pub bit_or_step : (x y : ℕ) → bit_or x y ≡ bit_or (x / 2) (y / 2) * 2 + max (x % 2) (y % 2)
bit_or_step zero y = omega (arith, bit_or-bitwise 0 y, bit_or-bitwise 0 (y / 2))
bit_or_step (suc x) y =
    rw (bit_or-bitwise (suc x) y, bit_or-bitwise (suc x / 2) (y / 2)) (lowest (λ y. y) max x y)

pub bit_xor_step : (x y : ℕ) → bit_xor x y ≡ bit_xor (x / 2) (y / 2) * 2 + differ (x % 2) (y % 2)
bit_xor_step zero y = omega (arith, bit_xor-bitwise 0 y, bit_xor-bitwise 0 (y / 2))
bit_xor_step (suc x) y =
    rw (bit_xor-bitwise (suc x) y, bit_xor-bitwise (suc x / 2) (y / 2)) (lowest (λ y. y) differ x y)
