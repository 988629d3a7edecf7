-- ===== src/Prelude/Bits.antt =====
-- Binary digits of a number, and `bit_and`, `bit_or`, `bit_xor` and the 64-bit complement digit by
-- digit.
mod Step
use Step.{bit_and_step, bit_or_step, bit_xor_step}
use Prim.Native.Nat.{
  ℕ, zero, suc, ◌+◌, ◌-◌, ◌*◌, ◌/◌, ◌%◌, ◌^◌, ◌≤◌, ◌<◌, min, max, differ, bit_and, bit_or, bit_xor,
}
use mathlib.Core.Path.{◌≡◌, refl, sym, ap, ◌∙◌}
use mathlib.Core.Bool.{Bool, true, false, not, ◌&&◌, ◌||◌, xor}
use native.Mathlib.Omega.{arith}
use native.Mathlib.Nat.{pow-suc}
use rust_landlock.Prelude.Tests.{◌==◌, if◌then◌else◌}

abbrev odd : ℕ → Bool
odd n = n % 2 == 1

-- Digit `i` of `n`, the lowest first.
pub test_bit : ℕ → ℕ → Bool
test_bit zero n = odd n
test_bit (suc i) n = test_bit i (n / 2)

odd-bit_and : (a b : ℕ) → odd (bit_and a b) ≡ odd a && odd b
odd-bit_and a b = ground (arith, bit_and_step a b)

odd-bit_or : (a b : ℕ) → odd (bit_or a b) ≡ odd a || odd b
odd-bit_or a b = ground (arith, bit_or_step a b)

differ-lt : (x y : ℕ) → x < 2 → y < 2 → differ x y ≡ (if x == y then 0 else 1)
differ-lt zero zero p q = refl
differ-lt zero (suc zero) p q = refl
differ-lt (suc zero) zero p q = refl
differ-lt (suc zero) (suc zero) p q = refl
differ-lt zero (suc (suc y)) p q = absurd (omega arith)
differ-lt (suc zero) (suc (suc y)) p q = absurd (omega arith)
differ-lt (suc (suc x)) y p q = absurd (omega arith)

odd-bit_xor : (a b : ℕ) → odd (bit_xor a b) ≡ xor (odd a) (odd b)
unfolding xor
odd-bit_xor a b =
    ground (arith, bit_xor_step a b, differ-lt (a % 2) (b % 2) (omega arith) (omega arith))

half-bit_and : (a b : ℕ) → bit_and a b / 2 ≡ bit_and (a / 2) (b / 2)
half-bit_and a b = omega (arith, bit_and_step a b)

half-bit_or : (a b : ℕ) → bit_or a b / 2 ≡ bit_or (a / 2) (b / 2)
half-bit_or a b = ground (arith, bit_or_step a b)

half-bit_xor : (a b : ℕ) → bit_xor a b / 2 ≡ bit_xor (a / 2) (b / 2)
half-bit_xor a b =
    ground (arith, bit_xor_step a b, differ-lt (a % 2) (b % 2) (omega arith) (omega arith))

pub test_bit-bit_and : (i a b : ℕ) → test_bit i (bit_and a b) ≡ test_bit i a && test_bit i b
unfolding test_bit
test_bit-bit_and zero a b = odd-bit_and a b
test_bit-bit_and (suc i) a b = rw half-bit_and (test_bit-bit_and i (a / 2) (b / 2))

pub test_bit-bit_or : (i a b : ℕ) → test_bit i (bit_or a b) ≡ test_bit i a || test_bit i b
unfolding test_bit
test_bit-bit_or zero a b = odd-bit_or a b
test_bit-bit_or (suc i) a b = rw half-bit_or (test_bit-bit_or i (a / 2) (b / 2))

pub test_bit-bit_xor : (i a b : ℕ) → test_bit i (bit_xor a b) ≡ xor (test_bit i a) (test_bit i b)
unfolding test_bit
test_bit-bit_xor zero a b = odd-bit_xor a b
test_bit-bit_xor (suc i) a b = rw half-bit_xor (test_bit-bit_xor i (a / 2) (b / 2))

pub test_bit-zero : (i : ℕ) → test_bit i 0 ≡ false
unfolding test_bit
test_bit-zero zero = refl
test_bit-zero (suc i) = test_bit-zero i

-- A number below `2 ^ k` has no digit from `k` on.
pub test_bit_above : (k i n : ℕ) → n < 2 ^ k → k ≤ i → test_bit i n ≡ false
unfolding test_bit
test_bit_above zero i n h p = let e : n ≡ 0 = omega arith in rw e (test_bit-zero i)
test_bit_above (suc k) zero n h p = absurd (omega arith)
test_bit_above (suc k) (suc i) n h p =
    test_bit_above k i (n / 2) (omega (arith, pow-suc 2 k)) (omega arith)

-- The complement within `k` digits flips each of them.
pub test_bit_complement :
    (k i n : ℕ) → n < 2 ^ k → i < k → test_bit i (2 ^ k - 1 - n) ≡ not (test_bit i n)
unfolding test_bit
test_bit_complement zero i n h p = absurd (omega arith)
test_bit_complement (suc k) zero n h p = ground (arith, pow-suc 2 k)
test_bit_complement (suc k) (suc i) n h p =
    let e : (2 ^ suc k - 1 - n) / 2 ≡ 2 ^ k - 1 - n / 2 = omega (arith, pow-suc 2 k) in
    rw e (test_bit_complement k i (n / 2) (omega (arith, pow-suc 2 k)) (omega arith))

odd-inj : (a b : ℕ) → odd a ≡ odd b → a % 2 ≡ b % 2
odd-inj a b e = ground arith

bits_ext_bounded : (k a b : ℕ) → a + b ≤ k → ((i : ℕ) → test_bit i a ≡ test_bit i b) → a ≡ b
unfolding test_bit
bits_ext_bounded zero a b h e = omega arith
bits_ext_bounded (suc k) a b h e =
    ground
      (arith, odd-inj a b (e 0), bits_ext_bounded k (a / 2) (b / 2) (ground arith) (λ i. e (suc i)))

-- Numbers with the same digits are equal.
pub bits_ext : (a b : ℕ) → ((i : ℕ) → test_bit i a ≡ test_bit i b) → a ≡ b
bits_ext a b = bits_ext_bounded (a + b) a b (omega arith)

-- A number with no digit from `k` on is below `2 ^ k`.
pub lt_pow : (k n : ℕ) → ((i : ℕ) → k ≤ i → test_bit i n ≡ false) → n < 2 ^ k
unfolding test_bit
lt_pow zero n h =
    let e : n ≡ 0 = bits_ext n 0 (λ i. h i (omega arith) ∙ sym (test_bit-zero i)) in omega arith
lt_pow (suc k) n h = omega (arith, pow-suc 2 k, lt_pow k (n / 2) (λ i p. h (suc i) (omega arith)))
