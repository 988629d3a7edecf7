-- ===== src/Access/Difference.antt =====
-- `full_negation` sets what a set lacks among all 64 flags, so `a & full_negation(b)` is the
-- difference of two sets.
use native.Mathlib.Decide.{dec_lt}
use rust_landlock.Prelude.{ℕ, ◌-◌, ◌^◌, ◌<◌, ◌≡◌, not, ◌&&◌, arith}
use rust_landlock.Prelude.Bits.{test_bit_complement}
use rust_landlock.BitFlags.{BitFlags, ◌∩◌}
use rust_landlock.BitFlags.Digits.{has, has_above, has-intersection}
use rust_landlock.Access.{full_negation}

module _ ⦃E : BitFlags⦄ where
  open E use {Flags, bits, bits-lt, bits-from_bits_unchecked}

  has-full_negation : (a : Flags) (i : ℕ) → i < 64 → has (full_negation a) i ≡ not (has a i)
  unfolding has full_negation
  has-full_negation a i h =
      rw (bits-from_bits_unchecked (2 ^ 64 - 1 - bits a) (omega (arith, bits-lt a)))
        (test_bit_complement 64 i (bits a) (bits-lt a) h)

  -- For each two sets a and b and each position, a & full_negation(b) has the flag there exactly if a
  -- has it and b has not, also for undeclared flags.
  pub has-difference :
      (a b : Flags) (i : ℕ) → has (a ∩ full_negation b) i ≡ has a i && not (has b i)
  has-difference a b i = elim (dec_lt i 64) [
    | yes p ↦ rw (has-intersection a (full_negation b) i, has-full_negation b i p)
    | no p ↦
        ground (arith, has_above (a ∩ full_negation b) i (omega arith), has_above a i (omega arith))
  ]
