-- ===== src/BitFlags/Model.antt =====
-- A concrete `BitFlags`, which meets every documented law: the words below 2 ^ 64.
use native.Mathlib.Nat.{ℕ_set}
use mathlib.Core.HLevel.{Σ_prop_path}
use rust_landlock.Prelude.{
  ℕ, ◌-◌, ◌^◌, ◌%◌, ◌<◌, ◌≡◌, refl, ◌∙◌, List, arith, ◌==◌, bit_and, bit_or, bit_xor, xor, [], ◌∷◌,
}
use rust_landlock.Prelude.Bits.{
  test_bit-bit_and, test_bit-bit_or, test_bit-bit_xor, test_bit_above, lt_pow,
}
use rust_landlock.BitFlags.{BitFlags, AccessFs, discriminant, variants, bits_of}

abbrev pub Word : Type 0
Word = (n : ℕ) × (n % 2 ^ 64 ≡ n)

abbrev wrap : ℕ → Word
wrap n = (n % 2 ^ 64, omega arith)

pub word_ext : (a b : Word) → a.0 ≡ b.0 → a ≡ b
word_ext a b e = Σ_prop_path (λ n. ℕ_set (n % 2 ^ 64) n) e

pub word-lt : (a : Word) → a.0 < 2 ^ 64
word-lt a = omega (arith, a.1)

pub bit_and-lt : (a b : ℕ) → a < 2 ^ 64 → b < 2 ^ 64 → bit_and a b < 2 ^ 64
bit_and-lt a b p q =
    lt_pow 64 (bit_and a b)
      (λ i h. test_bit-bit_and i a b ∙ ground (arith, test_bit_above 64 i a, test_bit_above 64 i b))

pub bit_or-lt : (a b : ℕ) → a < 2 ^ 64 → b < 2 ^ 64 → bit_or a b < 2 ^ 64
bit_or-lt a b p q =
    lt_pow 64 (bit_or a b)
      (λ i h. test_bit-bit_or i a b ∙ ground (arith, test_bit_above 64 i a, test_bit_above 64 i b))

pub bit_xor-lt : (a b : ℕ) → a < 2 ^ 64 → b < 2 ^ 64 → bit_xor a b < 2 ^ 64
unfolding xor
bit_xor-lt a b p q =
    lt_pow 64 (bit_xor a b)
      (λ i h. test_bit-bit_xor i a b ∙ ground (arith, test_bit_above 64 i a, test_bit_above 64 i b))

pub discriminant-lt : (x : AccessFs) → discriminant x < 2 ^ 64
unfolding discriminant
discriminant-lt x = ground arith

pub bits_of-lt : (xs : List AccessFs) → bits_of xs < 2 ^ 64
unfolding bits_of
bits_of-lt [] = omega arith
bits_of-lt (x ∷ xs) = bit_or-lt (discriminant x) (bits_of xs) (discriminant-lt x) (bits_of-lt xs)

pub wrap_of-lt : (n : ℕ) → n < 2 ^ 64 → n % 2 ^ 64 ≡ n
wrap_of-lt n h = omega arith

instance abbrev pub words : BitFlags
words = record {
  Flags = Word;
  bits = λ a. a.0;
  from_bits_unchecked = wrap;
  make_bitflags = λ xs. wrap (bits_of xs);
  from = λ x. wrap (discriminant x);
  all = wrap (bits_of variants);
  empty = wrap 0;
  is_empty = λ a. a.0 == 0;
  contains = λ a b. bit_and a.0 b.0 == b.0;
  eq = λ a b. a.0 == b.0;
  union = λ a b. wrap (bit_or a.0 b.0);
  intersection = λ a b. wrap (bit_and a.0 b.0);
  symmetric_difference = λ a b. wrap (bit_xor a.0 b.0);
  complement = λ a. wrap (bit_and (2 ^ 64 - 1 - a.0) (bits_of variants % 2 ^ 64));
  bits-lt = word-lt;
  bits_inj = word_ext;
  bits-from_bits_unchecked = wrap_of-lt;
  bits-make_bitflags = λ xs. wrap_of-lt (bits_of xs) (bits_of-lt xs);
  bits-from = λ x. wrap_of-lt (discriminant x) (discriminant-lt x);
  bits-all = wrap_of-lt (bits_of variants) (bits_of-lt variants);
  bits-empty = refl;
  is_empty_lem = λ a. refl;
  contains_lem = λ a b. refl;
  eq_lem = λ a b. refl;
  bits-union = λ a b. wrap_of-lt _ (bit_or-lt a.0 b.0 (word-lt a) (word-lt b));
  bits-intersection = λ a b. wrap_of-lt _ (bit_and-lt a.0 b.0 (word-lt a) (word-lt b));
  bits-symmetric_difference = λ a b. wrap_of-lt _ (bit_xor-lt a.0 b.0 (word-lt a) (word-lt b));
  bits-complement = λ a. wrap_of-lt _ (bit_and-lt _ _ (omega arith) (omega arith));
}
