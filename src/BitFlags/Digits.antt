-- ===== src/BitFlags/Digits.antt =====
-- Sets of flags digit by digit: what each operation of `BitFlags` does to the flag at one position.
use rust_landlock.Prelude.{
  ℕ, ◌≤◌, ◌≡◌, sym, ap, ◌∙◌, ◌↔◌, Bool, true, false, not, ◌&&◌, ◌||◌, xor, arith, ==_iff,
}
use rust_landlock.Prelude.{bit_and}
use native.Mathlib.Decide.{dec_lt}
use rust_landlock.Prelude.Bits.{
  test_bit, test_bit-bit_and, test_bit-bit_or, test_bit-bit_xor, test_bit-zero, test_bit_above,
  test_bit_complement, bits_ext,
}
use rust_landlock.BitFlags.{BitFlags, ◌∪◌, ◌∩◌, ◌⊕◌}

and-left : (p q : Bool) → p && q ≡ q → q ≡ true → p ≡ true
and-left p q e h = ground arith

and_absorb : (p q : Bool) → (q ≡ true → p ≡ true) → p && q ≡ q
and_absorb p q h = ground arith

module _ ⦃E : BitFlags⦄ where
  open E use {
    Flags, bits, all, empty, is_empty, contains, eq, complement, bits-lt, bits_inj, bits-empty,
    is_empty_lem, contains_lem, eq_lem, bits-union, bits-intersection, bits-symmetric_difference,
    bits-complement,
  }

  -- Whether the flag at position `i` is set.
  unfoldable pub has : Flags → ℕ → Bool
  has a i = test_bit i (bits a)

  infix 50 ◌⊆◌
  abbrev pub ◌⊆◌ : Flags → Flags → Type 0
  a ⊆ b = (i : ℕ) → has a i ≡ true → has b i ≡ true

  -- A set of flags is determined by what it has.
  pub flags_ext : (a b : Flags) → ((i : ℕ) → has a i ≡ has b i) → a ≡ b
  unfolding has
  flags_ext a b h = bits_inj a b (bits_ext (bits a) (bits b) h)

  pub has-union : (a b : Flags) (i : ℕ) → has (a ∪ b) i ≡ has a i || has b i
  unfolding has
  has-union a b i = rw (bits-union a b) (test_bit-bit_or i (bits a) (bits b))

  pub has-intersection : (a b : Flags) (i : ℕ) → has (a ∩ b) i ≡ has a i && has b i
  unfolding has
  has-intersection a b i = rw (bits-intersection a b) (test_bit-bit_and i (bits a) (bits b))

  pub has-symmetric_difference : (a b : Flags) (i : ℕ) → has (a ⊕ b) i ≡ xor (has a i) (has b i)
  unfolding has
  has-symmetric_difference a b i =
      rw (bits-symmetric_difference a b) (test_bit-bit_xor i (bits a) (bits b))

  pub has-empty : (i : ℕ) → has empty i ≡ false
  unfolding has
  has-empty i = rw bits-empty (test_bit-zero i)

  pub has_above : (a : Flags) (i : ℕ) → 64 ≤ i → has a i ≡ false
  unfolding has
  has_above a i h = test_bit_above 64 i (bits a) (bits-lt a) h

  pub has-complement : (a : Flags) (i : ℕ) → has (complement a) i ≡ not (has a i) && has all i
  has-complement a i = elim (dec_lt i 64) [
    | yes p ↦
        unfold has in
        rw (bits-complement a, test_bit-bit_and, test_bit_complement 64 i (bits a) (bits-lt a) p)
    | no p ↦ ground (arith, has_above (complement a) i (omega arith), has_above all i (omega arith))
  ]

  -- The tests decide emptiness, inclusion and equality.
  pub is_empty_iff : (a : Flags) → (is_empty a ≡ true) ↔ (a ≡ empty)
  is_empty_iff a = (
    λ h. bits_inj a empty ((==_iff (bits a) 0).0 (sym (is_empty_lem a) ∙ h) ∙ sym bits-empty),
    λ h. is_empty_lem a ∙ (==_iff (bits a) 0).1 (ap bits h ∙ bits-empty),
  )

  pub eq_iff : (a b : Flags) → (eq a b ≡ true) ↔ (a ≡ b)
  eq_iff a b = (
    λ h. bits_inj a b ((==_iff (bits a) (bits b)).0 (sym (eq_lem a b) ∙ h)),
    λ h. eq_lem a b ∙ (==_iff (bits a) (bits b)).1 (ap bits h),
  )

  pub contains_iff : (a b : Flags) → (contains a b ≡ true) ↔ (b ⊆ a)
  unfolding has
  contains_iff a b = (
    λ h i p.
        let e : bit_and (bits a) (bits b) ≡ bits b =
          (==_iff (bit_and (bits a) (bits b)) (bits b)).0 (sym (contains_lem a b) ∙ h) in
        and-left (test_bit i (bits a)) (test_bit i (bits b))
          (sym (test_bit-bit_and i (bits a) (bits b)) ∙ ap (test_bit i) e) p,
    λ h.
        contains_lem a b
        ∙ (==_iff (bit_and (bits a) (bits b)) (bits b)).1 (
            bits_ext _ _ (λ i.
              test_bit-bit_and i (bits a) (bits b)
              ∙ and_absorb (test_bit i (bits a)) (test_bit i (bits b)) (h i))),
  )

  pub subset_of_intersection : (a b : Flags) → a ∩ b ≡ a → a ⊆ b
  subset_of_intersection a b e i p =
      ground (arith, has-intersection a b i, ap (λ (f : Flags). has f i) e)

  pub intersection_of_subset : (a b : Flags) → a ⊆ b → a ∩ b ≡ a
  intersection_of_subset a b h =
      flags_ext (a ∩ b) a (λ i. ground (arith, has-intersection a b i, h i))

pub ruleset has_laws =
    (has-union, has-intersection, has-symmetric_difference, has-empty, has-complement)
