-- ===== src/BitFlags/Sets.antt =====
-- The algebra of sets of flags that the proofs about the builders use.
use rust_landlock.Prelude.{subst, true, ◌≡◌, ◌≢◌, ap, Bool-ext, arith}
use rust_landlock.BitFlags.{BitFlags, ◌∪◌, ◌∩◌}
use rust_landlock.BitFlags.Digits.{
  has, ◌⊆◌, flags_ext, intersection_of_subset, has-union, has-intersection, has-empty,
}

module _ ⦃E : BitFlags⦄ where
  open E use {Flags, empty}

  pub ⊆-union_left : (a b c : Flags) → a ⊆ b → a ⊆ b ∪ c
  ⊆-union_left a b c h i p = ground (arith, has-union b c i, h i)

  pub ⊆-union_right : (b c : Flags) → c ⊆ b ∪ c
  ⊆-union_right b c i p = ground (arith, has-union b c i)

  pub union-⊆ : (a b c : Flags) → a ⊆ c → b ⊆ c → a ∪ b ⊆ c
  union-⊆ a b c h k i p = ground (arith, has-union a b i, h i, k i)

  pub intersection-⊆_left : (a b : Flags) → a ∩ b ⊆ a
  intersection-⊆_left a b i p = ground (arith, has-intersection a b i)

  pub intersection-⊆_right : (a b : Flags) → a ∩ b ⊆ b
  intersection-⊆_right a b i p = ground (arith, has-intersection a b i)

  pub ⊆-trans : (a b c : Flags) → a ⊆ b → b ⊆ c → a ⊆ c
  ⊆-trans a b c h k i p = k i (h i p)

  pub ⊆-antisymm : (a b : Flags) → a ⊆ b → b ⊆ a → a ≡ b
  ⊆-antisymm a b h k = flags_ext a b (λ i. Bool-ext (has a i) (has b i) (h i) (k i))

  pub ⊆-empty : (a : Flags) → a ⊆ empty → a ≡ empty
  ⊆-empty a h = flags_ext a empty (λ i. ground (arith, has-empty i, h i))

  -- A union is empty only if both sets are.
  pub union-ne-empty : (a b : Flags) → a ≢ empty → a ∪ b ≢ empty
  union-ne-empty a b h e =
      h (⊆-empty a (λ i p. ground (arith, has-union a b i, ap (λ (f : Flags). has f i) e)))

  pub union_comm : (a b : Flags) → a ∪ b ≡ b ∪ a
  union_comm a b = flags_ext (a ∪ b) (b ∪ a) (λ i. ground (arith, has-union a b i, has-union b a i))

  pub union-empty : (a : Flags) → a ∪ empty ≡ a
  union-empty a = flags_ext (a ∪ empty) a (λ i. ground (arith, has-union a empty i, has-empty i))

  pub ne_mono : (a b : Flags) → a ⊆ b → a ≢ empty → b ≢ empty
  ne_mono a b h ne e = ne (⊆-empty a (λ i p. subst (λ f. has f i ≡ true) e (h i p)))

  -- If `a` has nothing in common with `b`, it is a part of `b` only if it is empty.
  pub disjoint-not-⊆ : (a b : Flags) → a ∩ b ≡ empty → a ≢ empty → ¬ (a ⊆ b)
  disjoint-not-⊆ a b e ne h = ne (cc (e, intersection_of_subset a b h))

  pub intersection-union : (a b c : Flags) → (a ∪ b) ∩ c ≡ a ∩ c ∪ b ∩ c
  intersection-union a b c = flags_ext ((a ∪ b) ∩ c) (a ∩ c ∪ b ∩ c) (λ i. ground (
    arith,
    has-intersection (a ∪ b) c i,
    has-union a b i,
    has-union (a ∩ c) (b ∩ c) i,
    has-intersection a c i,
    has-intersection b c i,
  ))

  pub ⊆-of_empty : (a b : Flags) → a ≡ empty → a ⊆ b
  ⊆-of_empty a b e i p = cc (p, has-empty i, ap (λ (f : Flags). has f i) e)
