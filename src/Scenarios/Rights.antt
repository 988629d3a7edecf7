-- ===== src/Scenarios/Rights.antt =====
-- The access rights of the tests of src/lib.rs: what their words say of them.
use rust_landlock.Prelude.{
  ℕ, true, false, ◌≡◌, ◌≢◌, inl, inr, refl, sym, ap, ◌∙◌, ◌==◌, bit_and, bit_or,
}
use rust_landlock.Uapi.{Sys}
use rust_landlock.BitFlags.{BitFlags, ◌∩◌, ◌∪◌, execute, refer, truncate, bits_of, discriminant}
use rust_landlock.BitFlags.Digits.{◌⊆◌, contains_iff}
use rust_landlock.BitFlags.Sets.{⊆-trans, intersection-⊆_left, union_comm, union-empty}
use rust_landlock.Compat.Abi.{Abi, unsupported, v1, v2, v3}
use rust_landlock.Access.Reported.{IsInvalid}
use rust_landlock.Fs.Rights.{from_all, from_read, from_file, access_file}
use rust_landlock.Fs.Rights.Tables.{all_bits, bits-from_all, bits-from_read, bits-access_file}
use rust_landlock.Fs.PathBeneath.{valid_access}
use rust_landlock.Ruleset.Session.Live.Rules.{Serves}
use rust_landlock.Ruleset.Session.Live.Items.{IsRule}
use rust_landlock.BitFlags.Digits.{intersection_of_subset}

module _ ⦃E : BitFlags⦄ where
  open E use {
    Flags, bits, empty, all, from, contains_lem, bits-empty, bits-all, bits-from, bits-union,
    bits-intersection, bits_inj,
  }

  pub ne_bits : (a : Flags) (n : ℕ) → bits a ≡ n → (n == 0) ≡ false → a ≢ empty
  ne_bits a n e h z = cc (h, sym e ∙ ap bits z ∙ bits-empty)

  pub sub_bits :
      (a b : Flags) (n m : ℕ) → bits a ≡ n → bits b ≡ m → (bit_and m n == n) ≡ true → a ⊆ b
  sub_bits a b n m e k h = (contains_iff b a).0 (rw (contains_lem, e, k) h)

  pub beyond_bits :
      (a b : Flags) (n m : ℕ) → bits a ≡ n → bits b ≡ m → (bit_and m n == n) ≡ false → ¬ (a ⊆ b)
  beyond_bits a b n m e k h sub = cc (h, rw (contains_lem, e, k) at (contains_iff b a).1 sub)

  pub valid_bits :
      (a : Flags) (n : ℕ)
      → bits a ≡ n
      → (n == 0) ≡ false
      → (bit_and 0x7fff n == n) ≡ true
      → ¬ IsInvalid a
  unfolding bits_of discriminant
  valid_bits a n e h k (inl z) = ne_bits a n e h z
  valid_bits a n e h k (inr u) = u (sub_bits a all n 0x7fff e bits-all k)

  -- The rights with the word `n`: some, and declared ones only.
  pub record IsKnown (a : Flags) (n : ℕ) : Type 0 where
    pub word : bits a ≡ n
    pub some_right : (n == 0) ≡ false
    pub declared : (bit_and 0x7fff n == n) ≡ true

  pub IsKnown-ne : (a : Flags) (n : ℕ) → IsKnown a n → a ≢ empty
  IsKnown-ne a n k = ne_bits a n k.word k.some_right

  pub IsKnown-valid : (a : Flags) (n : ℕ) → IsKnown a n → ¬ IsInvalid a
  IsKnown-valid a n k = valid_bits a n k.word k.some_right k.declared

  pub IsKnown-added : (a : Flags) (n : ℕ) → IsKnown a n → IsKnown (empty ∪ a) n
  IsKnown-added a n k = record {
    word = ap bits (union_comm empty a ∙ union-empty a) ∙ k.word;
    some_right = k.some_right;
    declared = k.declared;
  }

  pub bits-v1 : bits (from_all v1) ≡ 0x1fff
  bits-v1 = bits-from_all v1

  pub bits-from_file : bits (from_file v1) ≡ 7
  unfolding from_file
  bits-from_file = simp (bits-intersection, bits-from_all, bits-access_file)

  pub bits-execute : bits (from execute) ≡ 1
  unfolding discriminant
  bits-execute = bits-from execute

  pub bits-refer : bits (from refer) ≡ 0x2000
  unfolding discriminant
  bits-refer = bits-from refer

  pub bits-truncate : bits (from truncate) ≡ 0x4000
  unfolding discriminant
  bits-truncate = bits-from truncate

  pub IsKnown-v1 : IsKnown (from_all v1) 0x1fff
  IsKnown-v1 = record { word = bits-v1; some_right = refl; declared = refl }

  pub IsKnown-from_file : IsKnown (from_file v1) 7
  IsKnown-from_file = record { word = bits-from_file; some_right = refl; declared = refl }

  pub IsKnown-execute : IsKnown (from execute) 1
  IsKnown-execute = record { word = bits-execute; some_right = refl; declared = refl }

  pub IsKnown-refer : IsKnown (from refer) 0x2000
  IsKnown-refer = record { word = bits-refer; some_right = refl; declared = refl }

  pub IsKnown-truncate : IsKnown (from truncate) 0x4000
  IsKnown-truncate = record { word = bits-truncate; some_right = refl; declared = refl }

  pub bits-added : (a b : Flags) (n m : ℕ) → bits a ≡ n → bits b ≡ m → bits (a ∪ b) ≡ bit_or n m
  bits-added a b n m e k = rw (bits-union, e, k) refl

  bits_for_file :
      (mock : Abi)
      → bits (from_all v1 ∩ from_all mock ∩ access_file)
        ≡ bit_and (bit_and 0x1fff (all_bits mock)) 0x4007
  bits_for_file mock = simp (bits-intersection, bits-from_all, bits-access_file)

  bits_for : (mock : Abi) → bits (from_all v1 ∩ from_all mock) ≡ bit_and 0x1fff (all_bits mock)
  bits_for mock = simp (bits-intersection, bits-from_all)

  module _ ⦃S : Sys⦄ where
    pub Serves-directory : (a : Flags) (mock : Abi) → Serves a false mock
    unfolding valid_access
    Serves-directory a mock ne = ne

    pub Serves-file : (a : Flags) (mock : Abi) → a ⊆ access_file → Serves a true mock
    unfolding valid_access
    Serves-file a mock sub ne =
        rw
          (intersection_of_subset (a ∩ from_all mock) access_file
            (⊆-trans (a ∩ from_all mock) a access_file (intersection-⊆_left a (from_all mock)) sub))
          ne

    pub Serves-all_for_file : (mock : Abi) → Serves (from_all v1) true mock
    unfolding valid_access
    Serves-all_for_file unsupported ne =
        absurd (ne (bits_inj _ _ (bits_for unsupported ∙ sym bits-empty)))
    Serves-all_for_file v1 ne = ne_bits _ 7 (bits_for_file v1) refl
    Serves-all_for_file v2 ne = ne_bits _ 7 (bits_for_file v2) refl
    Serves-all_for_file v3 ne = ne_bits _ 7 (bits_for_file v3) refl

    -- Rights of which a rule can be made for a file as well as for a directory, from their words.
    pub rule_of :
        (asked a : Flags) (n m k : ℕ)
        → IsKnown asked n
        → IsKnown a m
        → (bit_and n m == m) ≡ true
        → bit_and m 0x4007 ≡ k
        → (k == 0) ≡ false
        → IsRule asked a
    unfolding bits_of discriminant
    rule_of asked a n m k p q sub e ne = (
      sub_bits a asked m n q.word p.word sub,
      sub_bits a all m 0x7fff q.word bits-all q.declared,
      ne_bits (a ∩ access_file) k (rw (bits-intersection, q.word, bits-access_file) e) ne,
    )

    pub IsKnown-read : IsKnown (from_read v1) 13
    IsKnown-read = record { word = bits-from_read v1; some_right = refl; declared = refl }
