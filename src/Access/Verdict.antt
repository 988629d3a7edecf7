-- ===== src/Access/Verdict.antt =====
-- What the check of a set of access rights says, in terms of sets.
use rust_landlock.Prelude.{
  ℕ, ◌≡◌, ◌≢◌, ◌↔◌, inl, inr, Bool, true, false, not, ◌&&◌, arith, refl, Bool-cases,
}
use rust_landlock.Prelude.Exec.{Result, ok, err}
use rust_landlock.BitFlags.{BitFlags, ◌∩◌}
use rust_landlock.BitFlags.Digits.{
  has, ◌⊆◌, subset_of_intersection, is_empty_iff, eq_iff, contains_iff, has-intersection,
}
use rust_landlock.Errors.{
  CompatError, access, AccessError, unknown, incompatible, partially_compatible,
}
use rust_landlock.Compat.Abi.{Abi}
use rust_landlock.Compat.TryCompat.{CompatResult}
use rust_landlock.Fs.Rights.{from_all}
use rust_landlock.Access.{full_negation, check_access, against}
use rust_landlock.Access.Difference.{has-difference}

module _ ⦃E : BitFlags⦄ where
  open E use {Flags, all, empty, is_empty, contains, eq}

  -- The answers to a request for the rights `a` under an ABI, each with the case that it is for.
  pub data Verdict (a : Flags) (abi : Abi)
      : Result (CompatResult Flags Flags) (CompatError Flags) → Type 0 where
    empty_request : a ≡ empty → Verdict a abi (err (access AccessError.empty))
    unknown_right :
        (rest : Flags)
        → a ≢ empty
        → ¬ (a ⊆ all)
        → ((i : ℕ) → has rest i ≡ has a i && not (has all i))
        → Verdict a abi (err (access (unknown a rest)))
    none_granted :
        a ≢ empty
        → a ⊆ all
        → a ∩ from_all abi ≡ empty
        → Verdict a abi (ok (CompatResult.no_support (access (incompatible a))))
    some_granted :
        (granted rest : Flags)
        → a ≢ empty
        → a ⊆ all
        → granted ≡ a ∩ from_all abi
        → granted ≢ empty
        → granted ≢ a
        → ((i : ℕ) → has rest i ≡ has a i && not (has (from_all abi) i))
        → Verdict a abi (ok (CompatResult.partial granted (access (partially_compatible a rest))))
    all_granted : a ≢ empty → a ⊆ all → a ⊆ from_all abi → Verdict a abi (ok (CompatResult.full a))

  test_false : {A : Type 0} {b : Bool} → (b ≡ true) ↔ A → b ≡ false → ¬ A
  test_false e f x = cc (e.1 x)

  against_full : (a : Flags) (abi : Abi) → a ∩ from_all abi ≡ a → a ⊆ from_all abi
  against_full a abi e = subset_of_intersection a (from_all abi) e

  has-rest : (a b : Flags) (i : ℕ) → has (a ∩ full_negation (a ∩ b)) i ≡ has a i && not (has b i)
  has-rest a b i = ground (arith, has-difference a (a ∩ b) i, has-intersection a b i)

  against-Verdict :
      (a : Flags) (abi : Abi) → a ≢ empty → a ⊆ all → Verdict a abi (against a (a ∩ from_all abi))
  unfolding against
  against-Verdict a abi ne known =
      let granted = a ∩ from_all abi in
      elim (Bool-cases (is_empty granted)) [
        | inl h ↦ rw h (none_granted ne known ((is_empty_iff granted).0 h))
        | inr h ↦ elim (Bool-cases (eq granted a)) [
          | inl k ↦
              rw (h, k)
                (all_granted ne known
                  (subset_of_intersection a (from_all abi) ((eq_iff granted a).0 k)))
          | inr k ↦
              rw (h, k)
                (some_granted granted (a ∩ full_negation granted) ne known refl
                  (test_false (is_empty_iff granted) h) (test_false (eq_iff granted a) k)
                  (has-rest a (from_all abi)))
        ]
      ]

  -- For each set of rights and ABI, try_compat_inner gives the answer for its case: an error for the
  -- empty set; an error for a set with undeclared rights, which it names; No for declared rights none
  -- of which the ABI has; Partial with the part in the ABI, if that is neither empty nor all, and an
  -- error that names the others; Full if the ABI has them all.
  pub check_access-Verdict : (a : Flags) (abi : Abi) → Verdict a abi (check_access a abi)
  unfolding check_access
  check_access-Verdict a abi = elim (Bool-cases (is_empty a)) [
    | inl h ↦ rw h (empty_request ((is_empty_iff a).0 h))
    | inr h ↦ elim (Bool-cases (contains all a)) [
      | inl k ↦
          rw (h, k)
            (against-Verdict a abi (test_false (is_empty_iff a) h) ((contains_iff all a).0 k))
      | inr k ↦
          rw (h, k)
            (unknown_right (a ∩ full_negation all) (test_false (is_empty_iff a) h)
              (test_false (contains_iff all a) k) (has-difference a all))
    ]
  ]
