-- ===== src/Fs/PathBeneath/EmptyRule.antt =====
-- The rule that is left of a file's rule without any right for files.
use rust_landlock.Prelude.{Bool, true, false, Option, some, ◌≡◌, ◌≢◌, refl, ap, ◌∙◌, subst, arith}
use rust_landlock.Prelude.Exec.{ok}
use rust_landlock.Prelude.Int.{◌≤ℤ◌}
use rust_landlock.Uapi.{Sys}
use rust_landlock.BitFlags.{BitFlags, ◌∩◌}
use rust_landlock.BitFlags.Digits.{◌⊆◌, eq_iff, is_empty_iff, contains_iff, intersection_of_subset}
use rust_landlock.BitFlags.Sets.{⊆-trans}
use rust_landlock.Compat.Abi.{Abi, unsupported, v1, v2, v3, to_int}
use rust_landlock.Compat.Level.{CompatLevel, best_effort, into, max, tailored_compat_level}
use rust_landlock.Compat.State.{CompatState, partial, update}
use rust_landlock.Compat.TryCompat.{
  CompatResult, settle, settle_partial, try_compat, try_compat_self,
}
use rust_landlock.Access.{check_access, against}
use rust_landlock.Fs.Rights.{from_all, access_file}
use rust_landlock.Fs.Rights.Tables.{from_all_grows}
use rust_landlock.Fs.File.{is_file}
use rust_landlock.Fs.PathBeneath.{
  PathBeneath, sync_attr, valid_access, fit, fit_result, path_inner, path_children, path_compat,
}
use rust_landlock.Fs.PathBeneath.Fitted.{fitted}

is_false : {A : Type 0} {b : Bool} → (b ≡ true → A) → ¬ A → b ≡ false
is_false {b = true} f n = absurd (n (f refl))
is_false {b = false} f n = refl

module _ ⦃E : BitFlags⦄ where
  open E use {Flags, bits, bits-empty, eq, all, empty, is_empty, contains}

  all_granted :
      (a : Flags) (abi : Abi)
      → a ≢ empty
      → a ⊆ all
      → a ⊆ from_all abi
      → check_access a abi ≡ ok (CompatResult.full a)
  unfolding check_access against
  all_granted a abi ne known h = rw (is_false (is_empty_iff a).0 ne) (
      rw ((contains_iff all a).1 known) (
        rw (intersection_of_subset a (from_all abi) h)
          (rw (is_false (is_empty_iff a).0 ne) (rw ((eq_iff a a).1 refl) refl))))

  cut_to_empty :
      (self : PathBeneath)
      → self.allowed_access ≢ empty
      → self.allowed_access ∩ access_file ≡ empty
      → (s : CompatState)
      → settle (fit_result self (ok true)) best_effort s
        ≡ (ok (some (fitted self true)), update s partial)
  unfolding fit_result fit settle settle_partial valid_access
  cut_to_empty self ne e s =
      rw
        (is_false (eq_iff self.allowed_access (self.allowed_access ∩ access_file)).0
          (λ k. ne (k ∙ e)))
        refl

  stays_lenient :
      (own : Option CompatLevel)
      → into own ≡ best_effort
      → tailored_compat_level own best_effort ≡ best_effort
  unfolding tailored_compat_level into max
  stays_lenient own h = ground arith

  pub no_access :
      (self : PathBeneath)
      → self.allowed_access ∩ access_file ≡ empty
      → (fitted self true).attr.allowed_access ≡ 0
  unfolding sync_attr valid_access
  no_access self e = ap bits e ∙ bits-empty

  latest : (abi : Abi) → to_int abi ≤ℤ to_int v3
  latest unsupported = omega arith
  latest v1 = omega arith
  latest v2 = omega arith
  latest v3 = omega arith

  pub supported-declared : (a : Flags) (abi : Abi) → a ⊆ from_all abi → a ⊆ all
  supported-declared a abi h =
      let (grows, last) = from_all_grows abi v3 (latest abi) in
      ⊆-trans a (from_all abi) all h (subst (λ (x : Flags). from_all abi ⊆ x) last grows)

  module _ ⦃S : Sys⦄ where
    open S use {World}

    -- A rule at best effort, with at least one right, rights of the ABI only and none for files, on a
    -- descriptor that is found to be open on a file: the check gives a rule.
    pub try_compat_empties :
        (self : PathBeneath) (abi : Abi) (s : CompatState) (w : World)
        → into self.compat_level ≡ best_effort
        → self.allowed_access ≢ empty
        → self.allowed_access ⊆ from_all abi
        → self.allowed_access ∩ access_file ≡ empty
        → (is_file self.parent_fd w).0 ≡ ok true
        → try_compat path_compat self abi best_effort (s, w) ≡ (
          ok (some (fitted self true)),
          (update (update s CompatState.full) partial, (is_file self.parent_fd w).1),
        )
    unfolding try_compat try_compat_self path_children path_inner
    try_compat_empties self abi s w lenient ne sup none_fits known =
        rw (stays_lenient self.compat_level lenient) (
          rw (stays_lenient self.compat_level lenient) (
            rw
              (all_granted self.allowed_access abi ne
                (supported-declared self.allowed_access abi sup) sup)
              (rw known (
                ap (λ (x : _ × _). (x.0, (x.1, (is_file self.parent_fd w).1)))
                  (cut_to_empty self ne none_fits (update s CompatState.full))))))
