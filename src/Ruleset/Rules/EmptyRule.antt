-- ===== src/Ruleset/Rules/EmptyRule.antt =====
-- `add_rule` of src/ruleset.rs for a rule on a file that has no right for files.
use rust_landlock.Prelude.{
  ℕ, true, Bool-cases, inl, inr, if◌then◌else◌, Option, some, ◌≡◌, ◌≢◌, refl, ap, ◌∙◌, arith,
}
use rust_landlock.Prelude.Exec.{Result, ok, err, map_err}
use rust_landlock.Prelude.Int.{ℤ, is_zero}
use rust_landlock.Uapi.{
  Sys, landlock_add_rule, landlock_rule_path_beneath, last_os_error, LandlockPathBeneathAttr,
}
use rust_landlock.BitFlags.{BitFlags, ◌∩◌}
use rust_landlock.BitFlags.Digits.{◌⊆◌, contains_iff}
use rust_landlock.Errors.{
  RulesetError, add_rules as rules_error, AddRulesError, CompatError, add_rule_call,
}
use rust_landlock.Compat.Level.{CompatLevel, best_effort, into}
use rust_landlock.Compat.State.{CompatState, full, partial, update}
use rust_landlock.Compat.TryCompat.{try_compat}
use rust_landlock.Fs.Rights.{from_all, access_file}
use rust_landlock.Fs.File.{is_file}
use rust_landlock.Fs.PathBeneath.{PathBeneath, path_compat, sync_attr, valid_access}
use rust_landlock.Fs.PathBeneath.Fitted.{fitted}
use rust_landlock.Fs.PathBeneath.EmptyRule.{try_compat_empties, no_access}
use rust_landlock.Ruleset.Types.{RulesetCreated, is_enforced, with_state}
use rust_landlock.Ruleset.Rules.{path_rule, add_rule, add_compatible, send_rule, check_consistency}

module _ ⦃E : BitFlags⦄ ⦃S : Sys⦄ where
  open E use {Flags, empty, contains}
  open S use {World}

  state_after : (s : CompatState) → is_enforced s ≡ true → update (update s full) partial ≡ partial
  unfolding update
  state_after s e = ground arith

  abbrev Checked : Type 0
  Checked = Result (Option PathBeneath) (CompatError Flags) × (CompatState × World)

  -- What `add_rule` does after the check.
  abbrev with_checked :
      RulesetCreated → Checked → Result (Unit {0}) (RulesetError Flags) × (RulesetCreated × World)
  with_checked c (out, (s, w)) =
      let (res, rest) = add_compatible path_rule out (with_state s c, w) in
      (map_err rules_error res, rest)

  consistent :
      (self : PathBeneath) (c : RulesetCreated) (w : World)
      → self.allowed_access ⊆ c.requested_handled_fs
      → add_rule path_rule self (c, w)
        ≡ with_checked c
            (try_compat path_compat self c.compat.abi (into c.compat.level) (c.compat.state, w))
  unfolding add_rule check_consistency
  consistent self c w sub =
      rw ((contains_iff c.requested_handled_fs self.allowed_access).1 sub) refl

  -- What the kernel is given.
  abbrev attr_with : PathBeneath → ℕ → LandlockPathBeneathAttr
  attr_with self n = record { allowed_access = n; parent_fd = self.attr.parent_fd }

  fitted_attr :
      (self : PathBeneath)
      → self.allowed_access ∩ access_file ≡ empty
      → (fitted self true).attr ≡ attr_with self 0
  unfolding sync_attr valid_access
  fitted_attr self e = ap (attr_with self) (no_access self e)

  -- The kernel's answer to a rule, as the result of `add_rule`.
  abbrev answered :
      RulesetCreated → ℤ × World → Result (Unit {0}) (RulesetError Flags) × (RulesetCreated × World)
  answered c (ret, w') = (
    if is_zero ret
        then ok tt
        else err (rules_error (AddRulesError.fs (add_rule_call (last_os_error w')))),
    (c, w'),
  )

  sent :
      (rule : PathBeneath) (c : RulesetCreated) (w : World)
      → is_enforced c.compat.state ≡ true
      → with_checked c (ok (some rule), (c.compat.state, w))
        ≡ answered c (landlock_add_rule c.fd landlock_rule_path_beneath rule.attr 0 w)
  unfolding add_compatible send_rule
  sent rule c w e =
      let (ret, w') = landlock_add_rule c.fd landlock_rule_path_beneath rule.attr 0 w in
      elim (Bool-cases (is_zero ret)) [ inl z ↦ rw (e, z) refl | inr z ↦ rw (e, z) refl ]

  -- For each rule at best effort, created ruleset at best effort whose state is Full or Partial, and state
  -- of the system, where the rule has at least one right, rights only that the ABI has and that the
  -- ruleset was asked to handle, and none for files, and its descriptor is found to be open on a file:
  -- add_rule calls landlock_add_rule with the access 0, after it found the type. An answer other than 0
  -- is the error AddRuleCall with errno, and 0 a success, and the state is Partial.
  pub add_rule-empty_rule :
      (self : PathBeneath) (c : RulesetCreated) (w : World)
      → into self.compat_level ≡ best_effort
      → into c.compat.level ≡ best_effort
      → is_enforced c.compat.state ≡ true
      → self.allowed_access ≢ empty
      → self.allowed_access ⊆ c.requested_handled_fs
      → self.allowed_access ⊆ from_all c.compat.abi
      → self.allowed_access ∩ access_file ≡ empty
      → (is_file self.parent_fd w).0 ≡ ok true
      → let (ret, w') =
          landlock_add_rule c.fd landlock_rule_path_beneath
            (record { allowed_access = 0; parent_fd = self.attr.parent_fd })
            0
            (is_file self.parent_fd w).1 in
        add_rule path_rule self (c, w) ≡ (
          if is_zero ret
              then ok tt
              else err (rules_error (AddRulesError.fs (add_rule_call (last_os_error w')))),
          (with_state partial c, w'),
        )
  add_rule-empty_rule self c w lenient level e ne within sup none_fits known =
      consistent self c w within
      ∙ ap
          (λ (l : CompatLevel).
            with_checked c (try_compat path_compat self c.compat.abi l (c.compat.state, w)))
          level
      ∙ ap (with_checked c)
          (try_compat_empties self c.compat.abi c.compat.state w lenient ne sup none_fits known)
      ∙ ap
          (λ (s : CompatState).
            with_checked c (ok (some (fitted self true)), (s, (is_file self.parent_fd w).1)))
          (state_after c.compat.state e)
      ∙ sent (fitted self true) (with_state partial c) (is_file self.parent_fd w).1 refl
      ∙ ap
          (λ (a : LandlockPathBeneathAttr).
            answered (with_state partial c)
              (landlock_add_rule c.fd landlock_rule_path_beneath a 0 (is_file self.parent_fd w).1))
          (fitted_attr self none_fits)
