-- ===== src/Scenarios/Unsupported/Refusals.antt =====
-- The checks of the test `ruleset_unsupported` of src/ruleset.rs that expect an error.
use rust_landlock.Prelude.{
  ℕ, true, false, ◌≡◌, ◌≢◌, inl, inr, refl, sym, ap, subst, ◌∙◌, Bool-cases,
}
use rust_landlock.Prelude.Exec.{Result, ok, err, pure, proceed, Succeeds, map_err}
use rust_landlock.Prelude.Int.{ℤ, negsuc}
use rust_landlock.Uapi.{Sys, IoError}
use rust_landlock.BitFlags.{BitFlags, ◌∩◌, ◌∪◌, execute, read_file}
use rust_landlock.BitFlags.Digits.{◌⊆◌, contains_iff, is_empty_iff}
use rust_landlock.Errors.{
  RulesetError, handle_accesses, HandleAccessesError, HandleAccessError, access, AccessError,
  create_ruleset, missing_handled_access, open_call, add_rules, AddRulesError, unhandled_access,
}
use rust_landlock.Compat.Abi.{Abi, unsupported, v1}
use rust_landlock.Compat.Level.{best_effort, hard_requirement, into}
use rust_landlock.Compat.TryCompat.{try_compat, try_compat_self, settle}
use rust_landlock.Access.{check_access}
use rust_landlock.Fs.Rights.{from_all}
use rust_landlock.Fs.Rights.Tables.{bits-from_all}
use rust_landlock.Fs.File.{open_path, own}
use rust_landlock.Fs.PathBeneath.{new}
use rust_landlock.Ruleset.Types.{
  Ruleset, RulesetCreated, set_compatibility, created, of_compat, drop,
}
use rust_landlock.Compat.State.{of_abi}
use rust_landlock.Ruleset.Handle.{handle_access, ruleset_handle_access, add_handled}
use rust_landlock.Ruleset.Handle.Accepted.{handle_access-ok_iff}
use rust_landlock.Ruleset.Create.{create, create_body}
use rust_landlock.Ruleset.Rules.{
  path_rule, add_rule, add_rule_owned, add_consistent, check_consistency,
}
use rust_landlock.Ruleset.Session.Calls.{owned_rule}
use rust_landlock.Ruleset.Session.Paths.{owned, handle_access_owned}
use rust_landlock.Ruleset.Session.Live.Built.{Built, start-Built, handle_access-Built, empty-union}
use rust_landlock.Kernel.{View, IsDocumented, OpenedAs}
use rust_landlock.Scenarios.{Panic, assert}
use rust_landlock.Scenarios.Closures.{lift, rule_on, root, fd_or_drop}
use rust_landlock.Scenarios.Rights.{IsKnown, IsKnown-valid, IsKnown-execute, beyond_bits}
use rust_landlock.Scenarios.Requests.{start}
use rust_landlock.Scenarios.Unsupported.{
  unwrap, unwrap_err, assert_error, is_empty_access, is_missing, is_unhandled, inconsistent_rule,
  hard_execute,
}
use rust_landlock.Scenarios.Unsupported.Endings.{assert_error-expected}

module _ ⦃S : Sys⦄ ⦃E : BitFlags⦄ where
  open S use {World}
  open E use {Flags, from, empty, is_empty, contains, bits-empty, bits_inj, complement}

  pub execute_beyond : ¬ (from execute ⊆ from_all unsupported)
  execute_beyond =
      beyond_bits (from execute) (from_all unsupported) 1 0 IsKnown-execute.word
        (bits-from_all unsupported) refl

  hard_refused :
      (w : World)
      → (handle_access (from execute) (set_compatibility hard_requirement (start unsupported), w)).0
        ≢ ok tt
  unfolding set_compatibility of_compat of_abi into
  hard_refused w done = execute_beyond (
      ((handle_access-ok_iff (from execute) (set_compatibility hard_requirement (start unsupported))
            w).0
          done).1
        refl)

  pub hard_execute_passes : (w : World) → (hard_execute w).0 ≡ ok tt
  unfolding hard_execute handle_access_owned
  hard_execute_passes w =
      of_run
        (handle_access (from execute) (set_compatibility hard_requirement (start unsupported), w))
        (hard_refused w)
    where
      of_run :
          (m : Result (Unit {0}) (RulesetError Flags) × (Ruleset × World))
          → m.0 ≢ ok tt
          → (proceed {E = Panic} (unwrap_err (owned m)) (λ e. pure tt)).0 ≡ ok tt
      of_run (ok u, s) n = absurd (n refl)
      of_run (err e, s) n = refl

  nothing : is_empty (from_all unsupported) ≡ true
  nothing =
      (is_empty_iff (from_all unsupported)).1
        (bits_inj _ _ (bits-from_all unsupported ∙ sym bits-empty))

  empty_refused :
      (abi : Abi) (w : World)
      → handle_access_owned (from_all unsupported) (start abi) w ≡ (
        err (
            handle_accesses
              (HandleAccessesError.fs (HandleAccessError.compat (access AccessError.empty)))),
        w,
      )
  unfolding handle_access_owned handle_access ruleset_handle_access add_handled try_compat
      try_compat_self check_access settle
  empty_refused abi w = rw nothing refl

  pub empty_access_passes :
      (abi : Abi) (w : World)
      → (assert_error is_empty_access (handle_access_owned (from_all unsupported) (start abi)) w).0
        ≡ ok tt
  empty_access_passes abi w =
      assert_error-expected is_empty_access (handle_access_owned (from_all unsupported) (start abi))
        w w _ (empty_refused abi w) refl

  missing_refused :
      (w : World) → create (start unsupported) w ≡ (err (create_ruleset missing_handled_access), w)
  unfolding create create_body of_compat
  missing_refused w = rw ((is_empty_iff empty).1 refl) refl

  pub missing_passes :
      (w : World) → (assert_error is_missing (create (start unsupported)) w).0 ≡ ok tt
  missing_passes w =
      assert_error-expected is_missing (create (start unsupported)) w w _ (missing_refused w) refl

  inconsistent :
      (a : Flags) (fd : ℤ) (c : RulesetCreated)
      → contains c.requested_handled_fs a ≡ false
      → check_consistency (new fd a) c
        ≡ err (AddRulesError.fs (unhandled_access a (a ∩ complement c.requested_handled_fs)))
  unfolding check_consistency new
  inconsistent a fd c n = rw n refl

  rule_refused :
      (a : Flags) (fd : ℤ) (c : RulesetCreated) (w : World)
      → contains c.requested_handled_fs a ≡ false
      → add_rule_owned path_rule (new fd a) c w ≡ (
        err (
            add_rules
              (AddRulesError.fs (unhandled_access a (a ∩ complement c.requested_handled_fs)))),
        drop c w,
      )
  unfolding add_rule_owned add_rule add_consistent
  rule_refused a fd c w n =
      ap
        (λ (x : Result (Unit {0}) (AddRulesError Flags)). owned_rule (
          let (res, rest) = add_consistent path_rule x (new fd a) (c, w) in
          (map_err add_rules res, rest)))
        (inconsistent a fd c n)

  module _ (V : View) (D : IsDocumented V) where
    opened_passes :
        (c : RulesetCreated) (m : Result ℤ IoError × World) (w : World)
        → contains c.requested_handled_fs (from read_file) ≡ false
        → OpenedAs V false w m
        → (proceed
            (unwrap_err (
              proceed
                (fd_or_drop c (own (map_err (λ e. open_call e root) m.0), m.1))
                (λ f w'. lift (add_rule_owned path_rule (new f.fd (from read_file)) c w'))))
            (λ e. assert (is_unhandled e))).0
          ≡ ok tt
    opened_passes c (ok fd, w') w n o = rw (rule_refused (from read_file) fd c w' n) refl
    opened_passes c (err e, w') w n o = absurd o

    -- A rule with a right that the ruleset does not handle, for a path that is there.
    pub unhandled_passes :
        (c : RulesetCreated) (w : World)
        → V.Ready w
        → V.IsPath root false
        → contains c.requested_handled_fs (from read_file) ≡ false
        → (assert_error is_unhandled (rule_on root (from read_file) c) w).0 ≡ ok tt
    unfolding assert_error rule_on open_path
    unhandled_passes c w ready is_root n =
        opened_passes c _ w n (D.opened_as root false w ready is_root)

    pub not_contained : (a b : Flags) → ¬ (b ⊆ a) → contains a b ≡ false
    not_contained a b n = elim (Bool-cases (contains a b)) [
      | inl e ↦ absurd (n ((contains_iff a b).0 e))
      | inr e ↦ e
    ]

    -- The loop's body, for rights without ReadFile.
    pub inconsistent_rule_passes :
        (handled : Flags) (n : ℕ) (w : World)
        → IsKnown handled n
        → ¬ (from read_file ⊆ handled)
        → V.Ready w
        → V.IsPath root false
        → (inconsistent_rule handled w).0 ≡ ok tt
    unfolding inconsistent_rule created
    inconsistent_rule_passes handled n w known less ready is_root =
        of_built (handle_access_owned handled (start v1) w) (
          handle_access-Built V v1 best_effort empty handled (start v1) w
            (IsKnown-valid handled n known) (inl refl) (start-Built V v1 w ready))
      where
        of_built :
            (m : Result Ruleset (RulesetError Flags) × World)
            → Succeeds (Built V v1 best_effort (empty ∪ handled)) m
            → (proceed (unwrap m) (λ r.
                assert_error is_unhandled (rule_on root (from read_file) (created r (negsuc 0))))).0
              ≡ ok tt
        of_built (ok r, w') b = unhandled_passes (created r (negsuc 0)) w' b.ready is_root (
            not_contained r.requested_handled_fs (from read_file) (
              subst (λ (x : Flags). ¬ (from read_file ⊆ x))
                (sym (b.asked_for ∙ empty-union handled)) less))
        of_built (err e, w') b = absurd b
