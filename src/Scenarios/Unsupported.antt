-- ===== src/Scenarios/Unsupported.antt =====
-- The tests `ruleset_unsupported`, as the list of its checks, and `ruleset_add_rule_iter` of
-- src/ruleset.rs.
pub mod Endings
pub mod Refusals
pub mod Soft
pub mod SoftRule
pub mod Kept
pub mod Iter
use rust_landlock.Prelude.{
  ℕ, Bool, true, false, not, Option, none, some, List, [], ◌∷◌, ◌&&◌, if◌then◌else◌,
}
use rust_landlock.Prelude.Exec.{Result, ok, err, Exec, pure, ◌>>=◌, proceed}
use rust_landlock.Prelude.Int.{ℤ, negsuc}
use rust_landlock.Uapi.{Sys}
use rust_landlock.BitFlags.{BitFlags, execute, refer, write_file, read_file}
use rust_landlock.Errors.{
  RulesetError, handle_accesses, HandleAccessesError, HandleAccessError, access, AccessError,
  create_ruleset, missing_handled_access, add_rules, AddRulesError, unhandled_access,
}
use rust_landlock.Compat.Abi.{Abi, unsupported, v1, v2}
use rust_landlock.Compat.Level.{soft_requirement, hard_requirement}
use rust_landlock.Fs.Rights.{from_all}
use rust_landlock.Ruleset.Types.{
  Ruleset, RulesetCreated, RestrictionStatus, RulesetStatus, not_enforced, set_compatibility,
  set_compatibility_created, set_no_new_privs, created,
}
use rust_landlock.Ruleset.Create.{create}
use rust_landlock.Ruleset.Restrict.{restrict_self}
use rust_landlock.Ruleset.Session.Paths.{handle_access_owned}
use rust_landlock.Scenarios.{
  TestRulesetError, ruleset_error, Panic, panic, assert, eqb_status, can_emulate,
}
use rust_landlock.Scenarios.Closures.{lift, rule_on, root}
use rust_landlock.Scenarios.Requests.{start}

abbrev pub eqb_bool : Bool → Bool → Bool
eqb_bool true b = b
eqb_bool false b = not b

module _ ⦃S : Sys⦄ where
  open S use {World}

  -- `unwrap` and `unwrap_err`
  abbrev pub unwrap : {A X : Type 0} → Result A X × World → Result A Panic × World
  unwrap (ok a, w) = (ok a, w)
  unwrap (err e, w) = (err panic, w)

  abbrev pub unwrap_err : {A X : Type 0} → Result A X × World → Result X Panic × World
  unwrap_err (ok a, w) = (err panic, w)
  unwrap_err (err e, w) = (ok e, w)

  -- `assert!(matches!(m.unwrap_err(), p))`
  unfoldable pub assert_error :
      {A X : Type 0} → (X → Bool) → Exec World X A → Exec World Panic (Unit {0})
  assert_error p m = do e ← λ w. unwrap_err (m w); assert (p e)

  -- `assert_eq!` of the status that the unwrapped calls give
  unfoldable pub assert_status :
      {X : Type 0}
      → RulesetStatus
      → Bool
      → Exec World X RestrictionStatus
      → Exec World Panic (Unit {0})
  assert_status status nnp m = do
    st ← λ w. unwrap (m w)
    assert (eqb_status st.status status && eqb_bool st.no_new_privs nnp)

  module _ ⦃E : BitFlags⦄ where
    open E use {Flags, from, make_bitflags}

    -- The calls from `handle_access` to `restrict_self`, with `between` on the created ruleset.
    unfoldable pub restrict_with :
        (RulesetCreated → Exec World TestRulesetError RulesetCreated)
        → Flags
        → Ruleset
        → Exec World TestRulesetError RestrictionStatus
    restrict_with between a r = do
      r' ← λ w. lift (handle_access_owned a r w)
      c ← λ w. lift (create r' w)
      c' ← between c
      λ w. lift (restrict_self c' w)

    abbrev pub is_empty_access : RulesetError Flags → Bool
    is_empty_access
          (handle_accesses
            (HandleAccessesError.fs (HandleAccessError.compat (access AccessError.empty)))) =
        true
    is_empty_access _ = false

    abbrev pub is_missing : RulesetError Flags → Bool
    is_missing (create_ruleset missing_handled_access) = true
    is_missing _ = false

    abbrev pub is_unhandled : TestRulesetError → Bool
    is_unhandled (ruleset_error (add_rules (AddRulesError.fs (unhandled_access _ _)))) = true
    is_unhandled _ = false

    -- The body of the loop at the end.
    unfoldable pub inconsistent_rule : Flags → Exec World Panic (Unit {0})
    unfolding assert_error rule_on
    inconsistent_rule handled = do
      r ← λ w. unwrap (handle_access_owned handled (start v1) w)
      assert_error is_unhandled (rule_on root (from read_file) (created r (negsuc 0)))

    -- The value of `matches!` is dropped.
    unfoldable pub hard_execute : Exec World Panic (Unit {0})
    hard_execute = do
      _ ← λ w. unwrap_err (
          handle_access_owned (from execute)
            (set_compatibility hard_requirement (start unsupported)) w)
      pure tt

    -- The block under `can_emulate`.
    unfoldable pub soft_rule : Abi → Exec World Panic (Unit {0})
    unfolding assert_status restrict_with rule_on
    soft_rule test =
        if can_emulate test v1 v1 (some v2)
        then assert_status not_enforced false (
            restrict_with
              (λ c. rule_on root (from refer) (set_compatibility_created soft_requirement c))
              (make_bitflags (execute ∷ refer ∷ [])) (start v1))
        else pure tt

    unfoldable pub ruleset_unsupported : Abi → List (Exec World Panic (Unit {0}))
    unfolding assert_status assert_error restrict_with inconsistent_rule hard_execute soft_rule
    ruleset_unsupported test =
        assert_status not_enforced true (restrict_with pure (from execute) (start unsupported))
        ∷ assert_status not_enforced false (
            restrict_with pure (from execute)
              (set_compatibility soft_requirement (start unsupported)))
        ∷ hard_execute
        ∷ assert_status not_enforced true (
            restrict_with (λ c. pure (set_compatibility_created soft_requirement c)) (from execute)
              (start unsupported))
        ∷ soft_rule test
        ∷ assert_status not_enforced false (
            restrict_with (λ c. pure (set_no_new_privs false c)) (from execute) (start unsupported))
        ∷ assert_error is_empty_access
            (handle_access_owned (from_all unsupported) (start unsupported))
        ∷ assert_error is_missing (create (start unsupported))
        ∷ assert_error is_empty_access (handle_access_owned (from_all unsupported) (start v1))
        ∷ inconsistent_rule (make_bitflags (execute ∷ write_file ∷ []))
        ∷ inconsistent_rule (from execute)
        ∷ []

    -- The test `ruleset_add_rule_iter`.
    unfoldable pub ruleset_add_rule_iter : Exec World Panic (Unit {0})
    unfolding assert_error rule_on
    ruleset_add_rule_iter = do
      r ← λ w. unwrap (handle_access_owned (from execute) (start unsupported) w)
      c ← λ w. unwrap (create r w)
      assert_error is_unhandled (rule_on root (from read_file) c)
