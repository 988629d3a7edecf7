-- ===== src/Ruleset/Rules.antt =====
-- `trait PrivateRule` and the methods `add_rule`, `add_rules` of src/ruleset.rs, with
-- `impl PrivateRule<AccessFs> for PathBeneath` of src/fs.rs.
pub mod Outcome
pub mod EmptyRule
use rust_landlock.Prelude.{ℕ, Option, none, some, List, [], ◌∷◌, if◌then◌else◌}
use rust_landlock.Prelude.Exec.{Result, ok, err, Exec, map_err}
use rust_landlock.Prelude.Int.{is_zero}
use rust_landlock.Uapi.{
  Sys, LandlockPathBeneathAttr, landlock_rule_path_beneath, landlock_add_rule, last_os_error,
}
use rust_landlock.BitFlags.{BitFlags, ◌∩◌}
use rust_landlock.Errors.{
  CompatError, AddRuleError, add_rule_call, unhandled_access, AddRulesError, RulesetError,
  add_rules as rules_error,
}
use rust_landlock.Compat.Level.{into}
use rust_landlock.Compat.TryCompat.{TryCompat, try_compat}
use rust_landlock.Fs.PathBeneath.{PathBeneath, path_compat}
use rust_landlock.Ruleset.Types.{RulesetCreated, is_enforced, set_state, drop}

module _ ⦃E : BitFlags⦄ where
  open E use {Flags, contains, complement}

  -- `check_consistency` of `PathBeneath`
  unfoldable pub check_consistency :
      PathBeneath → RulesetCreated → Result (Unit {0}) (AddRulesError Flags)
  check_consistency self r =
      if contains r.requested_handled_fs self.allowed_access
      then ok tt
      else err (
          AddRulesError.fs (
            unhandled_access self.allowed_access
              (self.allowed_access ∩ complement r.requested_handled_fs)))

  module _ ⦃S : Sys⦄ where
    open S use {World}

    -- `Rule<AccessFs>`. A pointer to a rule's attributes is the attributes.
    pub record Rule (T : Type 0) : Type 0 where
      pub compat : TryCompat T Flags
      pub as_ptr : T → LandlockPathBeneathAttr
      pub get_type_id : T → ℕ
      pub get_flags : T → ℕ
      pub check_consistency : T → RulesetCreated → Result (Unit {0}) (AddRulesError Flags)

    abbrev pub path_rule : Rule PathBeneath
    path_rule = record {
      compat = path_compat;
      as_ptr = λ self. self.attr;
      get_type_id = λ self. landlock_rule_path_beneath;
      get_flags = λ self. 0;
      check_consistency = check_consistency;
    }

    module _ {T : Type 0} (R : Rule T) where
      open R use {as_ptr, get_type_id, get_flags}

      -- The end of `add_rule`: the system call, in the states in which it is made.
      unfoldable pub send_rule : T → Exec (RulesetCreated × World) (AddRulesError Flags) (Unit {0})
      send_rule rule (c, w) =
          if is_enforced c.compat.state
          then (let (ret, w') =
                landlock_add_rule c.fd (get_type_id rule) (as_ptr rule) (get_flags rule) w in
              if is_zero ret
              then (ok tt, (c, w'))
              else (err (AddRulesError.fs (add_rule_call (last_os_error w'))), (c, w')))
          else (ok tt, (c, w))

      -- `match rule.try_compat(...)`
      unfoldable pub add_compatible :
          Result (Option T) (CompatError Flags)
          → Exec (RulesetCreated × World) (AddRulesError Flags) (Unit {0})
      unfolding send_rule
      add_compatible (err e) (c, w) = (err (AddRulesError.fs (AddRuleError.compat e)), (c, w))
      add_compatible (ok none) (c, w) = (ok tt, (c, w))
      add_compatible (ok (some rule)) (c, w) = send_rule rule (c, w)

      -- `match rule.check_consistency(...)`
      unfoldable pub add_consistent :
          Result (Unit {0}) (AddRulesError Flags)
          → T
          → Exec (RulesetCreated × World) (AddRulesError Flags) (Unit {0})
      unfolding add_compatible
      add_consistent (err e) rule (c, w) = (err e, (c, w))
      add_consistent (ok _) rule (c, w) =
          let (out, (s', w')) =
            try_compat R.compat rule c.compat.abi (into c.compat.level) (c.compat.state, w) in
          add_compatible out (record c { compat = set_state s' c.compat }, w')

      -- `add_rule` through `&mut RulesetCreated`: the ruleset stays with the caller after an error.
      unfoldable pub add_rule : T → Exec (RulesetCreated × World) (RulesetError Flags) (Unit {0})
      unfolding add_consistent
      add_rule rule (c, w) =
          let (res, rest) = add_consistent (R.check_consistency rule c) rule (c, w) in
          (map_err rules_error res, rest)

      -- `add_rule` of an owned `RulesetCreated`, which is dropped on an error.
      unfoldable pub add_rule_owned :
          T → RulesetCreated → World → Result RulesetCreated (RulesetError Flags) × World
      unfolding add_rule
      add_rule_owned rule c w =
          let (res, (c', w')) = add_rule rule (c, w) in
          elim res [ ok _ ↦ (ok c', w') | err e ↦ (err e, drop c' w') ]

      -- The loop of `add_rules`, for an owned ruleset, over an iterator given by its steps. `conv` is
      -- `From<RulesetError>` of the caller's error type.
      unfoldable pub add_rules :
          {E' : Type 0}
          → (RulesetError Flags → E')
          → List (World → Option (Result T E') × World)
          → RulesetCreated
          → World
          → Result RulesetCreated E' × World
      unfolding add_rule_owned
      add_rules conv [] c w = (ok c, w)
      add_rules conv (next ∷ steps) c w =
          let (item, w1) = next w in
          elim item [
            | none ↦ add_rules conv steps c w1
            | some (err e) ↦ (err e, drop c w1)
            | some (ok rule) ↦
                (let (res, w2) = add_rule_owned rule c w1 in
                  elim res [ ok c' ↦ add_rules conv steps c' w2 | err e ↦ (err (conv e), w2) ])
          ]
