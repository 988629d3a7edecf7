-- ===== src/Scenarios/Closures.antt =====
-- The closures that the tests of src/lib.rs pass to `check_ruleset_support`.
use rust_landlock.Prelude.{[], ◌∷◌, true}
use rust_landlock.Prelude.Exec.{Result, ok, err, Exec, map_err, ◌>>=◌}
use rust_landlock.Uapi.{Sys}
use rust_landlock.BitFlags.{BitFlags, execute, refer, truncate}
use rust_landlock.Errors.{RulesetError, PathFdError}
use rust_landlock.Compat.Abi.{v1}
use rust_landlock.Compat.Level.{best_effort, hard_requirement}
use rust_landlock.Fs.Rights.{from_all, from_file}
use rust_landlock.Fs.File.{FilePath, PathFd, open_path}
use rust_landlock.Fs.PathBeneath.{new, path_beneath_rules}
use rust_landlock.Ruleset.Types.{
  Ruleset, RulesetCreated, RestrictionStatus, set_compatibility, set_no_new_privs, drop,
}
use rust_landlock.Ruleset.Create.{create}
use rust_landlock.Ruleset.Rules.{path_rule, add_rule_owned, add_rules}
use rust_landlock.Ruleset.Restrict.{restrict_self}
use rust_landlock.Ruleset.Session.Paths.{handle_access_owned}
use rust_landlock.Scenarios.{TestRulesetError, ruleset_error, path_fd}

-- "/" and "/etc/passwd"
abbrev pub root : FilePath
root = 47 ∷ []

abbrev pub passwd : FilePath
passwd = 47 ∷ 101 ∷ 116 ∷ 99 ∷ 47 ∷ 112 ∷ 97 ∷ 115 ∷ 115 ∷ 119 ∷ 100 ∷ []

module _ ⦃S : Sys⦄ ⦃E : BitFlags⦄ where
  open S use {World}
  open E use {Flags, from}

  abbrev pub Closure : Type 0
  Closure = Ruleset → Exec World TestRulesetError RestrictionStatus

  -- `?` on a result of the crate, through `From<RulesetError>`
  abbrev pub lift :
      {A : Type 0} → Result A (RulesetError Flags) × World → Result A TestRulesetError × World
  lift (res, w) = (map_err ruleset_error res, w)

  -- `PathFd::new(path)?`, in the arguments of a call on a created ruleset: an error drops that.
  abbrev pub fd_or_drop :
      RulesetCreated → Result PathFd PathFdError × World → Result PathFd TestRulesetError × World
  fd_or_drop c (ok f, w) = (ok f, w)
  fd_or_drop c (err e, w) = (err (path_fd e), drop c w)

  -- `.add_rule(PathBeneath::new(PathFd::new(path)?, access))?`
  unfoldable pub rule_on :
      FilePath → Flags → RulesetCreated → Exec World TestRulesetError RulesetCreated
  rule_on path access c = do
    f ← λ w. fd_or_drop c (open_path path w)
    λ w. lift (add_rule_owned path_rule (new f.fd access) c w)

  unfoldable pub allow_root_compat : Closure
  unfolding rule_on
  allow_root_compat r = do
    r' ← λ w. lift (handle_access_owned (from_all v1) r w)
    c ← λ w. lift (create r' w)
    c' ← rule_on root (from_all v1) c
    λ w. lift (restrict_self c' w)

  -- The first closure of `too_much_access_rights_for_a_file`.
  unfoldable pub file_rights_for_a_file : Closure
  unfolding rule_on
  file_rights_for_a_file r = do
    r' ← λ w. lift (handle_access_owned (from_all v1) r w)
    c ← λ w. lift (create r' w)
    c' ← rule_on passwd (from_file v1) c
    λ w. lift (restrict_self c' w)

  -- The second one.
  unfoldable pub too_much_access_rights_for_a_file : Closure
  unfolding rule_on
  too_much_access_rights_for_a_file r = do
    r' ← λ w. lift (handle_access_owned (from_all v1) r w)
    c ← λ w. lift (create r' w)
    c' ← rule_on passwd (from_all v1) c
    λ w. lift (restrict_self c' w)

  unfoldable pub path_beneath_rules_with_too_much_access_rights_for_a_file : Closure
  path_beneath_rules_with_too_much_access_rights_for_a_file r = do
    r' ← λ w. lift (handle_access_owned (from_all v1) r w)
    c ← λ w. lift (create r' w)
    c' ← λ w.
        lift (add_rules path_rule (λ e. e) (path_beneath_rules (passwd ∷ []) (from_all v1)) c w)
    λ w. lift (restrict_self c' w)

  unfoldable pub allow_root_fragile : Closure
  unfolding rule_on
  allow_root_fragile r = do
    r1 ← λ w. lift (handle_access_owned (from execute) (set_compatibility hard_requirement r) w)
    r2 ← λ w. lift (handle_access_owned (from_all v1) (set_compatibility best_effort r1) w)
    c ← λ w. lift (create r2 w)
    c' ← rule_on root (from_all v1) (set_no_new_privs true c)
    λ w. lift (restrict_self c' w)

  unfoldable pub ruleset_enforced : Closure
  ruleset_enforced r = do
    r' ← λ w. lift (handle_access_owned (from execute) r w)
    c ← λ w. lift (create r' w)
    λ w. lift (restrict_self c w)

  unfoldable pub abi_v2_exec_refer : Closure
  abi_v2_exec_refer r = do
    r1 ← λ w. lift (handle_access_owned (from execute) r w)
    r2 ← λ w. lift (handle_access_owned (from refer) r1 w)
    c ← λ w. lift (create r2 w)
    λ w. lift (restrict_self c w)

  unfoldable pub abi_v2_refer_only : Closure
  abi_v2_refer_only r = do
    r' ← λ w. lift (handle_access_owned (from refer) r w)
    c ← λ w. lift (create r' w)
    λ w. lift (restrict_self c w)

  unfoldable pub abi_v3_truncate : Closure
  abi_v3_truncate r = do
    r1 ← λ w. lift (handle_access_owned (from refer) r w)
    r2 ← λ w. lift (handle_access_owned (from truncate) r1 w)
    c ← λ w. lift (create r2 w)
    λ w. lift (restrict_self c w)
