-- ===== src/Errors.antt =====
-- src/errors.rs. `F` is the type of the sets of flags, `BitFlags<T>`. A `#[from]` conversion is the
-- constructor that it wraps with.
use rust_landlock.Prelude.{ℕ, List}
use rust_landlock.Uapi.{IoError}

pub data AccessError (F : Type 0) : Type 0 where
  empty : AccessError F
  unknown : (access unknown : F) → AccessError F
  incompatible : (access : F) → AccessError F
  partially_compatible : (access incompatible : F) → AccessError F

pub data PathBeneathError (F : Type 0) : Type 0 where
  stat_call : (source : IoError) → PathBeneathError F
  directory_access : (access incompatible : F) → PathBeneathError F

pub data CompatError (F : Type 0) : Type 0 where
  path_beneath : PathBeneathError F → CompatError F
  access : AccessError F → CompatError F

pub data HandleAccessError (F : Type 0) : Type 0 where
  compat : CompatError F → HandleAccessError F

pub data HandleAccessesError (F : Type 0) : Type 0 where
  fs : HandleAccessError F → HandleAccessesError F

pub data CreateRulesetError : Type 0 where
  create_ruleset_call : (source : IoError) → CreateRulesetError
  missing_handled_access : CreateRulesetError

pub data AddRuleError (F : Type 0) : Type 0 where
  add_rule_call : (source : IoError) → AddRuleError F
  unhandled_access : (access incompatible : F) → AddRuleError F
  compat : CompatError F → AddRuleError F

pub data AddRulesError (F : Type 0) : Type 0 where
  fs : AddRuleError F → AddRulesError F

pub data RestrictSelfError : Type 0 where
  set_no_new_privs_call : (source : IoError) → RestrictSelfError
  restrict_self_call : (source : IoError) → RestrictSelfError

pub data RulesetError (F : Type 0) : Type 0 where
  handle_accesses : HandleAccessesError F → RulesetError F
  create_ruleset : CreateRulesetError → RulesetError F
  add_rules : AddRulesError F → RulesetError F
  restrict_self : RestrictSelfError → RulesetError F

pub data PathFdError : Type 0 where
  open_call : (source : IoError) (path : List ℕ) → PathFdError
