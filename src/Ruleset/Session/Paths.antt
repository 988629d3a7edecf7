-- ===== src/Ruleset/Session/Paths.antt =====
-- The chain of calls of the example `restrict_thread` in src/fs.rs, for any rights and any lists of
-- paths, from the version of the kernel to the status.
pub mod Documented
use rust_landlock.Prelude.{
  ℕ, Bool, true, false, Option, none, some, ◌≡◌, ◌≢◌, ◌⊎◌, inl, inr, refl, sym, ap, subst, ◌∙◌,
  arith, List, [], ◌∷◌, map, if◌then◌else◌,
}
use rust_landlock.Prelude.Exec.{
  Result, ok, err, Succeeds, Succeeds-proceed, Succeeds-weaken, Succeeds_value, value_Succeeds,
  Exec, pure, ◌>>=◌, proceed,
}
use rust_landlock.Prelude.Int.{ℤ, pos, ◌≤ℤ◌}
use rust_landlock.Uapi.{Sys, landlock_create_ruleset, IoError}
use rust_landlock.Uapi.Words.{as_c_int_in_range}
use rust_landlock.BitFlags.{BitFlags, ◌∩◌, ◌∪◌}
use rust_landlock.BitFlags.Digits.{
  ◌⊆◌, contains_iff, is_empty_iff, intersection_of_subset, has-intersection,
}
use rust_landlock.BitFlags.Sets.{
  ⊆-trans, intersection-⊆_left, intersection-⊆_right, ⊆-empty, union_comm, union-empty,
}
use rust_landlock.Errors.{RulesetError}
use rust_landlock.Compat.Abi.{Abi, unsupported, v1, v2, v3, from, new_current}
use rust_landlock.Compat.Level.{best_effort, into}
use rust_landlock.Compat.State.{CompatState, init, full, partial, no_support, dummy, of_abi}
use rust_landlock.Compat.State
use rust_landlock.Access.Reported.{IsInvalid}
use rust_landlock.Fs.Rights.{from_all, from_read, access_file}
use rust_landlock.Fs.File.{FilePath, PathFd, is_file, open_path}
use rust_landlock.Fs.PathBeneath.{
  PathBeneath, new, valid_access, rule_for, rule_of_path, path_beneath_rules,
}
use rust_landlock.Fs.PathBeneath.Lenient.{IsWhole}
use rust_landlock.Ruleset.Types.{
  Ruleset, RulesetCreated, RestrictionStatus, RulesetStatus, fully_enforced, partially_enforced,
  not_enforced, status_of, default, of_compat,
}
use rust_landlock.Ruleset.Handle.{handle_access}
use rust_landlock.Ruleset.Handle.Grades.{Grades}
use rust_landlock.Ruleset.Handle.Exact.{IsExact, start-IsExact, handle_access-IsHandled}
use rust_landlock.Ruleset.Create.{create}
use rust_landlock.Ruleset.Create.Outcome.{is_empty_false}
use rust_landlock.Ruleset.Rules.{path_rule, add_rules}
use rust_landlock.Ruleset.Rules.Outcome.{valid_access-⊆, valid_access_of_file}
use rust_landlock.Ruleset.Restrict.{restrict_self}
use rust_landlock.Kernel.{View, Keeps, IsDocumented, Opened}
use rust_landlock.Kernel.Calls.{Keeps-refl, Keeps-trans, version_told}
use rust_landlock.Ruleset.Session.Live.{IsLive, Starts, create-IsLive}
use rust_landlock.Ruleset.Session.Live.Rules.{Serves}
use rust_landlock.Ruleset.Session.Live.Items.{IsRule, path_beneath_rules-Items}
use rust_landlock.Ruleset.Session.Live.Ends.{restrict_self_ends}
use rust_landlock.Ruleset.Session.Live.Loop.{Item, Items, filtered, rule, Looped, add_rules-Looped}

module _ ⦃S : Sys⦄ ⦃E : BitFlags⦄ where
  open S use {World}
  open E use {Flags}

  -- An owned builder after a call: it is lost on an error.
  abbrev pub owned :
      Result (Unit {0}) (RulesetError Flags) × (Ruleset × World)
      → Result Ruleset (RulesetError Flags) × World
  owned (res, (r, w)) = elim res [ ok _ ↦ (ok r, w) | err e ↦ (err e, w) ]

  -- `handle_access` of an owned `Ruleset`.
  unfoldable pub handle_access_owned : Flags → Ruleset → Exec World (RulesetError Flags) Ruleset
  handle_access_owned access r w = owned (handle_access access (r, w))

  -- `.add_rules(path_beneath_rules(paths, access))?` for each pair.
  unfoldable pub add_hierarchies :
      List (List FilePath × Flags) → RulesetCreated → Exec World (RulesetError Flags) RulesetCreated
  add_hierarchies [] c = pure c
  add_hierarchies (h ∷ hs) c = do
    c' ← add_rules path_rule (λ e. e) (path_beneath_rules h.0 h.1) c
    add_hierarchies hs c'

  unfoldable pub restrict_paths :
      Flags → List (List FilePath × Flags) → Exec World (RulesetError Flags) RestrictionStatus
  unfolding handle_access_owned add_hierarchies
  restrict_paths access hierarchies = do
    r ← λ w. (let (r, w') = default w in (ok r, w'))
    r' ← handle_access_owned access r
    c ← create r'
    c' ← add_hierarchies hierarchies c
    restrict_self c'

  -- "/usr", "/etc", "/dev", "/home" and "/tmp"
  abbrev usr : FilePath
  usr = 47 ∷ 117 ∷ 115 ∷ 114 ∷ []

  abbrev etc : FilePath
  etc = 47 ∷ 101 ∷ 116 ∷ 99 ∷ []

  abbrev dev : FilePath
  dev = 47 ∷ 100 ∷ 101 ∷ 118 ∷ []

  abbrev home : FilePath
  home = 47 ∷ 104 ∷ 111 ∷ 109 ∷ 101 ∷ []

  abbrev tmp : FilePath
  tmp = 47 ∷ 116 ∷ 109 ∷ 112 ∷ []

  abbrev pub thread_hierarchies : List (List FilePath × Flags)
  thread_hierarchies = (usr ∷ etc ∷ dev ∷ [], from_read v1) ∷ (home ∷ tmp ∷ [], from_all v1) ∷ []

  -- The chain in the example `restrict_thread`.
  unfoldable pub restrict_thread : Exec World (RulesetError Flags) RestrictionStatus
  unfolding restrict_paths
  restrict_thread = restrict_paths (from_all v1) thread_hierarchies
