-- ===== src/Tests/Runs.antt =====
-- The theorems on rulesets and rules, at concrete inputs.
use rust_landlock.Prelude.{arith, ap, ◌≡◌, ◌≢◌, refl, true, none, [], ◌∷◌}
use rust_landlock.Prelude.Exec.{ok, err}
use rust_landlock.Prelude.Int.{pos}
use rust_landlock.BitFlags.{◌∩◌, read_file, read_dir, discriminant, bits_of}
use rust_landlock.BitFlags.Model.{Word, words}
use rust_landlock.BitFlags.Digits.{◌⊆◌, contains_iff}
use rust_landlock.Uapi.{landlock_restrict_self, landlock_add_rule, os}
use rust_landlock.Errors.{add_rules as rules_error, AddRulesError, add_rule_call}
use rust_landlock.Uapi.Words.{as_c_int}
use rust_landlock.Compat.Abi.{v1}
use rust_landlock.Compat.Level.{into}
use rust_landlock.Compat.State.{CompatState, full, update, update_state, of_abi}
use rust_landlock.Fs.Rights.{from_all, access_file, from_read, from_write}
use rust_landlock.Fs.File.{is_file}
use rust_landlock.Fs.PathBeneath
use rust_landlock.Fs.PathBeneath.{PathBeneath}
use rust_landlock.Ruleset.Rules.EmptyRule.{add_rule-empty_rule}
use rust_landlock.Ruleset.Types.{
  Ruleset, RulesetCreated, RestrictionStatus, of_compat, fully_enforced, status_of, drop,
  with_state,
}
use rust_landlock.Ruleset.Handle.{handle_access}
use rust_landlock.Ruleset.Handle.Invariant.{IsValid, start-IsValid, handle_access-IsValid}
use rust_landlock.Ruleset.Create.{create}
use rust_landlock.Ruleset.Create.Outcome.{Created, create-Created}
use rust_landlock.Ruleset.Rules.{path_rule, add_rule}
use rust_landlock.Ruleset.Rules.Outcome.{Added, add_rule-Added}
use rust_landlock.Ruleset.Restrict.{
  enforce_no_new_privs, restrict_self, restrict_body, enforce_ruleset, prctl_set_no_new_privs,
  after_failure,
}
use rust_landlock.Ruleset.Restrict.NoNewPrivs.{Asked, enforce_no_new_privs-Asked}
use rust_landlock.Ruleset.Restrict.Outcome.{Restricted, restrict_self-Restricted}
use rust_landlock.Ruleset.Restrict.Status.{Honest, restrict_self-Honest}
use rust_landlock.Tests.Kernel.{kernel}
open words use {Flags, make_bitflags}

abbrev reading : Flags
reading = make_bitflags (read_file ∷ read_dir ∷ [])

-- A builder that handles the rights for reading.
abbrev builder : Ruleset
builder = (handle_access reading (of_compat (of_abi v1), 0)).1.0

builder-IsValid : IsValid builder
builder-IsValid = (handle_access-IsValid reading (of_compat (of_abi v1)) 0 (start-IsValid v1)).0

create-Created_example : Created builder 0 (create builder 0)
create-Created_example = create-Created builder 0 builder-IsValid

-- The ruleset that the kernel made of a builder that handles these rights.
abbrev rules : RulesetCreated
rules = record {
  fd = pos 5;
  no_new_privs = true;
  requested_handled_fs = reading;
  compat = record { abi = v1; level = none; state = full };
}

-- A rule for a file.
abbrev rule : PathBeneath
rule = PathBeneath.new (pos 7) reading

add_rule-Added_example : Added rule rules 0 (add_rule path_rule rule (rules, 0))
add_rule-Added_example = add_rule-Added rule rules 0

enforce_no_new_privs-Asked_example : Asked rules 0 (enforce_no_new_privs (rules, 0))
enforce_no_new_privs-Asked_example = enforce_no_new_privs-Asked rules 0

restrict_self-Restricted_example : Restricted rules 0 (restrict_self rules 0)
restrict_self-Restricted_example = restrict_self-Restricted rules 0

abbrev outcome : RestrictionStatus
outcome = record { status = fully_enforced; no_new_privs = true }

restrict_run : restrict_self rules 0 ≡ (ok outcome, 3)
unfolding restrict_self restrict_body enforce_no_new_privs enforce_ruleset prctl_set_no_new_privs
    landlock_restrict_self as_c_int update_state update status_of drop after_failure into
restrict_run = refl

restrict_self-Honest_example : Honest rules 0 outcome 3
restrict_self-Honest_example = restrict_self-Honest rules 0 outcome 3 restrict_run

abbrev cut_rule : PathBeneath
cut_rule = record {
  attr = record { allowed_access = 4; parent_fd = pos 7 };
  parent_fd = pos 7;
  allowed_access = make_bitflags (read_file ∷ []);
  compat_level = none;
}

-- A rule for listing a directory, on a file.
abbrev listing : Flags
listing = make_bitflags (read_dir ∷ [])

abbrev misplaced : PathBeneath
misplaced = PathBeneath.new (pos 7) listing

listing-ne-empty : listing ≢ words.empty
unfolding bits_of discriminant
listing-ne-empty e = omega (arith, ap (λ (x : Word). x.0) e)

listing_supported : listing ⊆ from_all v1
unfolding from_all from_read from_write bits_of discriminant
listing_supported = (contains_iff (from_all v1) listing).0 refl

listing_handled : listing ⊆ reading
unfolding bits_of discriminant
listing_handled = (contains_iff reading listing).0 refl

listing_apart : listing ∩ access_file ≡ words.empty
unfolding access_file bits_of discriminant
listing_apart = words.bits_inj _ _ refl

on_file : (is_file (pos 7) 0).0 ≡ ok true
unfolding is_file
on_file = refl

add_rule-empty_rule_example : add_rule path_rule misplaced (rules, 0) ≡ (
  err (rules_error (AddRulesError.fs (add_rule_call (os (pos 42))))),
  (with_state CompatState.partial rules, 2),
)
unfolding PathBeneath.new into landlock_add_rule as_c_int is_file
add_rule-empty_rule_example =
    add_rule-empty_rule misplaced rules 0 refl refl refl listing-ne-empty listing_handled
      listing_supported listing_apart on_file
