-- ===== src/Tests/Session.antt =====
-- The theorems on whole runs, at concrete inputs.
use rust_landlock.Prelude.{ℕ, ◌≡◌, ◌≢◌, refl, true, some, [], ◌∷◌, arith}
use rust_landlock.Prelude.Exec.{ok}
use rust_landlock.Prelude.Int.{pos, ◌≤ℤ◌}
use rust_landlock.Uapi.{landlock_create_ruleset, landlock_add_rule, landlock_restrict_self}
use rust_landlock.Uapi.Words.{as_c_int}
use rust_landlock.BitFlags.{read_file, read_dir, discriminant, bits_of}
use rust_landlock.BitFlags.Digits.{◌⊆◌}
use rust_landlock.BitFlags.Model.{words}
use rust_landlock.Compat.Abi.{v1}
use rust_landlock.Compat.Level.{into, max, tailored_compat_level}
use rust_landlock.Compat.State.{update, update_state, of_abi}
use rust_landlock.Compat.TryCompat.{try_compat, try_compat_self, settle, settle_partial}
use rust_landlock.Fs.Rights.{from_all, from_read, from_write, access_file}
use rust_landlock.Fs.File.{is_file}
use rust_landlock.Fs.PathBeneath
use rust_landlock.Fs.PathBeneath.{
  PathBeneath, path_compat, path_children, path_inner, fit_result, fit, sync_attr, valid_access,
}
use rust_landlock.Access.{check_access, against}
use rust_landlock.Ruleset.Types.{
  Ruleset, RulesetCreated, RestrictionStatus, of_compat, created, fully_enforced, status_of, drop,
}
use rust_landlock.Ruleset.Handle.{handle_access, ruleset_handle_access, add_handled}
use rust_landlock.Ruleset.Handle.Invariant.{IsValid, start-IsValid, handle_access-IsValid}
use rust_landlock.Ruleset.Handle.Unmet.{RulesetUnmet, start-Unmet, handle_access-Unmet}
use rust_landlock.Ruleset.Create.{create, create_body, handles_one, attr_of, ask_kernel}
use rust_landlock.Ruleset.Rules.{
  path_rule, add_rule, check_consistency, add_consistent, add_compatible, send_rule,
}
use rust_landlock.Ruleset.Restrict.{
  restrict_self, restrict_body, enforce_no_new_privs, enforce_ruleset, prctl_set_no_new_privs,
  after_failure,
}
use rust_landlock.Ruleset.Session.{Steps, rule, done, next}
use rust_landlock.Ruleset.Session.Backed.{IsBacked, IsKept, Steps-IsKept}
use rust_landlock.Ruleset.Restrict.Status.{WasAccepted}
use rust_landlock.Ruleset.Session.Enforced.{session-fully_enforced}
use rust_landlock.Tests.Kernel.{kernel}
open words use {Flags, make_bitflags, empty}

abbrev reading : Flags
reading = make_bitflags (read_file ∷ read_dir ∷ [])

abbrev fresh : Ruleset
fresh = of_compat (of_abi v1)

abbrev builder : Ruleset
builder = (handle_access reading (fresh, 0)).1.0

builder-IsValid : IsValid builder
builder-IsValid = (handle_access-IsValid reading fresh 0 (start-IsValid v1)).0

handle_access-Unmet_example : RulesetUnmet (handle_access reading (fresh, 0)).1.0
handle_access-Unmet_example =
    handle_access-Unmet reading fresh 0 (start-IsValid v1) (start-Unmet v1)

builder-Unmet : RulesetUnmet builder
builder-Unmet = handle_access-Unmet reading fresh 0 (start-IsValid v1) (start-Unmet v1)

abbrev start : RulesetCreated
start = created builder (pos 5)

create_run : create builder 0 ≡ (ok start, 1)
unfolding create create_body handles_one ask_kernel attr_of landlock_create_ruleset as_c_int
    handle_access ruleset_handle_access add_handled try_compat try_compat_self check_access against
    settle settle_partial update update_state of_abi of_compat created from_all from_read from_write
    access_file bits_of discriminant into max tailored_compat_level
create_run = refl

-- A rule for a directory.
abbrev listing : PathBeneath
listing = PathBeneath.new (pos 3) reading

abbrev visited : RulesetCreated × ℕ
visited = (add_rule path_rule listing (start, 1)).1

run : Steps (start, 1) visited
run = next (rule listing start 1) done

start-IsBacked : IsBacked start
unfolding handle_access ruleset_handle_access add_handled try_compat try_compat_self check_access
    against settle settle_partial update update_state of_abi of_compat created from_all from_read
    from_write access_file bits_of discriminant into max tailored_compat_level
start-IsBacked = record { open_fd = λ e. omega arith; unmet = tt; begun = λ e. cc }

Steps-IsKept_example : IsKept start visited.0
Steps-IsKept_example = Steps-IsKept run start-IsBacked

abbrev outcome : RestrictionStatus
outcome = record { status = fully_enforced; no_new_privs = true }

restrict_run : restrict_self visited.0 visited.1 ≡ (ok outcome, 6)
unfolding restrict_self restrict_body enforce_no_new_privs enforce_ruleset prctl_set_no_new_privs
    landlock_restrict_self as_c_int status_of drop after_failure add_rule check_consistency
    add_consistent add_compatible send_rule landlock_add_rule path_children path_inner fit_result
    fit sync_attr valid_access is_file PathBeneath.new handle_access ruleset_handle_access
    add_handled try_compat try_compat_self check_access against settle settle_partial update
    update_state of_abi of_compat created from_all from_read from_write access_file bits_of
    discriminant into max tailored_compat_level
restrict_run = refl

session-fully_enforced_example :
    (builder.actual_handled_fs ≡ builder.requested_handled_fs)
    × (builder.requested_handled_fs ⊆ from_all builder.compat.abi)
    × (builder.requested_handled_fs ≢ empty)
    × (landlock_create_ruleset
          (some (record { handled_access_fs = 12; handled_access_net = 0 }))
          16
          0
          0
        ≡ (visited.0.fd, 1))
    × (pos 0 ≤ℤ visited.0.fd)
    × WasAccepted visited.0 6
unfolding landlock_create_ruleset
session-fully_enforced_example =
    session-fully_enforced builder 0 start 1 visited.0 visited.1 outcome 6 builder-IsValid
      builder-Unmet create_run run restrict_run refl
