-- ===== src/Tests/Paths.antt =====
-- The theorems on the sandboxer, at concrete inputs.
use rust_landlock.Prelude.{ℕ, ◌≡◌, refl, Option, some, List, [], ◌∷◌}
use rust_landlock.BitFlags.Model.{words}
use rust_landlock.Sandboxer.{
  command, add_paths, after_create, after_first, after_handle, after_second, finish, iter, main,
  open_rule, pieces, split,
}
use rust_landlock.Sandboxer.Paths.{join, NoneHasColon, pieces-join, join-pieces}
use rust_landlock.Sandboxer.Command.{WasRestricted, main-WasRestricted}
use rust_landlock.Fs.Rights.{access_file, from_all, from_read, from_write}
use rust_landlock.Ruleset.Rules.{
  add_compatible, add_consistent, add_rule, add_rule_owned, add_rules, check_consistency, send_rule,
}
use rust_landlock.Ruleset.Handle.{add_handled, handle_access, ruleset_handle_access}
use rust_landlock.Ruleset.Restrict.{
  after_failure, enforce_no_new_privs, enforce_ruleset, prctl_set_no_new_privs, restrict_body,
  restrict_self,
}
use rust_landlock.Access.{against, check_access}
use rust_landlock.Uapi.Words.{as_c_int}
use rust_landlock.Ruleset.Create.{ask_kernel, attr_of, create, create_body, handles_one}
use rust_landlock.BitFlags.{bits_of, discriminant}
use rust_landlock.Ruleset.Types.{created, default, drop, of_compat, status_of}
use rust_landlock.Fs.PathBeneath
use rust_landlock.Compat.State
use rust_landlock.Sandboxer
use rust_landlock.Fs.PathBeneath.{
  fit, fit_result, path_children, path_inner, sync_attr, valid_access,
}
use rust_landlock.Compat.Abi.{from, new_current}
use rust_landlock.Compat.Level.{into, max, tailored_compat_level}
use rust_landlock.Fs.File.{is_file, open_path}
use rust_landlock.Uapi.{landlock_add_rule, landlock_create_ruleset, landlock_restrict_self}
use rust_landlock.Compat.State.{of_abi, update, update_state}
use rust_landlock.Compat.TryCompat.{settle, settle_partial, try_compat, try_compat_self}
use rust_landlock.Tests.Kernel.{kernel}

-- "/a:/b"
abbrev value : List ℕ
value = 47 ∷ 97 ∷ 58 ∷ 47 ∷ 98 ∷ []

pieces-join_example : (join (pieces value) ≡ value) × NoneHasColon (pieces value) × (pieces [] ≡ [])
pieces-join_example = pieces-join value

join-pieces_example :
    pieces (join ((47 ∷ 97 ∷ []) ∷ (47 ∷ 98 ∷ []) ∷ [])) ≡ (47 ∷ 97 ∷ []) ∷ (47 ∷ 98 ∷ []) ∷ []
join-pieces_example =
    join-pieces 47 (97 ∷ []) ((47 ∷ 98 ∷ []) ∷ []) ((refl, (refl, tt)), ((refl, (refl, tt)), tt))

-- Both variables hold one path.
abbrev var_os : List ℕ → Option (List ℕ)
var_os name = some (47 ∷ 97 ∷ [])

-- On a kernel whose rulesets take any rule.
main_run : (main var_os 0).0 ≡ command
unfolding PathBeneath.new State.new Sandboxer.new access_file add_compatible add_consistent
    add_handled add_paths add_rule add_rule_owned add_rules after_create after_failure after_first
    after_handle after_second against as_c_int ask_kernel attr_of bits_of check_access
    check_consistency create create_body created default discriminant drop enforce_no_new_privs
    enforce_ruleset finish fit fit_result from from_all from_read from_write handle_access
    handles_one into is_file iter landlock_add_rule landlock_create_ruleset landlock_restrict_self
    main max new_current of_abi of_compat open_path open_rule path_children path_inner pieces
    prctl_set_no_new_privs restrict_body restrict_self ruleset_handle_access send_rule settle
    settle_partial split status_of sync_attr tailored_compat_level try_compat try_compat_self update
    update_state valid_access
main_run = refl

main-WasRestricted_example : WasRestricted var_os 0 (main var_os 0).1
main-WasRestricted_example = main-WasRestricted var_os 0 main_run
