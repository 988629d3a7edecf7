-- ===== src/Tests/Levels.antt =====
-- Programs at the hard and at the soft requirement, run on a concrete system.
use rust_landlock.Prelude.{ℕ, List, some, ◌≡◌, ◌≢◌, refl, true, [], ◌∷◌}
use rust_landlock.Prelude.Exec.{ok}
use rust_landlock.Prelude.Int.{pos, ◌≤ℤ◌}
use rust_landlock.Uapi.{landlock_create_ruleset, landlock_add_rule, landlock_restrict_self}
use rust_landlock.Uapi.Words.{as_c_int}
use rust_landlock.BitFlags.{read_file, read_dir, refer, discriminant, bits_of}
use rust_landlock.BitFlags.Digits.{◌⊆◌}
use rust_landlock.BitFlags.Model.{words}
use rust_landlock.Compat.Abi.{v1}
use rust_landlock.Compat.Level.{
  into, max, tailored_compat_level, soft_requirement, hard_requirement,
}
use rust_landlock.Compat.State.{update, update_state, of_abi}
use rust_landlock.Compat.TryCompat.{try_compat, try_compat_self, settle, settle_partial}
use rust_landlock.Fs.Rights.{from_all, from_read, from_write, access_file}
use rust_landlock.Fs.File.{is_file}
use rust_landlock.Fs.PathBeneath
use rust_landlock.Fs.PathBeneath.{
  PathBeneath, path_children, path_inner, fit_result, fit, sync_attr, valid_access,
}
use rust_landlock.Access.{check_access, against}
use rust_landlock.Ruleset.Types.{
  Ruleset, RulesetCreated, RestrictionStatus, of_compat, created, fully_enforced, status_of, drop,
  set_compatibility, set_no_new_privs,
}
use rust_landlock.Ruleset.Handle.{handle_access, ruleset_handle_access, add_handled}
use rust_landlock.Ruleset.Handle.Invariant.{start-IsValid, set_compatibility-IsValid}
use rust_landlock.Ruleset.Create.{create, create_body, handles_one, attr_of, ask_kernel}
use rust_landlock.Ruleset.Rules.{
  add_rule, add_rule_owned, check_consistency, add_consistent, add_compatible, send_rule,
}
use rust_landlock.Ruleset.Restrict.{
  restrict_self, restrict_body, enforce_no_new_privs, enforce_ruleset, prctl_set_no_new_privs,
  after_failure,
}
use rust_landlock.Ruleset.Restrict.Status.{WasAccepted}
use rust_landlock.Ruleset.Session.Paths.{handle_access_owned}
use rust_landlock.Ruleset.Session.Calls.{
  Request, access, Call, rule, no_new_privs, ask, ask_all, perform, perform_all, enforce, run,
}
use rust_landlock.Ruleset.Session.Hard.{requested_by, wanted_by}
use rust_landlock.Ruleset.Session.Hard.Enforced.{hard_requirement_enforced}
use rust_landlock.Ruleset.Session.GivenUp.{Ignored}
use rust_landlock.Ruleset.Session.GivenUp.Requests.{soft_requirement-Ignored}
use rust_landlock.Scenarios.Rights.{IsKnown-refer, IsKnown-valid, beyond_bits, bits-refer, bits-v1}
use rust_landlock.Tests.Kernel.{kernel}
open words use {Flags, make_bitflags, empty, bits, from}

abbrev reading : Flags
reading = make_bitflags (read_file ∷ read_dir ∷ [])

abbrev requests : List Request
requests = access reading ∷ Request.level hard_requirement ∷ []

abbrev calls : List Call
calls = no_new_privs true ∷ rule (PathBeneath.new (pos 3) reading) ∷ []

abbrev outcome : RestrictionStatus
outcome = record { status = fully_enforced; no_new_privs = true }

hard_run :
    run requests calls (set_compatibility hard_requirement (of_compat (of_abi v1))) 0
    ≡ (ok outcome, 6)
unfolding run enforce ask_all ask perform_all perform handle_access_owned add_rule_owned
    set_no_new_privs set_compatibility create create_body handles_one ask_kernel attr_of
    landlock_create_ruleset restrict_self restrict_body enforce_no_new_privs enforce_ruleset
    prctl_set_no_new_privs landlock_restrict_self as_c_int status_of drop after_failure add_rule
    check_consistency add_consistent add_compatible send_rule landlock_add_rule path_children
    path_inner fit_result fit sync_attr valid_access is_file PathBeneath.new handle_access
    ruleset_handle_access add_handled try_compat try_compat_self check_access against settle
    settle_partial update update_state of_abi of_compat created from_all from_read from_write
    access_file bits_of discriminant into max tailored_compat_level
hard_run = refl

hard_requirement_enforced_example :
    (outcome ≡ record { status = fully_enforced; no_new_privs = wanted_by true calls })
    × (requested_by empty requests ≢ empty)
    × (requested_by empty requests ⊆ from_all v1)
    × ((c : RulesetCreated) × (w0 : ℕ) × (w1 : ℕ) × (landlock_create_ruleset
            (some (record {
              handled_access_fs = bits (requested_by empty requests);
              handled_access_net = 0;
            }))
            16
            0
            w0
          ≡ (c.fd, w1))
        × (pos 0 ≤ℤ c.fd)
        × WasAccepted c 6)
hard_requirement_enforced_example =
    hard_requirement_enforced v1 requests calls 0 6 outcome (refl, tt) tt hard_run

abbrev soft_builder : Ruleset
soft_builder = set_compatibility soft_requirement (of_compat (of_abi v1))

soft_builder-level : into soft_builder.compat.level ≡ soft_requirement
unfolding into set_compatibility
soft_builder-level = refl

soft_builder-abi : soft_builder.compat.abi ≡ v1
unfolding set_compatibility of_compat of_abi
soft_builder-abi = refl

refer_beyond : ¬ (from refer ⊆ from_all soft_builder.compat.abi)
refer_beyond =
    rw soft_builder-abi
      (beyond_bits (from refer) (from_all v1) 0x2000 0x1fff bits-refer bits-v1 refl)

soft_requirement-Ignored_example :
    Ignored 0 (run (access (from refer) ∷ requests) calls soft_builder 0)
soft_requirement-Ignored_example =
    soft_requirement-Ignored (from refer) requests calls soft_builder 0
      (set_compatibility-IsValid soft_requirement (of_compat (of_abi v1)) (start-IsValid v1))
      soft_builder-level (IsKnown-valid (from refer) 0x2000 IsKnown-refer) refer_beyond
