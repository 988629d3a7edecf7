-- ===== src/Scenarios/All.antt =====
-- The tests of src/lib.rs that call `check_ruleset_support`, together.
use rust_landlock.Prelude.{true, false, none, some, ◌≡◌, refl}
use rust_landlock.Prelude.Exec.{ok}
use rust_landlock.Uapi.{Sys}
use rust_landlock.BitFlags.{BitFlags}
use rust_landlock.Compat.Abi.{Abi, v1, v2, v3}
use rust_landlock.Prelude.{Option, Bool}
use rust_landlock.Kernel.{View, IsDocumented}
use rust_landlock.Scenarios.{Threads, can_emulate, expected_status, check_ruleset_support}
use rust_landlock.Scenarios.Closures.{
  Closure, root, passwd, allow_root_compat, file_rights_for_a_file,
  too_much_access_rights_for_a_file, path_beneath_rules_with_too_much_access_rights_for_a_file,
  allow_root_fragile, ruleset_enforced, abi_v2_exec_refer, abi_v2_refer_only, abi_v3_truncate,
}
use rust_landlock.Scenarios.Requests.{IsJoined, check_passes}
use rust_landlock.Scenarios.Pass.{
  whole_outcome, less_outcome, allow_root_compat_outcome, file_rights_for_a_file_outcome,
  too_much_access_rights_for_a_file_outcome, ruleset_enforced_outcome, abi_v2_exec_refer_outcome,
  abi_v2_refer_only_outcome, abi_v3_truncate_outcome,
}
use rust_landlock.Scenarios.Special.{
  path_beneath_rules_outcome, fragile_outcome, allow_root_fragile_outcome,
}

module _ ⦃S : Sys⦄ ⦃E : BitFlags⦄ ⦃T : Threads⦄ where
  open S use {World}

  -- A call of `check_ruleset_support` returns, with `TEST_ABI` at the kernel's ABI.
  abbrev pub Passes : View → Abi → Option Abi → Closure → Bool → World → Type 0
  Passes V partial full check error_if w =
      (check_ruleset_support V.abi partial full check error_if w).0 ≡ ok tt

  -- On a kernel of any ABI that keeps to its documentation, in a state in which no resource is used
  -- up, with threads that return what their closures return and leave such a state, with a directory
  -- at "/" and a file at "/etc/passwd", and with TEST_ABI set to the ABI of the kernel: each of the
  -- nine calls of check_ruleset_support in the tests returns without a panic. So for each emulated ABI
  -- that can be emulated there, the closure returns the expected status with no_new_privs, or an error where one is
  -- asked for, and for each other one it returns CreateRulesetCall with errno.
  pub scenarios_pass :
      (V : View) (w : World)
      → (D : IsDocumented V) → IsJoined V D
      → V.IsPath root false
      → V.IsPath passwd true
      → V.Ready w
      → Passes V v1 (some v1) allow_root_compat false w
        × Passes V v1 (some v1) file_rights_for_a_file false w
        × Passes V v1 none too_much_access_rights_for_a_file false w
        × Passes V v1 (some v1) path_beneath_rules_with_too_much_access_rights_for_a_file false w
        × Passes V v1 (some v1) allow_root_fragile true w
        × Passes V v1 (some v1) ruleset_enforced false w
        × Passes V v1 (some v2) abi_v2_exec_refer false w
        × Passes V v2 (some v2) abi_v2_refer_only false w
        × Passes V v2 (some v3) abi_v3_truncate false w
  unfolding can_emulate expected_status
  scenarios_pass V w D joined is_root is_passwd ready = (
    check_passes V D (whole_outcome 0x1fff) allow_root_compat v1 (some v1) false w joined
        (allow_root_compat_outcome V D is_root) refl refl ready,
    check_passes V D (whole_outcome 0x1fff) file_rights_for_a_file v1 (some v1) false w joined
        (file_rights_for_a_file_outcome V D is_passwd) refl refl ready,
    check_passes V D (less_outcome 0x1fff) too_much_access_rights_for_a_file v1 none false w joined
        (too_much_access_rights_for_a_file_outcome V D is_passwd) refl refl ready,
    check_passes V D (whole_outcome 0x1fff)
        path_beneath_rules_with_too_much_access_rights_for_a_file v1 (some v1) false w joined
        (path_beneath_rules_outcome V D) refl refl ready,
    check_passes V D fragile_outcome allow_root_fragile v1 (some v1) true w joined
        (allow_root_fragile_outcome V D is_root) refl refl ready,
    check_passes V D (whole_outcome 1) ruleset_enforced v1 (some v1) false w joined
        (ruleset_enforced_outcome V D) refl refl ready,
    check_passes V D (whole_outcome 0x2001) abi_v2_exec_refer v1 (some v2) false w joined
        (abi_v2_exec_refer_outcome V D) refl refl ready,
    check_passes V D (whole_outcome 0x2000) abi_v2_refer_only v2 (some v2) false w joined
        (abi_v2_refer_only_outcome V D) refl refl ready,
    check_passes V D (whole_outcome 0x6000) abi_v3_truncate v2 (some v3) false w joined
        (abi_v3_truncate_outcome V D) refl refl ready,
  )
