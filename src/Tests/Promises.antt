-- ===== src/Tests/Promises.antt =====
-- The examples of the trait `Compatible`, and a test of the rulesets, on a concrete kernel.
use rust_landlock.Prelude.Exec.{ok, Succeeds}
use rust_landlock.BitFlags.Model.{words}
use rust_landlock.Scenarios.Promises.{ruleset_handling_renames, ruleset_fragile}
use rust_landlock.Scenarios.Promises.Kept.{
  RenamesOrNothing, FragileOrError, ruleset_handling_renames_kept, ruleset_fragile_kept,
}
use rust_landlock.Compat.Abi.{v3}
use rust_landlock.Prelude.{false, refl, ◌≡◌}
use rust_landlock.Scenarios.Unsupported.{ruleset_unsupported, ruleset_add_rule_iter}
use rust_landlock.Scenarios.IgnoreAbi.{ignore_abi_v2_with_abi_v1, ignore_abi_v2_with_abi_v1_passes}
use rust_landlock.Ruleset.Types.{not_enforced}
use rust_landlock.Scenarios.Unsupported.Iter.{ruleset_add_rule_iter_passes}
use rust_landlock.Scenarios.Unsupported.Kept.{AllPass, ruleset_unsupported_passes}
use rust_landlock.Tests.Documented.{documented, view, view-IsDocumented}

ruleset_handling_renames_kept_example :
    Succeeds (RenamesOrNothing view view-IsDocumented) (ruleset_handling_renames 0)
ruleset_handling_renames_kept_example = ruleset_handling_renames_kept view view-IsDocumented 0 tt

ruleset_fragile_kept_example : FragileOrError view view-IsDocumented (ruleset_fragile 0)
ruleset_fragile_kept_example = ruleset_fragile_kept view view-IsDocumented 0 tt

ruleset_unsupported_passes_example : AllPass 0 (ruleset_unsupported v3)
ruleset_unsupported_passes_example = ruleset_unsupported_passes view view-IsDocumented 0 tt refl

ruleset_add_rule_iter_passes_example : (ruleset_add_rule_iter 0).0 ≡ ok tt
ruleset_add_rule_iter_passes_example = ruleset_add_rule_iter_passes view view-IsDocumented 0 tt refl

ignore_abi_v2_with_abi_v1_passes_example :
    (ignore_abi_v2_with_abi_v1 0).0 ≡ ok (record { status = not_enforced; no_new_privs = false })
ignore_abi_v2_with_abi_v1_passes_example =
    ignore_abi_v2_with_abi_v1_passes view view-IsDocumented 0 tt refl refl
