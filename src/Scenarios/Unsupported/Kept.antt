-- ===== src/Scenarios/Unsupported/Kept.antt =====
-- The test `ruleset_unsupported` of src/ruleset.rs on a kernel as documented.
use rust_landlock.Prelude.{true, false, List, [], ◌∷◌, ◌≡◌, refl}
use rust_landlock.Prelude.Exec.{ok, Exec}
use rust_landlock.Uapi.{Sys}
use rust_landlock.BitFlags.{BitFlags, execute, write_file, read_file, bits_of, discriminant}
use rust_landlock.BitFlags.Digits.{◌⊆◌}
use rust_landlock.Compat.Abi.{unsupported, v1}
use rust_landlock.Compat.Level.{soft_requirement}
use rust_landlock.Ruleset.Types.{set_compatibility_created, set_no_new_privs}
use rust_landlock.Kernel.{View, IsDocumented}
use rust_landlock.Scenarios.{Panic}
use rust_landlock.Scenarios.Closures.{root}
use rust_landlock.Scenarios.Rights.{IsKnown, IsKnown-execute, beyond_bits}
use rust_landlock.Scenarios.Unsupported.{ruleset_unsupported}
use rust_landlock.Scenarios.Unsupported.Endings.{changed_passes}
use rust_landlock.Scenarios.Unsupported.Refusals.{
  hard_execute_passes, empty_access_passes, missing_passes, inconsistent_rule_passes,
}
use rust_landlock.Scenarios.Unsupported.Soft.{soft_passes}
use rust_landlock.Scenarios.Unsupported.SoftRule.{soft_rule_passes}

module _ ⦃S : Sys⦄ where
  open S use {World}

  -- Each of the checks passes in a state of the system.
  infixr 4 ◌also◌
  pub data AllPass (w : World) : List (Exec World Panic (Unit {0})) → Type 0 where
    all_made : AllPass w []
    ◌also◌ :
        {check : Exec World Panic (Unit {0})} {checks : List (Exec World Panic (Unit {0}))}
        → (check w).0 ≡ ok tt
        → AllPass w checks
        → AllPass w (check ∷ checks)

  module _ ⦃E : BitFlags⦄ where
    open E use {Flags, from, make_bitflags, bits-make_bitflags, bits-from}

    abbrev executed_or_written : Flags
    executed_or_written = make_bitflags (execute ∷ write_file ∷ [])

    IsKnown-executed_or_written : IsKnown executed_or_written 3
    unfolding bits_of discriminant
    IsKnown-executed_or_written = record {
      word = bits-make_bitflags (execute ∷ write_file ∷ []);
      some_right = refl;
      declared = refl;
    }

    read_not_written : ¬ (from read_file ⊆ executed_or_written)
    unfolding discriminant
    read_not_written =
        beyond_bits (from read_file) executed_or_written 4 3 (bits-from read_file)
          IsKnown-executed_or_written.word refl

    pub read_not_executed : ¬ (from read_file ⊆ from execute)
    unfolding discriminant
    read_not_executed =
        beyond_bits (from read_file) (from execute) 4 1 (bits-from read_file) IsKnown-execute.word
          refl

    -- On a kernel that keeps to its documentation, of any ABI, with that ABI as TEST_ABI, in each state
    -- in which no resource is used up and / is a directory: each check of the test ruleset_unsupported
    -- passes when it is made in that state.
    pub ruleset_unsupported_passes :
        (V : View)
        → IsDocumented V
        → (w : World) → V.Ready w
        → V.IsPath root false
        → AllPass w (ruleset_unsupported V.abi)
    unfolding ruleset_unsupported set_compatibility_created set_no_new_privs
    ruleset_unsupported_passes V D w ready is_root =
        changed_passes V D true (λ c. c) (λ c. refl) (λ c e. e) w ready
        also soft_passes V D w ready
        also hard_execute_passes w
        also changed_passes V D true (set_compatibility_created soft_requirement) (λ c. refl)
            (λ c e. e) w ready
        also soft_rule_passes V D w ready is_root
        also changed_passes V D false (set_no_new_privs false) (λ c. refl) (λ c e. refl) w ready
        also empty_access_passes unsupported w
        also missing_passes w
        also empty_access_passes v1 w
        also inconsistent_rule_passes V D executed_or_written 3 w IsKnown-executed_or_written
            read_not_written ready is_root
        also inconsistent_rule_passes V D (from execute) 1 w IsKnown-execute read_not_executed ready
            is_root
        also all_made
