-- ===== src/Scenarios/Thread.antt =====
-- The example `restrict_thread` of src/fs.rs on a kernel as documented.
use rust_landlock.Prelude.{true, ◌≡◌, refl, ap, ◌∙◌}
use rust_landlock.Prelude.Exec.{ok}
use rust_landlock.Uapi.{Sys}
use rust_landlock.BitFlags.{BitFlags}
use rust_landlock.Compat.Abi.{Abi, unsupported, v1, v2, v3}
use rust_landlock.Fs.Rights.{from_all, from_read}
use rust_landlock.Ruleset.Types.{RulesetStatus, fully_enforced, not_enforced}
use rust_landlock.Ruleset.Session.Paths.{thread_hierarchies, restrict_thread}
use rust_landlock.Ruleset.Session.Paths.Documented.{AllRules, restrict_paths_best_effort}
use rust_landlock.Kernel.{View, IsDocumented}
use rust_landlock.Scenarios.Outcomes.{graded_bits, graded_bits_lem}
use rust_landlock.Scenarios.Rights.{IsKnown-v1, IsKnown-read, IsKnown-valid, bits-v1, rule_of}

abbrev pub thread_status : Abi → RulesetStatus
thread_status unsupported = not_enforced
thread_status _ = fully_enforced

thread_status_lem : (abi : Abi) → graded_bits 0x1fff abi ≡ thread_status abi
thread_status_lem unsupported = refl
thread_status_lem v1 = refl
thread_status_lem v2 = refl
thread_status_lem v3 = refl

module _ ⦃S : Sys⦄ ⦃E : BitFlags⦄ where
  open S use {World}

  pub thread_hierarchies-AllRules : AllRules (from_all v1) thread_hierarchies
  thread_hierarchies-AllRules = (
    rule_of (from_all v1) (from_read v1) 0x1fff 13 5 IsKnown-v1 IsKnown-read refl refl refl,
    (rule_of (from_all v1) (from_all v1) 0x1fff 0x1fff 7 IsKnown-v1 IsKnown-v1 refl refl refl, tt),
  )

  -- On a kernel that keeps to its documentation, in a state in which no resource is used up, the
  -- calls of the example restrict_thread return no error, whichever of its five paths exist: the status has
  -- no_new_privs, and is fully enforced on a kernel of any ABI with Landlock and not enforced on one without.
  pub restrict_thread_enforced :
      (V : View) (w : World)
      → IsDocumented V
      → V.Ready w
      → (restrict_thread w).0 ≡ ok (record { status = thread_status V.abi; no_new_privs = true })
  unfolding restrict_thread
  restrict_thread_enforced V w D ready =
      restrict_paths_best_effort V D (from_all v1) thread_hierarchies w ready
        (IsKnown-valid (from_all v1) 0x1fff IsKnown-v1) thread_hierarchies-AllRules
      ∙ ap (λ (s : RulesetStatus). ok (record { status = s; no_new_privs = true }))
          (graded_bits_lem (from_all v1) 0x1fff V.abi bits-v1 ∙ thread_status_lem V.abi)
