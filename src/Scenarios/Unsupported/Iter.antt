-- ===== src/Scenarios/Unsupported/Iter.antt =====
-- The test `ruleset_add_rule_iter` of src/ruleset.rs on a kernel as documented.
use rust_landlock.Prelude.{false, ◌≡◌, inl, refl, sym, subst, ◌∙◌}
use rust_landlock.Prelude.Exec.{Result, ok, err, proceed, Succeeds}
use rust_landlock.Uapi.{Sys}
use rust_landlock.BitFlags.{BitFlags, execute, read_file}
use rust_landlock.BitFlags.Digits.{◌⊆◌}
use rust_landlock.Errors.{RulesetError}
use rust_landlock.Compat.Abi.{unsupported}
use rust_landlock.Compat.Level.{best_effort}
use rust_landlock.Ruleset.Types.{Ruleset, RulesetCreated}
use rust_landlock.Ruleset.Create.{create}
use rust_landlock.Ruleset.Session.Paths.{handle_access_owned}
use rust_landlock.Ruleset.Session.Live.Built.{Built, start-Built, handle_access-Built, empty-union}
use rust_landlock.Kernel.{View, IsDocumented}
use rust_landlock.Scenarios.Closures.{lift, rule_on, root}
use rust_landlock.Scenarios.Created.{asked, Idle, creates}
use rust_landlock.Scenarios.Rights.{IsKnown-execute, IsKnown-valid}
use rust_landlock.Scenarios.Requests.{start}
use rust_landlock.Scenarios.Unsupported.{unwrap, assert_error, is_unhandled, ruleset_add_rule_iter}
use rust_landlock.Scenarios.Unsupported.Refusals.{unhandled_passes, not_contained}
use rust_landlock.Scenarios.Unsupported.Kept.{read_not_executed}

module _ ⦃S : Sys⦄ ⦃E : BitFlags⦄ where
  open S use {World}
  open E use {Flags, from, empty}

  module _ (V : View) (D : IsDocumented V) where
    on_created :
        (m : Result RulesetCreated (RulesetError Flags) × World)
        → V.IsPath root false
        → Succeeds (Idle V D) (lift m)
        → (proceed (unwrap m) (λ c. assert_error is_unhandled (rule_on root (from read_file) c))).0
          ≡ ok tt
    on_created (ok c, w) is_root live = unhandled_passes V D c w live.ready is_root (
        not_contained V D c.requested_handled_fs (from read_file) (
          subst (λ (x : Flags). ¬ (from read_file ⊆ x))
            (sym (live.requested ∙ empty-union (from execute))) read_not_executed))
    on_created (err e, w) is_root live = absurd live

    on_built :
        (m : Result Ruleset (RulesetError Flags) × World)
        → V.IsPath root false
        → Succeeds (Built V unsupported best_effort (asked V D)) m
        → (proceed (unwrap m) (λ r w.
            proceed
              (unwrap (create r w))
              (λ c. assert_error is_unhandled (rule_on root (from read_file) c)))).0
          ≡ ok tt
    on_built (ok r, w) is_root b = on_created (create r w) is_root (creates V D r w b)
    on_built (err e, w) is_root b = absurd b

    -- On a kernel that keeps to its documentation, of any ABI, in a state in which no resource is used
    -- up and / is a directory: the test ruleset_add_rule_iter passes.
    pub ruleset_add_rule_iter_passes :
        (w : World) → V.Ready w → V.IsPath root false → (ruleset_add_rule_iter w).0 ≡ ok tt
    unfolding ruleset_add_rule_iter
    ruleset_add_rule_iter_passes w ready is_root =
        on_built (handle_access_owned (from execute) (start unsupported) w) is_root (
          handle_access-Built V unsupported best_effort empty (from execute) (start unsupported) w
            (IsKnown-valid (from execute) 1 IsKnown-execute) (inl refl)
            (start-Built V unsupported w ready))
