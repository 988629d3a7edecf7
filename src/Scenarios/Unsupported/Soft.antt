-- ===== src/Scenarios/Unsupported/Soft.antt =====
-- The checks of the test `ruleset_unsupported` of src/ruleset.rs at the soft requirement.
use rust_landlock.Prelude.{false, ◌≡◌, sym, ap, subst, ◌∙◌}
use rust_landlock.Prelude.Exec.{ok, pure, Succeeds, Succeeds-proceed, value_Succeeds}
use rust_landlock.Uapi.{Sys}
use rust_landlock.BitFlags.{BitFlags, ◌∪◌, execute}
use rust_landlock.BitFlags.Digits.{◌⊆◌}
use rust_landlock.Compat.Abi.{Abi, unsupported}
use rust_landlock.Compat.Level.{best_effort, soft_requirement, into}
use rust_landlock.Fs.Rights.{from_all}
use rust_landlock.Ruleset.Types.{RestrictionStatus, not_enforced, set_compatibility}
use rust_landlock.Ruleset.Handle.{handle_access}
use rust_landlock.Ruleset.Handle.Invariant.{handle_access-IsValid}
use rust_landlock.Ruleset.Create.{create}
use rust_landlock.Ruleset.Create.Outcome.{create-Created}
use rust_landlock.Ruleset.Restrict.{restrict_self}
use rust_landlock.Ruleset.Session.Paths.{handle_access_owned}
use rust_landlock.Ruleset.Session.Live.{IsExact-IsValid}
use rust_landlock.Ruleset.Session.Live.Built.{
  Built, Succeeds-owned, start-Built, set_compatibility-Built, empty-union,
}
use rust_landlock.Ruleset.Session.GivenUp.Requests.{soft-IsOver, handle_access_level}
use rust_landlock.Kernel.{View, IsDocumented}
use rust_landlock.Scenarios.Promises.{IsOff, Off, Off-Created}
use rust_landlock.Scenarios.Outcomes.{Succeeds-lift}
use rust_landlock.Scenarios.Rights.{IsKnown-ne, IsKnown-valid, IsKnown-execute}
use rust_landlock.Scenarios.Requests.{start}
use rust_landlock.Scenarios.Unsupported.{assert_status, restrict_with}
use rust_landlock.Scenarios.Unsupported.Endings.{assert_status-expected, given_up_ends}
use rust_landlock.Scenarios.Unsupported.Refusals.{execute_beyond}

module _ ⦃S : Sys⦄ ⦃E : BitFlags⦄ where
  open S use {World}
  open E use {Flags, from, empty, contains, make_bitflags}

  Ignored : RestrictionStatus → World → Type 0
  Ignored st w = st ≡ record { status = not_enforced; no_new_privs = false }

  module _ (V : View) (D : IsDocumented V) where
    fresh :
        (w : World)
        → V.Ready w
        → Built V unsupported soft_requirement empty
            (set_compatibility soft_requirement (start unsupported))
            w
    fresh w ready =
        set_compatibility-Built V unsupported best_effort soft_requirement empty (start unsupported)
          w (start-Built V unsupported w ready)

    execute-IsOff :
        (w : World)
        → V.Ready w
        → Succeeds (IsOff V D) (
            handle_access_owned
              (from execute)
              (set_compatibility soft_requirement (start unsupported))
              w)
    unfolding handle_access_owned
    execute-IsOff w ready =
        let r = set_compatibility soft_requirement (start unsupported) in
        let b = fresh w ready in
        let valid = IsExact-IsValid V unsupported r b.exact in
        let known = IsKnown-valid (from execute) 1 IsKnown-execute in
        let (done, over, kept) = soft-IsOver (from execute) r w valid b.at_level known (λ h.
          execute_beyond (subst (λ (x : Abi). from execute ⊆ from_all x) b.exact.abi_kept h)) in
        Succeeds-owned (IsOff V D) (handle_access (from execute) (r, w)) done (record {
          over = over;
          not_hard = λ h. cc (h, ap into (handle_access_level (from execute) r w), b.at_level);
          asked_for = λ z. IsKnown-ne (from execute) 1 IsKnown-execute (
              sym (empty-union (from execute))
              ∙ ap (λ (x : Flags). x ∪ from execute) (sym b.asked_for)
              ∙ sym (handle_access-IsValid (from execute) r w valid).1
              ∙ z);
        })

    soft_run :
        (w : World)
        → V.Ready w
        → Succeeds Ignored (
            restrict_with pure
              (from execute)
              (set_compatibility soft_requirement (start unsupported))
              w)
    unfolding restrict_with Ignored
    soft_run w ready =
        Succeeds-proceed (IsOff V D) Ignored _ _
          (Succeeds-lift V D (IsOff V D) _ (execute-IsOff w ready))
          (λ r w1 o.
            Succeeds-proceed (Off V D) Ignored _ _
              (Succeeds-lift V D (Off V D) (create r w1)
                (Off-Created V D r w1 o (create-Created r w1 o.over.valid)))
              (λ c w2 g.
                Succeeds-lift V D Ignored (restrict_self c w2)
                  (value_Succeeds _ (restrict_self c w2) (given_up_ends c w2 g.final))))

    -- The soft requirement on the ruleset.
    pub soft_passes :
        (w : World)
        → V.Ready w
        → (assert_status not_enforced false
            (restrict_with pure
              (from execute)
              (set_compatibility soft_requirement (start unsupported)))
            w).0
          ≡ ok tt
    unfolding Ignored
    soft_passes w ready = assert_status-expected not_enforced false _ w (soft_run w ready)
