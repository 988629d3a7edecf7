-- ===== src/Ruleset/Handle/Accepted.antt =====
-- When `handle_access` succeeds.
use rust_landlock.Prelude.{Option, ◌≡◌, ◌↔◌, inl, inr, refl}
use rust_landlock.Prelude.Exec.{Result, ok, map_err}
use rust_landlock.Uapi.{Sys}
use rust_landlock.BitFlags.{BitFlags}
use rust_landlock.BitFlags.Digits.{◌⊆◌}
use rust_landlock.BitFlags.Sets.{ne_mono, ⊆-of_empty, intersection-⊆_left}
use rust_landlock.Errors.{CompatError, RulesetError, handle_accesses}
use rust_landlock.Compat.Level.{CompatLevel, hard_requirement, into}
use rust_landlock.Compat.State.{CompatState}
use rust_landlock.Compat.Abi.{Abi}
use rust_landlock.Fs.Rights.{from_all}
use rust_landlock.Access.Reported.{
  Reported, IsInvalid, granted, reduced, skipped, given_up, refused, rejected, try_compat-Reported,
}
use rust_landlock.Ruleset.Types.{Ruleset}
use rust_landlock.Ruleset.Handle.{add_handled, handle_access}

module _ ⦃E : BitFlags⦄ where
  open E use {Flags, all, empty}

  -- The result that `handle_access` makes of a report.
  abbrev result :
      Result (Option Flags) (CompatError Flags) → Ruleset → Result (Unit {0}) (RulesetError Flags)
  result out r = map_err handle_accesses (add_handled out r).0

  accepted :
      {a : Flags} {abi : Abi} {level : CompatLevel} {s s' : CompatState}
      {out : Result (Option Flags) (CompatError Flags)}
      → (r : Ruleset) → Reported a abi level s out s'
      → (result out r ≡ ok tt) ↔ ((¬ IsInvalid a) × (level ≡ hard_requirement → a ⊆ from_all abi))
  unfolding add_handled
  accepted r (granted ne k b) =
      (λ _. (λ bad. elim bad [ inl e ↦ ne e | inr u ↦ u k ], λ _. b), λ _. refl)
  accepted {a} r (reduced g be k e ne ga) = (
    λ _. (
      λ bad. elim bad [ inl z ↦ ne_mono g a (rw e (intersection-⊆_left a _)) ne z | inr u ↦ u k ],
      λ h. cc,
    ),
    λ _. refl,
  )
  accepted r (skipped be ne k e) =
      (λ _. (λ bad. elim bad [ inl z ↦ ne z | inr u ↦ u k ], λ h. cc), λ _. refl)
  accepted {a} {abi} r (given_up soft k b) = (
    λ _. (λ bad. elim bad [ inl z ↦ b (⊆-of_empty a (from_all abi) z) | inr u ↦ u k ], λ h. cc),
    λ _. refl,
  )
  accepted r (refused e hard k b) = (λ h. cc, λ h. absurd (b (h.1 hard)))
  accepted r (rejected e bad) = (λ h. cc, λ h. absurd (h.0 bad))

  module _ ⦃S : Sys⦄ where
    open S use {World}

    -- For each request, builder and state of the system, handle_access succeeds exactly if the
    -- request has at least one right and declared rights only, and, if the level is the hard
    -- requirement, only rights of the builder's ABI.
    pub handle_access-ok_iff :
        (a : Flags) (r : Ruleset) (w : World)
        → ((handle_access a (r, w)).0 ≡ ok tt)
          ↔ ((¬ IsInvalid a) × (into r.compat.level ≡ hard_requirement → a ⊆ from_all r.compat.abi))
    unfolding handle_access
    handle_access-ok_iff a r w =
        accepted _ (try_compat-Reported a r.compat.abi (into r.compat.level) r.compat.state w).0
