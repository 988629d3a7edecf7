-- ===== src/Ruleset/Handle/Exact.antt =====
-- Builders that handle exactly what they were asked for, as far as the ABI goes.
use rust_landlock.Prelude.{Option, ◌≡◌, inr, refl, sym, ap, ap₂, subst, ◌∙◌}
use rust_landlock.Prelude.Exec.{Result, ok}
use rust_landlock.Uapi.{Sys}
use rust_landlock.BitFlags.{BitFlags, ◌∪◌, ◌∩◌}
use rust_landlock.BitFlags.Digits.{intersection_of_subset}
use rust_landlock.BitFlags.Sets.{⊆-empty, union-empty, intersection-union, intersection-⊆_left}
use rust_landlock.Errors.{CompatError}
use rust_landlock.Compat.Level.{CompatLevel, best_effort, into}
use rust_landlock.Compat.State.{CompatState, of_abi}
use rust_landlock.Compat.Abi.{Abi, unsupported, v1, v2, v3}
use rust_landlock.Fs.Rights.{from_all}
use rust_landlock.Compat.TryCompat.{try_compat}
use rust_landlock.Access.{access_compat}
use rust_landlock.Access.Reported.{
  Reported, IsInvalid, granted, reduced, skipped, given_up, refused, rejected, try_compat-Reported,
}
use rust_landlock.Ruleset.Types.{Ruleset, of_compat}
use rust_landlock.Ruleset.Handle.Grades.{Grades, Grades-granted, Grades-reduced, Grades-skipped}
use rust_landlock.Ruleset.Handle.{add_handled, handle_access}
use rust_landlock.Ruleset.Handle.Accepted.{handle_access-ok_iff}
use rust_landlock.Ruleset.Handle.Invariant.{after, requested-add_handled}
use rust_landlock.Compat.State.{Compatibility}
use rust_landlock.Compat.Level.{hard_requirement}
use rust_landlock.Prelude.{◌⊎◌, inl}
use rust_landlock.BitFlags.Digits.{◌⊆◌}

module _ ⦃E : BitFlags⦄ where
  open E use {Flags, all, empty}

  -- A builder that handles what it was asked for as far as the ABI goes, and whose state says how far
  -- that is.
  pub record IsExact (abi : Abi) (r : Ruleset) : Type 0 where
    pub abi_kept : r.compat.abi ≡ abi
    pub handled : r.actual_handled_fs ≡ r.requested_handled_fs ∩ from_all abi
    pub graded : Grades r.compat.state r.requested_handled_fs (from_all abi)

  -- A request that its level lets through: all of it is in the ABI, or what is not may be dropped.
  abbrev pub IsMet : CompatLevel → Flags → Abi → Type 0
  IsMet level a abi = (level ≡ best_effort) ⊎ (a ⊆ from_all abi)

  after-IsExact :
      (r : Ruleset) (abi : Abi) (a : Flags) (level : CompatLevel)
      → {out : Result (Option Flags) (CompatError Flags)} {s' : CompatState} → IsExact abi r
      → IsMet level a abi
      → ¬ IsInvalid a
      → Reported a abi level r.compat.state out s'
      → IsExact abi (after out s' a r)
  unfolding add_handled
  after-IsExact r abi a level x l v (granted ne k b) = record {
    abi_kept = x.abi_kept;
    handled =
        rw (intersection-union r.requested_handled_fs a (from_all abi))
          (ap₂ ◌∪◌ x.handled (sym (intersection_of_subset a (from_all abi) b)));
    graded = Grades-granted r.compat.state r.requested_handled_fs a (from_all abi) x.graded ne b;
  }
  after-IsExact r abi a level x l v (reduced g be k e ne ga) = record {
    abi_kept = x.abi_kept;
    handled = rw (intersection-union r.requested_handled_fs a (from_all abi)) (ap₂ ◌∪◌ x.handled e);
    graded =
        Grades-reduced r.compat.state r.requested_handled_fs a (from_all abi) x.graded
          (λ z. ne (e ∙ z)) (λ b. ga (e ∙ intersection_of_subset a (from_all abi) b));
  }
  after-IsExact r abi a level x l v (skipped be ne k e) = record {
    abi_kept = x.abi_kept;
    handled =
        rw (intersection-union r.requested_handled_fs a (from_all abi), e)
          (x.handled ∙ sym (union-empty _));
    graded = Grades-skipped r.compat.state r.requested_handled_fs a (from_all abi) x.graded ne e;
  }
  after-IsExact r abi a level x l v (given_up soft k b) = elim l [
    | inl e ↦ cc
    | inr h ↦ absurd (b h)
  ]
  after-IsExact r abi a level x l v (refused e hard k b) = elim l [
    | inl e ↦ cc
    | inr h ↦ absurd (b h)
  ]
  after-IsExact r abi a level x l v (rejected e bad) = absurd (v bad)

  start_graded : (abi : Abi) → Grades (of_abi abi).state empty (from_all abi)
  unfolding of_abi from_all
  start_graded unsupported = (⊆-empty _ (intersection-⊆_left empty _), inr (union-empty empty))
  start_graded v1 = refl
  start_graded v2 = refl
  start_graded v3 = refl

  -- A fresh builder is one.
  pub start-IsExact : (abi : Abi) → IsExact abi (of_compat (of_abi abi))
  unfolding of_compat of_abi
  start-IsExact abi = record {
    abi_kept = refl;
    handled = sym (⊆-empty _ (intersection-⊆_left empty (from_all abi)));
    graded = start_graded abi;
  }

  module _ ⦃S : Sys⦄ where
    open S use {World}

    -- What a request that is met leaves.
    pub record IsHandled (a : Flags) (abi : Abi) (r r' : Ruleset) : Type 0 where
      pub exact : IsExact abi r'
      pub asked : r'.requested_handled_fs ≡ r.requested_handled_fs ∪ a
      pub same_level : r'.compat.level ≡ r.compat.level

    -- A request that its level lets through keeps a builder exact, succeeds and calls nothing.
    pub handle_access-IsHandled :
        (a : Flags) (r : Ruleset) (w : World) (abi : Abi)
        → IsExact abi r
        → ¬ IsInvalid a
        → IsMet (into r.compat.level) a abi
        → let (res, (r', w')) = handle_access a (r, w) in
          (res ≡ ok tt) × IsHandled a abi r r' × (w' ≡ w)
    unfolding handle_access
    handle_access-IsHandled a r w abi x v met =
        let level = into r.compat.level in
        let (out, (s', w')) = try_compat access_compat a r.compat.abi level (r.compat.state, w) in
        let (report, same) = try_compat-Reported a r.compat.abi level r.compat.state w in
        let kept = requested-add_handled out _ in
        (
          (handle_access-ok_iff a r w).1 (v, λ h. within h),
          record {
            exact =
                after-IsExact r abi a level x met v
                  (subst (λ (b : Abi). Reported a b level r.compat.state out s') x.abi_kept report);
            asked = kept.0;
            same_level = ap (λ (c : Compatibility). c.level) kept.1;
          },
          same,
        )
      where
        within : into r.compat.level ≡ hard_requirement → a ⊆ from_all r.compat.abi
        within h = elim met [
          | inl e ↦ cc
          | inr k ↦ subst (λ (b : Abi). a ⊆ from_all b) (sym x.abi_kept) k
        ]
