-- ===== src/Ruleset/Handle/Unmet.antt =====
-- The state `No` of a builder: none of the rights asked for is one of the ABI.
use rust_landlock.Prelude.{Option, ◌≡◌, refl, arith}
use rust_landlock.Prelude.Exec.{Result}
use rust_landlock.Uapi.{Sys}
use rust_landlock.BitFlags.{BitFlags, ◌∪◌, ◌∩◌}
use rust_landlock.BitFlags.Sets.{⊆-empty, intersection-⊆_left}
use rust_landlock.Errors.{CompatError}
use rust_landlock.Compat.Abi.{Abi, unsupported, v1, v2, v3}
use rust_landlock.Compat.Level.{CompatLevel, into}
use rust_landlock.Compat.State.{CompatState, init, full, partial, no_support, dummy, update, of_abi}
use rust_landlock.Fs.Rights.{from_all}
use rust_landlock.Access.Reported.{
  Reported, granted, reduced, skipped, given_up, refused, rejected, try_compat-Reported,
}
use rust_landlock.Ruleset.Types.{Ruleset, of_compat}
use rust_landlock.Ruleset.Handle.{add_handled, handle_access}
use rust_landlock.Ruleset.Handle.Invariant.{IsValid, StateFits, after}
use rust_landlock.Ruleset.Handle.Grades.{apart}

module _ ⦃E : BitFlags⦄ where
  open E use {Flags, empty}

  -- In state `No`, none of the rights asked for is one of the ABI.
  abbrev pub IsUnmet : CompatState → Flags → Abi → Type 0
  IsUnmet no_support asked abi = asked ∩ from_all abi ≡ empty
  IsUnmet _ asked abi = Unit {0}

  IsUnmet-granted : (s : CompatState) (q : Flags) (abi : Abi) → IsUnmet (update s full) q abi
  unfolding update
  IsUnmet-granted s q abi = ground arith

  IsUnmet-reduced : (s : CompatState) (q : Flags) (abi : Abi) → IsUnmet (update s partial) q abi
  unfolding update
  IsUnmet-reduced s q abi = ground arith

  IsUnmet-dummy : (s : CompatState) (q : Flags) (abi : Abi) → IsUnmet (update s dummy) q abi
  unfolding update
  IsUnmet-dummy s q abi = ground arith

  nothing_met : (q f : Flags) → q ≡ empty → q ∩ f ≡ empty
  nothing_met q f e = ⊆-empty (q ∩ f) (rw e (intersection-⊆_left empty f))

  IsUnmet-skipped :
      (s : CompatState) (q act a : Flags) (abi : Abi)
      → StateFits s q act
      → IsUnmet s q abi
      → a ∩ from_all abi ≡ empty
      → IsUnmet (update s no_support) (q ∪ a) abi
  unfolding update
  IsUnmet-skipped init q act a abi f u e = apart q a (from_all abi) (nothing_met q _ f.0) e
  IsUnmet-skipped full q act a abi f u e = tt
  IsUnmet-skipped partial q act a abi f u e = tt
  IsUnmet-skipped no_support q act a abi f u e = apart q a (from_all abi) u e
  IsUnmet-skipped dummy q act a abi f u e = tt

  abbrev pub RulesetUnmet : Ruleset → Type 0
  RulesetUnmet r = IsUnmet r.compat.state r.requested_handled_fs r.compat.abi

  after-Unmet :
      (r : Ruleset) (a : Flags) (level : CompatLevel)
      → {out : Result (Option Flags) (CompatError Flags)} {s' : CompatState} → IsValid r
      → RulesetUnmet r
      → Reported a r.compat.abi level r.compat.state out s'
      → RulesetUnmet (after out s' a r)
  unfolding add_handled
  after-Unmet r a level v u (granted ne k b) = IsUnmet-granted r.compat.state _ r.compat.abi
  after-Unmet r a level v u (reduced g be k e ne ga) = IsUnmet-reduced r.compat.state _ r.compat.abi
  after-Unmet r a level v u (skipped be ne k e) =
      IsUnmet-skipped r.compat.state r.requested_handled_fs r.actual_handled_fs a r.compat.abi
        v.fits u e
  after-Unmet r a level v u (given_up soft k b) = IsUnmet-dummy r.compat.state _ r.compat.abi
  after-Unmet r a level v u (refused e hard k b) = IsUnmet-dummy r.compat.state _ r.compat.abi
  after-Unmet r a level v u (rejected e bad) = IsUnmet-dummy r.compat.state _ r.compat.abi

  start-IsUnmet : (abi : Abi) → IsUnmet (of_abi abi).state empty abi
  unfolding of_abi
  start-IsUnmet unsupported = nothing_met empty _ refl
  start-IsUnmet v1 = tt
  start-IsUnmet v2 = tt
  start-IsUnmet v3 = tt

  -- A builder starts so.
  pub start-Unmet : (abi : Abi) → RulesetUnmet (of_compat (of_abi abi))
  unfolding of_compat of_abi
  start-Unmet abi = start-IsUnmet abi

  module _ ⦃S : Sys⦄ where
    open S use {World}

    -- For each valid builder of whose requests the ABI has nothing if its state is No, handle_access
    -- leaves such a builder, whether it returns an error or not.
    pub handle_access-Unmet :
        (a : Flags) (r : Ruleset) (w : World)
        → IsValid r
        → RulesetUnmet r
        → RulesetUnmet (handle_access a (r, w)).1.0
    unfolding handle_access
    handle_access-Unmet a r w v u =
        after-Unmet r a (into r.compat.level) v u
          (try_compat-Reported a r.compat.abi (into r.compat.level) r.compat.state w).0
