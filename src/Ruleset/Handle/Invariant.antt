-- ===== src/Ruleset/Handle/Invariant.antt =====
-- The invariant of the ruleset builder: what is handled, what was asked for, and what the
-- compatibility state says of the two.
use rust_landlock.Prelude.{Option, ◌≡◌, ◌≢◌, refl, ap, arith}
use rust_landlock.Prelude.Exec.{Result}
use rust_landlock.Uapi.{Sys}
use rust_landlock.BitFlags.{BitFlags, ◌∪◌}
use rust_landlock.BitFlags.Digits.{◌⊆◌, has-empty}
use rust_landlock.BitFlags.Sets.{
  ⊆-union_left, ⊆-union_right, union-⊆, intersection-⊆_left, intersection-⊆_right, ⊆-trans,
  union-ne-empty, union_comm,
}
use rust_landlock.Errors.{CompatError}
use rust_landlock.Compat.Level.{CompatLevel, into}
use rust_landlock.Compat.State.{
  CompatState, Compatibility, init, full, partial, no_support, dummy, update, of_abi,
}
use rust_landlock.Compat.Abi.{Abi, unsupported, v1, v2, v3}
use rust_landlock.Compat.TryCompat.{try_compat}
use rust_landlock.Fs.Rights.{from_all}
use rust_landlock.Access.{access_compat}
use rust_landlock.Access.Reported.{
  Reported, granted, reduced, skipped, given_up, refused, rejected, try_compat-Reported,
}
use rust_landlock.Ruleset.Types.{Ruleset, set_state, set_compatibility, of_compat}
use rust_landlock.Ruleset.Handle.{add_handled, handle_access}

module _ ⦃E : BitFlags⦄ where
  open E use {Flags, empty}

  -- What each state says of the rights that are requested and of those that are handled.
  abbrev pub StateFits : CompatState → (requested actual : Flags) → Type 0
  StateFits init requested actual = (requested ≡ empty) × (actual ≡ empty)
  StateFits full requested actual = (actual ≡ requested) × (actual ≢ empty)
  StateFits partial requested actual = actual ≢ empty
  StateFits no_support requested actual = actual ≡ empty
  StateFits dummy requested actual = Unit {0}

  pub record IsValid (r : Ruleset) : Type 0 where
    -- only rights of the kernel's ABI, and only those asked for, are handled
    pub supported : r.actual_handled_fs ⊆ from_all r.compat.abi
    pub asked : r.actual_handled_fs ⊆ r.requested_handled_fs
    pub fits : StateFits r.compat.state r.requested_handled_fs r.actual_handled_fs

  -- The ruleset that a report leaves.
  abbrev pub after :
      Result (Option Flags) (CompatError Flags) → CompatState → Flags → Ruleset → Ruleset
  after out s' a r =
      (add_handled out (record r {
        requested_handled_fs = r.requested_handled_fs ∪ a;
        compat = set_state s' r.compat;
      })).1

  union_ne_right : (a b : Flags) → b ≢ empty → a ∪ b ≢ empty
  union_ne_right a b h e = union-ne-empty b a h (cc (union_comm a b))

  fits-granted :
      (s : CompatState) (req act a : Flags)
      → StateFits s req act
      → a ≢ empty
      → StateFits (update s full) (req ∪ a) (act ∪ a)
  unfolding update
  fits-granted s req act a h ne = ground (arith, union_ne_right act a ne)

  fits-reduced :
      (s : CompatState) (req act a g : Flags)
      → StateFits s req act
      → g ≢ empty
      → StateFits (update s partial) (req ∪ a) (act ∪ g)
  unfolding update
  fits-reduced s req act a g h ne = ground (arith, union_ne_right act g ne, union-ne-empty act g)

  fits-skipped :
      (s : CompatState) (req act a : Flags)
      → StateFits s req act
      → StateFits (update s no_support) (req ∪ a) act
  unfolding update
  fits-skipped s req act a h = ground arith

  fits-dummy : (s : CompatState) (req act : Flags) → StateFits (update s dummy) req act
  unfolding update
  fits-dummy s req act = ground arith

  grows :
      (r : Ruleset) (a g : Flags)
      → IsValid r
      → g ⊆ a
      → r.actual_handled_fs ∪ g ⊆ r.requested_handled_fs ∪ a
  grows r a g v h =
      union-⊆ r.actual_handled_fs g (r.requested_handled_fs ∪ a)
        (⊆-union_left r.actual_handled_fs r.requested_handled_fs a v.asked)
        (⊆-trans g a (r.requested_handled_fs ∪ a) h (⊆-union_right r.requested_handled_fs a))

  after_dummy :
      (r : Ruleset) (a : Flags)
      → IsValid r
      → IsValid (record r {
        requested_handled_fs = r.requested_handled_fs ∪ a;
        compat = set_state (update r.compat.state dummy) r.compat;
      })
  after_dummy r a v = record {
    supported = v.supported;
    asked = ⊆-union_left r.actual_handled_fs r.requested_handled_fs a v.asked;
    fits = fits-dummy r.compat.state (r.requested_handled_fs ∪ a) r.actual_handled_fs;
  }

  after-IsValid :
      (r : Ruleset) (a : Flags) (level : CompatLevel)
      → {out : Result (Option Flags) (CompatError Flags)} {s' : CompatState} → IsValid r
      → Reported a r.compat.abi level r.compat.state out s'
      → IsValid (after out s' a r)
  unfolding add_handled
  after-IsValid r a level v (granted ne known sup) = record {
    supported = union-⊆ r.actual_handled_fs a (from_all r.compat.abi) v.supported sup;
    asked = grows r a a v (λ i p. p);
    fits = fits-granted r.compat.state r.requested_handled_fs r.actual_handled_fs a v.fits ne;
  }
  after-IsValid r a level v (reduced g be known e ne ga) = record {
    supported =
        union-⊆ r.actual_handled_fs g (from_all r.compat.abi) v.supported
          (rw e (intersection-⊆_right a (from_all r.compat.abi)));
    asked = grows r a g v (rw e (intersection-⊆_left a (from_all r.compat.abi)));
    fits = fits-reduced r.compat.state r.requested_handled_fs r.actual_handled_fs a g v.fits ne;
  }
  after-IsValid r a level v (skipped be ne known e) = record {
    supported = v.supported;
    asked = ⊆-union_left r.actual_handled_fs r.requested_handled_fs a v.asked;
    fits = fits-skipped r.compat.state r.requested_handled_fs r.actual_handled_fs a v.fits;
  }
  after-IsValid r a level v (given_up soft known b) = after_dummy r a v
  after-IsValid r a level v (refused e hard known b) = after_dummy r a v
  after-IsValid r a level v (rejected e bad) = after_dummy r a v

  pub requested-add_handled :
      (out : Result (Option Flags) (CompatError Flags)) (r : Ruleset)
      → ((add_handled out r).1.requested_handled_fs ≡ r.requested_handled_fs)
        × ((add_handled out r).1.compat ≡ r.compat)
  unfolding add_handled
  requested-add_handled out r = ground arith

  update-ne-init : (s x : CompatState) → x ≢ init → update s x ≢ init
  unfolding update
  update-ne-init s x h = ground arith

  Reported-ne-init :
      {a : Flags} {abi : Abi} {level : CompatLevel} {s s' : CompatState}
      {out : Result (Option Flags) (CompatError Flags)}
      → Reported a abi level s out s'
      → s' ≢ init
  Reported-ne-init {s = s} (granted ne k b) = update-ne-init s full (λ e. cc)
  Reported-ne-init {s = s} (reduced g be k e ne ga) = update-ne-init s partial (λ e. cc)
  Reported-ne-init {s = s} (skipped be ne k e) = update-ne-init s no_support (λ e. cc)
  Reported-ne-init {s = s} (given_up soft k b) = update-ne-init s dummy (λ e. cc)
  Reported-ne-init {s = s} (refused e hard k b) = update-ne-init s dummy (λ e. cc)
  Reported-ne-init {s = s} (rejected e bad) = update-ne-init s dummy (λ e. cc)

  module _ ⦃S : Sys⦄ where
    open S use {World}

    -- For each valid builder, request and state of the system, handle_access leaves a valid builder,
    -- whether it returns an error or not, in which the request is recorded and the state is not
    -- Init, and does not change the system. Valid is that the handled rights are rights of the ABI
    -- and were asked for, and that the state fits: Init has neither, in Full the handled rights are
    -- those asked for and not empty, in Partial they are not empty, in No they are.
    pub handle_access-IsValid :
        (a : Flags) (r : Ruleset) (w : World)
        → IsValid r
        → let (res, (r', w')) = handle_access a (r, w) in
          IsValid r'
          × (r'.requested_handled_fs ≡ r.requested_handled_fs ∪ a)
          × (r'.compat.state ≢ init)
          × (w' ≡ w)
    unfolding handle_access
    handle_access-IsValid a r w v =
        let level = into r.compat.level in
        let (report, same) = try_compat-Reported a r.compat.abi level r.compat.state w in
        let (out, (s', w')) = try_compat access_compat a r.compat.abi level (r.compat.state, w) in
        let kept = requested-add_handled out (record r {
          requested_handled_fs = r.requested_handled_fs ∪ a;
          compat = set_state s' r.compat;
        }) in
        (
          after-IsValid r a level v report,
          kept.0,
          λ e. Reported-ne-init report (cc (ap (λ (c : Compatibility). c.state) kept.1)),
          same,
        )

  start_fits : (abi : Abi) → StateFits (of_abi abi).state empty empty
  unfolding of_abi
  start_fits unsupported = refl
  start_fits v1 = (refl, refl)
  start_fits v2 = (refl, refl)
  start_fits v3 = (refl, refl)

  -- A builder starts valid.
  pub start-IsValid : (abi : Abi) → IsValid (of_compat (of_abi abi))
  unfolding of_compat of_abi
  start-IsValid abi = record {
    supported = λ i p. cc (has-empty i);
    asked = λ i p. p;
    fits = start_fits abi;
  }

  -- Setting the level keeps a builder valid.
  pub set_compatibility-IsValid :
      (level : CompatLevel) (r : Ruleset) → IsValid r → IsValid (set_compatibility level r)
  unfolding set_compatibility
  set_compatibility-IsValid level r v = record {
    supported = v.supported;
    asked = v.asked;
    fits = v.fits;
  }
