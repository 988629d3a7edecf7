-- ===== src/Ruleset/Session/Live/Built.antt =====
-- A builder on the way to `create`: what its requests make of it.
use rust_landlock.Prelude.{◌≡◌, refl, sym, ap, subst, ◌∙◌}
use rust_landlock.Prelude.Exec.{Result, ok, err, Succeeds}
use rust_landlock.Uapi.{Sys}
use rust_landlock.BitFlags.{BitFlags, ◌∪◌}
use rust_landlock.BitFlags.Sets.{union_comm, union-empty}
use rust_landlock.Errors.{RulesetError}
use rust_landlock.Compat.Abi.{Abi}
use rust_landlock.Compat.Level.{best_effort, into}
use rust_landlock.Compat.State.{of_abi}
use rust_landlock.Access.Reported.{IsInvalid}
use rust_landlock.Ruleset.Types.{Ruleset, of_compat}
use rust_landlock.Ruleset.Handle.{handle_access}
use rust_landlock.Ruleset.Handle.Exact.{IsMet, IsExact, start-IsExact, handle_access-IsHandled}
use rust_landlock.Kernel.{View}
use rust_landlock.Ruleset.Types.{set_compatibility}
use rust_landlock.Compat.Level.{CompatLevel}
use rust_landlock.Ruleset.Session.Paths.{owned, handle_access_owned}

module _ ⦃S : Sys⦄ ⦃E : BitFlags⦄ where
  open S use {World}
  open E use {Flags, empty}

  pub Succeeds-owned :
      (P : Ruleset → World → Type 0)
      (m : Result (Unit {0}) (RulesetError Flags) × (Ruleset × World))
      → m.0 ≡ ok tt
      → P m.1.0 m.1.1
      → Succeeds P (owned m)
  Succeeds-owned P (ok u, s) e h = h
  Succeeds-owned P (err x, s) e h = cc

  pub empty-union : (a : Flags) → empty ∪ a ≡ a
  empty-union a = union_comm empty a ∙ union-empty a

  module _ (V : View) where
    -- An exact builder at a level, of which the rights `asked` were asked for.
    pub record Built (abi : Abi) (level : CompatLevel) (asked : Flags) (r : Ruleset) (w : World)
        : Type 0 where
      pub exact : IsExact abi r
      pub at_level : into r.compat.level ≡ level
      pub asked_for : r.requested_handled_fs ≡ asked
      pub ready : V.Ready w

    -- A fresh builder is one.
    pub start-Built :
        (abi : Abi) (w : World) → V.Ready w → Built abi best_effort empty (of_compat (of_abi abi)) w
    unfolding of_abi of_compat into
    start-Built abi w ready = record {
      exact = start-IsExact abi;
      at_level = refl;
      asked_for = refl;
      ready = ready;
    }

    -- Another level keeps it one.
    pub set_compatibility-Built :
        (abi : Abi) (l level : CompatLevel) (asked : Flags) (r : Ruleset) (w : World)
        → Built abi l asked r w
        → Built abi level asked (set_compatibility level r) w
    unfolding set_compatibility into
    set_compatibility-Built abi l level asked r w b = record {
      exact = record {
        abi_kept = b.exact.abi_kept;
        handled = b.exact.handled;
        graded = b.exact.graded;
      };
      at_level = refl;
      asked_for = b.asked_for;
      ready = b.ready;
    }

    -- A request that the level lets through succeeds, and is added.
    pub handle_access-Built :
        (abi : Abi) (level : CompatLevel) (asked a : Flags) (r : Ruleset) (w : World)
        → ¬ IsInvalid a
        → IsMet level a abi
        → Built abi level asked r w
        → Succeeds (Built abi level (asked ∪ a)) (handle_access_owned a r w)
    unfolding handle_access_owned
    handle_access-Built abi level asked a r w v met b =
        let (done, one, same) =
          handle_access-IsHandled a r w abi b.exact v
            (subst (λ (l : CompatLevel). IsMet l a abi) (sym b.at_level) met) in
        Succeeds-owned (Built abi level (asked ∪ a)) (handle_access a (r, w)) done (record {
          exact = one.exact;
          at_level = ap into one.same_level ∙ b.at_level;
          asked_for = one.asked ∙ ap (λ (x : Flags). x ∪ a) b.asked_for;
          ready = subst V.Ready (sym same) b.ready;
        })
