-- ===== src/Ruleset/Session/Calls.antt =====
-- A program that uses the builders of src/ruleset.rs: requests on a `Ruleset`, `create`, calls on the
-- `RulesetCreated`, and `restrict_self`, each followed by `?`.
use rust_landlock.Prelude.{Bool, List, [], ◌∷◌, ◌≡◌, refl, subst, ap, arith}
use rust_landlock.Prelude.Exec.{Result, ok, err, Exec, pure, proceed, ◌>>=◌}
use rust_landlock.Uapi.{Sys}
use rust_landlock.BitFlags.{BitFlags}
use rust_landlock.Errors.{RulesetError}
use rust_landlock.Compat.Level.{CompatLevel}
use rust_landlock.Fs.PathBeneath.{PathBeneath}
use rust_landlock.Ruleset.Types.{
  Ruleset, RulesetCreated, RestrictionStatus, set_compatibility, set_compatibility_created,
  set_no_new_privs, drop,
}
use rust_landlock.Ruleset.Create.{create}
use rust_landlock.Ruleset.Rules.{path_rule, add_rule, add_rule_owned}
use rust_landlock.Ruleset.Restrict.{restrict_self}
use rust_landlock.Ruleset.Session.{Step, Steps, done, next}
use rust_landlock.Ruleset.Session
use rust_landlock.Ruleset.Session.Paths.{owned, handle_access_owned}
use rust_landlock.Ruleset.Handle.{handle_access}

module _ ⦃S : Sys⦄ ⦃E : BitFlags⦄ where
  open S use {World}
  open E use {Flags}

  -- A call on a `Ruleset`.
  pub data Request : Type 0 where
    access : Flags → Request
    level : CompatLevel → Request

  -- A call on a `RulesetCreated`.
  pub data Call : Type 0 where
    rule : PathBeneath → Call
    level : CompatLevel → Call
    no_new_privs : Bool → Call

  unfoldable pub ask : Request → Ruleset → Exec World (RulesetError Flags) Ruleset
  ask (access a) r = handle_access_owned a r
  ask (Request.level l) r = pure (set_compatibility l r)

  unfoldable pub ask_all : List Request → Ruleset → Exec World (RulesetError Flags) Ruleset
  unfolding ask
  ask_all [] r = pure r
  ask_all (q ∷ qs) r = do r' ← ask q r; ask_all qs r'

  unfoldable pub perform : Call → RulesetCreated → Exec World (RulesetError Flags) RulesetCreated
  perform (rule p) c = add_rule_owned path_rule p c
  perform (Call.level l) c = pure (set_compatibility_created l c)
  perform (no_new_privs b) c = pure (set_no_new_privs b c)

  unfoldable pub perform_all :
      List Call → RulesetCreated → Exec World (RulesetError Flags) RulesetCreated
  unfolding perform
  perform_all [] c = pure c
  perform_all (call ∷ calls) c = do c' ← perform call c; perform_all calls c'

  -- From `create` on.
  unfoldable pub enforce : List Call → Ruleset → Exec World (RulesetError Flags) RestrictionStatus
  unfolding perform_all
  enforce calls r = do c ← create r; c' ← perform_all calls c; restrict_self c'

  unfoldable pub run :
      List Request → List Call → Ruleset → Exec World (RulesetError Flags) RestrictionStatus
  unfolding ask_all enforce
  run requests calls r = do r' ← ask_all requests r; enforce calls r'

  pub ok_inj :
      {A X : Type 0} {a b : A} {w w' : World}
      → ◌≡◌ {A = Result A X × World} (ok a, w) (ok b, w')
      → ◌≡◌ {A = A × World} (a, w) (b, w')
  ok_inj h = ground arith

  -- A successful bind is two successes.
  pub proceed-ok :
      {A B : Type 0} {X : Type 0} (m : Result A X × World) (f : A → Exec World X B) (b : B)
      (w : World)
      → proceed m f ≡ (ok b, w)
      → (a : A) × (w1 : World) × (m ≡ (ok a, w1)) × (f a w1 ≡ (ok b, w))
  proceed-ok (ok a, w1) f b w h = (a, w1, refl, h)
  proceed-ok (err e, w1) f b w h = cc

  -- `add_rule` of an owned ruleset, from the result through `&mut`.
  abbrev pub owned_rule :
      Result (Unit {0}) (RulesetError Flags) × (RulesetCreated × World)
      → Result RulesetCreated (RulesetError Flags) × World
  owned_rule (res, (c, w)) = elim res [ ok _ ↦ (ok c, w) | err e ↦ (err e, drop c w) ]

  owned_rule-ok :
      (m : Result (Unit {0}) (RulesetError Flags) × (RulesetCreated × World)) (c : RulesetCreated)
      (w : World)
      → owned_rule m ≡ (ok c, w)
      → m ≡ (ok tt, (c, w))
  owned_rule-ok (ok u, (c', w')) c w h = ap (λ (x : RulesetCreated × World). (ok tt, x)) (ok_inj h)
  owned_rule-ok (err e, (c', w')) c w h = cc

  -- An owned ruleset that a rule was added to is the one that the call through `&mut` leaves.
  pub add_rule_owned-ok :
      (p : PathBeneath) (c c' : RulesetCreated) (w w' : World)
      → add_rule_owned path_rule p c w ≡ (ok c', w')
      → add_rule path_rule p (c, w) ≡ (ok tt, (c', w'))
  unfolding add_rule_owned
  add_rule_owned-ok p c c' w w' h = owned_rule-ok (add_rule path_rule p (c, w)) c' w' h

  owned-ok :
      (m : Result (Unit {0}) (RulesetError Flags) × (Ruleset × World)) (r : Ruleset) (w : World)
      → owned m ≡ (ok r, w)
      → m ≡ (ok tt, (r, w))
  owned-ok (ok u, (r', w')) r w h = ap (λ (x : Ruleset × World). (ok tt, x)) (ok_inj h)
  owned-ok (err e, (r', w')) r w h = cc

  -- So is an owned builder that a request was made of.
  pub handle_access_owned-ok :
      (a : Flags) (r r' : Ruleset) (w w' : World)
      → handle_access_owned a r w ≡ (ok r', w')
      → handle_access a (r, w) ≡ (ok tt, (r', w'))
  unfolding handle_access_owned
  handle_access_owned-ok a r r' w w' h = owned-ok (handle_access a (r, w)) r' w' h

  perform-Step :
      (call : Call) (c c' : RulesetCreated) (w w' : World)
      → perform call c w ≡ (ok c', w')
      → Step (c, w) (c', w')
  unfolding perform
  perform-Step (rule p) c c' w w' h =
      subst (λ (x : RulesetCreated × World). Step (c, w) x)
        (ap (λ (x : Result (Unit {0}) (RulesetError Flags) × (RulesetCreated × World)). x.1)
          (add_rule_owned-ok p c c' w w' h))
        (Session.rule p c w)
  perform-Step (Call.level l) c c' w w' h =
      subst (λ (x : RulesetCreated × World). Step (c, w) x) (ok_inj h) (Session.level l c w)
  perform-Step (no_new_privs b) c c' w w' h =
      subst (λ (x : RulesetCreated × World). Step (c, w) x) (ok_inj h) (Session.no_new_privs b c w)

  -- Calls that succeed are steps.
  pub perform_all-Steps :
      (calls : List Call) (c c' : RulesetCreated) (w w' : World)
      → perform_all calls c w ≡ (ok c', w')
      → Steps (c, w) (c', w')
  unfolding perform_all
  perform_all-Steps [] c c' w w' h =
      subst (λ (x : RulesetCreated × World). Steps (c, w) x) (ok_inj h) done
  perform_all-Steps (call ∷ calls) c c' w w' h =
      let (c1, w1, first, rest) = proceed-ok (perform call c w) (perform_all calls) c' w' h in
      next (perform-Step call c c1 w w1 first) (perform_all-Steps calls c1 c' w1 w' rest)
