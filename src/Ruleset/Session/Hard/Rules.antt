-- ===== src/Ruleset/Session/Hard/Rules.antt =====
-- What `add_rule` of src/ruleset.rs leaves at the hard requirement, where it succeeds.
use rust_landlock.Prelude.{Option, none, some, ◌≡◌, ◌⊎◌, inl, inr, refl, sym, subst, ap, ◌∙◌, arith}
use rust_landlock.Prelude.Exec.{Result, ok, err, proceed}
use rust_landlock.Uapi.{Sys}
use rust_landlock.BitFlags.{BitFlags}
use rust_landlock.Errors.{CompatError, RulesetError}
use rust_landlock.Compat.Abi.{Abi}
use rust_landlock.Compat.Level.{CompatLevel, hard_requirement, into, tailored_compat_level}
use rust_landlock.Compat.State.{CompatState, full, update}
use rust_landlock.Compat.TryCompat.{
  CompatResult, settle, settle_partial, settle_none, try_compat, try_compat_self,
}
use rust_landlock.Access.{access_compat}
use rust_landlock.Access.Reported.{
  Reported, granted, reduced, skipped, given_up, refused, rejected, try_compat-Reported,
}
use rust_landlock.Fs.PathBeneath.{PathBeneath, path_children, path_inner, path_compat}
use rust_landlock.Fs.PathBeneath.Fitted.{children_of}
use rust_landlock.Ruleset.Types.{RulesetCreated, with_state}
use rust_landlock.Ruleset.Rules.{path_rule, add_rule}
use rust_landlock.Ruleset.Rules.Outcome.{
  checked, Added, unhandled, incompatible, left_out, sent, denied, add_rule-Added,
}

-- No object relaxes the hard requirement.
tailored-hard :
    (own : Option CompatLevel) → tailored_compat_level own hard_requirement ≡ hard_requirement
unfolding tailored_compat_level
tailored-hard own = ground arith

still :
    (own : Option CompatLevel) (level : CompatLevel)
    → level ≡ hard_requirement
    → tailored_compat_level own level ≡ hard_requirement
still own level h = rw h (tailored-hard own)

settle-hard :
    {T F : Type 0} (r : Result (CompatResult T F) (CompatError F)) (level : CompatLevel)
    (s s' : CompatState) (out : Option T)
    → level ≡ hard_requirement
    → s ≡ full
    → settle r level s ≡ (ok out, s')
    → s' ≡ full
unfolding settle settle_partial settle_none update
settle-hard r level s s' out l k h = ground arith

module _ ⦃E : BitFlags⦄ where
  open E use {Flags}

  Reported-hard :
      {a : Flags} {abi : Abi} {level : CompatLevel} {s' : CompatState}
      {out : Result (Option Flags) (CompatError Flags)}
      → level ≡ hard_requirement
      → Reported a abi level full out s'
      → ((e : CompatError Flags) × (out ≡ err e)) ⊎ (s' ≡ full)
  unfolding update
  Reported-hard h (granted ne k b) = inr refl
  Reported-hard h (reduced g be k e ne ga) = cc
  Reported-hard h (skipped be ne k e) = cc
  Reported-hard h (given_up soft k b) = cc
  Reported-hard h (refused e hard k b) = inl (e, refl)
  Reported-hard h (rejected e bad) = inl (e, refl)

  module _ ⦃S : Sys⦄ where
    open S use {World}

    onward-hard :
        (self : PathBeneath) (abi : Abi) (level : CompatLevel) (w : World)
        (out : Result (Option Flags) (CompatError Flags)) (s s' : CompatState) (w' : World)
        (found : Option PathBeneath)
        → level ≡ hard_requirement
        → ((e : CompatError Flags) × (out ≡ err e)) ⊎ (s ≡ full)
        → proceed (children_of self (out, (s, w))) (λ o. try_compat_self path_compat o abi level)
          ≡ (ok found, (s', w'))
        → s' ≡ full
    unfolding try_compat_self
    onward-hard self abi level w (err e) s s' w' found l k h = cc
    onward-hard self abi level w (ok o) s s' w' found l (inl (e, k)) h = cc
    onward-hard self abi level w (ok none) s s' w' found l (inr k) h = ground arith
    onward-hard self abi level w (ok (some g)) s s' w' found l (inr k) h =
        settle-hard (path_inner (record self { allowed_access = g }) abi w).0 level s s' found l k
          (ground arith)

    -- A check at the hard requirement that does not fail keeps the state full.
    checked-hard :
        (self : PathBeneath) (abi : Abi) (parent : CompatLevel) (s' : CompatState) (w w' : World)
        (found : Option PathBeneath)
        → parent ≡ hard_requirement
        → try_compat path_compat self abi parent (full, w) ≡ (ok found, (s', w'))
        → s' ≡ full
    unfolding try_compat path_children
    checked-hard self abi parent s' w w' found l h =
        let level = tailored_compat_level self.compat_level parent in
        let inner = tailored_compat_level self.compat_level level in
        let one : level ≡ hard_requirement = still self.compat_level parent l in
        let (out, (s1, w1)) = try_compat access_compat self.allowed_access abi inner (full, w) in
        onward-hard self abi level w1 out s1 s' w' found one
          (Reported-hard (still self.compat_level level one)
            (try_compat-Reported self.allowed_access abi inner full w).0)
          h

    -- So does the check that `add_rule` makes.
    rule_checked :
        (p : PathBeneath) (c : RulesetCreated) (w w' : World) (s' : CompatState)
        (found : Option PathBeneath)
        → into c.compat.level ≡ hard_requirement
        → c.compat.state ≡ full
        → checked p c w ≡ (ok found, (s', w'))
        → with_state s' c ≡ c
    rule_checked p c w w' s' found l k h =
        let is_full = checked-hard p c.compat.abi (into c.compat.level) s' w w' found l (
          subst
            (λ (s : CompatState).
              try_compat path_compat p c.compat.abi (into c.compat.level) (s, w)
              ≡ (ok found, (s', w')))
            k h) in
        ap (λ (s : CompatState). with_state s c) (is_full ∙ sym k)

    Added-hard :
        (p : PathBeneath) (c : RulesetCreated) (w : World)
        {m : Result (Unit {0}) (RulesetError Flags) × (RulesetCreated × World)}
        → into c.compat.level ≡ hard_requirement
        → c.compat.state ≡ full
        → Added p c w m
        → m.0 ≡ ok tt
        → m.1.0 ≡ c
    Added-hard p c w l k (unhandled rest n r) h = cc
    Added-hard p c w l k (incompatible e w' i r) h = cc
    Added-hard p c w l k (left_out out s w' i r o) h = rule_checked p c w w' s out l k r
    Added-hard p c w l k (sent a file s w1 w2 ret passed i r e g f v x z) h =
        rule_checked p c w w1 s (some passed) l k r
    Added-hard p c w l k (denied a file s w1 w2 ret passed i r e g f v x z) h = cc

    -- A rule that is added at the hard requirement to a ruleset in state Full leaves the ruleset.
    pub add_rule-hard :
        (p : PathBeneath) (c c' : RulesetCreated) (w w' : World)
        → into c.compat.level ≡ hard_requirement
        → c.compat.state ≡ full
        → add_rule path_rule p (c, w) ≡ (ok tt, (c', w'))
        → c' ≡ c
    add_rule-hard p c c' w w' l k h =
        subst
          (λ (m : Result (Unit {0}) (RulesetError Flags) × (RulesetCreated × World)).
            m.0 ≡ ok tt → m.1.0 ≡ c)
          h (Added-hard p c w l k (add_rule-Added p c w)) refl
