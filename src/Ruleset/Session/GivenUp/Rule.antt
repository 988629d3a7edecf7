-- ===== src/Ruleset/Session/GivenUp/Rule.antt =====
-- `add_rule` of src/ruleset.rs at the soft requirement, for rights that the ABI has not.
use rust_landlock.Prelude.{true, Option, none, ◌≡◌, refl, ap, ◌∙◌, arith}
use rust_landlock.Prelude.Exec.{Result, ok, err, proceed, map_err}
use rust_landlock.Prelude.Int.{ℤ}
use rust_landlock.Uapi.{Sys}
use rust_landlock.BitFlags.{BitFlags}
use rust_landlock.BitFlags.Digits.{◌⊆◌}
use rust_landlock.Errors.{CompatError, AddRulesError, add_rules}
use rust_landlock.Compat.Abi.{Abi}
use rust_landlock.Compat.Level.{CompatLevel, soft_requirement, into, tailored_compat_level, max}
use rust_landlock.Compat.State.{CompatState, dummy, update}
use rust_landlock.Compat.TryCompat.{try_compat, try_compat_self}
use rust_landlock.Access.{access_compat}
use rust_landlock.Access.Reported.{
  Reported, IsInvalid, granted, reduced, skipped, given_up, refused, rejected, try_compat-Reported,
}
use rust_landlock.Fs.Rights.{from_all}
use rust_landlock.Fs.PathBeneath.{PathBeneath, path_compat, path_children, new}
use rust_landlock.Fs.PathBeneath.Fitted.{children_of}
use rust_landlock.Ruleset.Types.{RulesetCreated, with_state}
use rust_landlock.Ruleset.Rules.{
  path_rule, add_rule, add_rule_owned, add_consistent, add_compatible, check_consistency,
}
use rust_landlock.Ruleset.Session.Calls.{owned_rule}

module _ ⦃S : Sys⦄ ⦃E : BitFlags⦄ where
  open S use {World}
  open E use {Flags, contains}

  abbrev pub Checked : Type 0 → Type 0
  Checked A = Result (Option A) (CompatError Flags) × (CompatState × World)

  -- The check of rights that the ABI has not, at the soft requirement.
  rights_given_up :
      {a : Flags} {abi : Abi} {level : CompatLevel} {s s' : CompatState}
      {out : Result (Option Flags) (CompatError Flags)}
      → level ≡ soft_requirement
      → ¬ IsInvalid a
      → ¬ (a ⊆ from_all abi)
      → Reported a abi level s out s'
      → (out ≡ ok none) × (s' ≡ dummy)
  unfolding update
  rights_given_up l v n (granted ne k b) = absurd (n b)
  rights_given_up l v n (reduced g be k e ne ga) = cc
  rights_given_up l v n (skipped be ne k e) = cc
  rights_given_up l v n (given_up soft k b) = (refl, ground arith)
  rights_given_up l v n (refused e hard k b) = cc
  rights_given_up l v n (rejected e bad) = absurd (v bad)

  triple :
      {A : Type 0} (m : Checked A) (w : World)
      → m.0 ≡ ok none
      → m.1.0 ≡ dummy
      → m.1.1 ≡ w
      → m ≡ (ok none, (dummy, w))
  triple (out, (s, w0)) w e k h = rw (e, k, h) refl

  -- So no rule is left, and the state is Dummy.
  rule_given_up :
      (a : Flags) (fd : ℤ) (abi : Abi) (s : CompatState) (w : World)
      → ¬ IsInvalid a
      → ¬ (a ⊆ from_all abi)
      → try_compat path_compat (new fd a) abi soft_requirement (s, w) ≡ (ok none, (dummy, w))
  unfolding try_compat path_children try_compat_self tailored_compat_level max new into
  rule_given_up a fd abi s w v n =
      let (report, kept) = try_compat-Reported a abi soft_requirement s w in
      let (none_left, now) = rights_given_up refl v n report in
      ap
        (λ (m : Checked Flags).
          proceed (children_of (new fd a) m)
            (λ o. try_compat_self path_compat o abi soft_requirement))
        (triple (try_compat access_compat a abi soft_requirement (s, w)) w none_left now kept)

  pub consistent :
      (a : Flags) (fd : ℤ) (c : RulesetCreated)
      → contains c.requested_handled_fs a ≡ true
      → check_consistency (new fd a) c ≡ ok tt
  unfolding check_consistency new
  consistent a fd c n = rw n refl

  -- What `add_consistent` does with the result of the check.
  abbrev pub with_checked :
      RulesetCreated
      → Checked PathBeneath
      → Result (Unit {0}) (AddRulesError Flags) × (RulesetCreated × World)
  with_checked c (out, (s, w)) = add_compatible path_rule out (with_state s c, w)

  skips :
      (x : Result (Unit {0}) (AddRulesError Flags)) (a : Flags) (fd : ℤ) (c : RulesetCreated)
      (w : World)
      → x ≡ ok tt
      → try_compat path_compat (new fd a) c.compat.abi (into c.compat.level) (c.compat.state, w)
        ≡ (ok none, (dummy, w))
      → add_consistent path_rule x (new fd a) (c, w) ≡ (ok tt, (with_state dummy c, w))
  unfolding add_consistent add_compatible
  skips (ok u) a fd c w e h = ap (with_checked c) h
  skips (err z) a fd c w e h = cc

  -- Such a rule is skipped, and the ruleset given up.
  pub rule_skipped :
      (a : Flags) (fd : ℤ) (c : RulesetCreated) (w : World)
      → contains c.requested_handled_fs a ≡ true
      → into c.compat.level ≡ soft_requirement
      → ¬ IsInvalid a
      → ¬ (a ⊆ from_all c.compat.abi)
      → add_rule_owned path_rule (new fd a) c w ≡ (ok (with_state dummy c), w)
  unfolding add_rule_owned add_rule
  rule_skipped a fd c w sub soft v n =
      ap
        (λ (m : Result (Unit {0}) (AddRulesError Flags) × (RulesetCreated × World)).
          owned_rule (map_err add_rules m.0, m.1))
        (skips (check_consistency (new fd a) c) a fd c w (consistent a fd c sub) (
          ap
            (λ (l : CompatLevel).
              try_compat path_compat (new fd a) c.compat.abi l (c.compat.state, w))
            soft
          ∙ rule_given_up a fd c.compat.abi c.compat.state w v n))
