-- ===== src/Ruleset/Session/GivenUp/Late.antt =====
-- Rules that are added with `add_rule` of src/ruleset.rs at the soft requirement to a ruleset that was
-- given up, on a kernel as documented.
use rust_landlock.Prelude.{Bool, Option, none, some, ◌≡◌, refl, sym, subst}
use rust_landlock.Prelude.Exec.{Result, ok, err, proceed, Succeeds, map_err}
use rust_landlock.Prelude.Int.{ℤ}
use rust_landlock.Uapi.{Sys}
use rust_landlock.BitFlags.{BitFlags}
use rust_landlock.BitFlags.Digits.{◌⊆◌, contains_iff}
use rust_landlock.Errors.{CompatError, AddRulesError, add_rules}
use rust_landlock.Compat.Abi.{Abi}
use rust_landlock.Compat.Level.{CompatLevel, soft_requirement, into, tailored_compat_level, max}
use rust_landlock.Compat.State.{CompatState, dummy}
use rust_landlock.Compat.TryCompat.{CompatResult, try_compat, try_compat_self, settle}
use rust_landlock.Access.{access_compat}
use rust_landlock.Access.Reported.{
  Reported, IsInvalid, granted, reduced, skipped, given_up, refused, rejected, try_compat-Reported,
}
use rust_landlock.Fs.PathBeneath.{
  PathBeneath, path_compat, path_children, path_inner, fit_result, new,
}
use rust_landlock.Fs.PathBeneath.Fitted.{children_of}
use rust_landlock.Fs.PathBeneath.Moves.{try_compat-IsMove}
use rust_landlock.Ruleset.Types.{RulesetCreated, with_state}
use rust_landlock.Ruleset.Rules.{
  path_rule, add_rule, add_rule_owned, add_consistent, add_compatible, send_rule, check_consistency,
}
use rust_landlock.Ruleset.Session.Calls.{owned_rule}
use rust_landlock.Ruleset.Session.GivenUp.{IsGivenUp}
use rust_landlock.Ruleset.Session.GivenUp.Rule.{Checked, consistent, with_checked}
use rust_landlock.Kernel.{View, IsDocumented}
use rust_landlock.Kernel.Calls.{is_file_told}

module _ ⦃S : Sys⦄ ⦃E : BitFlags⦄ where
  open S use {World}
  open E use {Flags}

  abbrev IsOk : {A X : Type 0} → Result A X → Type 0
  IsOk (ok a) = Unit
  IsOk (err e) = ⊥

  rights-IsOk :
      {a : Flags} {abi : Abi} {level : CompatLevel} {s s' : CompatState}
      {out : Result (Option Flags) (CompatError Flags)}
      → level ≡ soft_requirement
      → ¬ IsInvalid a
      → Reported a abi level s out s'
      → IsOk out
  rights-IsOk l v (granted ne k b) = tt
  rights-IsOk l v (reduced g be k e ne ga) = tt
  rights-IsOk l v (skipped be ne k e) = tt
  rights-IsOk l v (given_up soft k b) = tt
  rights-IsOk l v (refused e hard k b) = cc
  rights-IsOk l v (rejected e bad) = absurd (v bad)

  settle-IsOk :
      (x : CompatResult PathBeneath Flags) (s : CompatState)
      → IsOk (settle (ok x) soft_requirement s).0
  unfolding settle
  settle-IsOk (CompatResult.full p) s = tt
  settle-IsOk (CompatResult.partial p e) s = tt
  settle-IsOk (CompatResult.no_support e) s = tt

  module _ (V : View) (D : IsDocumented V) where
    -- A check that returned no error, in a state in which no resource is used up.
    abbrev Fine : Checked PathBeneath → Type 0
    Fine m = IsOk m.0 × V.Ready m.1.1

    onward-Fine :
        (self : PathBeneath) (abi : Abi) (s : CompatState) (w : World) (file : Bool)
        (out : Result (Option Flags) (CompatError Flags))
        → V.Ready w
        → V.IsOpen w self.parent_fd file
        → IsOk out
        → Fine (
            proceed
              (children_of self (out, (s, w)))
              (λ o. try_compat_self path_compat o abi soft_requirement))
    unfolding try_compat_self path_inner fit_result
    onward-Fine self abi s w file (ok (some g)) ready is_open o =
        let (told, kept) = is_file_told V D self.parent_fd file w ready is_open in
        (rw told (settle-IsOk _ s), kept.ready)
    onward-Fine self abi s w file (ok none) ready is_open o = (tt, ready)
    onward-Fine self abi s w file (err e) ready is_open o = absurd o

    checked-Fine :
        (a : Flags) (fd : ℤ) (abi : Abi) (s : CompatState) (w : World) (file : Bool)
        → ¬ IsInvalid a
        → V.Ready w
        → V.IsOpen w fd file
        → Fine (try_compat path_compat (new fd a) abi soft_requirement (s, w))
    unfolding try_compat path_children tailored_compat_level max new into
    checked-Fine a fd abi s w file v ready is_open =
        let (report, kept) = try_compat-Reported a abi soft_requirement s w in
        let (out, (s1, w1)) = try_compat access_compat a abi soft_requirement (s, w) in
        onward-Fine (new fd a) abi s1 w1 file out (rw kept ready) (rw kept is_open)
          (rights-IsOk refl v report)

    not_sent :
        (r : PathBeneath) (c : RulesetCreated) (w : World)
        → c.compat.state ≡ dummy
        → send_rule path_rule r (c, w) ≡ (ok tt, (c, w))
    unfolding send_rule
    not_sent r c w e = rw e refl

    -- A ruleset that was given up, at the soft requirement, of which `asked` was asked.
    pub record IsLate (asked : Flags) (c : RulesetCreated) (w : World) : Type 0 where
      pub ready : V.Ready w
      pub over : IsGivenUp c
      pub soft : into c.compat.level ≡ soft_requirement
      pub requested : c.requested_handled_fs ≡ asked

    checked-IsLate :
        (asked : Flags) (c : RulesetCreated) (m : Checked PathBeneath)
        → Fine m
        → IsLate asked (with_state m.1.0 c) m.1.1
        → Succeeds
            (IsLate asked)
            (let (res, rest) = with_checked c m in owned_rule (map_err add_rules res, rest))
    unfolding add_compatible
    checked-IsLate asked c (ok (some r), (s, w)) f late =
        subst
          (λ (m : Result (Unit {0}) (AddRulesError Flags) × (RulesetCreated × World)).
            Succeeds (IsLate asked) (owned_rule (map_err add_rules m.0, m.1)))
          (sym (not_sent r (with_state s c) w late.over.final)) late
    checked-IsLate asked c (ok none, (s, w)) f late = late
    checked-IsLate asked c (err e, (s, w)) f late = absurd f.0

    consistent-IsLate :
        (asked a : Flags) (fd : ℤ) (c : RulesetCreated)
        (x : Result (Unit {0}) (AddRulesError Flags)) (w : World)
        → x ≡ ok tt
        → Succeeds (IsLate asked) (
            let (res, rest) = with_checked c (
              try_compat path_compat
                (new fd a)
                c.compat.abi
                (into c.compat.level)
                (c.compat.state, w)) in
            owned_rule (map_err add_rules res, rest))
        → Succeeds (IsLate asked) (
            let (res, rest) = add_consistent path_rule x (new fd a) (c, w) in
            owned_rule (map_err add_rules res, rest))
    unfolding add_consistent
    consistent-IsLate asked a fd c (ok u) w e h = h
    consistent-IsLate asked a fd c (err z) w e h = cc

    -- A rule with declared rights that the ruleset handles is accepted, and changes nothing of this.
    pub add_rule_owned-IsLate :
        (asked a : Flags) (fd : ℤ) (file : Bool) (c : RulesetCreated) (w : World)
        → IsLate asked c w
        → ¬ IsInvalid a
        → a ⊆ asked
        → V.IsOpen w fd file
        → Succeeds (IsLate asked) (add_rule_owned path_rule (new fd a) c w)
    unfolding add_rule_owned add_rule
    add_rule_owned-IsLate asked a fd file c w late v sub is_open =
        let m =
          try_compat path_compat (new fd a) c.compat.abi (into c.compat.level)
            (c.compat.state, w) in
        let fine =
          subst
            (λ (l : CompatLevel).
              Fine (try_compat path_compat (new fd a) c.compat.abi l (c.compat.state, w)))
            (sym late.soft)
            (checked-Fine a fd c.compat.abi c.compat.state w file v late.ready is_open) in
        let move =
          (try_compat-IsMove (new fd a) c.compat.abi (into c.compat.level) c.compat.state w).0 in
        consistent-IsLate asked a fd c (check_consistency (new fd a) c) w
          (consistent a fd c (rw late.requested ((contains_iff asked a).1 sub)))
          (checked-IsLate asked c m fine (record {
            ready = fine.1;
            over = record { final = move.ends late.over.final; no_fd = late.over.no_fd };
            soft = late.soft;
            requested = late.requested;
          }))
