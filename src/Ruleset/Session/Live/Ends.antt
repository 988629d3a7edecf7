-- ===== src/Ruleset/Session/Live/Ends.antt =====
-- `restrict_self` and `add_rule` of an owned ruleset of src/ruleset.rs on a kernel as documented, at
-- best effort.
use rust_landlock.Prelude.{Bool, true, ◌≡◌, ◌≢◌, refl, ap, arith, not, ◌&&◌}
use rust_landlock.Prelude.Exec.{Result, ok, err, Succeeds, map_err}
use rust_landlock.Prelude.Int.{ℤ, pos}
use rust_landlock.Uapi.{Sys, IoError}
use rust_landlock.BitFlags.{BitFlags}
use rust_landlock.BitFlags.Digits.{◌⊆◌}
use rust_landlock.Errors.{RulesetError, restrict_self as restrict_self_error}
use rust_landlock.Compat.Abi.{Abi}
use rust_landlock.Compat.State.{CompatState, dummy, update, update_state}
use rust_landlock.Access.Reported.{IsInvalid}
use rust_landlock.Fs.PathBeneath.{new}
use rust_landlock.Ruleset.Types.{
  RulesetCreated, RestrictionStatus, RulesetStatus, is_dummy, status_of, drop,
}
use rust_landlock.Ruleset.Rules.{path_rule, add_rule_owned}
use rust_landlock.Ruleset.Restrict.{
  prctl_set_no_new_privs, enforce_no_new_privs, enforce_ruleset, restrict_body, restrict_self,
}
use rust_landlock.Ruleset.Restrict.Outcome.{update_full}
use rust_landlock.Kernel.{View, Keeps, IsDocumented}
use rust_landlock.Kernel.Calls.{restrict_self_done}
use rust_landlock.Ruleset.Session.Live.{Standing, enforcing, idle, IsLive}
use rust_landlock.Ruleset.Session.Live.Rules.{Serves, Goes, add_rule-Goes}

module _ ⦃S : Sys⦄ ⦃E : BitFlags⦄ where
  open S use {World, prctl, pr_set_no_new_privs}
  open E use {Flags}

  module _ (V : View) (D : IsDocumented V) where
    pub prctl_done :
        (w : World)
        → (prctl pr_set_no_new_privs 1 0 0 0 w).0 ≡ pos 0
        → prctl_set_no_new_privs w ≡ (ok tt, (prctl pr_set_no_new_privs 1 0 0 0 w).1)
    unfolding prctl_set_no_new_privs
    prctl_done w e = rw e refl

    wanted : (s : CompatState) (b : Bool) → s ≢ dummy → b ≡ true → not (is_dummy s) && b ≡ true
    wanted s b h k = ground arith

    pub nnp_done :
        (c : RulesetCreated) (w w' : World)
        → c.compat.state ≢ dummy
        → c.no_new_privs ≡ true
        → prctl_set_no_new_privs w ≡ (ok tt, w')
        → enforce_no_new_privs (c, w) ≡ (ok true, (c, w'))
    unfolding enforce_no_new_privs
    nnp_done c w w' live wants e =
        rw (wanted c.compat.state c.no_new_privs live wants, e)
          (ap (λ (x : Result (Unit {0}) IoError × World). (ok true, (c, x.1))) e)

    not_given_up :
        (h : Flags) (c : RulesetCreated) (w : World) → Standing V h c w → c.compat.state ≢ dummy
    not_given_up h c w (enforcing ne e is_ruleset) = λ d. cc
    not_given_up h c w (idle none_left e) = λ d. cc

    -- Where restrict_self ends: with the status of the state, and no_new_privs.
    abbrev pub Ended : CompatState → Result RestrictionStatus (RulesetError Flags) × World → Type 0
    Ended s m = m.0 ≡ ok (record { status = status_of s; no_new_privs = true })

    ruleset_done :
        (abi : Abi) (asked : Flags) (c : RulesetCreated) (w w' : World)
        → IsLive V abi asked c w
        → Keeps V w w'
        → V.HasNoNewPrivs w'
        → (enforce_ruleset true (c, w')).0
          ≡ ok (record { status = status_of c.compat.state; no_new_privs = true })
    unfolding enforce_ruleset update_state update status_of
    ruleset_done abi asked c w w' live kept nnp = elim live.standing [
      | enforcing ne e is_ruleset ↦
          (let zero_ret =
              restrict_self_done V D c.fd _ w' kept.ready (kept.rulesets c.fd _ is_ruleset) nnp in
            rw (e, zero_ret)
              (ap (λ (x : RulesetStatus). ok (record { status = x; no_new_privs = true }))
                (update_full c.compat.state e)))
      | idle none_left e ↦ rw e refl
    ]

    -- On a kernel as documented, restrict_self of a ruleset that can go on succeeds, with no_new_privs
    -- and the status that its state stands for.
    pub restrict_self_ends :
        (abi : Abi) (asked : Flags) (c : RulesetCreated) (w : World)
        → IsLive V abi asked c w
        → Ended c.compat.state (restrict_self c w)
    unfolding restrict_self restrict_body
    restrict_self_ends abi asked c w live =
        let (zero_ret, nnp, kept) = D.no_new_privs_set w live.ready in
        rw
          (nnp_done c w (prctl pr_set_no_new_privs 1 0 0 0 w).1 (not_given_up _ c w live.standing)
            live.nnp (prctl_done w zero_ret))
          (ap (map_err restrict_self_error) (ruleset_done abi asked c w _ live kept nnp))

    -- `add_rule` of an owned ruleset, from the result through `&mut`.
    abbrev owned :
        Result (Unit {0}) (RulesetError Flags) × (RulesetCreated × World)
        → Result RulesetCreated (RulesetError Flags) × World
    owned (res, (c, w)) = elim res [ ok _ ↦ (ok c, w) | err e ↦ (err e, drop c w) ]

    Succeeds-owned :
        (P : Unit {0} → RulesetCreated × World → Type 0)
        (m : Result (Unit {0}) (RulesetError Flags) × (RulesetCreated × World))
        → Succeeds P m
        → Succeeds (λ c' w'. P tt (c', w')) (owned m)
    Succeeds-owned P (ok u, (c, w)) h = h
    Succeeds-owned P (err x, (c, w)) h = absurd h

    pub add_rule_owned-Goes :
        (a : Flags) (file : Bool) (abi : Abi) (asked : Flags) (c : RulesetCreated) (w : World)
        (p : ℤ)
        → IsLive V abi asked c w
        → ¬ IsInvalid a
        → a ⊆ asked
        → V.IsOpen w p file
        → Serves a file abi
        → Succeeds
            (λ c' w'. Goes V abi asked a file c w tt (c', w'))
            (add_rule_owned path_rule (new p a) c w)
    unfolding add_rule_owned
    add_rule_owned-Goes a file abi asked c w p live v sub is_open serves =
        Succeeds-owned (Goes V abi asked a file c w) _
          (add_rule-Goes V a file abi asked c w p D live v sub is_open serves)
