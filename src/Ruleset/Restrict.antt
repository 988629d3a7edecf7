-- ===== src/Ruleset/Restrict.antt =====
-- `RulesetCreated::restrict_self` of src/ruleset.rs, with `prctl_set_no_new_privs` and
-- `support_no_new_privs`.
pub mod NoNewPrivs
pub mod Outcome
pub mod Status
use rust_landlock.Prelude.{zero, suc, Bool, true, false, not, ◌&&◌, if◌then◌else◌}
use rust_landlock.Prelude.Exec.{Result, ok, err, Exec, map_err, ◌>>=◌}
use rust_landlock.Prelude.Int.{ℤ, pos, is_zero}
use rust_landlock.Uapi.{Sys, IoError, landlock_restrict_self, last_os_error}
use rust_landlock.BitFlags.{BitFlags}
use rust_landlock.Errors.{
  RestrictSelfError, set_no_new_privs_call, restrict_self_call, RulesetError,
  restrict_self as restrict_self_error,
}
use rust_landlock.Compat.Level.{CompatLevel, best_effort, soft_requirement, hard_requirement, into}
use rust_landlock.Compat.State.{full, dummy, update_state}
use rust_landlock.Ruleset.Types.{
  RulesetCreated, RestrictionStatus, status_of, is_enforced, is_dummy, drop,
}

-- The pattern `0 | 1`.
abbrev is_bit : ℤ → Bool
is_bit (pos zero) = true
is_bit (pos (suc zero)) = true
is_bit _ = false

module _ ⦃S : Sys⦄ where
  open S use {World, prctl, pr_set_no_new_privs, pr_get_no_new_privs}

  unfoldable pub prctl_set_no_new_privs : World → Result (Unit {0}) IoError × World
  prctl_set_no_new_privs w =
      let (ret, w') = prctl pr_set_no_new_privs 1 0 0 0 w in
      if is_zero ret then (ok tt, w') else (err (last_os_error w'), w')

  unfoldable pub support_no_new_privs : World → Bool × World
  support_no_new_privs w = let (ret, w') = prctl pr_get_no_new_privs 0 0 0 0 w in (is_bit ret, w')

  module _ ⦃E : BitFlags⦄ where
    open E use {Flags}

    -- The rest of the `if let Err(e)`: whether the failed prctl is tolerated.
    unfoldable pub tolerate : IoError → Exec (RulesetCreated × World) RestrictSelfError Bool
    tolerate e (c, w) =
        let (support_nnp, w') = support_no_new_privs w in
        if is_enforced c.compat.state
        then (err (set_no_new_privs_call e), (c, w'))
        else if support_nnp
        then (err (set_no_new_privs_call e), (c, w'))
        else (ok false, (c, w'))

    -- `match self.compat.level.into()` after a failed prctl.
    unfoldable pub after_failure :
        CompatLevel → IoError → Exec (RulesetCreated × World) RestrictSelfError Bool
    unfolding tolerate update_state
    after_failure best_effort e (c, w) = tolerate e (c, w)
    after_failure soft_requirement e (c, w) =
        tolerate e (record c { compat = update_state c.compat dummy }, w)
    after_failure hard_requirement e (c, w) = (err (set_no_new_privs_call e), (c, w))

    -- The value of `enforced_nnp`.
    unfoldable pub enforce_no_new_privs : Exec (RulesetCreated × World) RestrictSelfError Bool
    unfolding after_failure
    enforce_no_new_privs (c, w) =
        if not (is_dummy c.compat.state) && c.no_new_privs
        then (let (ret, w') = prctl_set_no_new_privs w in
            elim ret [
              | ok _ ↦ (ok true, (c, w'))
              | err e ↦ after_failure (into c.compat.level) e (c, w')
            ])
        else (ok false, (c, w))

    -- The last `match self.compat.state`.
    unfoldable pub enforce_ruleset :
        Bool → Exec (RulesetCreated × World) RestrictSelfError RestrictionStatus
    unfolding update_state
    enforce_ruleset enforced_nnp (c, w) =
        if is_enforced c.compat.state
        then (let (ret, w') = landlock_restrict_self c.fd 0 w in
            if is_zero ret
            then (let c' = record c { compat = update_state c.compat full } in
                (
                  ok (record { status = status_of c'.compat.state; no_new_privs = enforced_nnp }),
                  (c', w'),
                ))
            else (err (restrict_self_call (last_os_error w')), (c, w')))
        else (
          ok (record { status = status_of c.compat.state; no_new_privs = enforced_nnp }),
          (c, w),
        )

    -- The closure `body`.
    unfoldable pub restrict_body : Exec (RulesetCreated × World) RestrictSelfError RestrictionStatus
    unfolding enforce_no_new_privs enforce_ruleset
    restrict_body = do enforced_nnp ← enforce_no_new_privs; enforce_ruleset enforced_nnp

    -- The ruleset is consumed: it is dropped at the end, whatever the result.
    unfoldable pub restrict_self :
        RulesetCreated → World → Result RestrictionStatus (RulesetError Flags) × World
    unfolding restrict_body
    restrict_self c w =
        let (res, (c', w')) = restrict_body (c, w) in (map_err restrict_self_error res, drop c' w')
