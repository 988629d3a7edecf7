-- ===== src/Ruleset/Restrict/Outcome.antt =====
-- What `RulesetCreated::restrict_self` of src/ruleset.rs does, and what its status says.
use rust_landlock.Prelude.{Bool, true, false, ◌≡◌, inl, inr, refl, arith, Bool-cases}
use rust_landlock.Prelude.Exec.{Result, ok, err, map_err, proceed}
use rust_landlock.Prelude.Int.{ℤ, is_zero}
use rust_landlock.Uapi.{Sys, IoError, landlock_restrict_self, last_os_error}
use rust_landlock.BitFlags.{BitFlags}
use rust_landlock.Errors.{
  RestrictSelfError, set_no_new_privs_call, restrict_self_call, RulesetError,
  restrict_self as restrict_self_error,
}
use rust_landlock.Compat.State.{CompatState, full, dummy, update, update_state}
use rust_landlock.Ruleset.Types.{
  RulesetCreated, RestrictionStatus, not_enforced, status_of, is_enforced, with_state, drop,
}
use rust_landlock.Ruleset.Restrict.{
  prctl_set_no_new_privs, enforce_ruleset, restrict_body, restrict_self,
}
use rust_landlock.Ruleset.Restrict.NoNewPrivs.{
  Wants, Asked, off, set, tolerated, given_up, failed, Fatal, enforce_no_new_privs-Asked,
}

module _ ⦃S : Sys⦄ ⦃E : BitFlags⦄ where
  open S use {World}
  open E use {Flags}

  -- The outcomes of `restrict_self`, each with its case. The ruleset is dropped in each.
  pub data Restricted (c : RulesetCreated) (w : World)
      : Result RestrictionStatus (RulesetError Flags) × World → Type 0 where
    nnp_failed :
        (e : IoError) (w1 w' : World)
        → Wants c
        → prctl_set_no_new_privs w ≡ (err e, w1)
        → Fatal c w1
        → Restricted c w (err (restrict_self_error (set_no_new_privs_call e)), drop c w')
    enforced :
        (nnp : Bool) (w1 w2 : World) (ret : ℤ)
        → Asked c w (ok nnp, (c, w1))
        → is_enforced c.compat.state ≡ true
        → landlock_restrict_self c.fd 0 w1 ≡ (ret, w2)
        → is_zero ret ≡ true
        → Restricted c w
            (ok (record { status = status_of c.compat.state; no_new_privs = nnp }), drop c w2)
    denied :
        (nnp : Bool) (w1 w2 : World) (ret : ℤ)
        → Asked c w (ok nnp, (c, w1))
        → is_enforced c.compat.state ≡ true
        → landlock_restrict_self c.fd 0 w1 ≡ (ret, w2)
        → is_zero ret ≡ false
        → Restricted c w
            (err (restrict_self_error (restrict_self_call (last_os_error w2))), drop c w2)
    -- Landlock is not called: the state is not one to enforce in, or the build was given up
    inert :
        (nnp : Bool) (s : CompatState) (w1 : World)
        → Asked c w (ok nnp, (with_state s c, w1))
        → is_enforced s ≡ false
        → Restricted c w (ok (record { status = not_enforced; no_new_privs = nnp }), drop c w1)

  Ended :
      RulesetCreated
      → World
      → Result RestrictionStatus RestrictSelfError × (RulesetCreated × World)
      → Type 0
  Ended c w (res, (c', w')) = Restricted c w (map_err restrict_self_error res, drop c' w')

  pub update_full :
      (s : CompatState) → is_enforced s ≡ true → status_of (update s full) ≡ status_of s
  unfolding update status_of
  update_full s h = ground arith

  inert_status : (s : CompatState) → is_enforced s ≡ false → status_of s ≡ not_enforced
  unfolding status_of
  inert_status s h = ground arith

  -- The second step, where the first gives `nnp` and the state `s`.
  landlock-Ended :
      (c : RulesetCreated) (w w1 : World) (nnp : Bool)
      → Asked c w (ok nnp, (c, w1))
      → is_enforced c.compat.state ≡ true
      → Ended c w (enforce_ruleset nnp (c, w1))
  unfolding enforce_ruleset update_state drop Ended
  landlock-Ended c w w1 nnp a h = elim (Bool-cases (is_zero (landlock_restrict_self c.fd 0 w1).0)) [
    | inl z ↦ rw h (rw z (rw (update_full c.compat.state h) (enforced nnp w1 _ _ a h refl z)))
    | inr z ↦ rw h (rw z (denied nnp w1 _ _ a h refl z))
  ]

  inert-Ended :
      (c : RulesetCreated) (w w1 : World) (nnp : Bool) (s : CompatState)
      → Asked c w (ok nnp, (with_state s c, w1))
      → is_enforced s ≡ false
      → Ended c w (enforce_ruleset nnp (with_state s c, w1))
  unfolding enforce_ruleset drop Ended
  inert-Ended c w w1 nnp s a h = rw h (rw (inert_status s h) (inert nnp s w1 a h))

  kept-Ended :
      (c : RulesetCreated) (w w1 : World) (nnp : Bool)
      → Asked c w (ok nnp, (c, w1))
      → Ended c w (enforce_ruleset nnp (c, w1))
  kept-Ended c w w1 nnp a = elim (Bool-cases (is_enforced c.compat.state)) [
    | inl h ↦ landlock-Ended c w w1 nnp a h
    | inr h ↦ inert-Ended c w w1 nnp c.compat.state a h
  ]

  body-Ended :
      (c : RulesetCreated) (w : World) {res : Result Bool RestrictSelfError} {c' : RulesetCreated}
      {w' : World}
      → Asked c w (res, (c', w'))
      → Ended c w (proceed (res, (c', w')) enforce_ruleset)
  unfolding drop Ended
  body-Ended c w (off wants) = kept-Ended c w w false (off wants)
  body-Ended c w (set w1 wants p) = kept-Ended c w w1 true (set w1 wants p)
  body-Ended c w (tolerated e w1 w2 wants p n l h) =
      kept-Ended c w w2 false (tolerated e w1 w2 wants p n l h)
  body-Ended c w (given_up e w1 w2 wants p n l) =
      inert-Ended c w w2 false dummy (given_up e w1 w2 wants p n l) refl
  body-Ended c w (failed e w1 w' s wants p f) = nnp_failed e w1 w' wants p f

  -- For each created ruleset and state of the system, restrict_self does one of these, and drops
  -- the ruleset. It fails with the error of prctl, under the conditions in which the no_new_privs
  -- step fails. Or that step succeeds, the state is full or partial and landlock_restrict_self is
  -- called once with the ruleset's descriptor: 0 gives the status that the state stands for and the
  -- no_new_privs of that step, and anything else gives the error RestrictSelfCall with errno. Or
  -- that step succeeds, Landlock is not called, because the state is none of these or the step gave
  -- up the build, and the status is not enforced.
  pub restrict_self-Restricted :
      (c : RulesetCreated) (w : World) → Restricted c w (restrict_self c w)
  unfolding restrict_self restrict_body Ended
  restrict_self-Restricted c w = body-Ended c w (enforce_no_new_privs-Asked c w)
