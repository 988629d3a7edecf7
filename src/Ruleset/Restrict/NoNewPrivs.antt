-- ===== src/Ruleset/Restrict/NoNewPrivs.antt =====
-- The no_new_privs step of `RulesetCreated::restrict_self` in src/ruleset.rs.
use rust_landlock.Prelude.{
  Bool, true, false, not, ◌&&◌, ◌||◌, ◌≡◌, ◌≢◌, inl, inr, refl, arith, Bool-cases,
}
use rust_landlock.Prelude.Exec.{Result, ok, err}
use rust_landlock.Uapi.{Sys, IoError}
use rust_landlock.BitFlags.{BitFlags}
use rust_landlock.Errors.{RestrictSelfError, set_no_new_privs_call}
use rust_landlock.Compat.Level.{CompatLevel, best_effort, soft_requirement, hard_requirement, into}
use rust_landlock.Compat.State.{CompatState, dummy, update, update_state}
use rust_landlock.Ruleset.Types.{RulesetCreated, is_enforced, is_dummy, with_state}
use rust_landlock.Ruleset.Restrict.{
  prctl_set_no_new_privs, support_no_new_privs, tolerate, after_failure, enforce_no_new_privs,
}

module _ ⦃S : Sys⦄ ⦃E : BitFlags⦄ where
  open S use {World}
  open E use {Flags}

  -- The ruleset asks for no_new_privs, and the build was not given up.
  abbrev pub Wants : RulesetCreated → Type 0
  Wants c = (c.compat.state ≢ dummy) × (c.no_new_privs ≡ true)

  -- Why a failed prctl, after which the system is in state w1, is an error.
  pub data Fatal (c : RulesetCreated) (w1 : World) : Type 0 where
    hard : into c.compat.level ≡ hard_requirement → Fatal c w1
    landlock_runs :
        into c.compat.level ≡ best_effort → is_enforced c.compat.state ≡ true → Fatal c w1
    supported : (support_no_new_privs w1).0 ≡ true → Fatal c w1

  -- The outcomes of the first step, no_new_privs, each with its case.
  pub data Asked (c : RulesetCreated) (w : World)
      : Result Bool RestrictSelfError × (RulesetCreated × World) → Type 0 where
    off : ¬ Wants c → Asked c w (ok false, (c, w))
    set :
        (w1 : World)
        → Wants c
        → prctl_set_no_new_privs w ≡ (ok tt, w1)
        → Asked c w (ok true, (c, w1))
    -- best effort, where neither Landlock nor no_new_privs is supported
    tolerated :
        (e : IoError) (w1 w2 : World)
        → Wants c
        → prctl_set_no_new_privs w ≡ (err e, w1)
        → support_no_new_privs w1 ≡ (false, w2)
        → into c.compat.level ≡ best_effort
        → is_enforced c.compat.state ≡ false
        → Asked c w (ok false, (c, w2))
    -- soft requirement, where no_new_privs is not supported
    given_up :
        (e : IoError) (w1 w2 : World)
        → Wants c
        → prctl_set_no_new_privs w ≡ (err e, w1)
        → support_no_new_privs w1 ≡ (false, w2)
        → into c.compat.level ≡ soft_requirement
        → Asked c w (ok false, (with_state dummy c, w2))
    failed :
        (e : IoError) (w1 w' : World) (s : CompatState)
        → Wants c
        → prctl_set_no_new_privs w ≡ (err e, w1)
        → Fatal c w1
        → Asked c w (err (set_no_new_privs_call e), (with_state s c, w'))

  tolerate_fails :
      (c : RulesetCreated) (e : IoError) (w : World)
      → (is_enforced c.compat.state || (support_no_new_privs w).0) ≡ true
      → tolerate e (c, w) ≡ (err (set_no_new_privs_call e), (c, (support_no_new_privs w).1))
  unfolding tolerate
  tolerate_fails c e w h = ground arith

  tolerate_passes :
      (c : RulesetCreated) (e : IoError) (w : World)
      → is_enforced c.compat.state ≡ false
      → (support_no_new_privs w).0 ≡ false
      → tolerate e (c, w) ≡ (ok false, (c, (support_no_new_privs w).1))
  unfolding tolerate
  tolerate_passes c e w h k = ground arith

  dummy_state : (s : CompatState) → update s dummy ≡ dummy
  unfolding update
  dummy_state s = ground arith

  unsupported :
      (w : World)
      → (support_no_new_privs w).0 ≡ false
      → support_no_new_privs w ≡ (false, (support_no_new_privs w).1)
  unsupported w h = λ i. (h i, (support_no_new_privs w).1)

  fatal :
      {c : RulesetCreated} {w1 : World}
      → into c.compat.level ≡ best_effort
      → (is_enforced c.compat.state || (support_no_new_privs w1).0) ≡ true
      → Fatal c w1
  fatal {c = c} {w1 = w1} l h = elim (Bool-cases (is_enforced c.compat.state)) [
    | inl k ↦ landlock_runs l k
    | inr k ↦ supported (ground arith)
  ]

  failure-Asked :
      (c : RulesetCreated) (e : IoError) (w w1 : World) (level : CompatLevel)
      → into c.compat.level ≡ level
      → Wants c
      → prctl_set_no_new_privs w ≡ (err e, w1)
      → Asked c w (after_failure level e (c, w1))
  unfolding after_failure update_state
  failure-Asked c e w w1 best_effort l wants p =
      elim (Bool-cases (is_enforced c.compat.state || (support_no_new_privs w1).0)) [
        | inl h ↦ rw (tolerate_fails c e w1 h) (failed e w1 _ c.compat.state wants p (fatal l h))
        | inr h ↦
            rw (tolerate_passes c e w1 (ground arith) (ground arith))
              (tolerated e w1 _ wants p (unsupported w1 (ground arith)) l (ground arith))
      ]
  failure-Asked c e w w1 soft_requirement l wants p =
      rw (dummy_state c.compat.state) (elim (Bool-cases ((support_no_new_privs w1).0)) [
        | inl h ↦
            rw (tolerate_fails (with_state dummy c) e w1 h)
              (failed e w1 _ dummy wants p (supported h))
        | inr h ↦
            rw (tolerate_passes (with_state dummy c) e w1 refl h)
              (given_up e w1 _ wants p (unsupported w1 h) l)
      ])
  failure-Asked c e w w1 hard_requirement l wants p = failed e w1 w1 c.compat.state wants p (hard l)

  prctl-Asked :
      (c : RulesetCreated) (w : World) (res : Result (Unit {0}) IoError)
      → Wants c
      → (prctl_set_no_new_privs w).0 ≡ res
      → not (is_dummy c.compat.state) && c.no_new_privs ≡ true
      → Asked c w (enforce_no_new_privs (c, w))
  unfolding enforce_no_new_privs
  prctl-Asked c w (ok u) wants p h =
      rw h
        (rw p (set (prctl_set_no_new_privs w).1 wants (λ i. (p i, (prctl_set_no_new_privs w).1))))
  prctl-Asked c w (err e) wants p h = rw h (
      rw p (
        failure-Asked c e w (prctl_set_no_new_privs w).1 (into c.compat.level) refl wants
          (λ i. (p i, (prctl_set_no_new_privs w).1))))

  Wants-is_dummy :
      (s : CompatState) (b : Bool) → not (is_dummy s) && b ≡ true → (s ≢ dummy) × (b ≡ true)
  Wants-is_dummy s b h = ground arith

  is_dummy-Wants :
      (s : CompatState) (b : Bool) → not (is_dummy s) && b ≡ false → ¬ ((s ≢ dummy) × (b ≡ true))
  is_dummy-Wants s b h = ground arith

  -- For each created ruleset and state of the system, the no_new_privs step does one of these.
  -- Where no_new_privs is not asked for or the build was given up, it calls nothing and gives
  -- `false`. Otherwise it calls prctl: a success gives `true`. A failure is the error
  -- SetNoNewPrivsCall with the error of prctl, and then the level is the hard requirement, or it is
  -- best effort and Landlock will be enforced, or the system supports no_new_privs; or it is
  -- tolerated, and then the system does not support no_new_privs, and either the level is best
  -- effort and Landlock will not be enforced, or the level is the soft requirement and the build is
  -- given up. No more than the state of the ruleset is changed.
  pub enforce_no_new_privs-Asked :
      (c : RulesetCreated) (w : World) → Asked c w (enforce_no_new_privs (c, w))
  unfolding enforce_no_new_privs
  enforce_no_new_privs-Asked c w =
      elim (Bool-cases (not (is_dummy c.compat.state) && c.no_new_privs)) [
        | inl h ↦
            prctl-Asked c w (prctl_set_no_new_privs w).0
              (Wants-is_dummy c.compat.state c.no_new_privs h) refl h
        | inr h ↦ rw h (off (is_dummy-Wants c.compat.state c.no_new_privs h))
      ]
