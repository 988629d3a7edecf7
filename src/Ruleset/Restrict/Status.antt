-- ===== src/Ruleset/Restrict/Status.antt =====
-- What the status of `RulesetCreated::restrict_self` of src/ruleset.rs says.
use rust_landlock.Prelude.{Bool, true, ◌≡◌, ◌≢◌, refl, sym, subst, ap, arith}
use rust_landlock.Prelude.Exec.{Result, ok, err}
use rust_landlock.Prelude.Int.{ℤ, is_zero}
use rust_landlock.Uapi.{Sys, landlock_restrict_self}
use rust_landlock.BitFlags.{BitFlags}
use rust_landlock.Errors.{RestrictSelfError, RulesetError}
use rust_landlock.Compat.State.{CompatState, full}
use rust_landlock.Ruleset.Types.{
  RulesetCreated, RestrictionStatus, fully_enforced, not_enforced, status_of, drop,
}
use rust_landlock.Ruleset.Restrict.{prctl_set_no_new_privs, restrict_self}
use rust_landlock.Ruleset.Restrict.NoNewPrivs.{Asked, off, set, tolerated, given_up, failed}
use rust_landlock.Ruleset.Restrict.Outcome.{
  Restricted, nnp_failed, enforced, denied, inert, restrict_self-Restricted,
}

module _ ⦃S : Sys⦄ ⦃E : BitFlags⦄ where
  open S use {World}
  open E use {Flags}

  status-enforced : (s : CompatState) → status_of s ≡ fully_enforced → s ≡ full
  unfolding status_of
  status-enforced s h = ground arith

  -- The kernel accepted the ruleset, and what was left to do was to drop it.
  abbrev pub WasAccepted : RulesetCreated → World → Type 0
  WasAccepted c w' =
      (w1 : World) × (is_zero (landlock_restrict_self c.fd 0 w1).0 ≡ true)
      × (w' ≡ drop c (landlock_restrict_self c.fd 0 w1).1)

  -- What a status claims of the system.
  abbrev pub Honest : RulesetCreated → World → RestrictionStatus → World → Type 0
  Honest c w st w' =
      (st.status ≡ fully_enforced → (c.compat.state ≡ full) × WasAccepted c w')
      × (st.no_new_privs ≡ true → (prctl_set_no_new_privs w).0 ≡ ok tt)

  HonestIfOk :
      RulesetCreated → World → Result RestrictionStatus (RulesetError Flags) × World → Type 0
  HonestIfOk c w (ok st, w') = Honest c w st w'
  HonestIfOk c w (err e, w') = Unit {0}

  Promised : World → Result Bool RestrictSelfError → Type 0
  Promised w (ok b) = b ≡ true → (prctl_set_no_new_privs w).0 ≡ ok tt
  Promised w (err e) = Unit {0}

  Asked-Promised :
      (c : RulesetCreated) (w : World) {res : Result Bool RestrictSelfError}
      {cw : RulesetCreated × World}
      → Asked c w (res, cw)
      → Promised w res
  unfolding Promised
  Asked-Promised c w (off wants) = λ h. ground arith
  Asked-Promised c w (set w1 wants p) = λ h i. (p i).0
  Asked-Promised c w (tolerated e w1 w2 wants p n l h) = λ h. ground arith
  Asked-Promised c w (given_up e w1 w2 wants p n l) = λ h. ground arith
  Asked-Promised c w (failed e w1 w' s wants p f) = tt

  ok-Promised :
      (c : RulesetCreated) (w : World) (b : Bool) {cw : RulesetCreated × World}
      → Asked c w (ok b, cw)
      → b ≡ true
      → (prctl_set_no_new_privs w).0 ≡ ok tt
  unfolding Promised
  ok-Promised c w b a = Asked-Promised c w a

  accepted_by :
      (c : RulesetCreated) (w1 w2 : World) (ret : ℤ)
      → landlock_restrict_self c.fd 0 w1 ≡ (ret, w2)
      → is_zero ret ≡ true
      → WasAccepted c (drop c w2)
  accepted_by c w1 w2 ret p z = (w1, rw p z, ap (λ (x : ℤ × World). drop c x.1) (sym p))

  Restricted-Honest :
      (c : RulesetCreated) (w : World) {res : Result RestrictionStatus (RulesetError Flags)}
      {w' : World}
      → Restricted c w (res, w')
      → HonestIfOk c w (res, w')
  unfolding HonestIfOk
  Restricted-Honest c w (nnp_failed e w1 w' wants p f) = tt
  Restricted-Honest c w (enforced nnp w1 w2 ret a h p z) =
      (λ k. (status-enforced c.compat.state k, accepted_by c w1 w2 ret p z), ok-Promised c w nnp a)
  Restricted-Honest c w (denied nnp w1 w2 ret a h p z) = tt
  Restricted-Honest c w (inert nnp s w1 a h) = (λ k. ground arith, ok-Promised c w nnp a)

  -- For each created ruleset and state of the system in which restrict_self succeeds: the status is
  -- fully enforced only where the ruleset's state is full and landlock_restrict_self answered 0 for its
  -- descriptor, after which it was dropped and nothing else done; and no_new_privs is reported only
  -- where prctl succeeded.
  pub restrict_self-Honest :
      (c : RulesetCreated) (w : World) (st : RestrictionStatus) (w' : World)
      → restrict_self c w ≡ (ok st, w')
      → Honest c w st w'
  unfolding HonestIfOk
  restrict_self-Honest c w st w' p =
      subst (λ (r : Result RestrictionStatus (RulesetError Flags) × World). HonestIfOk c w r) p
        (Restricted-Honest c w (restrict_self-Restricted c w))

  AnyIfOk : RulesetCreated → Result RestrictionStatus (RulesetError Flags) × World → Type 0
  AnyIfOk c (ok st, w') = st.status ≢ not_enforced → WasAccepted c w'
  AnyIfOk c (err e, w') = Unit {0}

  Restricted-AnyIfOk :
      (c : RulesetCreated) (w : World) {res : Result RestrictionStatus (RulesetError Flags)}
      {w' : World}
      → Restricted c w (res, w')
      → AnyIfOk c (res, w')
  unfolding AnyIfOk
  Restricted-AnyIfOk c w (nnp_failed e w1 w' wants p f) = tt
  Restricted-AnyIfOk c w (enforced nnp w1 w2 ret a h p z) = λ k. accepted_by c w1 w2 ret p z
  Restricted-AnyIfOk c w (denied nnp w1 w2 ret a h p z) = tt
  Restricted-AnyIfOk c w (inert nnp s w1 a h) = λ k. absurd (k refl)

  -- A status other than not enforced is reported only after the kernel accepted the ruleset.
  pub restrict_self_accepted :
      (c : RulesetCreated) (w : World) (st : RestrictionStatus) (w' : World)
      → restrict_self c w ≡ (ok st, w')
      → st.status ≢ not_enforced
      → WasAccepted c w'
  unfolding AnyIfOk
  restrict_self_accepted c w st w' p =
      subst (λ (r : Result RestrictionStatus (RulesetError Flags) × World). AnyIfOk c r) p
        (Restricted-AnyIfOk c w (restrict_self-Restricted c w))
