-- ===== src/Scenarios/Unsupported/Endings.antt =====
-- How the runs of the test `ruleset_unsupported` of src/ruleset.rs end that get no error.
use rust_landlock.Prelude.{Bool, true, false, ◌&&◌, ◌≡◌, inl, inr, refl, subst, ◌∙◌, Bool-cases}
use rust_landlock.Prelude.Exec.{
  Result, ok, err, Exec, pure, ◌>>=◌, proceed, Succeeds, Succeeds-proceed, Succeeds-weaken,
  value_Succeeds,
}
use rust_landlock.Uapi.{Sys}
use rust_landlock.BitFlags.{BitFlags, execute}
use rust_landlock.Errors.{RulesetError}
use rust_landlock.Compat.Abi.{unsupported}
use rust_landlock.Compat.Level.{best_effort}
use rust_landlock.Compat.State.{no_support, dummy}
use rust_landlock.Ruleset.Types.{
  Ruleset, RulesetCreated, RestrictionStatus, RulesetStatus, fully_enforced, partially_enforced,
  not_enforced, status_of,
}
use rust_landlock.Ruleset.Create.{create}
use rust_landlock.Ruleset.Restrict.{
  restrict_self, restrict_body, enforce_no_new_privs, enforce_ruleset,
}
use rust_landlock.Ruleset.Session.Paths.{handle_access_owned}
use rust_landlock.Ruleset.Session.Live.Built.{Built, start-Built, handle_access-Built}
use rust_landlock.Ruleset.Session.Live.Ends.{prctl_done, nnp_done}
use rust_landlock.Kernel.{View, IsDocumented}
use rust_landlock.Scenarios.{TestRulesetError, eqb_status, assert}
use rust_landlock.Scenarios.Closures.{lift}
use rust_landlock.Scenarios.Outcomes.{Succeeds-lift}
use rust_landlock.Scenarios.Created.{asked, Idle, creates, no_support_left}
use rust_landlock.Scenarios.Rights.{IsKnown-execute, IsKnown-valid}
use rust_landlock.Scenarios.Requests.{start}
use rust_landlock.Scenarios.Unsupported.{
  unwrap, assert_status, assert_error, restrict_with, eqb_bool,
}

eqb_status_refl : (s : RulesetStatus) → eqb_status s s ≡ true
eqb_status_refl fully_enforced = refl
eqb_status_refl partially_enforced = refl
eqb_status_refl not_enforced = refl

eqb_bool_refl : (b : Bool) → eqb_bool b b ≡ true
eqb_bool_refl true = refl
eqb_bool_refl false = refl

module _ ⦃S : Sys⦄ where
  open S use {World, prctl, pr_set_no_new_privs}

  -- A status that is the expected one passes.
  pub assert_status-expected :
      {X : Type 0} (status : RulesetStatus) (nnp : Bool) (m : Exec World X RestrictionStatus)
      (w : World)
      → Succeeds (λ st w'. st ≡ record { status = status; no_new_privs = nnp }) (m w)
      → (assert_status status nnp m w).0 ≡ ok tt
  unfolding assert_status
  assert_status-expected status nnp m w h = of_run (m w) h
    where
      of_run :
          {X : Type 0} (run : Result RestrictionStatus X × World)
          → Succeeds (λ st w'. st ≡ record { status = status; no_new_privs = nnp }) run
          → (proceed
              (unwrap run)
              (λ st. assert (eqb_status st.status status && eqb_bool st.no_new_privs nnp))).0
            ≡ ok tt
      of_run (ok st, w') e = rw (e, eqb_status_refl status, eqb_bool_refl nnp) refl
      of_run (err x, w') h = absurd h

  -- An error that is the expected one passes.
  pub assert_error-expected :
      {A X : Type 0} (p : X → Bool) (m : Exec World X A) (w w' : World) (e : X)
      → m w ≡ (err e, w')
      → p e ≡ true
      → (assert_error p m w).0 ≡ ok tt
  unfolding assert_error
  assert_error-expected p m w w' e h k = rw (h, k) refl

  module _ ⦃E : BitFlags⦄ where
    open E use {Flags, from, empty}

    -- A ruleset that was given up: the status, whatever its descriptor.
    pub given_up_ends :
        (c : RulesetCreated) (w : World)
        → c.compat.state ≡ dummy
        → (restrict_self c w).0 ≡ ok (record { status = not_enforced; no_new_privs = false })
    unfolding restrict_self restrict_body enforce_no_new_privs enforce_ruleset status_of
    given_up_ends c w e = rw e refl

    module _ (V : View) (D : IsDocumented V) where
      -- A ruleset that the ABI cannot enforce: the status, with no_new_privs if that is wanted.
      pub unsupported_ends :
          (c : RulesetCreated) (w : World)
          → V.Ready w
          → c.compat.state ≡ no_support
          → (restrict_self c w).0
            ≡ ok (record { status = not_enforced; no_new_privs = c.no_new_privs })
      unfolding restrict_self restrict_body enforce_no_new_privs enforce_ruleset status_of
      unsupported_ends c w ready e =
          let (zero_ret, nnp, kept) = D.no_new_privs_set w ready in
          elim (Bool-cases c.no_new_privs) [
            | inl b ↦
                rw
                  (
                    nnp_done V D c w (prctl pr_set_no_new_privs 1 0 0 0 w).1 (λ d. cc) b
                        (prctl_done V D w zero_ret),
                    e,
                    b,
                  )
                  refl
            | inr b ↦ rw (e, b) refl
          ]

      -- A created ruleset on a system without Landlock.
      pub record IsUnsupported (c : RulesetCreated) (w : World) : Type 0 where
        pub ready : V.Ready w
        pub state : c.compat.state ≡ no_support
        pub nnp : c.no_new_privs ≡ true

      start-IsUnsupported :
          (w : World)
          → V.Ready w
          → Succeeds IsUnsupported (
              proceed
                (lift (handle_access_owned (from execute) (start unsupported) w))
                (λ r w'. lift (create r w')))
      start-IsUnsupported w ready =
          Succeeds-proceed (Built V unsupported best_effort (asked V D)) IsUnsupported _ _
            (Succeeds-lift V D (Built V unsupported best_effort (asked V D)) _ (
              handle_access-Built V unsupported best_effort empty (from execute) (start unsupported)
                w (IsKnown-valid (from execute) 1 IsKnown-execute) (inl refl)
                (start-Built V unsupported w ready)))
            (λ r w' b.
              Succeeds-weaken (Idle V D) IsUnsupported (lift (create r w')) (creates V D r w' b)
                (λ c w'' live. record {
                  ready = live.ready;
                  state = no_support_left V D c w'' live.standing;
                  nnp = live.nnp;
                }))

      -- The runs at best effort, with a change of the created ruleset.
      pub changed_passes :
          (nnp : Bool) (f : RulesetCreated → RulesetCreated)
          → ((c : RulesetCreated) → (f c).compat.state ≡ c.compat.state)
          → ((c : RulesetCreated) → c.no_new_privs ≡ true → (f c).no_new_privs ≡ nnp)
          → (w : World) → V.Ready w
          → (assert_status not_enforced nnp
              (restrict_with (λ c. pure (f c)) (from execute) (start unsupported))
              w).0
            ≡ ok tt
      unfolding restrict_with
      changed_passes nnp f same wants w ready =
          assert_status-expected not_enforced nnp
            (restrict_with (λ c. pure (f c)) (from execute) (start unsupported)) w
            (after (handle_access_owned (from execute) (start unsupported) w)
              (start-IsUnsupported w ready))
        where
          ended :
              (m : Result RulesetCreated TestRulesetError × World)
              → Succeeds IsUnsupported m
              → Succeeds
                  (λ st w'. st ≡ record { status = not_enforced; no_new_privs = nnp })
                  (proceed m (λ c. pure (f c) >>= λ c' w'. lift (restrict_self c' w')))
          ended (ok c, w') u =
              Succeeds-lift V D (λ st w'. st ≡ record { status = not_enforced; no_new_privs = nnp })
                (restrict_self (f c) w')
                (value_Succeeds (record { status = not_enforced; no_new_privs = nnp })
                  (restrict_self (f c) w')
                  (subst
                    (λ (b : Bool).
                      (restrict_self (f c) w').0
                      ≡ ok (record { status = not_enforced; no_new_privs = b }))
                    (wants c u.nnp) (unsupported_ends (f c) w' u.ready (same c ∙ u.state))))
          ended (err e, w') u = absurd u

          after :
              (m : Result Ruleset (RulesetError Flags) × World)
              → Succeeds IsUnsupported (proceed (lift m) (λ r w'. lift (create r w')))
              → Succeeds
                  (λ st w'. st ≡ record { status = not_enforced; no_new_privs = nnp })
                  (proceed (lift m) (λ r w'.
                    proceed
                      (lift (create r w'))
                      (λ c. pure (f c) >>= λ c' w''. lift (restrict_self c' w''))))
          after (ok r, w') h = ended (lift (create r w')) h
          after (err e, w') h = absurd h
