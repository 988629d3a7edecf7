-- ===== src/Ruleset/Session/Enforced.antt =====
-- What fully enforced says of a whole run, from the builder to `restrict_self`.
use rust_landlock.Prelude.{true, some, ◌≡◌, ◌≢◌, ◌⊎◌, inl, inr, sym, subst, arith}
use rust_landlock.Prelude.Exec.{Result, ok, err}
use rust_landlock.Prelude.Int.{ℤ, pos, negsuc, ◌≤ℤ◌}
use rust_landlock.Uapi.{Sys, landlock_create_ruleset}
use rust_landlock.BitFlags.{BitFlags}
use rust_landlock.BitFlags.Digits.{◌⊆◌}
use rust_landlock.Errors.{RulesetError}
use rust_landlock.Compat.State.{CompatState, full, no_support, dummy}
use rust_landlock.Fs.Rights.{from_all}
use rust_landlock.Ruleset.Types.{
  Ruleset, RulesetCreated, RestrictionStatus, fully_enforced, is_enforced, set_state, created,
}
use rust_landlock.Ruleset.Handle.Invariant.{IsValid, StateFits}
use rust_landlock.Ruleset.Handle.Unmet.{IsUnmet, RulesetUnmet}
use rust_landlock.Ruleset.Create.{create}
use rust_landlock.Ruleset.Create.Outcome.{
  Created, missing, inert, made, failed, request_for, create-Created,
}
use rust_landlock.Ruleset.Restrict.{restrict_self}
use rust_landlock.Ruleset.Restrict.Status.{WasAccepted, restrict_self-Honest}
use rust_landlock.Ruleset.Session.{Steps}
use rust_landlock.Ruleset.Session.Backed.{IsBacked, Steps-IsKept}

module _ ⦃E : BitFlags⦄ where
  open E use {Flags, empty}

  no_descriptor :
      (r : Ruleset) (s : CompatState)
      → RulesetUnmet r
      → ((s ≡ no_support) × (r.compat.state ≡ no_support)) ⊎ (s ≡ dummy)
      → IsBacked (created (record r { compat = set_state s r.compat }) (negsuc 0))
  unfolding created
  no_descriptor r s u (inl (now, before)) = rw now (record {
    open_fd = λ e. absurd (ground arith);
    unmet = subst (λ (x : CompatState). IsUnmet x r.requested_handled_fs r.compat.abi) before u;
    begun = λ e. cc;
  })
  no_descriptor r s u (inr now) =
      rw now (record { open_fd = λ e. absurd (ground arith); unmet = tt; begun = λ e. cc })

  kernel_descriptor :
      (r : Ruleset) (fd : ℤ)
      → RulesetUnmet r
      → is_enforced r.compat.state ≡ true
      → pos 0 ≤ℤ fd
      → IsBacked (created r fd)
  unfolding created
  kernel_descriptor r fd u e p = record { open_fd = λ _. p; unmet = u; begun = λ k. ground arith }

  module _ ⦃S : Sys⦄ where
    open S use {World}

    -- The kernel made the ruleset for all rights that the builder was asked for.
    abbrev IsWhole : Ruleset → World → ℤ → World → Type 0
    IsWhole r w fd w' =
        (r.compat.state ≡ full)
        × (landlock_create_ruleset (some (request_for r.actual_handled_fs)) 16 0 w ≡ (fd, w'))
        × (pos 0 ≤ℤ fd)

    Answer : Ruleset → World → Result RulesetCreated (RulesetError Flags) × World → Type 0
    Answer r w (ok c, w') = IsBacked c × (c.compat.state ≡ full → IsWhole r w c.fd w')
    Answer r w (err e, w') = Unit {0}

    Created-Answer :
        (r : Ruleset) (w : World) {x : Result RulesetCreated (RulesetError Flags) × World}
        → RulesetUnmet r
        → Created r w x
        → Answer r w x
    unfolding Answer created
    Created-Answer r w u (missing h) = tt
    Created-Answer r w u (inert s ne e h) = (no_descriptor r s u h, λ f. absurd (ground arith))
    Created-Answer r w u (made fd w' ne e k p) = (kernel_descriptor r fd u e p, λ f. (f, k, p))
    Created-Answer r w u (failed fd w' ne e k p) = tt

    create-Answer :
        (r : Ruleset) (w : World) (c : RulesetCreated) (w' : World)
        → IsValid r
        → RulesetUnmet r
        → create r w ≡ (ok c, w')
        → IsBacked c × (c.compat.state ≡ full → IsWhole r w c.fd w')
    unfolding Answer
    create-Answer r w c w' v u h =
        subst (λ (x : Result RulesetCreated (RulesetError Flags) × World). Answer r w x) h
          (Created-Answer r w u (create-Created r w v))

    full_rights :
        (r : Ruleset)
        → IsValid r
        → r.compat.state ≡ full
        → (r.actual_handled_fs ≡ r.requested_handled_fs)
          × (r.requested_handled_fs ⊆ from_all r.compat.abi)
          × (r.requested_handled_fs ≢ empty)
    full_rights r v e =
        let (same, ne) =
          subst (λ (x : CompatState). StateFits x r.requested_handled_fs r.actual_handled_fs) e
            v.fits in
        (
          same,
          subst (λ (x : Flags). x ⊆ from_all r.compat.abi) same v.supported,
          subst (λ (x : Flags). x ≢ empty) same ne,
        )

    -- For each valid builder, of whose requests the ABI has nothing if its state is No: if create
    -- succeeds, any calls on the created ruleset follow, whether they return an error or not, and
    -- restrict_self then reports fully enforced, then something was asked for, the ABI has all of it,
    -- the kernel was asked for a ruleset that handles the word of exactly that and nothing of the network,
    -- and gave it the descriptor, at least 0, that landlock_restrict_self was called with, with the answer 0, and
    -- after this call the ruleset was dropped and nothing else done.
    pub session-fully_enforced :
        (r : Ruleset) (w : World) (start : RulesetCreated) (w1 : World) (last : RulesetCreated)
        (w2 : World) (st : RestrictionStatus) (w3 : World)
        → IsValid r
        → RulesetUnmet r
        → create r w ≡ (ok start, w1)
        → Steps (start, w1) (last, w2)
        → restrict_self last w2 ≡ (ok st, w3)
        → st.status ≡ fully_enforced
        → (r.actual_handled_fs ≡ r.requested_handled_fs)
          × (r.requested_handled_fs ⊆ from_all r.compat.abi)
          × (r.requested_handled_fs ≢ empty)
          × (landlock_create_ruleset (some (request_for r.requested_handled_fs)) 16 0 w
              ≡ (last.fd, w1))
          × (pos 0 ≤ℤ last.fd)
          × WasAccepted last w3
    session-fully_enforced r w c w1 last w2 st w3 v u h steps k e =
        let (backed, whole) = create-Answer r w c w1 v u h in
        let kept = Steps-IsKept steps backed in
        let (is_full, accepted) = (restrict_self-Honest last w2 st w3 k).0 e in
        let (start_full, asked_kernel, open_fd) = whole (kept.was_full is_full) in
        let (same, supported, ne) = full_rights r v start_full in
        (
          same,
          supported,
          ne,
          subst
              (λ (fd : ℤ).
                landlock_create_ruleset (some (request_for r.requested_handled_fs)) 16 0 w
                ≡ (fd, w1))
              (sym kept.same_fd)
              (subst
                (λ (h : Flags). landlock_create_ruleset (some (request_for h)) 16 0 w ≡ (c.fd, w1))
                same asked_kernel),
          subst (λ (fd : ℤ). pos 0 ≤ℤ fd) (sym kept.same_fd) open_fd,
          accepted,
        )
