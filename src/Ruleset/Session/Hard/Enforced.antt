-- ===== src/Ruleset/Session/Hard/Enforced.antt =====
-- That a program which uses the hard requirement only is restricted in full, or gets an error.
use rust_landlock.Prelude.{
  Bool, true, some, List, ◌≡◌, ◌≢◌, inl, inr, refl, sym, subst, ap, ◌∙◌, arith, Bool-cases,
}
use rust_landlock.Prelude.Exec.{Result, ok, err, ◌>>=◌}
use rust_landlock.Prelude.Int.{pos, ◌≤ℤ◌}
use rust_landlock.Uapi.{Sys, landlock_create_ruleset}
use rust_landlock.BitFlags.{BitFlags}
use rust_landlock.BitFlags.Digits.{◌⊆◌}
use rust_landlock.BitFlags.Sets.{⊆-empty}
use rust_landlock.Errors.{RulesetError, RestrictSelfError}
use rust_landlock.Compat.Abi.{Abi}
use rust_landlock.Compat.Level.{hard_requirement}
use rust_landlock.Compat.State.{full, of_abi}
use rust_landlock.Fs.Rights.{from_all}
use rust_landlock.Ruleset.Types.{
  Ruleset, RulesetCreated, RestrictionStatus, fully_enforced, set_compatibility, of_compat, created,
  status_of, with_state,
}
use rust_landlock.Ruleset.Create.{create}
use rust_landlock.Ruleset.Create.Outcome.{Created, missing, inert, made, failed, create-Created}
use rust_landlock.Ruleset.Restrict.{restrict_self}
use rust_landlock.Ruleset.Restrict.NoNewPrivs.{Wants, Asked, off, set, tolerated, given_up, failed}
use rust_landlock.Ruleset.Restrict.Outcome.{
  Restricted, nnp_failed, enforced, denied, restrict_self-Restricted,
}
use rust_landlock.Ruleset.Restrict.Outcome
use rust_landlock.Ruleset.Restrict.NoNewPrivs
use rust_landlock.Ruleset.Restrict.Status.{WasAccepted}
use rust_landlock.Ruleset.Session.Enforced.{session-fully_enforced}
use rust_landlock.Ruleset.Session.Calls.{
  Request, Call, ask_all, perform_all, enforce, run, proceed-ok, perform_all-Steps,
}
use rust_landlock.Ruleset.Session.Hard.{
  RequestsHard, CallsHard, requested_by, wanted_by, IsHard, IsFull, start-IsHard, Grades-hard,
  ask_all-IsHard, perform_all-IsFull,
}
use rust_landlock.Ruleset.Create.Outcome.{request_for}

module _ ⦃S : Sys⦄ ⦃E : BitFlags⦄ where
  open S use {World}
  open E use {Flags, empty, bits}

  -- `create` gives a ruleset in state Full, or fails.
  FullIfOk : Ruleset → Result RulesetCreated (RulesetError Flags) × World → Type 0
  FullIfOk r (ok c, w) = (r.compat.state ≡ full) × IsFull c true
  FullIfOk r (err e, w) = Unit {0}

  Created-Full :
      (abi : Abi) (r : Ruleset) (w : World) {m : Result RulesetCreated (RulesetError Flags) × World}
      → IsHard abi r
      → Created r w m
      → FullIfOk r m
  unfolding FullIfOk created
  Created-Full abi r w h (missing z) = tt
  Created-Full abi r w h (inert s ne k o) =
      elim (Grades-hard r.compat.state r.requested_handled_fs (from_all abi) h.exact.graded h.met) [
        | inl e ↦ absurd (ne e)
        | inr e ↦ absurd (ground arith)
      ]
  Created-Full abi r w h (made fd w' ne k p q) =
      elim (Grades-hard r.compat.state r.requested_handled_fs (from_all abi) h.exact.graded h.met) [
        | inl e ↦ absurd (
            ne (
              ⊆-empty r.actual_handled_fs
                (subst (λ (x : Flags). r.actual_handled_fs ⊆ x) e h.valid.asked)))
        | inr e ↦ (e, record { strict = h.strict; is_full = e; wanted = refl })
      ]
  Created-Full abi r w h (failed fd w' ne k p q) = tt

  create-Full :
      (abi : Abi) (r : Ruleset) (w w1 : World) (c : RulesetCreated)
      → IsHard abi r
      → create r w ≡ (ok c, w1)
      → (r.compat.state ≡ full) × IsFull c true
  unfolding FullIfOk
  create-Full abi r w w1 c h e =
      subst (λ (m : Result RulesetCreated (RulesetError Flags) × World). FullIfOk r m) e
        (Created-Full abi r w h (create-Created r w h.valid))

  -- The first step of `restrict_self` leaves such a ruleset, and enables what is wanted, or fails.
  KeptIfOk :
      RulesetCreated → Bool → Result Bool RestrictSelfError × (RulesetCreated × World) → Type 0
  KeptIfOk c b (ok nnp, (c', w)) = (nnp ≡ b) × (c' ≡ c)
  KeptIfOk c b (err e, (c', w)) = Unit {0}

  Asked-Kept :
      (c : RulesetCreated) (b : Bool) (w : World)
      {m : Result Bool RestrictSelfError × (RulesetCreated × World)}
      → IsFull c b
      → Asked c w m
      → KeptIfOk c b m
  unfolding KeptIfOk
  Asked-Kept c b w f (off wants) = elim (Bool-cases b) [
    | inl e ↦ absurd (wants (λ d. cc (d, f.is_full), f.wanted ∙ e))
    | inr e ↦ (sym e, refl)
  ]
  Asked-Kept c b w f (set w1 wants p) = (sym wants.1 ∙ f.wanted, refl)
  Asked-Kept c b w f (tolerated e w1 w2 wants p n l h) = absurd (cc (l, f.strict))
  Asked-Kept c b w f (given_up e w1 w2 wants p n l) = absurd (cc (l, f.strict))
  Asked-Kept c b w f (NoNewPrivs.failed e w1 w' s wants p g) = tt

  kept :
      (c c' : RulesetCreated) (b nnp : Bool) (w w1 : World)
      → IsFull c b
      → Asked c w (ok nnp, (c', w1))
      → (nnp ≡ b) × (c' ≡ c)
  unfolding KeptIfOk
  kept c c' b nnp w w1 f a = Asked-Kept c b w f a

  EnforcedIfOk : Bool → Result RestrictionStatus (RulesetError Flags) × World → Type 0
  EnforcedIfOk b (ok st, w) = st ≡ record { status = fully_enforced; no_new_privs = b }
  EnforcedIfOk b (err e, w) = Unit {0}

  Restricted-Enforced :
      (c : RulesetCreated) (b : Bool) (w : World)
      {m : Result RestrictionStatus (RulesetError Flags) × World}
      → IsFull c b
      → Restricted c w m
      → EnforcedIfOk b m
  unfolding EnforcedIfOk status_of
  Restricted-Enforced c b w f (nnp_failed e w1 w' wants p g) = tt
  Restricted-Enforced c b w f (enforced nnp w1 w2 ret a h p z) =
      rw (f.is_full, (kept c c b nnp w w1 f a).0) refl
  Restricted-Enforced c b w f (denied nnp w1 w2 ret a h p z) = tt
  Restricted-Enforced c b w f (Outcome.inert nnp s w1 a h) =
      let same = (kept c (with_state s c) b nnp w w1 f a).1 in
      let is_full = ap (λ (x : RulesetCreated). x.compat.state) same ∙ f.is_full in
      absurd (ground arith)

  restrict_self-Full :
      (c : RulesetCreated) (b : Bool) (w w' : World) (st : RestrictionStatus)
      → IsFull c b
      → restrict_self c w ≡ (ok st, w')
      → st ≡ record { status = fully_enforced; no_new_privs = b }
  unfolding EnforcedIfOk
  restrict_self-Full c b w w' st f e =
      subst (λ (m : Result RestrictionStatus (RulesetError Flags) × World). EnforcedIfOk b m) e
        (Restricted-Enforced c b w f (restrict_self-Restricted c w))

  -- For each ABI, list of requests and list of calls that never leave the hard requirement, on every
  -- kernel and in every state of the system: if no request and no call fails, from
  -- set_compatibility on a fresh builder to restrict_self, then some right was asked for, the ABI
  -- has all of them, the kernel was asked for a ruleset that handles exactly these and gave
  -- a descriptor, landlock_restrict_self answered 0 for it, and the status is fully enforced, with
  -- no_new_privs unless the last set_no_new_privs turned it off.
  pub hard_requirement_enforced :
      (abi : Abi) (requests : List Request) (calls : List Call) (w w' : World)
      (st : RestrictionStatus)
      → RequestsHard requests
      → CallsHard calls
      → run requests calls (set_compatibility hard_requirement (of_compat (of_abi abi))) w
        ≡ (ok st, w')
      → let asked = requested_by empty requests in
        (st ≡ record { status = fully_enforced; no_new_privs = wanted_by true calls })
        × (asked ≢ empty)
        × (asked ⊆ from_all abi)
        × ((c : RulesetCreated) × (w0 : World) × (w1 : World) × (landlock_create_ruleset
                (some (record { handled_access_fs = bits asked; handled_access_net = 0 }))
                16
                0
                w0
              ≡ (c.fd, w1))
            × (pos 0 ≤ℤ c.fd)
            × WasAccepted c w')
  unfolding run enforce set_compatibility of_compat
  hard_requirement_enforced abi requests calls w w' st rh ch e =
      let begin = set_compatibility hard_requirement (of_compat (of_abi abi)) in
      let (r, w0, asked_ok, rest) = proceed-ok (ask_all requests begin w) (enforce calls) st w' e in
      let (hr, q) = ask_all-IsHard abi requests begin r w w0 (start-IsHard abi) rh asked_ok in
      let (c, w1, created_ok, rest') =
        proceed-ok (create r w0) (λ x. perform_all calls x >>= restrict_self) st w' rest in
      let (last, w2, performed, restricted) =
        proceed-ok (perform_all calls c w1) restrict_self st w' rest' in
      let (start_full, f) = create-Full abi r w0 w1 c hr created_ok in
      let all = perform_all-IsFull calls true c last w1 w2 ch f performed in
      let status = restrict_self-Full last (wanted_by true calls) w2 w' st all restricted in
      let (same, supported, ne, asked_kernel, open_fd, accepted) =
        session-fully_enforced r w0 c w1 last w2 st w' hr.valid hr.unmet created_ok
          (perform_all-Steps calls c last w1 w2 performed) restricted
          (ap (λ (x : RestrictionStatus). x.status) status) in
      (
        status,
        λ z. ne (q ∙ z),
        subst (λ (x : Flags). x ⊆ from_all abi) q hr.met,
        (
          last,
          w0,
          w1,
          subst
              (λ (h : Flags).
                landlock_create_ruleset (some (request_for h)) 16 0 w0 ≡ (last.fd, w1))
              q asked_kernel,
          open_fd,
          accepted,
        ),
      )
