-- ===== src/Scenarios/Outcomes.antt =====
-- The outcomes of the closures of src/lib.rs for an emulated ABI, on a kernel as documented, from the
-- words of the access rights.
use rust_landlock.Prelude.{
  ℕ, Bool, some, true, false, ◌≡◌, ◌≢◌, ◌⊎◌, inl, inr, refl, sym, ap, subst, ◌∙◌, arith, Bool-cases,
  if◌then◌else◌, bit_and, ◌==◌,
}
use rust_landlock.Prelude.Exec.{
  Result, ok, err, Exec, Succeeds, Succeeds-proceed, Succeeds_value, proceed,
}
use rust_landlock.Prelude.Int.{ℤ, pos, negsuc, ◌≤ℤ◌}
use rust_landlock.Uapi.{Sys, os, landlock_create_ruleset}
use rust_landlock.BitFlags.{BitFlags, ◌∩◌}
use rust_landlock.BitFlags.Digits.{◌⊆◌, contains_iff}
use rust_landlock.BitFlags.Sets.{⊆-of_empty, intersection-⊆_right}
use rust_landlock.Fs.PathBeneath.EmptyRule.{supported-declared}
use rust_landlock.Errors.{RulesetError, create_ruleset, create_ruleset_call}
use rust_landlock.Compat.Abi.{Abi}
use rust_landlock.Compat.Level.{best_effort}
use rust_landlock.Compat.State.{no_support}
use rust_landlock.Fs.Rights.{from_all}
use rust_landlock.Fs.Rights.Tables.{all_bits, bits-from_all}
use rust_landlock.Ruleset.Types.{
  Ruleset, RulesetCreated, RestrictionStatus, RulesetStatus, fully_enforced, partially_enforced,
  not_enforced, is_enforced,
}
use rust_landlock.Ruleset.Handle.Grades.{Grades}
use rust_landlock.Ruleset.Create.{create}
use rust_landlock.Ruleset.Create.Outcome.{
  request_for, Created, missing, inert, made, failed, create-Created,
}
use rust_landlock.Ruleset.Session.Live.{
  IsLive, Starts, create-IsLive, Grades-cases, IsExact-IsValid,
}
use rust_landlock.Ruleset.Session.Live.Built.{Built}
use rust_landlock.Ruleset.Session.Paths.Documented.{graded_status}
use rust_landlock.Kernel.{View, IsDocumented, refusal}
use rust_landlock.Kernel.Calls.{Denied, create_ruleset-Denied}
use rust_landlock.Scenarios.{TestRulesetError, ruleset_error}
use rust_landlock.Scenarios.Closures.{lift}
use rust_landlock.Scenarios.Verdict.{Outcome, restricted, refused, HasOutcome}

-- Whether the kernel's ABI has the part of the rights `n` that the emulated ABI has.
abbrev pub fits : ℕ → (mock kernel : Abi) → Bool
fits n mock kernel =
    bit_and (all_bits kernel) (bit_and n (all_bits mock)) == bit_and n (all_bits mock)

-- How much of the rights the ABI has.
abbrev pub graded_bits : ℕ → Abi → RulesetStatus
graded_bits n abi =
    if bit_and n (all_bits abi) == 0
    then not_enforced
    else if bit_and (all_bits abi) n == n
    then fully_enforced
    else partially_enforced

abbrev pub outcome : ℕ → RulesetStatus → (mock kernel : Abi) → Outcome
outcome n status mock kernel = if fits n mock kernel then restricted status else refused

module _ ⦃S : Sys⦄ ⦃E : BitFlags⦄ where
  open S use {World, errno}
  open E use {Flags, empty, all, bits, contains, contains_lem, is_empty_lem, bits-intersection}

  fits_lem :
      (a : Flags) (n : ℕ) (mock kernel : Abi)
      → bits a ≡ n
      → contains (from_all kernel) (a ∩ from_all mock) ≡ fits n mock kernel
  fits_lem a n mock kernel e =
      rw (contains_lem, bits-intersection, bits-from_all, bits-from_all, e) refl

  not_fits :
      (a : Flags) (n : ℕ) (mock kernel : Abi)
      → bits a ≡ n
      → fits n mock kernel ≡ false
      → ¬ (a ∩ from_all mock ⊆ from_all kernel)
  not_fits a n mock kernel e h sub =
      cc (h, fits_lem a n mock kernel e, (contains_iff (from_all kernel) (a ∩ from_all mock)).1 sub)

  pub graded_bits_lem :
      (a : Flags) (n : ℕ) (abi : Abi) → bits a ≡ n → graded_status a abi ≡ graded_bits n abi
  graded_bits_lem a n abi e =
      rw (contains_lem, is_empty_lem, bits-intersection, bits-from_all, e) refl

  module _ (V : View) (D : IsDocumented V) where
    -- What follows `create` succeeds with a status.
    abbrev pub Finishes :
        Abi
        → Flags
        → RulesetStatus
        → (RulesetCreated → Exec World TestRulesetError RestrictionStatus)
        → Type 0
    Finishes mock asked status rest =
        (c : RulesetCreated) (w : World)
        → IsLive V mock asked c w
        → Grades c.compat.state asked (from_all mock)
        → Succeeds (λ st w'. st ≡ record { status = status; no_new_privs = true }) (rest c w)

    Refused : Result RulesetCreated (RulesetError Flags) × World → Type 0
    Refused m = m.0 ≡ err (create_ruleset (create_ruleset_call (os (refusal V V.abi))))

    negative_fd : (n : ℤ) → n ≡ negsuc 0 → ¬ (pos 0 ≤ℤ n)
    negative_fd n e = rw e (λ h. omega arith)

    cases_of :
        (mock : Abi) (asked : Flags) (r : Ruleset) (w : World)
        → Built V mock best_effort asked r w
        → asked ≢ empty
        → ((is_enforced r.compat.state ≡ true) × (r.actual_handled_fs ≢ empty))
          ⊎ ((r.compat.state ≡ no_support) × (r.actual_handled_fs ≡ empty))
    cases_of mock asked r w b ne =
        Grades-cases V r.compat.state r.requested_handled_fs r.actual_handled_fs (from_all mock)
          (λ z. ne (sym b.asked_for ∙ z)) b.exact.handled b.exact.graded

    denied :
        (r : Ruleset) (w : World)
        → V.Ready w
        → r.actual_handled_fs ⊆ all
        → ¬ (r.actual_handled_fs ⊆ from_all V.abi)
        → (fd : ℤ) (w' : World)
        → landlock_create_ruleset (some (request_for r.actual_handled_fs)) 16 0 w ≡ (fd, w')
        → Denied V (fd, w')
    denied r w ready declared beyond fd w' call =
        subst (Denied V) call
          (create_ruleset-Denied V D r.actual_handled_fs w ready declared beyond)

    declared_rights :
        (r : Ruleset) (mock : Abi)
        → r.actual_handled_fs ≡ r.requested_handled_fs ∩ from_all mock
        → r.actual_handled_fs ⊆ all
    declared_rights r mock e =
        supported-declared r.actual_handled_fs mock
          (rw e (intersection-⊆_right r.requested_handled_fs (from_all mock)))

    Created-Refused :
        (mock : Abi) (asked : Flags) (r : Ruleset) (w : World)
        {m : Result RulesetCreated (RulesetError Flags) × World}
        → Built V mock best_effort asked r w
        → asked ≢ empty
        → ¬ (r.actual_handled_fs ⊆ from_all V.abi)
        → Created r w m
        → Refused m
    unfolding Refused
    Created-Refused mock asked r w b ne beyond (missing (inl z)) = absurd (ne (sym b.asked_for ∙ z))
    Created-Refused mock asked r w b ne beyond (missing (inr (z, hard))) =
        absurd (beyond (⊆-of_empty r.actual_handled_fs (from_all V.abi) z))
    Created-Refused mock asked r w b ne beyond (inert s z k c) =
        elim (cases_of mock asked r w b ne) [
          | inl h ↦ cc
          | inr h ↦ absurd (beyond (⊆-of_empty r.actual_handled_fs (from_all V.abi) h.1))
        ]
    Created-Refused mock asked r w b ne beyond (made fd w' some_right k call ge) =
        let (negative, told) =
          denied r w b.ready (declared_rights r mock b.exact.handled) beyond fd w' call in
        absurd (negative_fd fd negative ge)
    Created-Refused mock asked r w b ne beyond (failed fd w' some_right k call lt) =
        let (negative, told) =
          denied r w b.ready (declared_rights r mock b.exact.handled) beyond fd w' call in
        ap (λ (n : ℤ). err (create_ruleset (create_ruleset_call (os n)))) told

    carried :
        (e e' : RulesetError Flags)
        → ◌≡◌ {A = Result RulesetCreated (RulesetError Flags)} (err e) (err e')
        → e ≡ e'
    carried e e' h = cc

    refused_ends :
        (m : Result RulesetCreated (RulesetError Flags) × World)
        (rest : RulesetCreated → Exec World TestRulesetError RestrictionStatus)
        → Refused m
        → HasOutcome V refused (proceed (lift m) rest).0
    unfolding Refused
    refused_ends (ok c, w) rest h = cc
    refused_ends (err e, w) rest h =
        ap (λ (x : RulesetError Flags). err (ruleset_error x)) (carried e _ h)

    pub Succeeds-lift :
        {A : Type 0} (P : A → World → Type 0) (m : Result A (RulesetError Flags) × World)
        → Succeeds P m
        → Succeeds P (lift m)
    Succeeds-lift P (ok a, w) h = h
    Succeeds-lift P (err e, w) h = absurd h

    -- The outcome of `create` and what follows it.
    pub create_outcome :
        (mock : Abi) (asked : Flags) (n : ℕ) (r : Ruleset) (w : World) (status : RulesetStatus)
        (rest : RulesetCreated → Exec World TestRulesetError RestrictionStatus)
        → Built V mock best_effort asked r w
        → asked ≢ empty
        → bits asked ≡ n
        → Finishes mock asked status rest
        → HasOutcome V (outcome n status mock V.abi) (proceed (lift (create r w)) rest).0
    unfolding Refused
    create_outcome mock asked n r w status rest b ne e k =
        let mine =
          subst (λ (a : Flags). r.actual_handled_fs ≡ a ∩ from_all mock) b.asked_for
            b.exact.handled in
        elim (Bool-cases (fits n mock V.abi)) [
          | inl h ↦ rw h (
              Succeeds_value (record { status = status; no_new_privs = true }) _
                (Succeeds-proceed (Starts V mock r w)
                  (λ st w'. st ≡ record { status = status; no_new_privs = true })
                  (lift (create r w)) rest
                  (Succeeds-lift (Starts V mock r w) (create r w) (
                    create-IsLive V mock r w D b.exact b.at_level (λ z. ne (sym b.asked_for ∙ z))
                      b.ready
                      (rw mine (
                        (contains_iff (from_all V.abi) (asked ∩ from_all mock)).0
                          (fits_lem asked n mock V.abi e ∙ h)))))
                  (λ c w' (live, kept, kept_state).
                    k c w' (subst (λ (a : Flags). IsLive V mock a c w') b.asked_for live) (
                      rw kept_state (
                        subst (λ (a : Flags). Grades r.compat.state a (from_all mock)) b.asked_for
                          b.exact.graded)))))
          | inr h ↦ rw h (
              refused_ends (create r w) rest (
                Created-Refused mock asked r w b ne
                  (λ sub.
                    not_fits asked n mock V.abi e h
                      (subst (λ (a : Flags). a ⊆ from_all V.abi) mine sub))
                  (create-Created r w (IsExact-IsValid V mock r b.exact))))
        ]
