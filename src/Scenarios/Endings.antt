-- ===== src/Scenarios/Endings.antt =====
-- What follows `create` in the closures of src/lib.rs, on a kernel as documented: a rule for a path,
-- and `restrict_self`.
use rust_landlock.Prelude.{ℕ, Bool, true, ◌≡◌, ◌≢◌, inl, inr, refl, ap, subst, ◌∙◌}
use rust_landlock.Prelude.Exec.{
  Result, ok, err, Succeeds, Succeeds-proceed, value_Succeeds, Succeeds-weaken, proceed, ◌>>=◌,
  map_err,
}
use rust_landlock.Prelude.Int.{ℤ}
use rust_landlock.Uapi.{Sys, IoError}
use rust_landlock.BitFlags.{BitFlags}
use rust_landlock.BitFlags.Digits.{◌⊆◌}
use rust_landlock.BitFlags.Sets.{⊆-trans}
use rust_landlock.Errors.{open_call}
use rust_landlock.Compat.Abi.{Abi}
use rust_landlock.Compat.State.{CompatState, init, full, partial, no_support, dummy}
use rust_landlock.Access.Reported.{IsInvalid}
use rust_landlock.Fs.Rights.{from_all, access_file}
use rust_landlock.Fs.File.{FilePath, open_path, own}
use rust_landlock.Fs.PathBeneath.{new}
use rust_landlock.Fs.PathBeneath.Lenient.{IsWhole}
use rust_landlock.Ruleset.Types.{
  RulesetCreated, RestrictionStatus, RulesetStatus, not_enforced, partially_enforced, status_of,
}
use rust_landlock.Ruleset.Handle.Grades.{Grades}
use rust_landlock.Ruleset.Rules.{path_rule, add_rule_owned}
use rust_landlock.Ruleset.Restrict.{restrict_self}
use rust_landlock.Ruleset.Session.Live.{IsLive}
use rust_landlock.Ruleset.Session.Live.Rules.{RuleMoved, Serves, Goes}
use rust_landlock.Ruleset.Session.Live.Ends.{add_rule_owned-Goes, restrict_self_ends}
use rust_landlock.Ruleset.Session.Live.Loop.{IsLive-Keeps, unmoved}
use rust_landlock.Ruleset.Session.Paths.Documented.{graded_status_lem}
use rust_landlock.Kernel.{View, IsDocumented, OpenedAs}
use rust_landlock.Scenarios.Closures.{lift, fd_or_drop, rule_on}
use rust_landlock.Scenarios.Outcomes.{graded_bits, graded_bits_lem, Finishes, Succeeds-lift}

-- The status if some of the rule is left out.
abbrev pub less : RulesetStatus → RulesetStatus
less not_enforced = not_enforced
less _ = partially_enforced

module _ ⦃S : Sys⦄ ⦃E : BitFlags⦄ where
  open S use {World, open_file, o_path, o_cloexec}
  open E use {Flags, empty, bits}

  module _ (V : View) (D : IsDocumented V) where
    abbrev expected : RulesetStatus → RestrictionStatus
    expected s = record { status = s; no_new_privs = true }

    pub ends :
        (mock : Abi) (asked : Flags) (c : RulesetCreated) (w : World)
        → IsLive V mock asked c w
        → Succeeds (λ st w'. st ≡ expected (status_of c.compat.state)) (lift (restrict_self c w))
    ends mock asked c w live =
        Succeeds-lift V D (λ st w'. st ≡ expected (status_of c.compat.state)) (restrict_self c w)
          (value_Succeeds (expected (status_of c.compat.state)) (restrict_self c w)
            (restrict_self_ends V D mock asked c w live))

    -- The status of a state that grades what was asked for, from the words of the rights.
    pub status_bits :
        (mock : Abi) (asked : Flags) (n : ℕ) (s : CompatState)
        → asked ≢ empty
        → bits asked ≡ n
        → Grades s asked (from_all mock)
        → status_of s ≡ graded_bits n mock
    status_bits mock asked n s ne e g =
        graded_status_lem s asked mock ne g ∙ graded_bits_lem asked n mock e

    -- `restrict_self` only
    pub graded_bits-Finishes :
        (mock : Abi) (asked : Flags) (n : ℕ)
        → asked ≢ empty
        → bits asked ≡ n
        → Finishes V D mock asked (graded_bits n mock) (λ c w. lift (restrict_self c w))
    graded_bits-Finishes mock asked n ne e c w live g =
        subst
          (λ (s : RulesetStatus). Succeeds (λ st w'. st ≡ expected s) (lift (restrict_self c w)))
          (status_bits mock asked n c.compat.state ne e g) (ends mock asked c w live)

    abbrev pub Ruled : Flags → Bool → Abi → Flags → RulesetCreated → RulesetCreated → World → Type 0
    Ruled a file mock asked c c' w' =
        IsLive V mock asked c' w' × RuleMoved a file mock c.compat.state c'.compat.state

    opened_Ruled :
        (path : FilePath) (a : Flags) (file : Bool) (mock : Abi) (asked : Flags)
        (c : RulesetCreated) (w : World) (m : Result ℤ IoError × World)
        → IsLive V mock asked c w
        → ¬ IsInvalid a
        → a ⊆ asked
        → Serves a file mock
        → OpenedAs V file w m
        → Succeeds (Ruled a file mock asked c) (
            proceed
              (fd_or_drop c (own (map_err (λ e. open_call e path) m.0), m.1))
              (λ f w'. lift (add_rule_owned path_rule (new f.fd a) c w')))
    opened_Ruled path a file mock asked c w (ok fd, w') live v sub serves (is_open, kept) =
        Succeeds-lift V D (Ruled a file mock asked c) _ (
          Succeeds-weaken (λ c' w''. Goes V mock asked a file c w' tt (c', w''))
            (Ruled a file mock asked c) _
            (add_rule_owned-Goes V D a file mock asked c w' fd
              (IsLive-Keeps V D mock asked c w w' live kept) v sub is_open serves)
            (λ c' w'' (live', kept', moved). (live', moved)))
    opened_Ruled path a file mock asked c w (err x, w') live v sub serves kept = absurd kept

    -- A rule for a path where there is a file, or a directory.
    pub rule_on-Ruled :
        (path : FilePath) (a : Flags) (file : Bool) (mock : Abi) (asked : Flags)
        (c : RulesetCreated) (w : World)
        → V.IsPath path file
        → IsLive V mock asked c w
        → ¬ IsInvalid a
        → a ⊆ asked
        → Serves a file mock
        → Succeeds (Ruled a file mock asked c) (rule_on path a c w)
    unfolding rule_on open_path
    rule_on-Ruled path a file mock asked c w is_path live v sub serves =
        opened_Ruled path a file mock asked c w _ live v sub serves
          (D.opened_as path file w live.ready is_path)

    Grades-whole :
        (a asked f : Flags) (s : CompatState) → Grades s asked f → a ⊆ asked → s ≡ full → a ⊆ f
    Grades-whole a asked f s g sub e =
        ⊆-trans a asked f sub ((subst (λ (x : CompatState). Grades x asked f) e g).1)

    -- A rule of which everything that the ABI has is granted, and `restrict_self`.
    pub rule_on-Finishes :
        (path : FilePath) (a : Flags) (file : Bool) (mock : Abi) (asked : Flags) (n : ℕ)
        → V.IsPath path file
        → asked ≢ empty
        → bits asked ≡ n
        → ¬ IsInvalid a
        → a ⊆ asked
        → (file ≡ true → a ⊆ access_file)
        → Serves a file mock
        → Finishes V D mock asked
            (graded_bits n mock)
            (λ c. rule_on path a c >>= λ c' w. lift (restrict_self c' w))
    rule_on-Finishes path a file mock asked n is_path ne e v sub of_file serves c w live g =
        Succeeds-proceed (Ruled a file mock asked c) (λ st w'. st ≡ expected (graded_bits n mock))
          (rule_on path a c w) _
          (rule_on-Ruled path a file mock asked c w is_path live v sub serves)
          (λ c' w' (live', moved). graded_bits-Finishes mock asked n ne e c' w' live' (
            rw
              (unmoved V D a file mock c.compat.state c'.compat.state moved
                (λ h. (Grades-whole a asked (from_all mock) c.compat.state g sub h, of_file)))
              g))

    less_moved :
        (a : Flags) (file : Bool) (mock : Abi) (s s' : CompatState)
        → ¬ IsWhole a file mock
        → RuleMoved a file mock s s'
        → status_of s' ≡ less (status_of s)
    unfolding status_of
    less_moved a file mock init s' part m = ap status_of (m.inert refl)
    less_moved a file mock full s' part m = elim (m.enforced refl) [
      | inl (whole, e) ↦ absurd (part whole)
      | inr (p, e) ↦ ap status_of e
    ]
    less_moved a file mock partial s' part m = elim (m.enforced refl) [
      | inl (whole, e) ↦ absurd (part whole)
      | inr (p, e) ↦ ap status_of e
    ]
    less_moved a file mock no_support s' part m = ap status_of (m.inert refl)
    less_moved a file mock dummy s' part m = ap status_of (m.inert refl)

    -- A rule of which something is left out, and `restrict_self`.
    pub less-Finishes :
        (path : FilePath) (a : Flags) (file : Bool) (mock : Abi) (asked : Flags) (n : ℕ)
        → V.IsPath path file
        → asked ≢ empty
        → bits asked ≡ n
        → ¬ IsInvalid a
        → a ⊆ asked
        → ¬ IsWhole a file mock
        → Serves a file mock
        → Finishes V D mock asked
            (less (graded_bits n mock))
            (λ c. rule_on path a c >>= λ c' w. lift (restrict_self c' w))
    less-Finishes path a file mock asked n is_path ne e v sub part serves c w live g =
        Succeeds-proceed (Ruled a file mock asked c)
          (λ st w'. st ≡ expected (less (graded_bits n mock))) (rule_on path a c w) _
          (rule_on-Ruled path a file mock asked c w is_path live v sub serves)
          (λ c' w' (live', moved).
            subst
              (λ (s : RulesetStatus).
                Succeeds (λ st w''. st ≡ expected s) (lift (restrict_self c' w')))
              (less_moved a file mock c.compat.state c'.compat.state part moved
                ∙ ap less (status_bits mock asked n c.compat.state ne e g))
              (ends mock asked c' w' live'))
