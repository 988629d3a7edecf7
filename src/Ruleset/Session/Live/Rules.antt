-- ===== src/Ruleset/Session/Live/Rules.antt =====
-- `add_rule` and `add_rules` of src/ruleset.rs on a kernel as documented, at best effort.
use rust_landlock.Prelude.{
  Bool, true, false, Option, ◌≡◌, ◌≢◌, inl, inr, sym, ap, subst, ◌∙◌, arith,
}
use rust_landlock.Prelude.Exec.{Result, ok, err, Succeeds, map_err}
use rust_landlock.Prelude.Int.{ℤ}
use rust_landlock.Uapi.{Sys}
use rust_landlock.BitFlags.{BitFlags, ◌∩◌}
use rust_landlock.BitFlags.Digits.{◌⊆◌, contains_iff, intersection_of_subset, has-intersection}
use rust_landlock.BitFlags.Sets.{⊆-trans, ⊆-empty}
use rust_landlock.Errors.{CompatError, AddRulesError, add_rules as rules_error}
use rust_landlock.Compat.Abi.{Abi}
use rust_landlock.Compat.Level.{CompatLevel, best_effort, into}
use rust_landlock.Compat.State.{CompatState, no_support, update}
use rust_landlock.Compat.TryCompat.{try_compat}
use rust_landlock.Access.Reported.{IsInvalid}
use rust_landlock.Fs.Rights.{from_all}
use rust_landlock.Fs.File.{is_file}
use rust_landlock.Fs.PathBeneath.{PathBeneath, new, sync_attr, valid_access, path_compat}
use rust_landlock.Fs.PathBeneath.Fitted.{fitted}
use rust_landlock.Fs.PathBeneath.Lenient.{Moved, Fits, left, passed, try_compat-Fits}
use rust_landlock.Ruleset.Types.{RulesetCreated, is_enforced, with_state}
use rust_landlock.Ruleset.Rules.{
  path_rule, check_consistency, send_rule, add_compatible, add_consistent, add_rule,
}
use rust_landlock.Ruleset.Rules.Outcome.{valid_access-⊆, valid_access_of_file}
use rust_landlock.Kernel.{View, Keeps, IsDocumented}
use rust_landlock.Kernel.Calls.{Keeps-refl, Keeps-trans, add_rule_done, is_file_told}
use rust_landlock.Ruleset.Session.Live.{Standing, enforcing, idle, IsLive}

module _ ⦃S : Sys⦄ ⦃E : BitFlags⦄ where
  open S use {World}
  open E use {Flags, empty, contains}

  -- How a rule moves the state of a ruleset.
  pub record RuleMoved (a : Flags) (file : Bool) (abi : Abi) (s s' : CompatState) : Type 0 where
    pub enforced : is_enforced s ≡ true → Moved a file abi s s'
    pub inert : is_enforced s ≡ false → s' ≡ s

  -- If the ABI has some of the rights, some make sense for what they are given on.
  abbrev pub Serves : Flags → Bool → Abi → Type 0
  Serves a file abi = a ∩ from_all abi ≢ empty → valid_access file (a ∩ from_all abi) ≢ empty

  Moved-enforced :
      (a : Flags) (file : Bool) (abi : Abi) (s s' : CompatState)
      → is_enforced s ≡ true
      → Moved a file abi s s'
      → is_enforced s' ≡ true
  Moved-enforced a file abi s s' h (inl (whole, e)) = ap is_enforced e ∙ h
  Moved-enforced a file abi s s' h (inr (less, e)) = ap is_enforced e

  update-none :
      (a : Flags) (file : Bool) (abi : Abi) (s : CompatState)
      → ¬ IsInvalid a
      → a ∩ from_all abi ≡ empty
      → is_enforced s ≡ true
      → Moved a file abi s (update s no_support)
  unfolding update
  update-none a file abi s v e h =
      inr (
        (λ whole. v (inl (sym (intersection_of_subset a (from_all abi) whole.0) ∙ e))),
        ground arith,
      )

  within : (a b f : Flags) → a ⊆ b → a ∩ f ⊆ b ∩ f
  within a b f h i p = ground (arith, has-intersection a f i, has-intersection b f i, h i)

  module _ (V : View) where
    -- What a call that adds a rule leaves.
    abbrev pub Goes :
        Abi
        → Flags
        → Flags
        → Bool
        → RulesetCreated
        → World
        → Unit {0}
        → RulesetCreated × World
        → Type 0
    Goes abi asked a file c w u (c', w') =
        IsLive V abi asked c' w'
        × Keeps V w w'
        × RuleMoved a file abi c.compat.state c'.compat.state

    -- The ruleset in a state that fits, after a call that keeps what is open.
    goes :
        (a : Flags) (file : Bool) (abi : Abi) (asked : Flags) (c : RulesetCreated) (w w' : World)
        (s' : CompatState)
        → IsLive V abi asked c w
        → Keeps V w w'
        → (is_enforced c.compat.state ≡ true → Moved a file abi c.compat.state s')
        → (c.compat.state ≡ no_support → s' ≡ no_support)
        → Goes abi asked a file c w tt (with_state s' c, w')
    goes a file abi asked c w w' s' live kept moved stays = (
      record {
        ready = kept.ready;
        nnp = live.nnp;
        lenient = live.lenient;
        abi_kept = live.abi_kept;
        requested = live.requested;
        standing = stands live.standing;
      },
      kept,
      moves live.standing,
    )
      where
        stands :
            Standing V (asked ∩ from_all abi) c w
            → Standing V (asked ∩ from_all abi) (with_state s' c) w'
        stands (enforcing ne e is_ruleset) =
            enforcing ne (Moved-enforced a file abi c.compat.state s' e (moved e))
              (kept.rulesets c.fd (asked ∩ from_all abi) is_ruleset)
        stands (idle none_left e) = idle none_left (stays e)

        moves : Standing V (asked ∩ from_all abi) c w → RuleMoved a file abi c.compat.state s'
        moves (enforcing ne e is_ruleset) = record { enforced = moved; inert = λ h. cc }
        moves (idle none_left e) = record { enforced = moved; inert = λ h. stays e ∙ sym e }

    -- The rule that is let through is sent, if there is a ruleset to send it to.
    sent :
        (a : Flags) (file : Bool) (abi : Abi) (asked : Flags) (c : RulesetCreated) (w w1 : World)
        (p : ℤ) (s' : CompatState)
        → IsDocumented V
        → IsLive V abi asked c w
        → Keeps V w w1
        → a ⊆ asked
        → V.IsOpen w p file
        → Serves a file abi
        → a ∩ from_all abi ≢ empty
        → (is_enforced c.compat.state ≡ true → Moved a file abi c.compat.state s')
        → Succeeds
            (Goes abi asked a file c w)
            (send_rule path_rule (fitted (new p (a ∩ from_all abi)) file) (with_state s' c, w1))
    unfolding send_rule new sync_attr
    sent a file abi asked c w w1 p s' D live kept sub is_open serves ne moved = elim live.standing [
      | enforcing some_right e is_ruleset ↦
          (let (zero_ret, kept') =
              add_rule_done V D c.fd p (asked ∩ from_all abi) (valid_access file (a ∩ from_all abi))
                file w1 kept.ready (kept.rulesets c.fd _ is_ruleset) (kept.files p file is_open)
                (serves ne)
                (⊆-trans (valid_access file (a ∩ from_all abi)) (a ∩ from_all abi) _
                  (valid_access-⊆ file _) (within a asked (from_all abi) sub))
                (valid_access_of_file file _) in
            rw (Moved-enforced a file abi c.compat.state s' e (moved e), zero_ret)
              (goes a file abi asked c w _ s' live (Keeps-trans V kept kept') moved (λ h. cc)))
      | idle none_left e ↦ absurd (
          ne (
            ⊆-empty _ (
              subst (λ (x : Flags). a ∩ from_all abi ⊆ x) none_left
                (within a asked (from_all abi) sub))))
    ]

    checked :
        (a : Flags) (file : Bool) (abi : Abi) (asked : Flags) (c : RulesetCreated) (w w1 : World)
        (p : ℤ) {out : Result (Option PathBeneath) (CompatError Flags) × (CompatState × World)}
        → IsDocumented V
        → IsLive V abi asked c w
        → Keeps V w w1
        → ¬ IsInvalid a
        → a ⊆ asked
        → V.IsOpen w p file
        → Serves a file abi
        → Fits p a file abi c.compat.state w w1 out
        → Succeeds
            (Goes abi asked a file c w)
            (add_compatible path_rule out.0 (with_state out.1.0 c, out.1.1))
    unfolding add_compatible update
    checked a file abi asked c w w1 p D live kept v sub is_open serves (left e) =
        goes a file abi asked c w w (update c.compat.state no_support) live
          (Keeps-refl V live.ready) (update-none a file abi c.compat.state v e)
          (λ h. ap (λ (s : CompatState). update s no_support) h)
    checked a file abi asked c w w1 p D live kept v sub is_open serves (passed s' ne moved) =
        sent a file abi asked c w w1 p s' D live kept sub is_open serves ne moved

    told-Fits :
        (p : ℤ) (a : Flags) (mine abi : Abi) (level : CompatLevel) (file : Bool) (s : CompatState)
        (w : World)
        → mine ≡ abi
        → level ≡ best_effort
        → ¬ IsInvalid a
        → (is_file p w).0 ≡ ok file
        → Fits p a file abi s w (is_file p w).1 (try_compat path_compat (new p a) mine level (s, w))
    told-Fits p a mine abi level file s w e l v told =
        rw (e, l) (try_compat-Fits p a abi file s w v told)

    Succeeds-wrapped :
        (P : Unit {0} → RulesetCreated × World → Type 0)
        (m : Result (Unit {0}) (AddRulesError Flags) × (RulesetCreated × World))
        → Succeeds P m
        → Succeeds P (map_err rules_error m.0, m.1)
    Succeeds-wrapped P (ok u, st) h = h
    Succeeds-wrapped P (err e, st) h = absurd h

    -- On a kernel as documented, at best effort, adding a rule of declared rights that were asked for, on
    -- a descriptor that is open, succeeds, and leaves a ruleset that can go on.
    pub add_rule-Goes :
        (a : Flags) (file : Bool) (abi : Abi) (asked : Flags) (c : RulesetCreated) (w : World)
        (p : ℤ)
        → IsDocumented V
        → IsLive V abi asked c w
        → ¬ IsInvalid a
        → a ⊆ asked
        → V.IsOpen w p file
        → Serves a file abi
        → Succeeds (Goes abi asked a file c w) (add_rule path_rule (new p a) (c, w))
    unfolding add_rule add_consistent check_consistency new
    add_rule-Goes a file abi asked c w p D live v sub is_open serves =
        let (told, kept) = is_file_told V D p file w live.ready is_open in
        rw
          ((contains_iff c.requested_handled_fs a).1
            (subst (λ (x : Flags). a ⊆ x) (sym live.requested) sub))
          (Succeeds-wrapped (Goes abi asked a file c w) _ (
            checked a file abi asked c w _ p D live kept v sub is_open serves (
              told-Fits p a c.compat.abi abi (into c.compat.level) file c.compat.state w
                live.abi_kept live.lenient v told)))
