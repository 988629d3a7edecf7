-- ===== src/Ruleset/Session/Closed/Once.antt =====
-- The calls of close over a whole chain of calls on a created ruleset. The rules are those that lend
-- their descriptor, as `PathBeneath<BorrowedFd>` does; one that owns it, as `PathBeneath<PathFd>`, closes
-- it when it is dropped, which is not part of the model.
use rust_landlock.Prelude.{Option, ℕ, ◌+◌, List, [], ◌∷◌, ◌≡◌, refl, subst, ap, ◌∙◌}
use rust_landlock.Prelude.Exec.{Result, ok, err, proceed}
use rust_landlock.Prelude.Int.{ℤ}
use rust_landlock.Uapi.{Sys}
use rust_landlock.BitFlags.{BitFlags}
use rust_landlock.Errors.{RulesetError}
use rust_landlock.Fs.PathBeneath.{PathBeneath}
use rust_landlock.Ruleset.Types.{RulesetCreated, set_compatibility_created, set_no_new_privs}
use rust_landlock.Ruleset.Rules.{path_rule, add_rules}
use rust_landlock.Ruleset.Restrict.{restrict_self}
use rust_landlock.Ruleset.Session.Calls.{Call, rule, no_new_privs, perform, perform_all}
use rust_landlock.Ruleset.Session.Closed.Loop.{
  Accounted, Accounted-proceed, add_rule_owned-Accounted, add_rules-Accounted, AllKeep,
}
use rust_landlock.Ruleset.Session.Closed.{Ledger, due, restrict_self_counted}

module _ ⦃S : Sys⦄ ⦃E : BitFlags⦄ where
  open S use {World, fstat, open_file, o_path, o_cloexec}
  open E use {Flags}

  module _ (L : Ledger) where
    open L use {closes}

    perform-Accounted :
        (call : Call) (c : RulesetCreated) (w : World) → Accounted L c w (perform call c w)
    unfolding perform Accounted set_compatibility_created set_no_new_privs
    perform-Accounted (rule r) c w = add_rule_owned-Accounted L r c w
    perform-Accounted (Call.level l) c w = (refl, λ d. refl)
    perform-Accounted (no_new_privs b) c w = (refl, λ d. refl)

    perform_all-Accounted :
        (calls : List Call) (c : RulesetCreated) (w : World)
        → Accounted L c w (perform_all calls c w)
    unfolding perform_all Accounted
    perform_all-Accounted [] c w = (refl, λ d. refl)
    perform_all-Accounted (call ∷ calls) c w =
        Accounted-proceed L c w (perform call c w) (perform_all calls) (perform-Accounted call c w)
          (perform_all-Accounted calls)

    last_counted :
        (c : RulesetCreated) (w : World) (m : Result RulesetCreated (RulesetError Flags) × World)
        → Accounted L c w m
        → closes c.fd (proceed m restrict_self).1 ≡ closes c.fd w + due c.fd
    unfolding Accounted
    last_counted c w (ok c', w') (fd, kept) =
        subst (λ (x : ℤ). closes x (restrict_self c' w').1 ≡ closes x w + due x) fd
          (restrict_self_counted L c' w' ∙ ap (λ (n : ℕ). n + due c'.fd) (kept c'.fd))
    last_counted c w (err e, w') k = k

    -- On each system with a ledger of the calls of close, for each created ruleset, each iterator whose
    -- steps close nothing, added by add_rules, each list of further calls, and restrict_self, where
    -- the first error ends the chain, and where all rules are of the kind that lends its descriptor,
    -- whose drop closes nothing: whether an error is returned or not, the descriptor of the ruleset is
    -- closed exactly once, or not at all if it is below 0.
    pub fd_closed_once :
        (steps : List (World → Option (Result PathBeneath (RulesetError Flags)) × World))
        (calls : List Call) (c : RulesetCreated) (w : World)
        → AllKeep L steps
        → closes c.fd
            (proceed
              (proceed (add_rules path_rule (λ e. e) steps c w) (perform_all calls))
              restrict_self).1
          ≡ closes c.fd w + due c.fd
    fd_closed_once steps calls c w kept =
        last_counted c w (proceed (add_rules path_rule (λ e. e) steps c w) (perform_all calls)) (
          Accounted-proceed L c w (add_rules path_rule (λ e. e) steps c w) (perform_all calls)
            (add_rules-Accounted L (λ e. e) steps c w kept) (perform_all-Accounted calls))
