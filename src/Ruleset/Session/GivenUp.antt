-- ===== src/Ruleset/Session/GivenUp.antt =====
-- A program that uses the builders of src/ruleset.rs, once a requirement that is not met has made the
-- state Dummy: the build is ignored.
pub mod Requests
pub mod Rule
pub mod Late
use rust_landlock.Prelude.{
  Bool, true, false, Option, none, some, List, [], ◌∷◌, ◌≡◌, ◌≢◌, ◌⊎◌, inl, inr, refl, sym, subst,
  ap, ◌∙◌, arith, Bool-cases,
}
use rust_landlock.Prelude.Exec.{Result, ok, err, proceed, ◌>>=◌, map_err}
use rust_landlock.Prelude.Int.{ℤ, pos, negsuc}
use rust_landlock.Uapi.{Sys, IoError}
use rust_landlock.BitFlags.{BitFlags}
use rust_landlock.BitFlags.Digits.{◌⊆◌}
use rust_landlock.Errors.{
  RulesetError, CompatError, AddRulesError, HandleAccessesError, handle_accesses, create_ruleset,
  missing_handled_access, add_rules as rules_error,
}
use rust_landlock.Compat.Abi.{Abi}
use rust_landlock.Compat.Level.{CompatLevel, soft_requirement, into, tailored_compat_level}
use rust_landlock.Compat.State.{CompatState, dummy, update}
use rust_landlock.Compat.TryCompat.{try_compat, try_compat_self, settle}
use rust_landlock.Access.{access_compat}
use rust_landlock.Access.Reported.{
  Reported, IsInvalid, granted, reduced, skipped, given_up, refused, rejected, try_compat-Reported,
}
use rust_landlock.Fs.Rights.{from_all}
use rust_landlock.Fs.File.{is_file}
use rust_landlock.Fs.PathBeneath.{PathBeneath, path_compat, path_children, path_inner}
use rust_landlock.Fs.PathBeneath.Fitted.{children_of}
use rust_landlock.Fs.PathBeneath.Moves.{IsMove, try_compat-IsMove}
use rust_landlock.Ruleset.Types.{
  Ruleset, RulesetCreated, RestrictionStatus, not_enforced, set_compatibility_created,
  set_no_new_privs, set_compatibility, with_state, status_of, created, drop, set_state,
}
use rust_landlock.Ruleset.Handle.{handle_access, add_handled}
use rust_landlock.Ruleset.Create.{create}
use rust_landlock.Ruleset.Create.Outcome.{Created, missing, inert, made, failed, create-Created}
use rust_landlock.Ruleset.Rules.{
  path_rule, add_rule, add_rule_owned, check_consistency, add_compatible, add_consistent, send_rule,
}
use rust_landlock.Ruleset.Restrict.{
  restrict_self, restrict_body, enforce_no_new_privs, enforce_ruleset,
}
use rust_landlock.Ruleset.Session.Calls.{
  Call, rule, no_new_privs, perform, perform_all, enforce, owned_rule,
}

module _ ⦃S : Sys⦄ ⦃E : BitFlags⦄ where
  open S use {World}
  open E use {Flags, empty, contains}

  -- Nothing but types of descriptors was asked of the system.
  pub data OnlyStats : World → World → Type 0 where
    same : (w : World) → OnlyStats w w
    stat : (w w' : World) (fd : ℤ) → OnlyStats w w' → OnlyStats w (is_file fd w').1

  OnlyStats-trans : {a b c : World} → OnlyStats a b → OnlyStats b c → OnlyStats a c
  OnlyStats-trans p (same w) = p
  OnlyStats-trans p (stat w w' fd q) = stat _ w' fd (OnlyStats-trans p q)

  -- A ruleset that was given up before the kernel was asked for one.
  pub record IsGivenUp (c : RulesetCreated) : Type 0 where
    pub final : c.compat.state ≡ dummy
    pub no_fd : c.fd ≡ negsuc 0

  restrict_self_given_up :
      (c : RulesetCreated) (w : World)
      → IsGivenUp c
      → restrict_self c w ≡ (ok (record { status = not_enforced; no_new_privs = false }), w)
  unfolding restrict_self restrict_body enforce_no_new_privs enforce_ruleset drop status_of
  restrict_self_given_up c w g = rw (g.final, g.no_fd) refl

  -- What the check of a rule asks of the system.
  onward_stats :
      (self : PathBeneath) (abi : Abi) (level : CompatLevel) (s : CompatState) (w : World)
      (out : Result (Option Flags) (CompatError Flags))
      → OnlyStats w
          (proceed
            (children_of self (out, (s, w)))
            (λ o. try_compat_self path_compat o abi level)).1.1
  unfolding try_compat_self path_inner
  onward_stats self abi level s w (ok (some g)) = stat w w self.parent_fd (same w)
  onward_stats self abi level s w (ok none) = same w
  onward_stats self abi level s w (err e) = same w

  pub check_stats :
      (self : PathBeneath) (abi : Abi) (parent : CompatLevel) (s : CompatState) (w : World)
      → OnlyStats w (try_compat path_compat self abi parent (s, w)).1.1
  unfolding try_compat path_children
  check_stats self abi parent s w =
      let level = tailored_compat_level self.compat_level parent in
      let inner = tailored_compat_level self.compat_level level in
      let (out, (s1, w1)) = try_compat access_compat self.allowed_access abi inner (s, w) in
      onward_stats self abi level s1 w1 out

  -- A ruleset that was given up, after a call that asked for types of descriptors at most.
  abbrev Left : World → RulesetCreated × World → Type 0
  Left w (c, w') = IsGivenUp c × OnlyStats w w'

  compatible_left :
      (out : Result (Option PathBeneath) (CompatError Flags)) (c : RulesetCreated) (w : World)
      → IsGivenUp c
      → (add_compatible path_rule out (c, w)).1 ≡ (c, w)
  unfolding add_compatible send_rule
  compatible_left (ok (some r)) c w g = rw g.final refl
  compatible_left (ok none) c w g = refl
  compatible_left (err e) c w g = refl

  checked-Left :
      (r : PathBeneath) (c : RulesetCreated) (w : World)
      → IsGivenUp c
      → Left w (
          let (out, (s', w')) =
            try_compat path_compat r c.compat.abi (into c.compat.level) (c.compat.state, w) in
          (add_compatible path_rule out (with_state s' c, w')).1)
  checked-Left r c w g =
      let (out, (s', w')) =
        try_compat path_compat r c.compat.abi (into c.compat.level) (c.compat.state, w) in
      let move = (try_compat-IsMove r c.compat.abi (into c.compat.level) c.compat.state w).0 in
      let after : IsGivenUp (with_state s' c) = record {
        final = move.ends g.final;
        no_fd = g.no_fd;
      } in
      subst (λ (x : RulesetCreated × World). Left w x)
        (sym (compatible_left out (with_state s' c) w' after))
        (after, check_stats r c.compat.abi (into c.compat.level) c.compat.state w)

  add_rule-Left :
      (r : PathBeneath) (c : RulesetCreated) (w : World)
      → IsGivenUp c
      → Left w (add_rule path_rule r (c, w)).1
  unfolding add_rule check_consistency
  add_rule-Left r c w g = elim (Bool-cases (contains c.requested_handled_fs r.allowed_access)) [
    | inl e ↦ rw e (checked-Left r c w g)
    | inr e ↦ rw e (g, same w)
  ]

  -- What a call on such a ruleset gives: the ruleset, or the error of a rule, and then it is dropped.
  abbrev pub Ongoing : World → Result RulesetCreated (RulesetError Flags) × World → Type 0
  Ongoing w (ok c, w') = Left w (c, w')
  Ongoing w (err e, w') = (x : AddRulesError Flags) × (e ≡ rules_error x) × OnlyStats w w'

  drop_nothing : (c : RulesetCreated) (w : World) → IsGivenUp c → drop c w ≡ w
  unfolding drop
  drop_nothing c w g = rw g.no_fd refl

  owned-Left :
      (x : Result (Unit {0}) (AddRulesError Flags)) (c' : RulesetCreated) (w w' : World)
      → Left w (c', w')
      → Ongoing w (owned_rule (map_err rules_error x, (c', w')))
  owned-Left (ok u) c' w w' l = l
  owned-Left (err e) c' w w' (g, stats) = (e, refl, rw (drop_nothing c' w' g) stats)

  perform-Ongoing :
      (call : Call) (c : RulesetCreated) (w : World) → IsGivenUp c → Ongoing w (perform call c w)
  unfolding perform add_rule_owned add_rule set_compatibility_created set_no_new_privs
  perform-Ongoing (rule r) c w g =
      owned-Left (add_consistent path_rule (check_consistency r c) r (c, w)).0 _ w _
        (add_rule-Left r c w g)
  perform-Ongoing (Call.level l) c w g = (record { final = g.final; no_fd = g.no_fd }, same w)
  perform-Ongoing (no_new_privs b) c w g = (record { final = g.final; no_fd = g.no_fd }, same w)

  -- What a program gets whose build is ignored.
  pub data Ignored (w : World)
      : Result RestrictionStatus (RulesetError Flags) × World → Type 0 where
    untouched :
        (w' : World)
        → OnlyStats w w'
        → Ignored w (ok (record { status = not_enforced; no_new_privs = false }), w')
    bad_rule :
        (x : AddRulesError Flags) (w' : World)
        → OnlyStats w w'
        → Ignored w (err (rules_error x), w')
    bad_request : (x : HandleAccessesError Flags) → Ignored w (err (handle_accesses x), w)
    nothing_handled : Ignored w (err (create_ruleset missing_handled_access), w)

  ends :
      (w0 : World) (m : Result RulesetCreated (RulesetError Flags) × World)
      → Ongoing w0 m
      → Ignored w0 (proceed m restrict_self)
  ends w0 (ok c, w) (g, stats) = rw (restrict_self_given_up c w g) (untouched w stats)
  ends w0 (err e, w) (x, k, stats) = rw k (bad_rule x w stats)

  goes_on :
      (calls : List Call) (w0 : World) (m : Result RulesetCreated (RulesetError Flags) × World)
      → ((c : RulesetCreated) (w : World) → IsGivenUp c → Ongoing w (perform_all calls c w))
      → Ongoing w0 m
      → Ongoing w0 (proceed m (perform_all calls))
  goes_on calls w0 (ok c, w) k (g, stats) = onto w0 w (perform_all calls c w) stats (k c w g)
    where
      onto :
          (w0 w : World) (m : Result RulesetCreated (RulesetError Flags) × World)
          → OnlyStats w0 w
          → Ongoing w m
          → Ongoing w0 m
      onto w0 w (ok c', w') stats (g', more) = (g', OnlyStats-trans stats more)
      onto w0 w (err e, w') stats (x, k', more) = (x, k', OnlyStats-trans stats more)
  goes_on calls w0 (err e, w) k o = o

  perform_all-Ongoing :
      (calls : List Call) (c : RulesetCreated) (w : World)
      → IsGivenUp c
      → Ongoing w (perform_all calls c w)
  unfolding perform_all
  perform_all-Ongoing [] c w g = (g, same w)
  perform_all-Ongoing (call ∷ calls) c w g =
      goes_on calls w (perform call c w) (λ c' w' g'. perform_all-Ongoing calls c' w' g')
        (perform-Ongoing call c w g)

  -- From a ruleset that was given up to `restrict_self`.
  pub calls-Ignored :
      (calls : List Call) (c : RulesetCreated) (w : World)
      → IsGivenUp c
      → Ignored w (proceed (perform_all calls c w) restrict_self)
  calls-Ignored calls c w g = ends w (perform_all calls c w) (perform_all-Ongoing calls c w g)
