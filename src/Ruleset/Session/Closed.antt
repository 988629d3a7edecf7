-- ===== src/Ruleset/Session/Closed.antt =====
-- How often `Drop for RulesetCreated` of src/ruleset.rs closes the descriptor of a ruleset, with rules
-- that lend their descriptor.
pub mod Loop
pub mod Once
use rust_landlock.Prelude.{
  ℕ, ◌+◌, Bool, true, false, Option, none, some, List, [], ◌∷◌, map, ◌≡◌, refl, sym, subst, ap, ◌∙◌,
  arith, not, ◌&&◌, Bool-cases, if◌then◌else◌, inl, inr,
}
use rust_landlock.Prelude.Exec.{Result, ok, err, Exec, proceed, ◌>>=◌}
use rust_landlock.Prelude.Int.{ℤ, pos, leb_ℤ, is_zero}
use rust_landlock.Uapi.{
  Sys, Syscall, IoError, landlock_add_rule, landlock_rule_path_beneath, landlock_restrict_self,
  landlock_create_ruleset,
}
use rust_landlock.BitFlags.{BitFlags}
use rust_landlock.Errors.{RulesetError, RestrictSelfError, CompatError, AddRulesError}
use rust_landlock.Compat.Level.{CompatLevel, best_effort, soft_requirement, hard_requirement, into}
use rust_landlock.Ruleset.Types.{
  RulesetCreated, RestrictionStatus, is_enforced, is_dummy, with_state, drop,
}
use rust_landlock.Ruleset.Rules.{
  path_rule, add_rule, add_rule_owned, add_compatible, send_rule, check_consistency, add_rules,
}
use rust_landlock.Compat.TryCompat.{try_compat}
use rust_landlock.Fs.PathBeneath.{
  PathBeneath, path_compat, rule_of_path, rule_for, path_beneath_rules,
}
use rust_landlock.Ruleset.Session.Calls.{owned_rule}
use rust_landlock.Fs.File.{FilePath, is_file, open_path}
use rust_landlock.Ruleset.Session.GivenUp.{OnlyStats, same, stat, check_stats}
use rust_landlock.Ruleset.Restrict.{
  prctl_set_no_new_privs, support_no_new_privs, tolerate, after_failure, enforce_no_new_privs,
  enforce_ruleset, restrict_body, restrict_self,
}

module _ ⦃S : Sys⦄ where
  open S use {World, syscall, prctl, fstat, close, open_file}

  -- A count of the calls of close for each descriptor: close adds one to that of its own, and the
  -- other calls leave all counts.
  pub record Ledger : Type 0 where
    pub closes : ℤ → World → ℕ
    pub close_counted : (fd : ℤ) (w : World) → closes fd (close fd w).1 ≡ closes fd w + 1
    pub syscall_counted :
        (d : ℤ) (call : Syscall) (w : World) → closes d (syscall call w).1 ≡ closes d w
    pub prctl_counted :
        (d : ℤ) (option a b c e : ℕ) (w : World) → closes d (prctl option a b c e w).1 ≡ closes d w
    pub fstat_counted : (d fd : ℤ) (w : World) → closes d (fstat fd w).1 ≡ closes d w
    pub open_counted :
        (d : ℤ) (read : Bool) (flags : ℕ) (path : List ℕ) (w : World)
        → closes d (open_file read flags path w).1 ≡ closes d w

  -- How often a descriptor has to be closed: the ones below 0 are none.
  abbrev pub due : ℤ → ℕ
  due fd = if leb_ℤ (pos 0) fd then 1 else 0

  module _ ⦃E : BitFlags⦄ (L : Ledger) where
    open E use {Flags, contains}
    open L use {closes}

    pub drop_counted :
        (c : RulesetCreated) (w : World) → closes c.fd (drop c w) ≡ closes c.fd w + due c.fd
    unfolding drop
    drop_counted c w = elim (Bool-cases (leb_ℤ (pos 0) c.fd)) [
      | inl e ↦ rw e (L.close_counted c.fd w)
      | inr e ↦ rw e (omega arith)
    ]

    -- A call through `&mut` that leaves the descriptor, and closes nothing.
    abbrev pub Untouched : RulesetCreated × World → RulesetCreated × World → Type 0
    Untouched (c, w) (c', w') = (c'.fd ≡ c.fd) × ((d : ℤ) → closes d w' ≡ closes d w)

    tolerate-Untouched :
        (e : IoError) (c : RulesetCreated) (w : World) → Untouched (c, w) (tolerate e (c, w)).1
    unfolding tolerate support_no_new_privs
    tolerate-Untouched e c w =
        (ground arith, λ d. ground (arith, L.prctl_counted d S.pr_get_no_new_privs 0 0 0 0 w))

    after_failure-Untouched :
        (l : CompatLevel) (e : IoError) (c : RulesetCreated) (w : World)
        → Untouched (c, w) (after_failure l e (c, w)).1
    unfolding after_failure
    after_failure-Untouched best_effort e c w = tolerate-Untouched e c w
    after_failure-Untouched soft_requirement e c w = tolerate-Untouched e _ w
    after_failure-Untouched hard_requirement e c w = (refl, λ d. refl)

    prctl_set_counted : (w : World) (d : ℤ) → closes d (prctl_set_no_new_privs w).1 ≡ closes d w
    unfolding prctl_set_no_new_privs
    prctl_set_counted w d = ground (arith, L.prctl_counted d S.pr_set_no_new_privs 1 0 0 0 w)

    -- What is done with the answer of prctl.
    abbrev answered :
        RulesetCreated
        → Result (Unit {0}) IoError × World
        → Result Bool RestrictSelfError × (RulesetCreated × World)
    answered c (ret, w') = elim ret [
      | ok _ ↦ (ok true, (c, w'))
      | err e ↦ after_failure (into c.compat.level) e (c, w')
    ]

    set-Untouched :
        (c : RulesetCreated) (w : World) (m : Result (Unit {0}) IoError × World)
        → ((d : ℤ) → closes d m.1 ≡ closes d w)
        → Untouched (c, w) (answered c m).1
    set-Untouched c w (ok u, w') k = (refl, k)
    set-Untouched c w (err e, w') k =
        let (fd, kept) = after_failure-Untouched (into c.compat.level) e c w' in
        (fd, λ d. kept d ∙ k d)

    nnp-Untouched :
        (c : RulesetCreated) (w : World) → Untouched (c, w) (enforce_no_new_privs (c, w)).1
    unfolding enforce_no_new_privs
    nnp-Untouched c w = elim (Bool-cases (not (is_dummy c.compat.state) && c.no_new_privs)) [
      | inl e ↦ rw e (set-Untouched c w (prctl_set_no_new_privs w) (prctl_set_counted w))
      | inr e ↦ rw e (refl, λ d. refl)
    ]

    ruleset-Untouched :
        (b : Bool) (c : RulesetCreated) (w : World) → Untouched (c, w) (enforce_ruleset b (c, w)).1
    unfolding enforce_ruleset landlock_restrict_self
    ruleset-Untouched b c w =
        (ground arith, λ d. ground (arith, L.syscall_counted d (Syscall.restrict_self c.fd 0) w))

    then-Untouched :
        (c : RulesetCreated) (w : World)
        (m : Result Bool RestrictSelfError × (RulesetCreated × World))
        → Untouched (c, w) m.1
        → Untouched (c, w) (proceed m enforce_ruleset).1
    then-Untouched c w (ok b, (c', w')) (fd, kept) =
        let (fd', kept') = ruleset-Untouched b c' w' in (fd' ∙ fd, λ d. kept' d ∙ kept d)
    then-Untouched c w (err e, (c', w')) k = k

    -- `restrict_self` closes the ruleset's descriptor, however it ends.
    pub restrict_self_counted :
        (c : RulesetCreated) (w : World)
        → closes c.fd (restrict_self c w).1 ≡ closes c.fd w + due c.fd
    unfolding restrict_self restrict_body
    restrict_self_counted c w =
        let (c', w') = (restrict_body (c, w)).1 in
        let (fd, kept) = then-Untouched c w (enforce_no_new_privs (c, w)) (nnp-Untouched c w) in
        subst (λ (x : ℤ). closes x (drop c' w') ≡ closes x w + due x) fd
          (drop_counted c' w' ∙ ap (λ (n : ℕ). n + due c'.fd) (kept c'.fd))

    stats_counted : {w w' : World} → OnlyStats w w' → (d : ℤ) → closes d w' ≡ closes d w
    unfolding is_file
    stats_counted (same w) d = refl
    stats_counted (stat w w' fd rest) d =
        ground (arith, L.fstat_counted d fd w') ∙ stats_counted rest d

    send-Untouched :
        (r : PathBeneath) (c : RulesetCreated) (w : World)
        → Untouched (c, w) (send_rule path_rule r (c, w)).1
    unfolding send_rule landlock_add_rule
    send-Untouched r c w = (
      ground arith,
      λ d. ground (
        arith,
        L.syscall_counted d (Syscall.add_rule c.fd landlock_rule_path_beneath r.attr 0) w,
      ),
    )

    compatible-Untouched :
        (out : Result (Option PathBeneath) (CompatError Flags)) (c : RulesetCreated) (w : World)
        → Untouched (c, w) (add_compatible path_rule out (c, w)).1
    unfolding add_compatible
    compatible-Untouched (ok (some r)) c w = send-Untouched r c w
    compatible-Untouched (ok none) c w = (refl, λ d. refl)
    compatible-Untouched (err e) c w = (refl, λ d. refl)

    checked-Untouched :
        (r : PathBeneath) (c : RulesetCreated) (w : World)
        → Untouched
            (c, w)
            (let (out, (s', w')) =
                try_compat path_compat r c.compat.abi (into c.compat.level) (c.compat.state, w) in
              (add_compatible path_rule out (with_state s' c, w')).1)
    checked-Untouched r c w =
        let (out, (s', w')) =
          try_compat path_compat r c.compat.abi (into c.compat.level) (c.compat.state, w) in
        let stats = check_stats r c.compat.abi (into c.compat.level) c.compat.state w in
        let (fd, kept) = compatible-Untouched out (with_state s' c) w' in
        (fd, λ d. kept d ∙ stats_counted stats d)

    pub add_rule-Untouched :
        (r : PathBeneath) (c : RulesetCreated) (w : World)
        → Untouched (c, w) (add_rule path_rule r (c, w)).1
    unfolding add_rule check_consistency
    add_rule-Untouched r c w =
        elim (Bool-cases (contains c.requested_handled_fs r.allowed_access)) [
          | inl e ↦ rw e (checked-Untouched r c w)
          | inr e ↦ rw e (refl, λ d. refl)
        ]
