-- ===== src/Ruleset/Rules/Outcome.antt =====
-- What `add_rule` does with a `PathBeneath`.
use rust_landlock.Prelude.{
  ℕ, Bool, true, false, not, ◌&&◌, Option, none, some, ◌≡◌, ◌⊎◌, refl, subst, inl, inr, arith,
  Bool-cases,
}
use rust_landlock.Prelude.Exec.{Result, ok, err, map_err}
use rust_landlock.Prelude.Int.{ℤ, is_zero}
use rust_landlock.Uapi.{
  Sys, LandlockPathBeneathAttr, landlock_add_rule, landlock_rule_path_beneath, last_os_error,
}
use rust_landlock.BitFlags.{BitFlags}
use rust_landlock.BitFlags.Digits.{has, ◌⊆◌, contains_iff, has-intersection, has-complement}
use rust_landlock.BitFlags.Sets.{intersection-⊆_left, intersection-⊆_right, ⊆-trans}
use rust_landlock.Errors.{
  CompatError, AddRuleError, AddRulesError, RulesetError, add_rule_call, unhandled_access,
  add_rules as rules_error,
}
use rust_landlock.Compat.Abi.{Abi}
use rust_landlock.Compat.Level.{into}
use rust_landlock.Compat.State.{CompatState, dummy}
use rust_landlock.Compat.TryCompat.{try_compat}
use rust_landlock.Compat.TryCompat.Outcome.{try_compat-err}
use rust_landlock.Fs.Rights.{from_all, access_file}
use rust_landlock.Fs.File.{is_file}
use rust_landlock.Fs.PathBeneath.{PathBeneath, valid_access, sync_attr, path_compat}
use rust_landlock.Fs.PathBeneath.Fitted.{fitted, IsGrant, try_compat_shape, path_compat-IsFinal}
use rust_landlock.Ruleset.Types.{RulesetCreated, is_enforced, with_state}
use rust_landlock.Ruleset.Rules.{path_rule, check_consistency, send_rule, add_compatible, add_rule}

module _ ⦃E : BitFlags⦄ where
  open E use {Flags, bits, all, contains, complement}

  -- What the kernel is given for the rights `h` of a rule.
  abbrev pub attr_for : PathBeneath → Flags → LandlockPathBeneathAttr
  attr_for rule h = record { allowed_access = bits h; parent_fd = rule.attr.parent_fd }

  pub valid_access-⊆ : (file : Bool) (g : Flags) → valid_access file g ⊆ g
  unfolding valid_access
  valid_access-⊆ true g = intersection-⊆_left g access_file
  valid_access-⊆ false g = λ i p. p

  pub valid_access_of_file :
      (file : Bool) (g : Flags) → file ≡ true → valid_access file g ⊆ access_file
  unfolding valid_access
  valid_access_of_file true g e = intersection-⊆_right g access_file
  valid_access_of_file false g e = cc

  module _ ⦃S : Sys⦄ where
    open S use {World}

    -- The check that `add_rule` makes of a rule.
    abbrev pub checked :
        PathBeneath
        → RulesetCreated
        → World
        → Result (Option PathBeneath) (CompatError Flags) × (CompatState × World)
    checked rule c w =
        try_compat path_compat rule c.compat.abi (into c.compat.level) (c.compat.state, w)

    -- The outcomes of `add_rule` for a rule and a created ruleset, each with its case.
    pub data Added (rule : PathBeneath) (c : RulesetCreated) (w : World)
        : Result (Unit {0}) (RulesetError Flags) × (RulesetCreated × World) → Type 0 where
      -- a right that was not asked for: an error that names such rights, and nothing is done
      unhandled :
          (rest : Flags)
          → ¬ (rule.allowed_access ⊆ c.requested_handled_fs)
          → ((i : ℕ)
              → has rest i
                ≡ (has rule.allowed_access i && (not (has c.requested_handled_fs i) && has all i)))
          → Added rule c w (
            err (rules_error (AddRulesError.fs (unhandled_access rule.allowed_access rest))),
            (c, w),
          )
      -- a failed check: an error, after which the ruleset is given up
      incompatible :
          (e : CompatError Flags) (w' : World)
          → rule.allowed_access ⊆ c.requested_handled_fs
          → checked rule c w ≡ (err e, (dummy, w'))
          → Added rule c w (
            err (rules_error (AddRulesError.fs (AddRuleError.compat e))),
            (with_state dummy c, w'),
          )
      -- the rule is left out, as the check or the state says: nothing but the check is done
      left_out :
          (out : Option PathBeneath) (s : CompatState) (w' : World)
          → rule.allowed_access ⊆ c.requested_handled_fs
          → checked rule c w ≡ (ok out, (s, w'))
          → (out ≡ none) ⊎ (is_enforced s ≡ false)
          → Added rule c w (ok tt, (with_state s c, w'))
      -- the kernel is given the rights `h`, and takes the rule
      sent :
          (h : Flags) (file : Bool) (s : CompatState) (w1 w2 : World) (ret : ℤ)
          (passed : PathBeneath)
          → rule.allowed_access ⊆ c.requested_handled_fs
          → checked rule c w ≡ (ok (some passed), (s, w1))
          → is_enforced s ≡ true
          → IsGrant h rule.allowed_access c.compat.abi
          → (is_file rule.parent_fd w).0 ≡ ok file
          → (file ≡ true → h ⊆ access_file)
          → landlock_add_rule c.fd landlock_rule_path_beneath (attr_for rule h) 0 w1 ≡ (ret, w2)
          → is_zero ret ≡ true
          → Added rule c w (ok tt, (with_state s c, w2))
      -- the kernel is given the rights `h`, and refuses the rule
      denied :
          (h : Flags) (file : Bool) (s : CompatState) (w1 w2 : World) (ret : ℤ)
          (passed : PathBeneath)
          → rule.allowed_access ⊆ c.requested_handled_fs
          → checked rule c w ≡ (ok (some passed), (s, w1))
          → is_enforced s ≡ true
          → IsGrant h rule.allowed_access c.compat.abi
          → (is_file rule.parent_fd w).0 ≡ ok file
          → (file ≡ true → h ⊆ access_file)
          → landlock_add_rule c.fd landlock_rule_path_beneath (attr_for rule h) 0 w1 ≡ (ret, w2)
          → is_zero ret ≡ false
          → Added rule c w (
            err (rules_error (AddRulesError.fs (add_rule_call (last_os_error w2)))),
            (with_state s c, w2),
          )

    -- The result as `add_rule` wraps it.
    abbrev wrapped :
        Result (Unit {0}) (AddRulesError Flags) × (RulesetCreated × World)
        → Result (Unit {0}) (RulesetError Flags) × (RulesetCreated × World)
    wrapped (res, rest) = (map_err rules_error res, rest)

    cut_down :
        (rule : PathBeneath) (g : Flags) (abi : Abi) (file : Bool)
        → IsGrant g rule.allowed_access abi
        → IsGrant (valid_access file g) rule.allowed_access abi
    cut_down rule g abi file (mine, theirs) = (
      ⊆-trans (valid_access file g) g rule.allowed_access (valid_access-⊆ file g) mine,
      ⊆-trans (valid_access file g) g (from_all abi) (valid_access-⊆ file g) theirs,
    )

    kernel-Added :
        (rule : PathBeneath) (c : RulesetCreated) (w w1 : World) (s : CompatState) (g : Flags)
        (file : Bool) (passed : PathBeneath)
        → rule.allowed_access ⊆ c.requested_handled_fs
        → checked rule c w ≡ (ok (some passed), (s, w1))
        → IsGrant g rule.allowed_access c.compat.abi
        → (is_file rule.parent_fd w).0 ≡ ok file
        → is_enforced s ≡ true
        → Added rule c w (
            wrapped (
              send_rule path_rule
                (fitted (record rule { allowed_access = g }) file)
                (with_state s c, w1)))
    unfolding send_rule sync_attr
    kernel-Added rule c w w1 s g file passed within check is_g known e =
        let h = valid_access file g in
        let (ret, w2) = landlock_add_rule c.fd landlock_rule_path_beneath (attr_for rule h) 0 w1 in
        elim (Bool-cases (is_zero ret)) [
          | inl z ↦
              rw (e, z)
                (sent h file s w1 w2 ret passed within check e
                  (cut_down rule g c.compat.abi file is_g) known (valid_access_of_file file g) refl
                  z)
          | inr z ↦
              rw (e, z)
                (denied h file s w1 w2 ret passed within check e
                  (cut_down rule g c.compat.abi file is_g) known (valid_access_of_file file g) refl
                  z)
        ]

    send-Added :
        (rule new_rule : PathBeneath) (c : RulesetCreated) (w w1 : World) (s : CompatState)
        (g : Flags) (file : Bool)
        → rule.allowed_access ⊆ c.requested_handled_fs
        → checked rule c w ≡ (ok (some new_rule), (s, w1))
        → IsGrant g rule.allowed_access c.compat.abi
        → (is_file rule.parent_fd w).0 ≡ ok file
        → new_rule ≡ fitted (record rule { allowed_access = g }) file
        → Added rule c w (wrapped (send_rule path_rule new_rule (with_state s c, w1)))
    unfolding send_rule sync_attr
    send-Added rule new_rule c w w1 s g file within check is_g known shape =
        elim (Bool-cases (is_enforced s)) [
          | inl e ↦ rw shape (kernel-Added rule c w w1 s g file new_rule within check is_g known e)
          | inr e ↦ rw e (left_out (some new_rule) s w1 within check (inr e))
        ]

    compatible-Added :
        (rule : PathBeneath) (c : RulesetCreated) (w w' : World) (s : CompatState)
        (out : Result (Option PathBeneath) (CompatError Flags))
        → rule.allowed_access ⊆ c.requested_handled_fs
        → try_compat path_compat rule c.compat.abi (into c.compat.level) (c.compat.state, w)
          ≡ (out, (s, w'))
        → Added rule c w (wrapped (add_compatible path_rule out (with_state s c, w')))
    unfolding add_compatible
    compatible-Added rule c w w' s (err e) within h =
        let final =
          try_compat-err path_compat path_compat-IsFinal rule c.compat.abi (into c.compat.level)
            c.compat.state s w w' e h in
        rw final (
          incompatible e w' within
            (subst (λ (x : CompatState). checked rule c w ≡ (err e, (x, w'))) final h))
    compatible-Added rule c w w' s (ok none) within h = left_out none s w' within h (inl refl)
    compatible-Added rule c w w' s (ok (some new_rule)) within h =
        let (g, file, is_g, known, shape) =
          try_compat_shape rule new_rule c.compat.abi (into c.compat.level) c.compat.state s w w'
            h in
        send-Added rule new_rule c w w' s g file within h is_g known shape

    -- For each rule of type PathBeneath, created ruleset and state of the system, add_rule does one
    -- of these. If the rule has a right that the ruleset was not asked to handle, it is the error
    -- UnhandledAccess, which names the declared ones among these rights, and nothing is changed.
    -- Otherwise it makes the check try_compat, first. An error of that is the result, and the state is
    -- then Dummy. If it gives no rule, or leaves a state that is neither Full nor Partial, the result
    -- is a success and no more is done. If it gives one and leaves such a state, the descriptor's type
    -- was found, and what follows is one call of landlock_add_rule with the ruleset's and the rule's
    -- descriptors and rights that the rule and the ABI have, and for a file only rights for files: 0
    -- is a success and the rest the error AddRuleCall with errno. In all cases no more than the state
    -- of the ruleset is changed.
    pub add_rule-Added :
        (rule : PathBeneath) (c : RulesetCreated) (w : World)
        → Added rule c w (add_rule path_rule rule (c, w))
    unfolding add_rule check_consistency
    add_rule-Added rule c w =
        elim (Bool-cases (contains c.requested_handled_fs rule.allowed_access)) [
          | inl e ↦ rw e (
              compatible-Added rule c w _ _ _
                ((contains_iff c.requested_handled_fs rule.allowed_access).0 e) refl)
          | inr e ↦ rw e (
              unhandled _ (λ k. cc ((contains_iff c.requested_handled_fs rule.allowed_access).1 k))
                (λ i. ground (
                  arith,
                  has-intersection rule.allowed_access (complement c.requested_handled_fs) i,
                  has-complement c.requested_handled_fs i,
                )))
        ]
