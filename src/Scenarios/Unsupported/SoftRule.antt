-- ===== src/Scenarios/Unsupported/SoftRule.antt =====
-- The block of the test `ruleset_unsupported` of src/ruleset.rs with a rule at the soft requirement.
use rust_landlock.Prelude.{
  Bool-cases, true, false, some, [], ◌∷◌, ◌≡◌, ◌≢◌, inl, inr, refl, sym, subst, ◌∙◌, arith,
}
use rust_landlock.Prelude.Exec.{
  Result, ok, err, Exec, proceed, Succeeds, Succeeds-proceed, Succeeds-weaken, value_Succeeds,
  map_err,
}
use rust_landlock.Prelude.Int.{ℤ, ◌≤ℤ◌}
use rust_landlock.Uapi.{Sys, IoError}
use rust_landlock.BitFlags.{BitFlags, ◌∩◌, ◌∪◌, execute, refer, bits_of, discriminant}
use rust_landlock.BitFlags.Digits.{◌⊆◌, contains_iff}
use rust_landlock.BitFlags.Sets.{⊆-trans, intersection-⊆_right}
use rust_landlock.Fs.Rights.Tables.{from_all_grows}
use rust_landlock.Errors.{open_call}
use rust_landlock.Compat.Abi.{Abi, unsupported, v1, v2, v3, to_int}
use rust_landlock.Compat.Level.{best_effort, soft_requirement, into}
use rust_landlock.Compat.State.{dummy}
use rust_landlock.Fs.Rights.{from_all}
use rust_landlock.Fs.File.{open_path, own}
use rust_landlock.Fs.PathBeneath.{new}
use rust_landlock.Ruleset.Types.{
  Ruleset, RulesetCreated, RestrictionStatus, not_enforced, set_compatibility_created, with_state,
}
use rust_landlock.Ruleset.Create.{create}
use rust_landlock.Ruleset.Rules.{path_rule, add_rule_owned}
use rust_landlock.Ruleset.Restrict.{restrict_self}
use rust_landlock.Ruleset.Session.Live.{IsLive, Starts, create-IsLive}
use rust_landlock.Ruleset.Session.Live.Built.{Built, start-Built, handle_access-Built}
use rust_landlock.Kernel.{View, IsDocumented, OpenedAs}
use rust_landlock.Scenarios.{TestRulesetError, can_emulate}
use rust_landlock.Scenarios.Closures.{lift, rule_on, root, fd_or_drop}
use rust_landlock.Scenarios.Outcomes.{Succeeds-lift}
use rust_landlock.Scenarios.Rights.{
  IsKnown, beyond_bits, sub_bits, bits-v1, IsKnown-added, IsKnown-ne, IsKnown-valid, IsKnown-refer,
}
use rust_landlock.Scenarios.Requests.{start}
use rust_landlock.Scenarios.Unsupported.{restrict_with, soft_rule}
use rust_landlock.Scenarios.Unsupported.Endings.{assert_status-expected, given_up_ends}
use rust_landlock.Ruleset.Session.GivenUp.Rule.{rule_skipped}

module _ ⦃S : Sys⦄ ⦃E : BitFlags⦄ where
  open S use {World}
  open E use {Flags, from, empty, contains, make_bitflags, bits-make_bitflags}

  later : (abi : Abi) → abi ≢ unsupported → to_int v1 ≤ℤ to_int abi
  later unsupported h = absurd (h refl)
  later v1 h = omega arith
  later v2 h = omega arith
  later v3 h = omega arith

  has_abi : (abi : Abi) → can_emulate abi v1 v1 (some v2) ≡ true → abi ≢ unsupported
  unfolding can_emulate
  has_abi unsupported e z = cc
  has_abi v1 e z = cc
  has_abi v2 e z = cc
  has_abi v3 e z = cc

  abbrev both : Flags
  both = make_bitflags (execute ∷ refer ∷ [])

  IsKnown-both : IsKnown both 0x2001
  unfolding discriminant bits_of
  IsKnown-both = record {
    word = bits-make_bitflags (execute ∷ refer ∷ []);
    some_right = refl;
    declared = refl;
  }

  refer_beyond : ¬ (from refer ⊆ from_all v1)
  refer_beyond =
      beyond_bits (from refer) (from_all v1) 0x2000 0x1fff IsKnown-refer.word bits-v1 refl

  refer_asked : from refer ⊆ (empty ∪ both)
  refer_asked =
      sub_bits (from refer) (empty ∪ both) 0x2000 0x2001 IsKnown-refer.word
        (IsKnown-added both 0x2001 IsKnown-both).word refl

  abbrev ignored : RestrictionStatus
  ignored = record { status = not_enforced; no_new_privs = false }

  abbrev soft_run : Exec World TestRulesetError RestrictionStatus
  soft_run =
      restrict_with (λ c. rule_on root (from refer) (set_compatibility_created soft_requirement c))
        both (start v1)

  module _ (V : View) (D : IsDocumented V) where
    -- The ruleset is made, on a kernel with Landlock.
    made-IsLive :
        (r : Ruleset) (w : World) (asked : Flags)
        → V.abi ≢ unsupported
        → asked ≢ empty
        → Built V v1 best_effort asked r w
        → Succeeds (IsLive V v1 asked) (create r w)
    made-IsLive r w asked some_abi ne b =
        Succeeds-weaken (Starts V v1 r w) (IsLive V v1 asked) (create r w)
          (create-IsLive V v1 r w D b.exact b.at_level (λ z. ne (sym b.asked_for ∙ z)) b.ready
            (rw b.exact.handled (
              ⊆-trans (r.requested_handled_fs ∩ from_all v1) (from_all v1) (from_all V.abi)
                (intersection-⊆_right r.requested_handled_fs (from_all v1))
                (from_all_grows v1 V.abi (later V.abi some_abi)).0)))
          (λ c w' (live, kept, kept_state).
            subst (λ (x : Flags). IsLive V v1 x c w') b.asked_for live)

    opened_finish :
        (c : RulesetCreated) (w : World) (m : Result ℤ IoError × World)
        → OpenedAs V false w m
        → c.compat.abi ≡ v1
        → c.requested_handled_fs ≡ empty ∪ both
        → Succeeds
            (λ st w'. st ≡ ignored)
            (proceed
              (proceed
                (fd_or_drop
                  (set_compatibility_created soft_requirement c)
                  (own (map_err (λ e. open_call e root) m.0), m.1))
                (λ f w'. lift (
                  add_rule_owned path_rule
                    (new f.fd (from refer))
                    (set_compatibility_created soft_requirement c)
                    w')))
              (λ c' w'. lift (restrict_self c' w')))
    unfolding set_compatibility_created into
    opened_finish c w (ok fd, w') o e k =
        let c1 = set_compatibility_created soft_requirement c in
        rw
          (rule_skipped (from refer) fd c1 w'
            (rw k ((contains_iff (empty ∪ both) (from refer)).1 refer_asked)) refl
            (IsKnown-valid (from refer) 0x2000 IsKnown-refer) (rw e refer_beyond))
          (Succeeds-lift V D (λ st w''. st ≡ ignored) (restrict_self (with_state dummy c1) w')
            (value_Succeeds ignored (restrict_self (with_state dummy c1) w')
              (given_up_ends (with_state dummy c1) w' refl)))
    opened_finish c w (err x, w') o e k = absurd o

    soft_finish :
        (c : RulesetCreated) (w : World)
        → V.IsPath root false
        → IsLive V v1 (empty ∪ both) c w
        → Succeeds
            (λ st w'. st ≡ ignored)
            (proceed
              (rule_on root (from refer) (set_compatibility_created soft_requirement c) w)
              (λ c' w'. lift (restrict_self c' w')))
    unfolding rule_on open_path
    soft_finish c w is_root live =
        opened_finish c w _ (D.opened_as root false w live.ready is_root) live.abi_kept
          live.requested

    -- A rule at the soft requirement for a right that the emulated ABI has not.
    pub soft_rule_passes :
        (w : World) → V.Ready w → V.IsPath root false → (soft_rule V.abi w).0 ≡ ok tt
    unfolding soft_rule restrict_with
    soft_rule_passes w ready is_root = elim (Bool-cases (can_emulate V.abi v1 v1 (some v2))) [
      | inl e ↦ rw e (
          assert_status-expected not_enforced false soft_run w (
            Succeeds-proceed (Built V v1 best_effort (empty ∪ both)) (λ st w'. st ≡ ignored) _ _
              (Succeeds-lift V D (Built V v1 best_effort (empty ∪ both)) _ (
                handle_access-Built V v1 best_effort empty both (start v1) w
                  (IsKnown-valid both 0x2001 IsKnown-both) (inl refl) (start-Built V v1 w ready)))
              (λ r w1 b.
                Succeeds-proceed (IsLive V v1 (empty ∪ both)) (λ st w'. st ≡ ignored) _ _
                  (Succeeds-lift V D (IsLive V v1 (empty ∪ both)) (create r w1) (
                    made-IsLive r w1 (empty ∪ both) (has_abi V.abi e)
                      (IsKnown-ne (empty ∪ both) 0x2001 (IsKnown-added both 0x2001 IsKnown-both))
                      b))
                  (λ c w2 live. soft_finish c w2 is_root live))))
      | inr e ↦ rw e refl
    ]
