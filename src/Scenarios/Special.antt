-- ===== src/Scenarios/Special.antt =====
-- The tests of src/lib.rs with the iterator of `path_beneath_rules`, and with a hard requirement.
use rust_landlock.Prelude.{ℕ, true, false, List, [], ◌∷◌, ◌≡◌, inl, inr, refl, subst}
use rust_landlock.Prelude.Exec.{Result, ok, err, map_err, Exec, Succeeds-proceed, proceed, ◌>>=◌}
use rust_landlock.Uapi.{Sys}
use rust_landlock.BitFlags.{BitFlags, ◌∪◌, ◌∩◌, execute}
use rust_landlock.BitFlags.Digits.{◌⊆◌}
use rust_landlock.BitFlags.Sets.{⊆-union_right}
use rust_landlock.Errors.{RulesetError, HandleAccessesError, handle_accesses}
use rust_landlock.Compat.Abi.{Abi, unsupported, v1, v2, v3}
use rust_landlock.Compat.Level.{best_effort, hard_requirement, into}
use rust_landlock.Compat.State.{CompatState, of_abi}
use rust_landlock.Fs.Rights.{from_all}
use rust_landlock.Fs.Rights.Tables.{bits-from_all}
use rust_landlock.Fs.File.{FilePath}
use rust_landlock.Fs.PathBeneath.{path_beneath_rules}
use rust_landlock.Ruleset.Types.{
  Ruleset, RulesetCreated, RestrictionStatus, set_compatibility, set_no_new_privs, of_compat,
}
use rust_landlock.Ruleset.Handle.{handle_access, ruleset_handle_access}
use rust_landlock.Ruleset.Handle.Grades.{Grades}
use rust_landlock.Ruleset.Handle.Accepted.{handle_access-ok_iff}
use rust_landlock.Ruleset.Rules.{path_rule, add_rules}
use rust_landlock.Ruleset.Restrict.{restrict_self}
use rust_landlock.Ruleset.Session.Paths.{owned, handle_access_owned}
use rust_landlock.Ruleset.Session.Live.{IsLive, Standing, enforcing, idle}
use rust_landlock.Ruleset.Session.Live.Built.{start-Built, set_compatibility-Built}
use rust_landlock.Ruleset.Session.Live.Items.{IsRule, path_beneath_rules-Items}
use rust_landlock.Ruleset.Session.Live.Loop.{Looped, add_rules-Looped}
use rust_landlock.Kernel.{View, IsDocumented}
use rust_landlock.Scenarios.{TestRulesetError}
use rust_landlock.Scenarios.Closures.{
  lift, root, passwd, rule_on, path_beneath_rules_with_too_much_access_rights_for_a_file,
  allow_root_fragile,
}
use rust_landlock.Scenarios.Verdict.{Outcome, rejected, HasOutcome}
use rust_landlock.Scenarios.Outcomes.{graded_bits, Finishes, create_outcome, Succeeds-lift}
use rust_landlock.Scenarios.Endings.{rule_on-Finishes}
use rust_landlock.Scenarios.Rights.{
  IsKnown, IsKnown-ne, IsKnown-valid, IsKnown-added, IsKnown-v1, rule_of, IsKnown-execute, sub_bits,
  beyond_bits, bits-execute, Serves-directory,
}
use rust_landlock.Scenarios.Requests.{start, Has, after_handle}
use rust_landlock.Scenarios.Pass.{whole_outcome, IsKnown-both, one_request, plain_ends}

-- The outcomes where the first request is a hard requirement.
abbrev pub fragile_outcome : Abi → Abi → Outcome
fragile_outcome unsupported kernel = rejected
fragile_outcome mock kernel = whole_outcome 0x1fff mock kernel

module _ ⦃S : Sys⦄ ⦃E : BitFlags⦄ where
  open S use {World}
  open E use {Flags, empty, from}

  module _ (V : View) (D : IsDocumented V) where
    -- The rules of `path_beneath_rules` for one path, and `restrict_self`.
    path_beneath_rules-Finishes :
        (paths : List FilePath) (mock : Abi) (asked a : Flags) (n : ℕ)
        → IsKnown asked n
        → IsRule asked a
        → Finishes V D mock asked (graded_bits n mock) (λ c.
          (λ w. lift (add_rules path_rule (λ e. e) (path_beneath_rules paths a) c w))
          >>= (λ c' w. lift (restrict_self c' w)))
    path_beneath_rules-Finishes paths mock asked a n known k c w live g =
        Succeeds-proceed (Looped V D mock asked c w)
          (λ st w'. st ≡ record { status = graded_bits n mock; no_new_privs = true })
          (lift (add_rules path_rule (λ e. e) (path_beneath_rules paths a) c w)) _
          (Succeeds-lift V D (Looped V D mock asked c w) _ (
            add_rules-Looped V D (λ e. e) mock asked (path_beneath_rules paths a) c w live
              (λ e. (subst (λ (x : CompatState). Grades x asked (from_all mock)) e g).1)
              (path_beneath_rules-Items V D (RulesetError Flags) mock asked a paths k)))
          (λ c' w' (live', kept, same). plain_ends V D mock asked n known c' w' live' (rw same g))

    pub path_beneath_rules_outcome :
        Has V D (whole_outcome 0x1fff) path_beneath_rules_with_too_much_access_rights_for_a_file
    unfolding path_beneath_rules_with_too_much_access_rights_for_a_file
    path_beneath_rules_outcome mock w ready =
        one_request V D mock (from_all v1) 0x1fff _ _ w ready IsKnown-v1 (
          path_beneath_rules-Finishes (passwd ∷ []) mock (empty ∪ from_all v1) (from_all v1) 0x1fff
            (IsKnown-added _ 0x1fff IsKnown-v1)
            (rule_of (empty ∪ from_all v1) (from_all v1) 0x1fff 0x1fff 7
              (IsKnown-added _ 0x1fff IsKnown-v1) IsKnown-v1 refl refl refl))

    set_no_new_privs-IsLive :
        (mock : Abi) (asked : Flags) (c : RulesetCreated) (w : World)
        → IsLive V mock asked c w
        → IsLive V mock asked (set_no_new_privs true c) w
    unfolding set_no_new_privs
    set_no_new_privs-IsLive mock asked c w live = record {
      ready = live.ready;
      nnp = refl;
      lenient = live.lenient;
      abi_kept = live.abi_kept;
      requested = live.requested;
      standing = stands live.standing;
    }
      where
        stands :
            Standing V (asked ∩ from_all mock) c w
            → Standing V (asked ∩ from_all mock) (set_no_new_privs true c) w
        stands (enforcing ne e is_ruleset) = enforcing ne e is_ruleset
        stands (idle none_left e) = idle none_left e

    root_ends :
        (mock : Abi) (asked : Flags)
        → V.IsPath root false
        → IsKnown asked 0x1fff
        → from_all v1 ⊆ asked
        → Finishes V D mock asked (graded_bits 0x1fff mock) (λ c.
          rule_on root (from_all v1) (set_no_new_privs true c)
          >>= (λ c' w. lift (restrict_self c' w)))
    unfolding set_no_new_privs
    root_ends mock asked is_root known sub c w live g =
        rule_on-Finishes V D root (from_all v1) false mock asked 0x1fff is_root
          (IsKnown-ne asked 0x1fff known) known.word (IsKnown-valid _ 0x1fff IsKnown-v1) sub
          (λ h. cc) (Serves-directory (from_all v1) mock) (set_no_new_privs true c) w
          (set_no_new_privs-IsLive mock asked c w live) g

    fragile_supported :
        (mock : Abi) (w : World)
        → V.IsPath root false
        → V.Ready w
        → from execute ⊆ from_all mock
        → HasOutcome V (whole_outcome 0x1fff mock V.abi) (allow_root_fragile (start mock) w).0
    unfolding allow_root_fragile
    fragile_supported mock w is_root ready sub =
        after_handle V D mock hard_requirement empty (from execute) 1
          (whole_outcome 0x1fff mock V.abi) (set_compatibility hard_requirement (start mock)) w _
          IsKnown-execute (inr sub)
          (set_compatibility-Built V mock best_effort hard_requirement empty (start mock) w
            (start-Built V mock w ready))
          (λ r1 w1 b1.
            after_handle V D mock best_effort (empty ∪ from execute) (from_all v1) 0x1fff
              (whole_outcome 0x1fff mock V.abi) (set_compatibility best_effort r1) w1 _ IsKnown-v1
              (inl refl)
              (set_compatibility-Built V mock hard_requirement best_effort (empty ∪ from execute) r1
                w1 b1)
              (λ r2 w2 b2.
                (let sum =
                    IsKnown-both (from execute) (from_all v1) 1 0x1fff 0x1fff IsKnown-execute
                      IsKnown-v1 refl refl refl in
                  create_outcome V D mock (empty ∪ from execute ∪ from_all v1) 0x1fff r2 w2 _ _ b2
                    (IsKnown-ne _ 0x1fff sum) sum.word
                    (root_ends mock _ is_root sum
                      (⊆-union_right (empty ∪ from execute) (from_all v1))))))

    not_ok :
        (m : Result (Unit {0}) (HandleAccessesError Flags) × (Ruleset × World))
        (rest : Ruleset → Exec World TestRulesetError RestrictionStatus)
        → ¬ (map_err handle_accesses m.0 ≡ ok tt)
        → HasOutcome V rejected (proceed (lift (owned (map_err handle_accesses m.0, m.1))) rest).0
    not_ok (ok u, s) rest n = absurd (n refl)
    not_ok (err e, s) rest n = (e, refl)

    -- A request that is not accepted is an error of `handle_access`.
    refused_request :
        (a : Flags) (r : Ruleset) (w : World)
        (rest : Ruleset → Exec World TestRulesetError RestrictionStatus)
        → ¬ ((handle_access a (r, w)).0 ≡ ok tt)
        → HasOutcome V rejected (proceed (lift (handle_access_owned a r w)) rest).0
    unfolding handle_access_owned handle_access
    refused_request a r w rest n = not_ok (ruleset_handle_access a (r, w)) rest n

    fragile_unsupported :
        (w : World) → HasOutcome V rejected (allow_root_fragile (start unsupported) w).0
    unfolding allow_root_fragile set_compatibility of_compat of_abi into
    fragile_unsupported w =
        refused_request (from execute) (set_compatibility hard_requirement (start unsupported)) w _
          (λ e.
            beyond_bits (from execute) (from_all unsupported) 1 0 bits-execute
              (bits-from_all unsupported) refl
              (((handle_access-ok_iff (from execute)
                    (set_compatibility hard_requirement (start unsupported)) w).0
                  e).1
                refl))

    pub allow_root_fragile_outcome :
        V.IsPath root false → Has V D fragile_outcome allow_root_fragile
    allow_root_fragile_outcome is_root unsupported w ready = fragile_unsupported w
    allow_root_fragile_outcome is_root v1 w ready =
        fragile_supported v1 w is_root ready
          (sub_bits _ _ 1 0x1fff bits-execute (bits-from_all v1) refl)
    allow_root_fragile_outcome is_root v2 w ready =
        fragile_supported v2 w is_root ready
          (sub_bits _ _ 1 0x3fff bits-execute (bits-from_all v2) refl)
    allow_root_fragile_outcome is_root v3 w ready =
        fragile_supported v3 w is_root ready
          (sub_bits _ _ 1 0x7fff bits-execute (bits-from_all v3) refl)
