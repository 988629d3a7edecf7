-- ===== src/Scenarios/Pass.antt =====
-- Each test of src/lib.rs, on a kernel as documented.
use rust_landlock.Prelude.{ℕ, bit_and, bit_or, ◌==◌, true, false, ◌≡◌, inl, refl, ◌∙◌}
use rust_landlock.Prelude.Exec.{Exec, proceed}
use rust_landlock.Uapi.{Sys}
use rust_landlock.BitFlags.{BitFlags, ◌∪◌, execute, refer, truncate}
use rust_landlock.BitFlags.Digits.{◌⊆◌}
use rust_landlock.Compat.Abi.{Abi, v1}
use rust_landlock.Compat.Level.{best_effort}
use rust_landlock.Fs.Rights.{from_all, from_file, access_file}
use rust_landlock.Fs.Rights.Tables.{bits-access_file}
use rust_landlock.Ruleset.Types.{RulesetCreated, RestrictionStatus, RulesetStatus}
use rust_landlock.Ruleset.Session.Paths.{handle_access_owned}
use rust_landlock.Ruleset.Restrict.{restrict_self}
use rust_landlock.Ruleset.Session.Live.Built.{start-Built}
use rust_landlock.Kernel.{View, IsDocumented}
use rust_landlock.Scenarios.{TestRulesetError}
use rust_landlock.Scenarios.Closures.{
  lift, root, passwd, allow_root_compat, file_rights_for_a_file, too_much_access_rights_for_a_file,
  ruleset_enforced, abi_v2_exec_refer, abi_v2_refer_only, abi_v3_truncate,
}
use rust_landlock.Scenarios.Verdict.{Outcome, HasOutcome}
use rust_landlock.Scenarios.Outcomes.{outcome, graded_bits, Finishes, create_outcome}
use rust_landlock.Scenarios.Endings.{graded_bits-Finishes, rule_on-Finishes, less-Finishes, less}
use rust_landlock.Scenarios.Rights.{
  IsKnown, IsKnown-ne, IsKnown-valid, IsKnown-added, IsKnown-v1, IsKnown-from_file, IsKnown-execute,
  IsKnown-refer, IsKnown-truncate, sub_bits, beyond_bits, bits-v1, bits-from_file, bits-added,
  Serves-directory, Serves-file, Serves-all_for_file,
}
use rust_landlock.Scenarios.Requests.{start, created_then, Has, after_handle}

-- The outcomes of a closure whose rules are granted in full, or in part only.
abbrev pub whole_outcome : ℕ → Abi → Abi → Outcome
whole_outcome n mock = outcome n (graded_bits n mock) mock

abbrev pub less_outcome : ℕ → Abi → Abi → Outcome
less_outcome n mock = outcome n (less (graded_bits n mock)) mock

module _ ⦃S : Sys⦄ ⦃E : BitFlags⦄ where
  open S use {World}
  open E use {Flags, empty, bits, from, bits-empty}

  pub IsKnown-both :
      (a b : Flags) (n m k : ℕ)
      → IsKnown a n
      → IsKnown b m
      → bit_or n m ≡ k
      → (k == 0) ≡ false
      → (bit_and 0x7fff k == k) ≡ true
      → IsKnown (empty ∪ a ∪ b) k
  IsKnown-both a b n m k p q e ne known = record {
    word = bits-added (empty ∪ a) b n m (IsKnown-added a n p).word q.word ∙ e;
    some_right = ne;
    declared = known;
  }

  module _ (V : View) (D : IsDocumented V) where
    abbrev Rest : Type 0
    Rest = RulesetCreated → Exec World TestRulesetError RestrictionStatus

    -- One best-effort request, then `create` and the rest.
    pub one_request :
        (mock : Abi) (a : Flags) (n : ℕ) (status : RulesetStatus) (rest : Rest) (w : World)
        → V.Ready w
        → IsKnown a n
        → Finishes V D mock (empty ∪ a) status rest
        → HasOutcome V
            (outcome n status mock V.abi)
            (proceed (lift (handle_access_owned a (start mock) w)) (created_then rest)).0
    one_request mock a n status rest w ready known k =
        after_handle V D mock best_effort empty a n (outcome n status mock V.abi) (start mock) w
          (created_then rest) known (inl refl) (start-Built V mock w ready)
          (λ r' w' b.
            (let sum = IsKnown-added a n known in
              create_outcome V D mock (empty ∪ a) n r' w' status rest b (IsKnown-ne _ n sum)
                sum.word k))

    -- Two of them.
    two_requests :
        (mock : Abi) (a1 a2 : Flags) (n1 n2 n : ℕ) (status : RulesetStatus) (rest : Rest)
        (w : World)
        → V.Ready w
        → IsKnown a1 n1
        → IsKnown a2 n2
        → IsKnown (empty ∪ a1 ∪ a2) n
        → Finishes V D mock (empty ∪ a1 ∪ a2) status rest
        → HasOutcome V
            (outcome n status mock V.abi)
            (proceed
              (lift (handle_access_owned a1 (start mock) w))
              (λ r w'. proceed (lift (handle_access_owned a2 r w')) (created_then rest))).0
    two_requests mock a1 a2 n1 n2 n status rest w ready known1 known2 sum k =
        after_handle V D mock best_effort empty a1 n1 (outcome n status mock V.abi) (start mock) w
          (λ r w'. proceed (lift (handle_access_owned a2 r w')) (created_then rest)) known1
          (inl refl) (start-Built V mock w ready)
          (λ r w' b.
            after_handle V D mock best_effort (empty ∪ a1) a2 n2 (outcome n status mock V.abi) r w'
              (created_then rest) known2 (inl refl) b
              (λ r' w'' b'.
                create_outcome V D mock (empty ∪ a1 ∪ a2) n r' w'' status rest b'
                  (IsKnown-ne _ n sum) sum.word k))

    pub within_added :
        (a b : Flags) (n m : ℕ)
        → IsKnown a n
        → IsKnown b m
        → (bit_and m n == n) ≡ true
        → a ⊆ empty ∪ b
    within_added a b n m k l h = sub_bits a (empty ∪ b) n m k.word (IsKnown-added b m l).word h

    -- No rule
    pub plain_ends :
        (mock : Abi) (asked : Flags) (n : ℕ)
        → IsKnown asked n
        → Finishes V D mock asked (graded_bits n mock) (λ c w. lift (restrict_self c w))
    plain_ends mock asked n k = graded_bits-Finishes V D mock asked n (IsKnown-ne asked n k) k.word

    -- The outcomes of the closures
    pub allow_root_compat_outcome :
        V.IsPath root false → Has V D (whole_outcome 0x1fff) allow_root_compat
    unfolding allow_root_compat
    allow_root_compat_outcome is_root mock w ready =
        let sum = IsKnown-added (from_all v1) 0x1fff IsKnown-v1 in
        one_request mock (from_all v1) 0x1fff _ _ w ready IsKnown-v1 (
          rule_on-Finishes V D root (from_all v1) false mock (empty ∪ from_all v1) 0x1fff is_root
            (IsKnown-ne _ 0x1fff sum) sum.word (IsKnown-valid _ 0x1fff IsKnown-v1)
            (within_added (from_all v1) (from_all v1) 0x1fff 0x1fff IsKnown-v1 IsKnown-v1 refl)
            (λ h. cc) (Serves-directory (from_all v1) mock))

    pub file_rights_for_a_file_outcome :
        V.IsPath passwd true → Has V D (whole_outcome 0x1fff) file_rights_for_a_file
    unfolding file_rights_for_a_file
    file_rights_for_a_file_outcome is_path mock w ready =
        let sum = IsKnown-added (from_all v1) 0x1fff IsKnown-v1 in
        let of_file =
          sub_bits (from_file v1) access_file 7 0x4007 bits-from_file bits-access_file refl in
        one_request mock (from_all v1) 0x1fff _ _ w ready IsKnown-v1 (
          rule_on-Finishes V D passwd (from_file v1) true mock (empty ∪ from_all v1) 0x1fff is_path
            (IsKnown-ne _ 0x1fff sum) sum.word (IsKnown-valid _ 7 IsKnown-from_file)
            (within_added (from_file v1) (from_all v1) 7 0x1fff IsKnown-from_file IsKnown-v1 refl)
            (λ h. of_file) (Serves-file (from_file v1) mock of_file))

    pub too_much_access_rights_for_a_file_outcome :
        V.IsPath passwd true → Has V D (less_outcome 0x1fff) too_much_access_rights_for_a_file
    unfolding too_much_access_rights_for_a_file
    too_much_access_rights_for_a_file_outcome is_path mock w ready =
        let sum = IsKnown-added (from_all v1) 0x1fff IsKnown-v1 in
        let beyond =
          beyond_bits (from_all v1) access_file 0x1fff 0x4007 bits-v1 bits-access_file refl in
        one_request mock (from_all v1) 0x1fff _ _ w ready IsKnown-v1 (
          less-Finishes V D passwd (from_all v1) true mock (empty ∪ from_all v1) 0x1fff is_path
            (IsKnown-ne _ 0x1fff sum) sum.word (IsKnown-valid _ 0x1fff IsKnown-v1)
            (within_added (from_all v1) (from_all v1) 0x1fff 0x1fff IsKnown-v1 IsKnown-v1 refl)
            (λ whole. beyond (whole.1 refl)) (Serves-all_for_file mock))

    pub ruleset_enforced_outcome : Has V D (whole_outcome 1) ruleset_enforced
    unfolding ruleset_enforced
    ruleset_enforced_outcome mock w ready =
        one_request mock (from execute) 1 _ _ w ready IsKnown-execute
          (plain_ends mock (empty ∪ from execute) 1 (IsKnown-added _ 1 IsKnown-execute))

    pub abi_v2_exec_refer_outcome : Has V D (whole_outcome 0x2001) abi_v2_exec_refer
    unfolding abi_v2_exec_refer
    abi_v2_exec_refer_outcome mock w ready =
        let sum =
          IsKnown-both (from execute) (from refer) 1 0x2000 0x2001 IsKnown-execute IsKnown-refer
            refl refl refl in
        two_requests mock (from execute) (from refer) 1 0x2000 0x2001 _ _ w ready IsKnown-execute
          IsKnown-refer sum (plain_ends mock _ 0x2001 sum)

    pub abi_v2_refer_only_outcome : Has V D (whole_outcome 0x2000) abi_v2_refer_only
    unfolding abi_v2_refer_only
    abi_v2_refer_only_outcome mock w ready =
        one_request mock (from refer) 0x2000 _ _ w ready IsKnown-refer
          (plain_ends mock (empty ∪ from refer) 0x2000 (IsKnown-added _ 0x2000 IsKnown-refer))

    pub abi_v3_truncate_outcome : Has V D (whole_outcome 0x6000) abi_v3_truncate
    unfolding abi_v3_truncate
    abi_v3_truncate_outcome mock w ready =
        let sum =
          IsKnown-both (from refer) (from truncate) 0x2000 0x4000 0x6000 IsKnown-refer
            IsKnown-truncate refl refl refl in
        two_requests mock (from refer) (from truncate) 0x2000 0x4000 0x6000 _ _ w ready
          IsKnown-refer IsKnown-truncate sum (plain_ends mock _ 0x6000 sum)
