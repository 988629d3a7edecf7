-- ===== src/Scenarios/Promises.antt =====
-- The examples `ruleset_handling_renames` and `ruleset_fragile` of the trait `Compatible` in
-- src/compat.rs, on a kernel as documented.
pub mod Kept
use rust_landlock.Prelude.{
  true, false, none, some, ◌≡◌, ◌≢◌, ◌⊎◌, inl, inr, refl, sym, ap, subst, ◌∙◌, arith,
}
use rust_landlock.Prelude.Exec.{
  Result, ok, err, Exec, Succeeds, Succeeds-proceed, Succeeds-weaken, proceed, ◌>>=◌, map_err,
}
use rust_landlock.Uapi.{Sys}
use rust_landlock.BitFlags.{BitFlags, ◌∩◌, ◌∪◌, refer}
use rust_landlock.BitFlags.Digits.{◌⊆◌, intersection_of_subset, is_empty_iff}
use rust_landlock.BitFlags.Sets.{intersection-⊆_right, ne_mono, ⊆-union_right}
use rust_landlock.Errors.{RulesetError}
use rust_landlock.Compat.Abi.{Abi, unsupported, v1, v2, v3}
use rust_landlock.Compat.Level.{CompatLevel, best_effort, soft_requirement, hard_requirement, into}
use rust_landlock.Fs.Rights.{from_all}
use rust_landlock.Access.Reported.{IsInvalid}
use rust_landlock.Ruleset.Types.{
  Ruleset, RulesetCreated, is_enforced, default, set_compatibility, created,
}
use rust_landlock.Ruleset.Handle.{handle_access}
use rust_landlock.Ruleset.Handle.Exact.{IsMet}
use rust_landlock.Ruleset.Create.{create}
use rust_landlock.Ruleset.Create.Outcome.{Created, missing, inert, made, failed, create-Created}
use rust_landlock.Ruleset.Session.Paths.{owned, handle_access_owned}
use rust_landlock.Ruleset.Session.Live.{
  IsExact-IsValid, IsLive, Standing, enforcing, idle, Starts, create-IsLive,
}
use rust_landlock.Ruleset.Session.Live.Built.{
  Built, Succeeds-owned, handle_access-Built, set_compatibility-Built,
}
use rust_landlock.Ruleset.Session.Paths.Documented.{default-Built}
use rust_landlock.Ruleset.Session.GivenUp.{IsGivenUp}
use rust_landlock.Ruleset.Session.GivenUp.Requests.{
  IsOver, request-IsOver, soft-IsOver, handle_access_level,
}
use rust_landlock.Ruleset.Handle.Accepted.{handle_access-ok_iff}
use rust_landlock.Ruleset.Handle.Invariant.{handle_access-IsValid, set_compatibility-IsValid}
use rust_landlock.Kernel.{View, IsDocumented}

module _ ⦃S : Sys⦄ ⦃E : BitFlags⦄ where
  open S use {World}
  open E use {Flags, empty, from}

  -- The first request at a level, the second at best effort, and `create`.
  unfoldable pub two_levels :
      CompatLevel → Flags → Flags → Exec World (RulesetError Flags) RulesetCreated
  unfolding handle_access_owned set_compatibility
  two_levels level a b = do
    r ← λ w. (let (r, w') = default w in (ok r, w'))
    r1 ← handle_access_owned a (set_compatibility level r)
    r2 ← handle_access_owned b (set_compatibility best_effort r1)
    create r2

  unfoldable pub ruleset_handling_renames : Exec World (RulesetError Flags) RulesetCreated
  unfolding two_levels
  ruleset_handling_renames = two_levels soft_requirement (from refer) (from_all v3)

  unfoldable pub ruleset_fragile : Exec World (RulesetError Flags) RulesetCreated
  unfolding two_levels
  ruleset_fragile = two_levels hard_requirement (from_all v1) (from_all v2)

  module _ (V : View) (D : IsDocumented V) where
    -- The ruleset will be enforced, and handles what the kernel has of the rights.
    pub record Handles (asked : Flags) (c : RulesetCreated) (w : World) : Type 0 where
      pub on : is_enforced c.compat.state ≡ true
      pub made_for : V.IsRuleset w c.fd (asked ∩ from_all V.abi)
      pub wants_nnp : c.no_new_privs ≡ true

    Standing-Handles :
        (asked : Flags) (c : RulesetCreated) (w : World)
        → asked ∩ from_all V.abi ≢ empty
        → IsLive V V.abi asked c w
        → Handles asked c w
    Standing-Handles asked c w some_left live = elim live.standing [
      | enforcing ne e is_ruleset ↦ (record { on = e; made_for = is_ruleset; wants_nnp = live.nnp })
      | idle none_left e ↦ absurd (some_left none_left)
    ]

    created-Handles :
        (asked : Flags) (r : Ruleset) (w : World)
        → asked ≢ empty
        → asked ∩ from_all V.abi ≢ empty
        → Built V V.abi best_effort asked r w
        → Succeeds (Handles asked) (create r w)
    created-Handles asked r w ne some_left b =
        Succeeds-weaken (Starts V V.abi r w) (Handles asked) (create r w)
          (create-IsLive V V.abi r w D b.exact b.at_level (λ z. ne (sym b.asked_for ∙ z)) b.ready
            (rw b.exact.handled (intersection-⊆_right r.requested_handled_fs (from_all V.abi))))
          (λ c w' (live, kept, same_state).
            Standing-Handles asked c w' some_left
              (subst (λ (x : Flags). IsLive V V.abi x c w') b.asked_for live))

    -- Where the first request is met, both are handled as far as the kernel has their rights.
    two_levels_met :
        (level : CompatLevel) (a b : Flags) (w : World)
        → V.Ready w
        → ¬ IsInvalid a
        → ¬ IsInvalid b
        → IsMet level a V.abi
        → (empty ∪ a ∪ b) ∩ from_all V.abi ≢ empty
        → empty ∪ a ∪ b ≢ empty
        → Succeeds (Handles (empty ∪ a ∪ b)) (two_levels level a b w)
    unfolding two_levels
    two_levels_met level a b w ready va vb met some_left ne =
        Succeeds-proceed (Built V V.abi level (empty ∪ a)) (Handles (empty ∪ a ∪ b)) _ _
          (handle_access-Built V V.abi level empty a (set_compatibility level (default w).0)
            (default w).1 va met
            (set_compatibility-Built V V.abi best_effort level empty (default w).0 (default w).1
              (default-Built V D w ready)))
          (λ r1 w1 b1.
            Succeeds-proceed (Built V V.abi best_effort (empty ∪ a ∪ b)) (Handles (empty ∪ a ∪ b)) _
              create
              (handle_access-Built V V.abi best_effort (empty ∪ a) b
                (set_compatibility best_effort r1) w1 vb (inl refl)
                (set_compatibility-Built V V.abi level best_effort (empty ∪ a) r1 w1 b1))
              (λ r2 w2 b2. created-Handles (empty ∪ a ∪ b) r2 w2 ne some_left b2))

    -- A builder that is over, at another level than the hard one, of which something was asked.
    pub record IsOff (r : Ruleset) (w : World) : Type 0 where
      pub over : IsOver r
      pub not_hard : into r.compat.level ≢ hard_requirement
      pub asked_for : r.requested_handled_fs ≢ empty

    abbrev pub Off : RulesetCreated → World → Type 0
    Off c w = IsGivenUp c

    pub Off-Created :
        (r : Ruleset) (w : World) {m : Result RulesetCreated (RulesetError Flags) × World}
        → IsOff r w
        → Created r w m
        → Succeeds Off m
    unfolding created
    Off-Created r w o (missing (inl z)) = absurd (o.asked_for z)
    Off-Created r w o (missing (inr (z, hard))) = absurd (o.not_hard hard)
    Off-Created r w o (inert s ne k (inl (now, before))) = absurd (cc (before, o.over.final))
    Off-Created r w o (inert s ne k (inr now)) = record { final = now; no_fd = refl }
    Off-Created r w o (made fd w' ne k p q) = absurd (ground (arith, o.over.final))
    Off-Created r w o (failed fd w' ne k p q) = absurd (ground (arith, o.over.final))

    second-IsOff :
        (b : Flags) (r : Ruleset) (w : World)
        → ¬ IsInvalid b
        → IsOver r
        → Succeeds IsOff (handle_access_owned b (set_compatibility best_effort r) w)
    unfolding handle_access_owned set_compatibility into
    second-IsOff b r w vb o =
        let r' = set_compatibility best_effort r in
        let o' : IsOver r' = record {
          valid = set_compatibility-IsValid best_effort r o.valid;
          final = o.final;
        } in
        Succeeds-owned IsOff (handle_access b (r', w))
          ((handle_access-ok_iff b r' w).1 (vb, λ h. cc))
          (record {
            over = (request-IsOver b r' w o').0;
            not_hard = λ h. cc (h, ap into (handle_access_level b r' w));
            asked_for = λ z.
                ne_mono b (r.requested_handled_fs ∪ b) (⊆-union_right r.requested_handled_fs b)
                  (λ e. vb (inl e)) (sym (handle_access-IsValid b r' w o'.valid).1 ∙ z);
          })

    -- Where a soft requirement is not met, the ruleset is given up.
    two_levels-Off :
        (a b : Flags) (w : World)
        → V.Ready w
        → ¬ IsInvalid a
        → ¬ IsInvalid b
        → ¬ (a ⊆ from_all V.abi)
        → Succeeds Off (two_levels soft_requirement a b w)
    unfolding two_levels handle_access_owned
    two_levels-Off a b w ready va vb beyond =
        let fresh =
          set_compatibility-Built V V.abi best_effort soft_requirement empty (default w).0
            (default w).1 (default-Built V D w ready) in
        let r = set_compatibility soft_requirement (default w).0 in
        let (done, over, kept) =
          soft-IsOver a r (default w).1 (IsExact-IsValid V V.abi r fresh.exact) fresh.at_level va
            (λ h. beyond (subst (λ (x : Abi). a ⊆ from_all x) fresh.exact.abi_kept h)) in
        Succeeds-proceed (λ r1 w1. IsOver r1) Off _ _
          (Succeeds-owned (λ r1 w1. IsOver r1) (handle_access a (r, (default w).1)) done over)
          (λ r1 w1 o.
            Succeeds-proceed IsOff Off _ create (second-IsOff b r1 w1 vb o)
              (λ r2 w2 o2. Off-Created r2 w2 o2 (create-Created r2 w2 o2.over.valid)))
