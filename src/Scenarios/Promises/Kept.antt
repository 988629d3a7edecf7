-- ===== src/Scenarios/Promises/Kept.antt =====
-- That the two examples of the trait `Compatible` in src/compat.rs do what their comments say.
use rust_landlock.Prelude.{
  ℕ, true, ◌≡◌, ◌≢◌, ◌⊎◌, inl, inr, refl, sym, subst, ◌∙◌, ◌==◌, bit_and, arith, Bool-cases,
}
use rust_landlock.Prelude.Exec.{Exec, Result, ok, err, Succeeds, Succeeds-weaken, proceed}
use rust_landlock.Uapi.{Sys}
use rust_landlock.BitFlags.{BitFlags, ◌∩◌, ◌∪◌, refer, bits_of, discriminant}
use rust_landlock.BitFlags.Digits.{◌⊆◌, contains_iff, is_empty_iff, has-intersection}
use rust_landlock.BitFlags.Sets.{ne_mono, ⊆-union_left, ⊆-union_right}
use rust_landlock.Errors.{
  RulesetError, HandleAccessError, HandleAccessesError, handle_accesses, access, incompatible,
}
use rust_landlock.Compat.Abi.{Abi, unsupported, v1, v2, v3}
use rust_landlock.Compat.Level.{CompatLevel, soft_requirement, hard_requirement, into, best_effort}
use rust_landlock.Compat.TryCompat.{try_compat, try_compat_self, settle, settle_none, CompatResult}
use rust_landlock.Fs.Rights.{from_all}
use rust_landlock.Fs.Rights.Tables.{bits-from_all, nothing_left}
use rust_landlock.Access.{check_access, against}
use rust_landlock.Access.Reported.{IsInvalid}
use rust_landlock.Ruleset.Types.{Ruleset, RulesetCreated, default, set_compatibility}
use rust_landlock.Ruleset.Handle.{handle_access, ruleset_handle_access, add_handled}
use rust_landlock.Ruleset.Create.Outcome.{is_empty_false}
use rust_landlock.Ruleset.Session.GivenUp.{IsGivenUp}
use rust_landlock.Ruleset.Session.Live.Built.{empty-union, set_compatibility-Built}
use rust_landlock.Ruleset.Session.Paths.{owned, handle_access_owned}
use rust_landlock.Ruleset.Session.Paths.Documented.{default-Built}
use rust_landlock.Kernel.{View, IsDocumented}
use rust_landlock.Scenarios.Rights.{
  IsKnown, IsKnown-ne, IsKnown-valid, IsKnown-refer, IsKnown-v1, sub_bits, bits-v1,
}
use rust_landlock.Scenarios.Promises.{
  two_levels, ruleset_handling_renames, ruleset_fragile, Handles, two_levels_met, two_levels-Off,
}

module _ ⦃S : Sys⦄ ⦃E : BitFlags⦄ where
  open S use {World}
  open E use {
    Flags, empty, from, bits, all, is_empty, contains, bits-intersection, bits-union, bits-all,
  }

  IsKnown-all : IsKnown (from_all v3) 0x7fff
  IsKnown-all = record { word = bits-from_all v3; some_right = refl; declared = refl }

  IsKnown-v2 : IsKnown (from_all v2) 0x3fff
  IsKnown-v2 = record { word = bits-from_all v2; some_right = refl; declared = refl }

  abbrev sum : Flags → Flags → Flags
  sum a b = empty ∪ a ∪ b

  sum_left : (a b f : Flags) → ¬ IsInvalid a → a ⊆ f → (sum a b ∩ f ≢ empty) × (sum a b ≢ empty)
  sum_left a b f v sub =
      let both : a ⊆ sum a b = ⊆-union_left a (empty ∪ a) b (⊆-union_right empty a) in
      (
        ne_mono a (sum a b ∩ f)
            (λ i p. ground (arith, has-intersection (sum a b) f i, both i p, sub i p))
            (λ e. v (inl e)),
        ne_mono a (sum a b) both (λ e. v (inl e)),
      )

  module _ (V : View) (D : IsDocumented V) where
    -- Both requests are handled as far as the kernel has them, if it has the right Refer; otherwise
    -- the ruleset is given up.
    abbrev pub RenamesOrNothing : RulesetCreated → World → Type 0
    RenamesOrNothing c w =
        ((from refer ⊆ from_all V.abi) × Handles V D (from refer ∪ from_all v3) c w)
        ⊎ ((¬ (from refer ⊆ from_all V.abi)) × IsGivenUp c)

    -- The sum without the empty set that the builder starts with.
    summed :
        (a b : Flags) (m : Result RulesetCreated (RulesetError Flags) × World)
        → Succeeds (Handles V D (sum a b)) m
        → Succeeds (Handles V D (a ∪ b)) m
    summed a b m h = subst (λ (x : Flags). Succeeds (Handles V D (x ∪ b)) m) (empty-union a) h

    met :
        (level : CompatLevel) (a b : Flags) (w : World)
        → V.Ready w
        → ¬ IsInvalid a
        → ¬ IsInvalid b
        → a ⊆ from_all V.abi
        → Succeeds (Handles V D (a ∪ b)) (two_levels level a b w)
    met level a b w ready va vb sub =
        let (left, ne) = sum_left a b (from_all V.abi) va sub in
        summed a b (two_levels level a b w)
          (two_levels_met V D level a b w ready va vb (inr sub) left ne)

    refer_valid : ¬ IsInvalid (from refer)
    refer_valid = IsKnown-valid (from refer) 0x2000 IsKnown-refer

    all_valid : ¬ IsInvalid (from_all v3)
    all_valid = IsKnown-valid (from_all v3) 0x7fff IsKnown-all

    -- On a kernel that keeps to its documentation, in a state in which no resource is used up:
    -- ruleset_handling_renames returns no error. If the kernel's ABI has the right Refer, the
    -- ruleset will be enforced, and is one that the kernel made, for Refer and the rights of the
    -- third ABI, as far as the kernel has them. If not, the state is Dummy and there is no descriptor.
    pub ruleset_handling_renames_kept :
        (w : World) → V.Ready w → Succeeds RenamesOrNothing (ruleset_handling_renames w)
    unfolding ruleset_handling_renames
    ruleset_handling_renames_kept w ready =
        elim (Bool-cases (contains (from_all V.abi) (from refer))) [
          | inl e ↦
              (let sub = (contains_iff (from_all V.abi) (from refer)).0 e in
                Succeeds-weaken (Handles V D (from refer ∪ from_all v3)) RenamesOrNothing
                  (two_levels soft_requirement (from refer) (from_all v3) w)
                  (met soft_requirement (from refer) (from_all v3) w ready refer_valid all_valid
                    sub)
                  (λ c w' h. inl (sub, h)))
          | inr e ↦
              (let beyond : ¬ (from refer ⊆ from_all V.abi) =
                  λ k. cc ((contains_iff (from_all V.abi) (from refer)).1 k) in
                Succeeds-weaken (λ c w'. IsGivenUp c) RenamesOrNothing
                  (two_levels soft_requirement (from refer) (from_all v3) w)
                  (two_levels-Off V D (from refer) (from_all v3) w ready refer_valid all_valid
                    beyond)
                  (λ c w' g. inr (beyond, g)))
        ]

    -- What `handle_access` says of the rights of the first ABI where there is no Landlock.
    abbrev pub lacking : RulesetError Flags
    lacking =
        handle_accesses
          (HandleAccessesError.fs (HandleAccessError.compat (access (incompatible (from_all v1)))))

    check_lacking :
        check_access (from_all v1) unsupported
        ≡ ok (CompatResult.no_support (access (incompatible (from_all v1))))
    unfolding check_access against bits_of discriminant
    check_lacking =
        rw
          (
            is_empty_false (from_all v1) (IsKnown-ne (from_all v1) 0x1fff IsKnown-v1),
            (contains_iff all (from_all v1)).1
                (sub_bits (from_all v1) all 0x1fff 0x7fff bits-v1 bits-all refl),
            (is_empty_iff (from_all v1 ∩ from_all unsupported)).1 (nothing_left (from_all v1)),
          )
          refl

    handle_lacking :
        (r : Ruleset) (w : World)
        → r.compat.abi ≡ unsupported
        → into r.compat.level ≡ hard_requirement
        → (handle_access (from_all v1) (r, w)).0 ≡ err lacking
    unfolding handle_access ruleset_handle_access add_handled try_compat try_compat_self settle
        settle_none
    handle_lacking r w e l = rw (e, l, check_lacking) refl

    -- With Landlock the rights of both ABIs are handled as far as the kernel has them; without it
    -- the error names the rights of the first.
    abbrev pub FragileOrError : Result RulesetCreated (RulesetError Flags) × World → Type 0
    FragileOrError (ok c, w) = (V.abi ≢ unsupported) × Handles V D (from_all v1 ∪ from_all v2) c w
    FragileOrError (err e, w) = (V.abi ≡ unsupported) × (e ≡ lacking)

    refused_first :
        (m : Result (Unit {0}) (RulesetError Flags) × (Ruleset × World))
        (rest : Ruleset → Exec World (RulesetError Flags) RulesetCreated)
        → V.abi ≡ unsupported
        → m.0 ≡ err lacking
        → FragileOrError (proceed (owned m) rest)
    refused_first (ok u, (r, w)) rest e h = absurd (cc h)
    refused_first (err x, (r, w)) rest e h = (e, ground arith)

    not_refused :
        (m : Result RulesetCreated (RulesetError Flags) × World)
        → V.abi ≢ unsupported
        → Succeeds (Handles V D (from_all v1 ∪ from_all v2)) m
        → FragileOrError m
    not_refused (ok c, w) ne h = (ne, h)
    not_refused (err e, w) ne h = absurd h

    fragile_refused :
        (w : World) → V.abi ≡ unsupported → V.Ready w → FragileOrError (ruleset_fragile w)
    unfolding ruleset_fragile two_levels handle_access_owned
    fragile_refused w e ready =
        let fresh =
          set_compatibility-Built V V.abi best_effort hard_requirement empty (default w).0
            (default w).1 (default-Built V D w ready) in
        let r = set_compatibility hard_requirement (default w).0 in
        refused_first (handle_access (from_all v1) (r, (default w).1)) _ e
          (handle_lacking r (default w).1 (fresh.exact.abi_kept ∙ e) fresh.at_level)

    fragile_met :
        (w : World)
        → V.abi ≢ unsupported
        → V.Ready w
        → from_all v1 ⊆ from_all V.abi
        → FragileOrError (ruleset_fragile w)
    unfolding ruleset_fragile
    fragile_met w ne ready sub =
        not_refused (two_levels hard_requirement (from_all v1) (from_all v2) w) ne (
          met hard_requirement (from_all v1) (from_all v2) w ready
            (IsKnown-valid (from_all v1) 0x1fff IsKnown-v1)
            (IsKnown-valid (from_all v2) 0x3fff IsKnown-v2) sub)

    with_first :
        (abi : Abi) (m : ℕ)
        → V.abi ≡ abi
        → bits (from_all abi) ≡ m
        → (bit_and m 0x1fff == 0x1fff) ≡ true
        → from_all v1 ⊆ from_all V.abi
    with_first abi m e k h =
        subst (λ (x : Abi). from_all v1 ⊆ from_all x) (sym e)
          (sub_bits (from_all v1) (from_all abi) 0x1fff m bits-v1 k h)

    fragile_by :
        (abi : Abi) (w : World) → V.abi ≡ abi → V.Ready w → FragileOrError (ruleset_fragile w)
    fragile_by unsupported w e ready = fragile_refused w e ready
    fragile_by v1 w e ready =
        fragile_met w (λ u. cc (u, e)) ready (with_first v1 0x1fff e bits-v1 refl)
    fragile_by v2 w e ready =
        fragile_met w (λ u. cc (u, e)) ready (with_first v2 0x3fff e (bits-from_all v2) refl)
    fragile_by v3 w e ready =
        fragile_met w (λ u. cc (u, e)) ready (with_first v3 0x7fff e (bits-from_all v3) refl)

    -- On a kernel that keeps to its documentation, in a state in which no resource is used up:
    -- ruleset_fragile fails exactly where the kernel has no Landlock, with the error
    -- AccessError::Incompatible that names the rights of the first ABI. With Landlock the ruleset will
    -- be enforced, and is one that the kernel made, for the rights of the first two ABIs, as
    -- far as the kernel has them.
    pub ruleset_fragile_kept : (w : World) → V.Ready w → FragileOrError (ruleset_fragile w)
    ruleset_fragile_kept w ready = fragile_by V.abi w refl ready
