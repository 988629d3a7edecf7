-- ===== src/Scenarios/IgnoreAbi.antt =====
-- The test `ignore_abi_v2_with_abi_v1` of src/ruleset.rs: a ruleset that a soft requirement gives up.
use rust_landlock.Prelude.{false, [], ◌∷◌, ◌≡◌, inl, inr, refl, sym, ap, subst, ◌∙◌, arith}
use rust_landlock.Prelude.Exec.{
  Result, ok, err, Exec, Succeeds, Succeeds-proceed, Succeeds_value, value_Succeeds, proceed, ◌>>=◌,
  map_err,
}
use rust_landlock.Prelude.Int.{ℤ}
use rust_landlock.Uapi.{Sys, IoError}
use rust_landlock.BitFlags.{BitFlags, ◌∪◌, refer, read_file, read_dir, bits_of, discriminant}
use rust_landlock.BitFlags.Digits.{◌⊆◌}
use rust_landlock.Errors.{RulesetError, open_call}
use rust_landlock.Compat.Abi.{Abi, v1, v2}
use rust_landlock.Compat.Level.{best_effort, soft_requirement, hard_requirement, into}
use rust_landlock.Access.Reported.{IsInvalid}
use rust_landlock.Fs.Rights.{from_all}
use rust_landlock.Fs.Rights.Tables.{bits-from_all}
use rust_landlock.Fs.File.{open_path, own}
use rust_landlock.Fs.PathBeneath.{new}
use rust_landlock.Ruleset.Types.{
  Ruleset, RulesetCreated, RestrictionStatus, not_enforced, set_compatibility, created,
}
use rust_landlock.Ruleset.Handle.{handle_access}
use rust_landlock.Ruleset.Handle.Invariant.{handle_access-IsValid}
use rust_landlock.Ruleset.Create.{create}
use rust_landlock.Ruleset.Create.Outcome.{Created, missing, inert, made, failed, create-Created}
use rust_landlock.Ruleset.Rules.{path_rule, add_rule_owned}
use rust_landlock.Ruleset.Restrict.{restrict_self}
use rust_landlock.Ruleset.Session.Paths.{handle_access_owned}
use rust_landlock.Ruleset.Session.Live.{IsExact-IsValid}
use rust_landlock.Ruleset.Session.Live.Built.{
  Built, Succeeds-owned, start-Built, handle_access-Built, set_compatibility-Built,
}
use rust_landlock.Ruleset.Session.GivenUp.Requests.{IsOver, soft-IsOver, handle_access_level}
use rust_landlock.Ruleset.Session.GivenUp.Late.{IsLate, add_rule_owned-IsLate}
use rust_landlock.Kernel.{View, Keeps, IsDocumented, OpenedAs}
use rust_landlock.Fs.File.{FilePath}
use rust_landlock.Scenarios.{TestRulesetError}
use rust_landlock.Scenarios.Closures.{lift, rule_on, fd_or_drop}
use rust_landlock.Scenarios.Created.{usr, tmp}
use rust_landlock.Scenarios.Outcomes.{Succeeds-lift}
use rust_landlock.Scenarios.Rights.{
  IsKnown, IsKnown-valid, IsKnown-ne, IsKnown-v1, IsKnown-refer, bits-v1, bits-added, beyond_bits,
  sub_bits, IsKnown-added,
}
use rust_landlock.Scenarios.Requests.{start}
use rust_landlock.Scenarios.Unsupported.Endings.{given_up_ends}

module _ ⦃S : Sys⦄ ⦃E : BitFlags⦄ where
  open S use {World}
  open E use {Flags, empty, from, make_bitflags, bits-make_bitflags}

  abbrev reads : Flags
  reads = make_bitflags (read_file ∷ read_dir ∷ [])

  -- The calls of the test; the panic of an `unwrap` is the error.
  unfoldable pub ignore_abi_v2_with_abi_v1 : Exec World TestRulesetError RestrictionStatus
  unfolding rule_on
  ignore_abi_v2_with_abi_v1 = do
    r1 ← λ w.
        lift (handle_access_owned (from_all v1) (set_compatibility hard_requirement (start v1)) w)
    r2 ← λ w. lift (handle_access_owned (from refer) (set_compatibility soft_requirement r1) w)
    c ← λ w. lift (create r2 w)
    c1 ← rule_on tmp (from_all v2) c
    c2 ← rule_on usr (make_bitflags (read_file ∷ read_dir ∷ [])) c1
    λ w. lift (restrict_self c2 w)

  abbrev asked : Flags
  asked = empty ∪ from_all v1 ∪ from refer

  IsKnown-asked : IsKnown asked 0x3fff
  unfolding bits_of discriminant
  IsKnown-asked = record {
    word =
        bits-added (empty ∪ from_all v1) (from refer) 0x1fff 0x2000
          (IsKnown-added (from_all v1) 0x1fff IsKnown-v1).word IsKnown-refer.word;
    some_right = refl;
    declared = refl;
  }

  IsKnown-v2 : IsKnown (from_all v2) 0x3fff
  IsKnown-v2 = record { word = bits-from_all v2; some_right = refl; declared = refl }

  IsKnown-reads : IsKnown reads 12
  unfolding bits_of discriminant
  IsKnown-reads = record {
    word = bits-make_bitflags (read_file ∷ read_dir ∷ []);
    some_right = refl;
    declared = refl;
  }

  abbrev ignored : RestrictionStatus
  ignored = record { status = not_enforced; no_new_privs = false }

  abbrev Ends : RestrictionStatus → World → Type 0
  Ends st w = st ≡ ignored

  module _ (V : View) (D : IsDocumented V) where
    -- A builder that is over, at the soft requirement.
    record IsSoft (r : Ruleset) (w : World) : Type 0 where
      over : IsOver r
      soft : into r.compat.level ≡ soft_requirement
      asked_for : r.requested_handled_fs ≡ asked
      ready : V.Ready w

    refer-IsSoft :
        (r : Ruleset) (w : World)
        → Built V v1 soft_requirement (empty ∪ from_all v1) r w
        → Succeeds IsSoft (handle_access_owned (from refer) r w)
    unfolding handle_access_owned
    refer-IsSoft r w b =
        let valid = IsExact-IsValid V v1 r b.exact in
        let (done, over, kept) =
          soft-IsOver (from refer) r w valid b.at_level
            (IsKnown-valid (from refer) 0x2000 IsKnown-refer)
            (λ h.
              beyond_bits (from refer) (from_all v1) 0x2000 0x1fff IsKnown-refer.word bits-v1 refl
                (subst (λ (x : Abi). from refer ⊆ from_all x) b.exact.abi_kept h)) in
        Succeeds-owned IsSoft (handle_access (from refer) (r, w)) done (record {
          over = over;
          soft = ap into (handle_access_level (from refer) r w) ∙ b.at_level;
          asked_for =
              (handle_access-IsValid (from refer) r w valid).1
              ∙ ap (λ (x : Flags). x ∪ from refer) b.asked_for;
          ready = rw kept b.ready;
        })

    Late-Created :
        (r : Ruleset) (w : World) {m : Result RulesetCreated (RulesetError Flags) × World}
        → IsSoft r w
        → Created r w m
        → Succeeds (IsLate V D asked) m
    unfolding created
    Late-Created r w o (missing (inl z)) =
        absurd (IsKnown-ne asked 0x3fff IsKnown-asked (sym o.asked_for ∙ z))
    Late-Created r w o (missing (inr (z, hard))) = absurd (cc (hard, o.soft))
    Late-Created r w o (inert s ne k (inl (now, before))) = absurd (cc (before, o.over.final))
    Late-Created r w o (inert s ne k (inr now)) = record {
      ready = o.ready;
      over = record { final = now; no_fd = refl };
      soft = o.soft;
      requested = o.asked_for;
    }
    Late-Created r w o (made fd w' ne k p q) = absurd (ground (arith, o.over.final))
    Late-Created r w o (failed fd w' ne k p q) = absurd (ground (arith, o.over.final))

    moved :
        (c : RulesetCreated) (w w' : World)
        → IsLate V D asked c w
        → Keeps V w w'
        → IsLate V D asked c w'
    moved c w w' late kept = record {
      ready = kept.ready;
      over = late.over;
      soft = late.soft;
      requested = late.requested;
    }

    opened-IsLate :
        (path : FilePath) (a : Flags) (c : RulesetCreated) (w : World)
        (m : Result ℤ IoError × World)
        → IsLate V D asked c w
        → ¬ IsInvalid a
        → a ⊆ asked
        → OpenedAs V false w m
        → Succeeds (IsLate V D asked) (
            proceed
              (fd_or_drop c (own (map_err (λ e. open_call e path) m.0), m.1))
              (λ f w'. lift (add_rule_owned path_rule (new f.fd a) c w')))
    opened-IsLate path a c w (ok fd, w') late v sub (is_open, kept) =
        Succeeds-lift V D (IsLate V D asked) _
          (add_rule_owned-IsLate V D asked a fd false c w' (moved c w w' late kept) v sub is_open)
    opened-IsLate path a c w (err x, w') late v sub o = absurd o

    rule_on-IsLate :
        (path : FilePath) (a : Flags) (c : RulesetCreated) (w : World)
        → V.IsPath path false
        → IsLate V D asked c w
        → ¬ IsInvalid a
        → a ⊆ asked
        → Succeeds (IsLate V D asked) (rule_on path a c w)
    unfolding rule_on open_path
    rule_on-IsLate path a c w is_path late v sub =
        opened-IsLate path a c w _ late v sub (D.opened_as path false w late.ready is_path)

    -- On a kernel that keeps to its documentation, of any ABI, in a state in which no resource is used
    -- up and in which /tmp and /usr are directories: no call of the test ignore_abi_v2_with_abi_v1
    -- fails, and the status is the one that it asserts, not enforced and without no_new_privs.
    pub ignore_abi_v2_with_abi_v1_passes :
        (w : World)
        → V.Ready w
        → V.IsPath tmp false
        → V.IsPath usr false
        → (ignore_abi_v2_with_abi_v1 w).0
          ≡ ok (record { status = not_enforced; no_new_privs = false })
    unfolding ignore_abi_v2_with_abi_v1
    ignore_abi_v2_with_abi_v1_passes w ready is_tmp is_usr = Succeeds_value ignored _ (
        Succeeds-proceed (Built V v1 hard_requirement (empty ∪ from_all v1)) Ends _ _
          (Succeeds-lift V D (Built V v1 hard_requirement (empty ∪ from_all v1)) _ (
            handle_access-Built V v1 hard_requirement empty (from_all v1)
              (set_compatibility hard_requirement (start v1)) w
              (IsKnown-valid (from_all v1) 0x1fff IsKnown-v1) (inr (λ i p. p))
              (set_compatibility-Built V v1 best_effort hard_requirement empty (start v1) w
                (start-Built V v1 w ready))))
          (λ r1 w1 b.
            Succeeds-proceed IsSoft Ends _ _
              (Succeeds-lift V D IsSoft _ (
                refer-IsSoft (set_compatibility soft_requirement r1) w1 (
                  set_compatibility-Built V v1 hard_requirement soft_requirement
                    (empty ∪ from_all v1) r1 w1 b)))
              (λ r2 w2 o.
                Succeeds-proceed (IsLate V D asked) Ends _ _
                  (Succeeds-lift V D (IsLate V D asked) (create r2 w2)
                    (Late-Created r2 w2 o (create-Created r2 w2 o.over.valid)))
                  (λ c w3 late.
                    Succeeds-proceed (IsLate V D asked) Ends _ _
                      (rule_on-IsLate tmp (from_all v2) c w3 is_tmp late
                        (IsKnown-valid (from_all v2) 0x3fff IsKnown-v2)
                        (sub_bits (from_all v2) asked 0x3fff 0x3fff IsKnown-v2.word
                          IsKnown-asked.word refl))
                      (λ c1 w4 late1.
                        Succeeds-proceed (IsLate V D asked) Ends _ _
                          (rule_on-IsLate usr reads c1 w4 is_usr late1
                            (IsKnown-valid reads 12 IsKnown-reads)
                            (sub_bits reads asked 12 0x3fff IsKnown-reads.word IsKnown-asked.word
                              refl))
                          (λ c2 w5 late2. Succeeds-lift V D Ends (restrict_self c2 w5) (
                            value_Succeeds ignored (restrict_self c2 w5)
                              (given_up_ends c2 w5 late2.over.final))))))))
