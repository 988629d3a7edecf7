-- ===== src/Scenarios/Created.antt =====
-- The test `ruleset_created_attr` of src/ruleset.rs: rules on a ruleset of a kernel without Landlock.
use rust_landlock.Prelude.{true, false, [], ◌∷◌, ◌≡◌, inl, refl, sym, subst, ◌∙◌}
use rust_landlock.Prelude.Exec.{
  ok, Exec, Succeeds, Succeeds-proceed, Succeeds-weaken, Succeeds_value, proceed, ◌>>=◌,
}
use rust_landlock.Uapi.{Sys}
use rust_landlock.BitFlags.{BitFlags, ◌∩◌, ◌∪◌, execute}
use rust_landlock.BitFlags.Sets.{⊆-union_right, ⊆-of_empty}
use rust_landlock.Compat.Abi.{unsupported}
use rust_landlock.Compat.Level.{best_effort, into}
use rust_landlock.Compat.State.{CompatState, no_support}
use rust_landlock.Fs.Rights.{from_all}
use rust_landlock.Fs.File.{FilePath}
use rust_landlock.Fs.Rights.Tables.{nothing_left}
use rust_landlock.Ruleset.Types.{
  Ruleset, RulesetCreated, RestrictionStatus, not_enforced, set_compatibility_created, status_of,
}
use rust_landlock.Ruleset.Create.{create}
use rust_landlock.Ruleset.Restrict.{restrict_self}
use rust_landlock.Ruleset.Session.Paths.{handle_access_owned}
use rust_landlock.Ruleset.Session.Live.{IsLive, Standing, enforcing, idle, Starts, create-IsLive}
use rust_landlock.Ruleset.Session.Live.Built.{Built, start-Built, handle_access-Built}
use rust_landlock.Kernel.{View, IsDocumented}
use rust_landlock.Scenarios.{TestRulesetError}
use rust_landlock.Scenarios.Closures.{lift, rule_on}
use rust_landlock.Scenarios.Outcomes.{Succeeds-lift}
use rust_landlock.Scenarios.Endings.{Ruled, rule_on-Ruled, ends}
use rust_landlock.Scenarios.Rights.{
  IsKnown-execute, IsKnown-valid, IsKnown-ne, IsKnown-added, Serves-directory,
}
use rust_landlock.Scenarios.Requests.{start}

-- "/usr", "/etc", "/tmp" and "/var"
abbrev pub usr : FilePath
usr = 47 ∷ 117 ∷ 115 ∷ 114 ∷ []

abbrev pub etc : FilePath
etc = 47 ∷ 101 ∷ 116 ∷ 99 ∷ []

abbrev pub tmp : FilePath
tmp = 47 ∷ 116 ∷ 109 ∷ 112 ∷ []

abbrev pub var : FilePath
var = 47 ∷ 118 ∷ 97 ∷ 114 ∷ []

module _ ⦃S : Sys⦄ ⦃E : BitFlags⦄ where
  open S use {World}
  open E use {Flags, empty, from, bits-empty}

  -- The calls of the test; the panic of an `unwrap` is the error. Such a panic drops the ruleset, as
  -- the return of an error does.
  unfoldable pub ruleset_created_attr : Exec World TestRulesetError RestrictionStatus
  unfolding rule_on
  ruleset_created_attr = do
    r ← λ w. lift (handle_access_owned (from execute) (start unsupported) w)
    c ← λ w. lift (create r w)
    c1 ← rule_on usr (from execute) (set_compatibility_created best_effort c)
    c2 ← rule_on etc (from execute) c1
    c3 ← rule_on tmp (from execute) (set_compatibility_created best_effort c2)
    c4 ← rule_on var (from execute) c3
    λ w. lift (restrict_self c4 w)

  module _ (V : View) (D : IsDocumented V) where
    abbrev pub asked : Flags
    asked = empty ∪ from execute

    abbrev pub Idle : RulesetCreated → World → Type 0
    Idle c w = IsLive V unsupported asked c w

    abbrev Unenforced : RestrictionStatus → World → Type 0
    Unenforced st w = st ≡ record { status = not_enforced; no_new_privs = true }

    level_kept :
        (c : RulesetCreated) (w : World)
        → Idle c w
        → Idle (set_compatibility_created best_effort c) w
    unfolding set_compatibility_created into
    level_kept c w live = record {
      ready = live.ready;
      nnp = live.nnp;
      lenient = refl;
      abi_kept = live.abi_kept;
      requested = live.requested;
      standing = stands live.standing;
    }
      where
        stands :
            Standing V (asked ∩ from_all unsupported) c w
            → Standing V (asked ∩ from_all unsupported) (set_compatibility_created best_effort c) w
        stands (enforcing ne e is_ruleset) = enforcing ne e is_ruleset
        stands (idle none_left e) = idle none_left e

    pub no_support_left :
        (c : RulesetCreated) (w : World)
        → Standing V (asked ∩ from_all unsupported) c w
        → c.compat.state ≡ no_support
    no_support_left c w (enforcing ne e is_ruleset) = absurd (ne (nothing_left asked))
    no_support_left c w (idle none_left e) = e

    rule_then :
        (path : FilePath) (c : RulesetCreated) (w : World)
        (rest : RulesetCreated → Exec World TestRulesetError RestrictionStatus)
        → V.IsPath path false
        → Idle c w
        → ((c' : RulesetCreated) (w' : World) → Idle c' w' → Succeeds Unenforced (rest c' w'))
        → Succeeds Unenforced (proceed (rule_on path (from execute) c w) rest)
    rule_then path c w rest is_path live k =
        Succeeds-proceed (Ruled V D (from execute) false unsupported asked c) Unenforced _ rest
          (rule_on-Ruled V D path (from execute) false unsupported asked c w is_path live
            (IsKnown-valid (from execute) 1 IsKnown-execute) (⊆-union_right empty (from execute))
            (Serves-directory (from execute) unsupported))
          (λ c' w' (live', moved). k c' w' live')

    last :
        (c : RulesetCreated) (w : World) → Idle c w → Succeeds Unenforced (lift (restrict_self c w))
    unfolding status_of
    last c w live =
        Succeeds-weaken
          (λ st w'. st ≡ record { status = status_of c.compat.state; no_new_privs = true })
          Unenforced _ (ends V D unsupported asked c w live)
          (λ st w' e.
            subst (λ (s : CompatState). st ≡ record { status = status_of s; no_new_privs = true })
              (no_support_left c w live.standing) e)

    pub creates :
        (r : Ruleset) (w : World)
        → Built V unsupported best_effort asked r w
        → Succeeds Idle (lift (create r w))
    creates r w b = Succeeds-lift V D Idle (create r w) (
        Succeeds-weaken (Starts V unsupported r w) Idle (create r w)
          (create-IsLive V unsupported r w D b.exact b.at_level
            (λ z.
              IsKnown-ne asked 1 (IsKnown-added (from execute) 1 IsKnown-execute)
                (sym b.asked_for ∙ z))
            b.ready (rw b.exact.handled (⊆-of_empty _ _ (nothing_left r.requested_handled_fs))))
          (λ c w' (live, kept, same_state).
            subst (λ (a : Flags). IsLive V unsupported a c w') b.asked_for live))

    -- On a kernel that keeps to its documentation, in a state in which no resource is used up and in which
    -- /usr, /etc, /tmp and /var are directories: no call of the test ruleset_created_attr fails, and
    -- the status is the one that it asserts, whichever ABI the kernel has.
    pub ruleset_created_attr_passes :
        (w : World)
        → V.Ready w
        → V.IsPath usr false
        → V.IsPath etc false
        → V.IsPath tmp false
        → V.IsPath var false
        → (ruleset_created_attr w).0 ≡ ok (record { status = not_enforced; no_new_privs = true })
    unfolding ruleset_created_attr
    ruleset_created_attr_passes w ready is_usr is_etc is_tmp is_var = Succeeds_value _ _ (
        Succeeds-proceed (Built V unsupported best_effort asked) Unenforced _ _
          (Succeeds-lift V D (Built V unsupported best_effort asked) _ (
            handle_access-Built V unsupported best_effort empty (from execute) (start unsupported) w
              (IsKnown-valid (from execute) 1 IsKnown-execute) (inl refl)
              (start-Built V unsupported w ready)))
          (λ r w0 b. Succeeds-proceed Idle Unenforced _ _ (creates r w0 b) (λ c w1 live.
            rule_then usr (set_compatibility_created best_effort c) w1 _ is_usr
              (level_kept c w1 live)
              (λ c1 w2 live1. rule_then etc c1 w2 _ is_etc live1 (λ c2 w3 live2.
                rule_then tmp (set_compatibility_created best_effort c2) w3 _ is_tmp
                  (level_kept c2 w3 live2)
                  (λ c3 w4 live3. rule_then var c3 w4 _ is_var live3 last))))))
