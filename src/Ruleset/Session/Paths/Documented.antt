-- ===== src/Ruleset/Session/Paths/Documented.antt =====
-- That the chain of calls gets the rights that the kernel has, on a kernel as documented.
use rust_landlock.Prelude.{
  true, false, ◌≡◌, ◌≢◌, inl, refl, sym, ap, subst, ◌∙◌, arith, List, [], ◌∷◌, if◌then◌else◌,
}
use rust_landlock.Prelude.Exec.{
  ok, Succeeds, Succeeds-proceed, Succeeds-weaken, Succeeds_value, value_Succeeds, proceed,
}
use rust_landlock.Uapi.{Sys}
use rust_landlock.BitFlags.{BitFlags, ◌∩◌, ◌∪◌}
use rust_landlock.BitFlags.Digits.{◌⊆◌, contains_iff, is_empty_iff, intersection_of_subset}
use rust_landlock.BitFlags.Sets.{intersection-⊆_right}
use rust_landlock.Errors.{RulesetError}
use rust_landlock.Compat.Abi.{Abi}
use rust_landlock.Compat.Level.{best_effort}
use rust_landlock.Compat.State.{CompatState, init, full, partial, no_support, dummy, of_abi}
use rust_landlock.Compat.State
use rust_landlock.Access.Reported.{IsInvalid}
use rust_landlock.Fs.Rights.{from_all}
use rust_landlock.Fs.File.{FilePath}
use rust_landlock.Fs.PathBeneath.{path_beneath_rules}
use rust_landlock.Ruleset.Types.{
  Ruleset, RulesetCreated, RestrictionStatus, RulesetStatus, fully_enforced, partially_enforced,
  not_enforced, status_of, default,
}
use rust_landlock.Ruleset.Handle.Grades.{Grades}
use rust_landlock.Ruleset.Create.{create}
use rust_landlock.Ruleset.Create.Outcome.{is_empty_false}
use rust_landlock.Ruleset.Restrict.{restrict_self}
use rust_landlock.Kernel.{View, IsDocumented}
use rust_landlock.Kernel.Calls.{Keeps-refl, Keeps-trans, version_told}
use rust_landlock.Ruleset.Session.Live.{IsLive, Starts, create-IsLive}
use rust_landlock.Ruleset.Session.Live.Built.{Built, start-Built, handle_access-Built, empty-union}
use rust_landlock.Ruleset.Session.Live.Items.{IsRule, path_beneath_rules-Items}
use rust_landlock.Ruleset.Session.Live.Ends.{restrict_self_ends}
use rust_landlock.Ruleset.Session.Live.Loop.{Looped, add_rules-Looped}
use rust_landlock.Ruleset.Session.Paths.{add_hierarchies, restrict_paths}

module _ ⦃S : Sys⦄ ⦃E : BitFlags⦄ where
  open S use {World}
  open E use {Flags, empty, is_empty, contains}

  -- The status that tells how much of the rights an ABI has.
  abbrev pub graded_status : Flags → Abi → RulesetStatus
  graded_status a abi =
      if is_empty (a ∩ from_all abi)
      then not_enforced
      else if contains (from_all abi) a
      then fully_enforced
      else partially_enforced

  contains_false : (a b : Flags) → ¬ (b ⊆ a) → contains a b ≡ false
  contains_false a b h = ground (arith, contains_iff a b)

  -- What a state that grades the rights stands for.
  pub graded_status_lem :
      (s : CompatState) (a : Flags) (abi : Abi)
      → a ≢ empty
      → Grades s a (from_all abi)
      → status_of s ≡ graded_status a abi
  unfolding status_of
  graded_status_lem init a abi ne g = absurd (ne g)
  graded_status_lem full a abi ne g =
      rw
        (
          intersection_of_subset a (from_all abi) g.1,
          is_empty_false a ne,
          (contains_iff (from_all abi) a).1 g.1,
        )
        refl
  graded_status_lem partial a abi ne g =
      rw (is_empty_false (a ∩ from_all abi) g.0, contains_false (from_all abi) a g.1) refl
  graded_status_lem no_support a abi ne g = rw ((is_empty_iff (a ∩ from_all abi)).1 g.0) refl
  graded_status_lem dummy a abi ne g = absurd g

  abbrev pub AllRules : Flags → List (List FilePath × Flags) → Type 0
  AllRules asked [] = Unit {0}
  AllRules asked (h ∷ hs) = IsRule asked h.1 × AllRules asked hs

  module _ (V : View) (D : IsDocumented V) where
    pub default-Built :
        (w : World) → V.Ready w → Built V V.abi best_effort empty (default w).0 (default w).1
    unfolding default State.new
    default-Built w ready =
        let (told, kept) = version_told V D w ready in rw told (start-Built V V.abi _ kept.ready)

    add_hierarchies-Looped :
        (asked : Flags) (hs : List (List FilePath × Flags)) (c : RulesetCreated) (w : World)
        → IsLive V V.abi asked c w
        → (c.compat.state ≡ full → asked ⊆ from_all V.abi)
        → AllRules asked hs
        → Succeeds (Looped V D V.abi asked c w) (add_hierarchies hs c w)
    unfolding add_hierarchies
    add_hierarchies-Looped asked [] c w live whole k = (live, Keeps-refl V live.ready, refl)
    add_hierarchies-Looped asked (h ∷ hs) c w live whole (now, later) =
        Succeeds-proceed (Looped V D V.abi asked c w) (Looped V D V.abi asked c w) _
          (add_hierarchies hs)
          (add_rules-Looped V D (λ e. e) V.abi asked (path_beneath_rules h.0 h.1) c w live whole
            (path_beneath_rules-Items V D (RulesetError Flags) V.abi asked h.1 h.0 now))
          (λ c' w' (live', kept, same).
            Succeeds-weaken (Looped V D V.abi asked c' w') (Looped V D V.abi asked c w) _
              (add_hierarchies-Looped asked hs c' w' live' (λ e. whole (sym same ∙ e)) later)
              (λ c'' w'' (live'', kept', same'). (live'', Keeps-trans V kept kept', same' ∙ same)))

    abbrev expected : Flags → RestrictionStatus
    expected access = record { status = graded_status access V.abi; no_new_privs = true }

    Grades-full : (a f : Flags) (s : CompatState) → Grades s a f → s ≡ full → a ⊆ f
    Grades-full a f s g e = (subst (λ (x : CompatState). Grades x a f) e g).1

    restricts :
        (asked : Flags) (c : RulesetCreated) (w : World)
        → asked ≢ empty
        → IsLive V V.abi asked c w
        → Grades c.compat.state asked (from_all V.abi)
        → Succeeds (λ st w'. st ≡ expected asked) (restrict_self c w)
    restricts asked c w ne live g = value_Succeeds (expected asked) (restrict_self c w) (
        restrict_self_ends V D V.abi asked c w live
        ∙ ap (λ (x : RulesetStatus). ok (record { status = x; no_new_privs = true }))
            (graded_status_lem c.compat.state asked V.abi ne g))

    adds_and_restricts :
        (asked : Flags) (hs : List (List FilePath × Flags)) (c : RulesetCreated) (w : World)
        → asked ≢ empty
        → AllRules asked hs
        → IsLive V V.abi asked c w
        → Grades c.compat.state asked (from_all V.abi)
        → Succeeds (λ st w'. st ≡ expected asked) (proceed (add_hierarchies hs c w) restrict_self)
    adds_and_restricts asked hs c w ne rules live g =
        Succeeds-proceed (Looped V D V.abi asked c w) (λ st w'. st ≡ expected asked) _ restrict_self
          (add_hierarchies-Looped asked hs c w live
            (Grades-full asked (from_all V.abi) c.compat.state g) rules)
          (λ c' w' (live', kept, same).
            restricts asked c' w' ne live'
              (subst (λ (s : CompatState). Grades s asked (from_all V.abi)) (sym same) g))

    creates_and_restricts :
        (asked : Flags) (hs : List (List FilePath × Flags)) (r : Ruleset) (w : World)
        → asked ≢ empty
        → AllRules asked hs
        → Built V V.abi best_effort asked r w
        → Succeeds
            (λ st w'. st ≡ expected asked)
            (proceed (create r w) (λ c w'. proceed (add_hierarchies hs c w') restrict_self))
    creates_and_restricts asked hs r w ne rules b =
        Succeeds-proceed (Starts V V.abi r w) (λ st w'. st ≡ expected asked) (create r w) _
          (create-IsLive V V.abi r w D b.exact b.at_level (λ z. ne (sym b.asked_for ∙ z)) b.ready
            (rw b.exact.handled (intersection-⊆_right r.requested_handled_fs (from_all V.abi))))
          (λ c w' (live, kept, kept_state).
            adds_and_restricts asked hs c w' ne rules
              (subst (λ (a : Flags). IsLive V V.abi a c w') b.asked_for live)
              (rw kept_state (
                subst (λ (a : Flags). Grades r.compat.state a (from_all V.abi)) b.asked_for
                  b.exact.graded)))

    -- On a kernel that keeps to its documentation, in a state in which no resource is used up: for each
    -- non-empty set of declared rights and each list of lists of paths, the paths with or without
    -- files, each list with declared rights that were asked for and of which one is for files,
    -- Ruleset::default, handle_access, create, add_rules with the iterator of path_beneath_rules for
    -- each list, and restrict_self return no error. The status has no_new_privs, and is that the ruleset is
    -- not enforced if the kernel's ABI has none of the rights asked for, fully enforced if it has all, and
    -- partially enforced otherwise.
    pub restrict_paths_best_effort :
        (access : Flags) (hierarchies : List (List FilePath × Flags)) (w : World)
        → V.Ready w
        → ¬ IsInvalid access
        → AllRules access hierarchies
        → (restrict_paths access hierarchies w).0
          ≡ ok (record { status = graded_status access V.abi; no_new_privs = true })
    unfolding restrict_paths
    restrict_paths_best_effort access hs w ready v rules = Succeeds_value (expected access) _ (
        Succeeds-proceed (Built V V.abi best_effort (empty ∪ access))
          (λ st w'. st ≡ expected access) _ _
          (handle_access-Built V V.abi best_effort empty access (default w).0 (default w).1 v
            (inl refl) (default-Built w ready))
          (λ r w1 built.
            creates_and_restricts access hs r w1 (λ e. v (inl e)) rules
              (subst (λ (a : Flags). Built V V.abi best_effort a r w1) (empty-union access) built)))
