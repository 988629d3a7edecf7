-- ===== src/Ruleset/Session/Live/Loop.antt =====
-- The loop of `add_rules` of src/ruleset.rs on a kernel as documented, at best effort.
use rust_landlock.Prelude.{Bool, Option, none, some, ◌≡◌, inl, inr, refl, sym, ◌∙◌, List, [], ◌∷◌}
use rust_landlock.Prelude.Exec.{Result, ok, err, Succeeds, Succeeds-weaken}
use rust_landlock.Prelude.Int.{ℤ}
use rust_landlock.Uapi.{Sys}
use rust_landlock.BitFlags.{BitFlags, ◌∩◌}
use rust_landlock.BitFlags.Digits.{◌⊆◌}
use rust_landlock.Errors.{RulesetError}
use rust_landlock.Compat.Abi.{Abi}
use rust_landlock.Compat.State.{CompatState, init, full, partial, no_support, dummy}
use rust_landlock.Access.Reported.{IsInvalid}
use rust_landlock.Fs.Rights.{from_all}
use rust_landlock.Fs.PathBeneath.{PathBeneath, new}
use rust_landlock.Fs.PathBeneath.Lenient.{IsWhole}
use rust_landlock.Ruleset.Types.{RulesetCreated, drop}
use rust_landlock.Ruleset.Rules.{path_rule, add_rule_owned, add_rules}
use rust_landlock.Kernel.{View, Keeps, IsDocumented}
use rust_landlock.Kernel.Calls.{Keeps-refl, Keeps-trans}
use rust_landlock.Ruleset.Session.Live.{Standing, enforcing, idle, IsLive}
use rust_landlock.Ruleset.Session.Live.Rules.{RuleMoved, Serves, Goes}
use rust_landlock.Ruleset.Session.Live.Ends.{add_rule_owned-Goes}

module _ ⦃S : Sys⦄ ⦃E : BitFlags⦄ where
  open S use {World}
  open E use {Flags}

  module _ (V : View) (D : IsDocumented V) where
    -- A step of an iterator that gives a rule for an open descriptor, or none; if the ABI has all rights
    -- that were asked for, all of the rule's rights are granted.
    pub data Item {E' : Type 0} (abi : Abi) (asked : Flags) (w : World)
        : Option (Result PathBeneath E') × World → Type 0 where
      filtered : (w' : World) → Keeps V w w' → Item abi asked w (none, w')
      rule :
          (p : ℤ) (a : Flags) (file : Bool) (w' : World)
          → Keeps V w w'
          → ¬ IsInvalid a
          → a ⊆ asked
          → V.IsOpen w' p file
          → Serves a file abi
          → (asked ⊆ from_all abi → IsWhole a file abi)
          → Item abi asked w (some (ok (new p a)), w')

    abbrev pub Items :
        {E' : Type 0} → Abi → Flags → List (World → Option (Result PathBeneath E') × World) → Type 0
    Items abi asked [] = Unit {0}
    Items abi asked (step ∷ steps) =
        ((w : World) → V.Ready w → Item abi asked w (step w)) × Items abi asked steps

    pub IsLive-Keeps :
        (abi : Abi) (asked : Flags) (c : RulesetCreated) (w w' : World)
        → IsLive V abi asked c w
        → Keeps V w w'
        → IsLive V abi asked c w'
    IsLive-Keeps abi asked c w w' live kept = record {
      ready = kept.ready;
      nnp = live.nnp;
      lenient = live.lenient;
      abi_kept = live.abi_kept;
      requested = live.requested;
      standing = stands live.standing;
    }
      where
        stands : Standing V (asked ∩ from_all abi) c w → Standing V (asked ∩ from_all abi) c w'
        stands (enforcing ne e is_ruleset) = enforcing ne e (kept.rulesets c.fd _ is_ruleset)
        stands (idle none_left e) = idle none_left e

    -- What the loop leaves.
    abbrev pub Looped : Abi → Flags → RulesetCreated → World → RulesetCreated → World → Type 0
    Looped abi asked c w c' w' =
        IsLive V abi asked c' w' × Keeps V w w' × (c'.compat.state ≡ c.compat.state)

    -- A rule of which all is granted, or one in a state that is partial already, leaves the state.
    pub unmoved :
        (a : Flags) (file : Bool) (abi : Abi) (s s' : CompatState)
        → RuleMoved a file abi s s'
        → (s ≡ full → IsWhole a file abi)
        → s' ≡ s
    unmoved a file abi init s' m h = m.inert refl
    unmoved a file abi full s' m h = elim (m.enforced refl) [
      | inl (whole, e) ↦ e
      | inr (less, e) ↦ absurd (less (h refl))
    ]
    unmoved a file abi partial s' m h = elim (m.enforced refl) [
      | inl (whole, e) ↦ e
      | inr (less, e) ↦ e
    ]
    unmoved a file abi no_support s' m h = m.inert refl
    unmoved a file abi dummy s' m h = m.inert refl

    -- The loop after one rule.
    abbrev pub rest_of :
        {E' : Type 0}
        → (RulesetError Flags → E')
        → List (World → Option (Result PathBeneath E') × World)
        → Result RulesetCreated (RulesetError Flags) × World
        → Result RulesetCreated E' × World
    rest_of conv steps (res, w2) = elim res [
      | ok c' ↦ add_rules path_rule conv steps c' w2
      | err e ↦ (err (conv e), w2)
    ]

    Succeeds-rest_of :
        {E' : Type 0} (conv : RulesetError Flags → E')
        (steps : List (World → Option (Result PathBeneath E') × World))
        (P Q : RulesetCreated → World → Type 0)
        (m : Result RulesetCreated (RulesetError Flags) × World)
        → Succeeds P m
        → ((c' : RulesetCreated) (w' : World)
            → P c' w'
            → Succeeds Q (add_rules path_rule conv steps c' w'))
        → Succeeds Q (rest_of conv steps m)
    Succeeds-rest_of conv steps P Q (ok c', w') h k = k c' w' h
    Succeeds-rest_of conv steps P Q (err e, w') h k = absurd h

    -- The loop after one step of the iterator.
    abbrev pub item_of :
        {E' : Type 0}
        → (RulesetError Flags → E')
        → List (World → Option (Result PathBeneath E') × World)
        → RulesetCreated
        → Option (Result PathBeneath E') × World
        → Result RulesetCreated E' × World
    item_of conv steps c (item, w1) = elim item [
      | none ↦ add_rules path_rule conv steps c w1
      | some (err e) ↦ (err e, drop c w1)
      | some (ok r) ↦ rest_of conv steps (add_rule_owned path_rule r c w1)
    ]

    item_loops :
        {E' : Type 0} (conv : RulesetError Flags → E') (abi : Abi) (asked : Flags)
        (steps : List (World → Option (Result PathBeneath E') × World)) (c : RulesetCreated)
        (w : World) {m : Option (Result PathBeneath E') × World}
        → IsLive V abi asked c w
        → (c.compat.state ≡ full → asked ⊆ from_all abi)
        → ((c' : RulesetCreated) (w' : World)
            → Looped abi asked c w c' w'
            → Succeeds (Looped abi asked c w) (add_rules path_rule conv steps c' w'))
        → Item abi asked w m
        → Succeeds (Looped abi asked c w) (item_of conv steps c m)
    item_loops conv abi asked steps c w live whole k (filtered w' kept) =
        k c w' (IsLive-Keeps abi asked c w w' live kept, kept, refl)
    item_loops conv abi asked steps c w live whole k
          (rule p a file w' kept v sub is_open serves all) =
        Succeeds-rest_of conv steps (λ c' w''. Goes V abi asked a file c w' tt (c', w''))
          (Looped abi asked c w) _
          (add_rule_owned-Goes V D a file abi asked c w' p (IsLive-Keeps abi asked c w w' live kept)
            v sub is_open serves)
          (λ c' w'' (live', kept', moved).
            k c' w''
              (live', Keeps-trans V kept kept', unmoved a file abi _ _ moved (λ e. all (whole e))))

    -- On a kernel as documented, at best effort, add_rules with an iterator of such steps succeeds, and
    -- leaves a ruleset that can go on, in the same state.
    pub add_rules-Looped :
        {E' : Type 0} (conv : RulesetError Flags → E') (abi : Abi) (asked : Flags)
        (steps : List (World → Option (Result PathBeneath E') × World)) (c : RulesetCreated)
        (w : World)
        → IsLive V abi asked c w
        → (c.compat.state ≡ full → asked ⊆ from_all abi)
        → Items abi asked steps
        → Succeeds (Looped abi asked c w) (add_rules path_rule conv steps c w)
    unfolding add_rules
    add_rules-Looped conv abi asked [] c w live whole good = (live, Keeps-refl V live.ready, refl)
    add_rules-Looped conv abi asked (step ∷ steps) c w live whole (now, later) =
        item_loops conv abi asked steps c w live whole
          (λ c' w' (live', kept, same).
            Succeeds-weaken (Looped abi asked c' w') (Looped abi asked c w) _
              (add_rules-Looped conv abi asked steps c' w' live' (λ e. whole (sym same ∙ e)) later)
              (λ c'' w'' (live'', kept', same'). (live'', Keeps-trans V kept kept', same' ∙ same)))
          (now w live.ready)
