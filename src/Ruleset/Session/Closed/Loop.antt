-- ===== src/Ruleset/Session/Closed/Loop.antt =====
-- What the loop of `add_rules` of src/ruleset.rs does to the descriptor of the ruleset it owns.
use rust_landlock.Prelude.{ℕ, ◌+◌, Option, none, some, List, [], ◌∷◌, ◌≡◌, refl, subst, ap, ◌∙◌}
use rust_landlock.Prelude.Exec.{Result, ok, err, Exec, proceed}
use rust_landlock.Prelude.Int.{ℤ}
use rust_landlock.Uapi.{Sys}
use rust_landlock.BitFlags.{BitFlags}
use rust_landlock.Errors.{RulesetError}
use rust_landlock.Fs.PathBeneath.{PathBeneath}
use rust_landlock.Ruleset.Types.{RulesetCreated, drop}
use rust_landlock.Ruleset.Rules.{path_rule, add_rule, add_rule_owned, add_rules}
use rust_landlock.Ruleset.Session.Calls.{owned_rule}
use rust_landlock.Ruleset.Session.Closed.{Ledger, due, Untouched, drop_counted, add_rule-Untouched}

module _ ⦃S : Sys⦄ ⦃E : BitFlags⦄ where
  open S use {World, fstat, open_file, o_path, o_cloexec}
  open E use {Flags}

  module _ (L : Ledger) where
    open L use {closes}

    -- An owned ruleset after a call: nothing is closed, or it is gone, and its descriptor closed.
    unfoldable pub Accounted :
        RulesetCreated → World → {X : Type 0} → Result RulesetCreated X × World → Type 0
    Accounted c w (ok c', w') = Untouched L (c, w) (c', w')
    Accounted c w (err e, w') = closes c.fd w' ≡ closes c.fd w + due c.fd

    owned-Accounted :
        (c : RulesetCreated) (w : World)
        (m : Result (Unit {0}) (RulesetError Flags) × (RulesetCreated × World))
        → Untouched L (c, w) m.1
        → Accounted c w (owned_rule m)
    unfolding Accounted
    owned-Accounted c w (ok u, (c', w')) k = k
    owned-Accounted c w (err e, (c', w')) (fd, kept) =
        subst (λ (x : ℤ). closes x (drop c' w') ≡ closes x w + due x) fd
          (drop_counted L c' w' ∙ ap (λ (n : ℕ). n + due c'.fd) (kept c'.fd))

    pub add_rule_owned-Accounted :
        (r : PathBeneath) (c : RulesetCreated) (w : World)
        → Accounted c w (add_rule_owned path_rule r c w)
    unfolding add_rule_owned
    add_rule_owned-Accounted r c w =
        owned-Accounted c w (add_rule path_rule r (c, w)) (add_rule-Untouched L r c w)

    -- What was accounted for from a later state of the same ruleset is from the earlier one.
    pub earlier :
        {X : Type 0} (c c' : RulesetCreated) (w w' : World) (m : Result RulesetCreated X × World)
        → Untouched L (c, w) (c', w')
        → Accounted c' w' m
        → Accounted c w m
    unfolding Accounted
    earlier c c' w w' (ok x, w'') (fd, kept) (fd', kept') = (fd' ∙ fd, λ d. kept' d ∙ kept d)
    earlier c c' w w' (err e, w'') (fd, kept) k =
        subst (λ (x : ℤ). closes x w'' ≡ closes x w + due x) fd
          (k ∙ ap (λ (n : ℕ). n + due c'.fd) (kept c'.fd))

    pub Accounted-proceed :
        {X : Type 0} (c : RulesetCreated) (w : World) (m : Result RulesetCreated X × World)
        (f : RulesetCreated → Exec World X RulesetCreated)
        → Accounted c w m
        → ((c' : RulesetCreated) (w' : World) → Accounted c' w' (f c' w'))
        → Accounted c w (proceed m f)
    unfolding Accounted
    Accounted-proceed c w (ok c', w') f k g = earlier c c' w w' (f c' w') k (g c' w')
    Accounted-proceed c w (err e, w') f k g = k

    -- The steps of an iterator close nothing.
    abbrev pub AllKeep :
        {X : Type 0} → List (World → Option (Result PathBeneath X) × World) → Type 0
    AllKeep [] = Unit {0}
    AllKeep (step ∷ steps) =
        ((w : World) (d : ℤ) → closes d (step w).1 ≡ closes d w) × AllKeep steps

    -- The loop of `add_rules` after one step of the iterator.
    abbrev after_item :
        {X : Type 0}
        → (RulesetError Flags → X)
        → List (World → Option (Result PathBeneath X) × World)
        → RulesetCreated
        → Option (Result PathBeneath X) × World
        → Result RulesetCreated X × World
    after_item conv steps c (item, w1) = elim item [
      | none ↦ add_rules path_rule conv steps c w1
      | some (err e) ↦ (err e, drop c w1)
      | some (ok r) ↦
          (let (res, w2) = add_rule_owned path_rule r c w1 in
            elim res [ ok c' ↦ add_rules path_rule conv steps c' w2 | err e ↦ (err (conv e), w2) ])
    ]

    abbrev after_rule :
        {X : Type 0}
        → (RulesetError Flags → X)
        → List (World → Option (Result PathBeneath X) × World)
        → Result RulesetCreated (RulesetError Flags) × World
        → Result RulesetCreated X × World
    after_rule conv steps (res, w2) = elim res [
      | ok c' ↦ add_rules path_rule conv steps c' w2
      | err e ↦ (err (conv e), w2)
    ]

    rule-Accounted :
        {X : Type 0} (conv : RulesetError Flags → X)
        (steps : List (World → Option (Result PathBeneath X) × World)) (c : RulesetCreated)
        (w : World) (m : Result RulesetCreated (RulesetError Flags) × World)
        → Accounted c w m
        → ((c' : RulesetCreated) (w' : World)
            → Accounted c' w' (add_rules path_rule conv steps c' w'))
        → Accounted c w (after_rule conv steps m)
    unfolding Accounted
    rule-Accounted conv steps c w (ok c', w2) k rest =
        earlier c c' w w2 (add_rules path_rule conv steps c' w2) k (rest c' w2)
    rule-Accounted conv steps c w (err e, w2) k rest = k

    item-Accounted :
        {X : Type 0} (conv : RulesetError Flags → X)
        (steps : List (World → Option (Result PathBeneath X) × World)) (c : RulesetCreated)
        (w : World) (m : Option (Result PathBeneath X) × World)
        → ((d : ℤ) → closes d m.1 ≡ closes d w)
        → ((c' : RulesetCreated) (w' : World)
            → Accounted c' w' (add_rules path_rule conv steps c' w'))
        → Accounted c w (after_item conv steps c m)
    unfolding Accounted
    item-Accounted conv steps c w (none, w1) k rest =
        earlier c c w w1 (add_rules path_rule conv steps c w1) (refl, k) (rest c w1)
    item-Accounted conv steps c w (some (err e), w1) k rest =
        drop_counted L c w1 ∙ ap (λ (n : ℕ). n + due c.fd) (k c.fd)
    item-Accounted conv steps c w (some (ok r), w1) k rest =
        earlier c c w w1 (after_rule conv steps (add_rule_owned path_rule r c w1)) (refl, k)
          (rule-Accounted conv steps c w1 (add_rule_owned path_rule r c w1)
            (add_rule_owned-Accounted r c w1) rest)

    pub add_rules-Accounted :
        {X : Type 0} (conv : RulesetError Flags → X)
        (steps : List (World → Option (Result PathBeneath X) × World)) (c : RulesetCreated)
        (w : World)
        → AllKeep steps
        → Accounted c w (add_rules path_rule conv steps c w)
    unfolding add_rules Accounted
    add_rules-Accounted conv [] c w k = (refl, λ d. refl)
    add_rules-Accounted conv (step ∷ steps) c w (now, later) =
        item-Accounted conv steps c w (step w) (now w)
          (λ c' w'. add_rules-Accounted conv steps c' w' later)
