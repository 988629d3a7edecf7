-- ===== src/Sandboxer/Variables.antt =====
-- The rules that the sandboxer adds for a variable, on a kernel as documented.
use rust_landlock.Prelude.{ℕ, Bool, Option, none, some, List, [], ◌∷◌, map, ◌≡◌, refl, sym, subst}
use mathlib.Core.List.{Memᴰ}
use rust_landlock.Prelude.Exec.{Result, ok, err, Succeeds, map_err}
use rust_landlock.Prelude.Int.{ℤ}
use rust_landlock.Uapi.{Sys, IoError}
use rust_landlock.BitFlags.{BitFlags}
use rust_landlock.BitFlags.Digits.{◌⊆◌}
use rust_landlock.Errors.{RulesetError, open_call}
use rust_landlock.Access.Reported.{IsInvalid}
use rust_landlock.Fs.File.{FilePath, open_path, own}
use rust_landlock.Fs.PathBeneath.{PathBeneath}
use rust_landlock.Ruleset.Types.{RulesetCreated, drop}
use rust_landlock.Ruleset.Rules.{path_rule, add_rules}
use rust_landlock.Ruleset.Session.Live.{IsLive}
use rust_landlock.Ruleset.Session.Live.Rules.{Serves, Goes}
use rust_landlock.Ruleset.Session.Live.Ends.{add_rule_owned-Goes}
use rust_landlock.Ruleset.Session.Live.Loop.{IsLive-Keeps, rest_of, item_of}
use rust_landlock.Kernel.{View, IsDocumented, Opened}
use rust_landlock.Sandboxer.{
  PathEnv, MainError, missing_variable, path_fd, ruleset_error, new, pieces, rule_of, open_rule,
  iter, add_paths,
}

module _ ⦃S : Sys⦄ ⦃E : BitFlags⦄ where
  open S use {World}
  open E use {Flags}

  -- A success with such a state, or such an error.
  abbrev pub Either :
      {A X : Type 0} → (A → World → Type 0) → (X → World → Type 0) → Result A X × World → Type 0
  Either P Q (ok a, w) = P a w
  Either P Q (err e, w) = Q e w

  module _ (V : View) (D : IsDocumented V) where
    -- What a variable lacks, with the error and the last state: it is not set, or the last thing that was
    -- done, before the ruleset was dropped, is to open one of its paths, which failed.
    pub data Missing (var_os : List ℕ → Option (List ℕ)) (name : List ℕ)
        : MainError → World → Type 0 where
      variable :
          (c : RulesetCreated) (w : World)
          → var_os name ≡ none
          → Missing var_os name (missing_variable name) (drop c w)
      unopened :
          (value : List ℕ) (p : FilePath) (e : IoError) (c : RulesetCreated) (w : World)
          → var_os name ≡ some value
          → Memᴰ p (pieces value)
          → V.Ready w
          → (open_path p w).0 ≡ err (open_call e p)
          → Missing var_os name (path_fd (open_call e p)) (drop c (open_path p w).1)

    module _ (asked : Flags) where
      abbrev pub Live : RulesetCreated → World → Type 0
      Live c w = IsLive V V.abi asked c w

      -- The rights of a rule for a file or a directory.
      pub record Grants (a : Flags) : Type 0 where
        pub valid : ¬ IsInvalid a
        pub within : a ⊆ asked
        pub serves : (file : Bool) → Serves a file V.abi

      module _ (Bad : MainError → World → Type 0) where
        rest_Either :
            (P : RulesetCreated → World → Type 0)
            (steps : List (World → Option (Result PathBeneath MainError) × World))
            (m : Result RulesetCreated (RulesetError Flags) × World)
            → Succeeds P m
            → ((c : RulesetCreated) (w : World)
                → P c w
                → Either Live Bad (add_rules path_rule ruleset_error steps c w))
            → Either Live Bad (rest_of V D ruleset_error steps m)
        rest_Either P steps (ok c, w) h k = k c w h
        rest_Either P steps (err e, w) h k = absurd h

        one_Either :
            (a : Flags) (p : FilePath)
            (steps : List (World → Option (Result PathBeneath MainError) × World))
            (c : RulesetCreated) (w : World) (m : Result ℤ IoError × World)
            → Grants a
            → Live c w
            → ((e : IoError)
                → own (map_err (λ x. open_call x p) m.0) ≡ err (open_call e p)
                → Bad (path_fd (open_call e p)) (drop c m.1))
            → ((c' : RulesetCreated) (w' : World)
                → Live c' w'
                → Either Live Bad (add_rules path_rule ruleset_error steps c' w'))
            → Opened V w m
            → Either Live Bad (
                item_of V D ruleset_error steps c
                  (some (rule_of a (own (map_err (λ e. open_call e p) m.0))), m.1))
        one_Either a p steps c w (ok fd, w') g live bad k ((file, is_open), kept) =
            rest_Either (λ c' w''. Goes V V.abi asked a file c w' tt (c', w'')) steps _
              (add_rule_owned-Goes V D a file V.abi asked c w' fd
                (IsLive-Keeps V D V.abi asked c w w' live kept) g.valid g.within is_open
                (g.serves file))
              (λ c' w'' (live', kept', moved). k c' w'' live')
        one_Either a p steps c w (err x, w') g live bad k kept = bad x refl

        steps_Either :
            (a : Flags) (ps : List FilePath) (c : RulesetCreated) (w : World)
            → Grants a
            → Live c w
            → ((p : FilePath) (e : IoError) (c' : RulesetCreated) (w1 : World)
                → Memᴰ p ps
                → V.Ready w1
                → (open_path p w1).0 ≡ err (open_call e p)
                → Bad (path_fd (open_call e p)) (drop c' (open_path p w1).1))
            → Either Live Bad (add_rules path_rule ruleset_error (map (open_rule a) ps) c w)
        unfolding add_rules open_rule open_path
        steps_Either a [] c w g live bad = live
        steps_Either a (p ∷ ps) c w g live bad =
            one_Either a p (map (open_rule a) ps) c w _ g live
              (λ e failed. bad p e c w (Memᴰ.head refl) live.ready failed)
              (λ c' w' live'.
                steps_Either a ps c' w' g live' (λ q e c1 w1 m. bad q e c1 w1 (Memᴰ.tail m)))
              (D.opened p w live.ready)

      -- What follows the reading of the variable.
      abbrev added :
          RulesetCreated
          → World
          → Result PathEnv MainError
          → Result RulesetCreated MainError × World
      added c w env = elim env [
        | ok x ↦ add_rules path_rule ruleset_error (iter x) c w
        | err e ↦ (err e, drop c w)
      ]

      new_unset :
          (var_os : List ℕ → Option (List ℕ)) (name : List ℕ) (a : Flags)
          → var_os name ≡ none
          → new var_os name a ≡ err (missing_variable name)
      unfolding new
      new_unset var_os name a e = rw (new, e) refl

      new_set :
          (var_os : List ℕ → Option (List ℕ)) (name value : List ℕ) (a : Flags)
          → var_os name ≡ some value
          → new var_os name a ≡ ok (record { paths = value; access = a })
      unfolding new
      new_set var_os name value a e = rw (new, e) refl

      given :
          (var_os : List ℕ → Option (List ℕ)) (name : List ℕ) (a : Flags) (c : RulesetCreated)
          (w : World) (value : Option (List ℕ))
          → Grants a
          → Live c w
          → var_os name ≡ value
          → Either Live (Missing var_os name) (add_paths var_os name a c w)
      unfolding add_paths iter
      given var_os name a c w none g live e =
          subst (λ (x : Result PathEnv MainError). Either Live (Missing var_os name) (added c w x))
            (sym (new_unset var_os name a e)) (variable c w e)
      given var_os name a c w (some value) g live e =
          subst (λ (x : Result PathEnv MainError). Either Live (Missing var_os name) (added c w x))
            (sym (new_set var_os name value a e))
            (steps_Either (Missing var_os name) a (pieces value) c w g live
              (λ p x c' w1 m ready failed. unopened value p x c' w1 e m ready failed))

      -- The rules of a variable are added, unless it is not set or a path of it cannot be opened.
      pub add_paths-Either :
          (var_os : List ℕ → Option (List ℕ)) (name : List ℕ) (a : Flags) (c : RulesetCreated)
          (w : World)
          → Grants a
          → Live c w
          → Either Live (Missing var_os name) (add_paths var_os name a c w)
      add_paths-Either var_os name a c w g live = given var_os name a c w (var_os name) g live refl
