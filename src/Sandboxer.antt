-- ===== src/Sandboxer.antt =====
-- examples/sandboxer.rs: the paths of an environment variable as rules, and the restriction that
-- `main` makes of them. The environment is a function from names to values.
pub mod Paths
pub mod Command
pub mod Variables
pub mod Endings
use rust_landlock.Prelude.{
  ℕ, Bool, true, false, Option, none, some, List, [], ◌∷◌, map, if◌then◌else◌, ◌==◌,
}
use rust_landlock.Prelude.Exec.{Result, ok, err, map_err}
use rust_landlock.Uapi.{Sys}
use rust_landlock.BitFlags.{BitFlags}
use rust_landlock.Errors.{RulesetError, PathFdError}
use rust_landlock.Compat.Abi.{v3}
use rust_landlock.Fs.Rights.{from_read, from_all}
use rust_landlock.Fs.File.{FilePath, PathFd, open_path}
use rust_landlock.Fs.PathBeneath
use rust_landlock.Fs.PathBeneath.{PathBeneath}
use rust_landlock.Ruleset.Types.{
  Ruleset, RulesetCreated, RestrictionStatus, RulesetStatus, not_enforced, default, drop,
}
use rust_landlock.Ruleset.Handle.{handle_access}
use rust_landlock.Ruleset.Create.{create}
use rust_landlock.Ruleset.Rules.{path_rule, add_rules}
use rust_landlock.Ruleset.Restrict.{restrict_self}

abbrev pub colon : ℕ
colon = 58

-- "LL_FS_RO" and "LL_FS_RW"
abbrev pub env_fs_ro_name : List ℕ
env_fs_ro_name = 76 ∷ 76 ∷ 95 ∷ 70 ∷ 83 ∷ 95 ∷ 82 ∷ 79 ∷ []

abbrev pub env_fs_rw_name : List ℕ
env_fs_rw_name = 76 ∷ 76 ∷ 95 ∷ 70 ∷ 83 ∷ 95 ∷ 82 ∷ 87 ∷ []

-- Put a byte in front of the first piece.
abbrev pub onto_first : ℕ → List (List ℕ) → List (List ℕ)
onto_first b [] = (b ∷ []) ∷ []
onto_first b (p ∷ ps) = (b ∷ p) ∷ ps

-- `[T]::split(|b| *b == b':')`: the pieces between the colons; of no bytes it is one empty piece.
unfoldable pub split : List ℕ → List (List ℕ)
split [] = [] ∷ []
split (b ∷ bs) = let rest = split bs in if b == colon then [] ∷ rest else onto_first b rest

abbrev pub is_empty : List ℕ → Bool
is_empty [] = true
is_empty (b ∷ bs) = false

-- `Iterator::skip_while`
abbrev pub skip_while : {A : Type 0} → (A → Bool) → List A → List A
skip_while p [] = []
skip_while p (x ∷ xs) = let rest = skip_while p xs in if p x then rest else x ∷ xs

-- The paths that `PathEnv::iter` visits.
unfoldable pub pieces : List ℕ → List FilePath
unfolding split
pieces paths = skip_while (λ _. is_empty paths) (split paths)

module _ ⦃S : Sys⦄ ⦃E : BitFlags⦄ where
  open S use {World}
  open E use {Flags}

  pub record PathEnv : Type 0 where
    pub paths : List ℕ
    pub access : Flags

  -- The errors that `main` returns, as far as they come from the restriction.
  pub data MainError : Type 0 where
    missing_variable : (name : List ℕ) → MainError
    path_fd : PathFdError → MainError
    ruleset_error : RulesetError Flags → MainError
    not_supported : MainError

  -- `PathEnv::new`
  unfoldable pub new : (List ℕ → Option (List ℕ)) → List ℕ → Flags → Result PathEnv MainError
  new var_os name access = elim (var_os name) [
    | none ↦ err (missing_variable name)
    | some paths ↦ ok (record { paths = paths; access = access })
  ]

  -- The rule of an opened path.
  abbrev pub rule_of : Flags → Result PathFd PathFdError → Result PathBeneath MainError
  rule_of access (ok f) = ok (PathBeneath.new f.fd access)
  rule_of access (err e) = err (path_fd e)

  -- One step of the iterator.
  unfoldable pub open_rule :
      Flags → FilePath → World → Option (Result PathBeneath MainError) × World
  open_rule access path w =
      let (opened, w') = open_path path w in (some (rule_of access opened), w')

  -- `PathEnv::iter`
  unfoldable pub iter : PathEnv → List (World → Option (Result PathBeneath MainError) × World)
  unfolding open_rule pieces
  iter self = map (open_rule self.access) (pieces self.paths)

  -- `.add_rules(PathEnv::new(name, access)?.iter())?`
  unfoldable pub add_paths :
      (List ℕ → Option (List ℕ))
      → List ℕ
      → Flags
      → RulesetCreated
      → World
      → Result RulesetCreated MainError × World
  unfolding new iter
  add_paths var_os name access c w = elim (new var_os name access) [
    | ok env ↦ add_rules path_rule ruleset_error (iter env) c w
    | err e ↦ (err e, drop c w)
  ]

  -- How the part of `main` ends that restricts the thread: with an error, in a panic of `expect`, or
  -- so that it goes on to run the command.
  pub data Ending : Type 0 where
    error : MainError → Ending
    panic : RulesetError Flags → Ending
    command : Ending

  abbrev pub ending_by : RulesetStatus → Ending
  ending_by not_enforced = error not_supported
  ending_by _ = command

  -- `.expect(...)` and the test of the status.
  abbrev pub ending_of : Result RestrictionStatus (RulesetError Flags) → Ending
  ending_of (ok st) = ending_by st.status
  ending_of (err e) = panic e

  unfoldable pub finish : RulesetCreated → World → Ending × World
  finish c w = let (res, w') = restrict_self c w in (ending_of res, w')

  -- What follows the second `add_rules`, the first one, and `create`; an error ends it.
  unfoldable pub after_second : Result RulesetCreated MainError × World → Ending × World
  unfolding finish
  after_second (ok c, w) = finish c w
  after_second (err e, w) = (error e, w)

  unfoldable pub after_first :
      (List ℕ → Option (List ℕ)) → Result RulesetCreated MainError × World → Ending × World
  unfolding add_paths after_second
  after_first var_os (ok c, w) = after_second (add_paths var_os env_fs_rw_name (from_all v3) c w)
  after_first var_os (err e, w) = (error e, w)

  unfoldable pub after_create :
      (List ℕ → Option (List ℕ))
      → Result RulesetCreated (RulesetError Flags) × World
      → Ending × World
  unfolding add_paths after_first
  after_create var_os (ok c, w) =
      after_first var_os (add_paths var_os env_fs_ro_name (from_read v3) c w)
  after_create var_os (err e, w) = (error (ruleset_error e), w)

  unfoldable pub after_handle :
      (List ℕ → Option (List ℕ))
      → Result (Unit {0}) (RulesetError Flags) × (Ruleset × World)
      → Ending × World
  unfolding after_create
  after_handle var_os (ok _, (r, w)) = after_create var_os (create r w)
  after_handle var_os (err e, (r, w)) = (error (ruleset_error e), w)

  -- `main`, from `let abi` up to the command.
  unfoldable pub main : (List ℕ → Option (List ℕ)) → World → Ending × World
  unfolding after_handle
  main var_os w = after_handle var_os (handle_access (from_all v3) (default w))
