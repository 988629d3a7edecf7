-- ===== src/Fs/PathBeneath.antt =====
-- `struct PathBeneath` of src/fs.rs and its `TryCompat`, and `path_beneath_rules`. `F: AsFd` enters
-- as the descriptor that it lends.
pub mod Fitted
pub mod Lenient
pub mod EmptyRule
pub mod Moves
use rust_landlock.Prelude.{Bool, true, false, not, Option, none, some, List, map, if◌then◌else◌}
use rust_landlock.Prelude.Exec.{Result, ok, err, Exec, ◌>>=◌}
use rust_landlock.Prelude.Int.{ℤ}
use rust_landlock.Uapi.{Sys, LandlockPathBeneathAttr, IoError}
use rust_landlock.BitFlags.{BitFlags, ◌∩◌, ◌⊕◌}
use rust_landlock.Errors.{CompatError, path_beneath, stat_call, directory_access}
use rust_landlock.Compat.Abi.{Abi}
use rust_landlock.Compat.Level.{CompatLevel, tailored_compat_level}
use rust_landlock.Compat.State.{CompatState}
use rust_landlock.Compat.TryCompat.{CompatResult, TryCompat, try_compat}
use rust_landlock.Access.{access_compat}
use rust_landlock.Fs.Rights.{access_file}
use rust_landlock.Fs.File.{FilePath, PathFd, is_file, open_path}

module _ ⦃E : BitFlags⦄ where
  open E use {Flags, bits, eq}

  pub record PathBeneath : Type 0 where
    pub attr : LandlockPathBeneathAttr
    pub parent_fd : ℤ
    pub allowed_access : Flags
    pub compat_level : Option CompatLevel

  -- `PathBeneath::new`
  unfoldable pub new : ℤ → Flags → PathBeneath
  new parent access = record {
    attr = record { allowed_access = 0; parent_fd = parent };
    parent_fd = parent;
    allowed_access = access;
    compat_level = none;
  }

  unfoldable pub sync_attr : PathBeneath → PathBeneath
  sync_attr self = record self {
    attr = record self.attr { allowed_access = bits self.allowed_access };
  }

  -- `Compatible::set_compatibility`
  unfoldable pub set_compatibility : CompatLevel → PathBeneath → PathBeneath
  set_compatibility level self = record self { compat_level = some level }

  -- The rights of a rule that make sense for what its descriptor is open on.
  unfoldable pub valid_access : Bool → Flags → Flags
  valid_access true allowed = allowed ∩ access_file
  valid_access false allowed = allowed

  -- The second half of `try_compat_inner`, once the type of the descriptor is known.
  unfoldable pub fit : PathBeneath → Bool → CompatResult PathBeneath Flags
  unfolding sync_attr valid_access
  fit self file =
      let valid = valid_access file self.allowed_access in
      if not (eq self.allowed_access valid)
      then CompatResult.partial (sync_attr (record self { allowed_access = valid }))
          (path_beneath (directory_access self.allowed_access (self.allowed_access ⊕ valid)))
      else CompatResult.full (sync_attr self)

  -- `try_compat_inner` on the answer of `is_file`.
  unfoldable pub fit_result :
      PathBeneath
      → Result Bool IoError
      → Result (CompatResult PathBeneath Flags) (CompatError Flags)
  unfolding fit
  fit_result self (ok file) = ok (fit self file)
  fit_result self (err e) = err (path_beneath (stat_call e))

  -- What `try_compat_children` makes of the rights that passed.
  abbrev pub with_access : PathBeneath → Option Flags → Option PathBeneath
  with_access self none = none
  with_access self (some a) = some (record self { allowed_access = a })

  module _ ⦃S : Sys⦄ where
    open S use {World}

    unfoldable pub path_inner :
        PathBeneath
        → Abi
        → World
        → Result (CompatResult PathBeneath Flags) (CompatError Flags) × World
    unfolding fit_result
    path_inner self abi w = let (r, w') = is_file self.parent_fd w in (fit_result self r, w')

    unfoldable pub path_children :
        PathBeneath
        → Abi
        → CompatLevel
        → Exec (CompatState × World) (CompatError Flags) (Option PathBeneath)
    path_children self abi parent_level = do
      a ←
          try_compat access_compat self.allowed_access abi
            (tailored_compat_level self.compat_level parent_level)
      λ s. (ok (with_access self a), s)

    -- `impl TryCompat<AccessFs> for PathBeneath<F>`; as a `Compatible` type it has its own level.
    abbrev pub path_compat : TryCompat PathBeneath Flags
    path_compat = record {
      tailored = λ self parent_level. tailored_compat_level self.compat_level parent_level;
      try_compat_children = path_children;
      try_compat_inner = path_inner;
    }

    -- The closure of `path_beneath_rules`, after `PathFd::new` succeeded.
    unfoldable pub rule_for : Flags → PathFd → World → PathBeneath × World
    unfolding new
    rule_for access f w =
        let (file, w') = is_file f.fd w in
        (new f.fd (elim file [ ok b ↦ valid_access b access | err _ ↦ access ]), w')

    -- One step of the iterator of `path_beneath_rules`: `none` where the closure filters a path out.
    unfoldable pub rule_of_path :
        {E' : Type 0} → Flags → FilePath → World → Option (Result PathBeneath E') × World
    unfolding rule_for
    rule_of_path access path w =
        let (opened, w') = open_path path w in
        elim opened [
          | ok f ↦ (let (rule, w'') = rule_for access f w' in (some (ok rule), w''))
          | err _ ↦ (none, w')
        ]

    -- The iterator: its steps, in order, each made when the caller asks for it.
    unfoldable pub path_beneath_rules :
        {E' : Type 0}
        → List FilePath
        → Flags
        → List (World → Option (Result PathBeneath E') × World)
    unfolding rule_of_path
    path_beneath_rules paths access = map (rule_of_path access) paths
