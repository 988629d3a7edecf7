-- ===== src/Ruleset/Session/Live/Items.antt =====
-- The iterator of `path_beneath_rules` of src/fs.rs on a kernel as documented.
use rust_landlock.Prelude.{
  Bool, true, false, Option, none, some, ◌≡◌, ◌≢◌, inl, inr, sym, ◌∙◌, List, [], ◌∷◌,
}
use rust_landlock.Prelude.Exec.{Result, ok, err, map_err}
use rust_landlock.Prelude.Int.{ℤ}
use rust_landlock.Uapi.{Sys, IoError}
use rust_landlock.BitFlags.{BitFlags, ◌∩◌}
use rust_landlock.BitFlags.Digits.{◌⊆◌, intersection_of_subset}
use rust_landlock.BitFlags.Sets.{⊆-trans, intersection-⊆_left, intersection-⊆_right, ⊆-empty}
use rust_landlock.Errors.{open_call}
use rust_landlock.Compat.Abi.{Abi}
use rust_landlock.Access.Reported.{IsInvalid}
use rust_landlock.Fs.Rights.{from_all, access_file}
use rust_landlock.Fs.File.{FilePath, PathFd, is_file, open_path, own}
use rust_landlock.Fs.PathBeneath.{
  PathBeneath, valid_access, rule_for, rule_of_path, path_beneath_rules,
}
use rust_landlock.Ruleset.Rules.Outcome.{valid_access-⊆, valid_access_of_file}
use rust_landlock.Kernel.{View, Keeps, IsDocumented, Opened}
use rust_landlock.Kernel.Calls.{Keeps-trans, is_file_told}
use rust_landlock.Ruleset.Session.Live.Rules.{Serves}
use rust_landlock.Ruleset.Session.Live.Loop.{Item, Items, filtered, rule}

module _ ⦃S : Sys⦄ ⦃E : BitFlags⦄ where
  open S use {World, open_file, o_path, o_cloexec}
  open E use {Flags, empty, all}

  -- Rights of which a rule can be made for a file as well as for a directory.
  abbrev pub IsRule : Flags → Flags → Type 0
  IsRule asked a = (a ⊆ asked) × (a ⊆ all) × (a ∩ access_file ≢ empty)

  valid_IsInvalid :
      (asked a : Flags) (file : Bool) → IsRule asked a → ¬ IsInvalid (valid_access file a)
  unfolding valid_access
  valid_IsInvalid asked a true k (inl e) = k.2 e
  valid_IsInvalid asked a true k (inr u) =
      u (⊆-trans (a ∩ access_file) a all (intersection-⊆_left a access_file) k.1)
  valid_IsInvalid asked a false k (inl e) =
      k.2 (⊆-empty _ (rw e (intersection-⊆_left empty access_file)))
  valid_IsInvalid asked a false k (inr u) = u k.1

  valid-Serves : (a : Flags) (file : Bool) (abi : Abi) → Serves (valid_access file a) file abi
  unfolding valid_access
  valid-Serves a true abi ne e = ne (
      sym (
        intersection_of_subset _ access_file (
          ⊆-trans (a ∩ access_file ∩ from_all abi) (a ∩ access_file) access_file
            (intersection-⊆_left _ _) (intersection-⊆_right a access_file)))
      ∙ e)
  valid-Serves a false abi ne e = ne e

  module _ (V : View) (D : IsDocumented V) where
    rule_Item :
        {E' : Type 0} (abi : Abi) (asked a : Flags) (f : PathFd) (file : Bool) (w w' : World)
        → IsRule asked a
        → Keeps V w w'
        → V.IsOpen w' f.fd file
        → (is_file f.fd w').0 ≡ ok file
        → Keeps V w' (is_file f.fd w').1
        → let (r, w'') = rule_for a f w' in Item V D {E' = E'} abi asked w (some (ok r), w'')
    unfolding rule_for
    rule_Item abi asked a f file w w' k kept is_open told kept' = rw told (
        rule f.fd (valid_access file a) file _ (Keeps-trans V kept kept')
          (valid_IsInvalid asked a file k)
          (⊆-trans (valid_access file a) a asked (valid_access-⊆ file a) k.0)
          (kept'.files f.fd file is_open) (valid-Serves a file abi)
          (λ h. (
            ⊆-trans (valid_access file a) asked (from_all abi)
                (⊆-trans (valid_access file a) a asked (valid_access-⊆ file a) k.0) h,
            valid_access_of_file file a,
          )))

    -- The step of the iterator, once the path is opened.
    abbrev step_of :
        (E' : Type 0)
        → Flags
        → FilePath
        → Result ℤ IoError × World
        → Option (Result PathBeneath E') × World
    step_of E' access path (r, w') = elim (own (map_err (λ e. open_call e path) r)) [
      | ok f ↦ (let (made, w'') = rule_for access f w' in (some (ok made), w''))
      | err _ ↦ (none, w')
    ]

    opened_Item :
        (E' : Type 0) (abi : Abi) (asked a : Flags) (path : FilePath) (w : World)
        (m : Result ℤ IoError × World)
        → IsRule asked a
        → Opened V w m
        → Item V D {E' = E'} abi asked w (step_of E' a path m)
    opened_Item E' abi asked a path w (ok fd, w') k ((file, is_open), kept) =
        let (told, kept') = is_file_told V D fd file w' kept.ready is_open in
        rule_Item abi asked a (record { fd = fd }) file w w' k kept is_open told kept'
    opened_Item E' abi asked a path w (err x, w') k kept = filtered w' kept

    -- On a kernel as documented, every step of the iterator gives a rule for an open descriptor, or none.
    pub path_beneath_rules-Items :
        (E' : Type 0) (abi : Abi) (asked a : Flags) (paths : List FilePath)
        → IsRule asked a
        → Items V D {E' = E'} abi asked (path_beneath_rules paths a)
    unfolding path_beneath_rules rule_of_path open_path
    path_beneath_rules-Items E' abi asked a [] k = tt
    path_beneath_rules-Items E' abi asked a (path ∷ paths) k = (
      λ w ready. opened_Item E' abi asked a path w _ k (D.opened path w ready),
      path_beneath_rules-Items E' abi asked a paths k,
    )
