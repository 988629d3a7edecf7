-- ===== src/Tests/Documented.antt =====
-- A concrete kernel of Landlock's third ABI that keeps to its documentation, and runs on it.
use rust_landlock.Prelude.{
  ℕ, ap, ◌+◌, Bool, true, false, not, none, some, Option, List, ◌≡◌, ◌≢◌, ◌↔◌, refl, inr, ◌∙◌,
  Bool-cases, if◌then◌else◌, ◌==◌, bit_and, [], ◌∷◌, arith, inl,
}
use rust_landlock.Prelude.Exec.{ok}
use rust_landlock.Prelude.Int.{ℤ, pos, negsuc}
use rust_landlock.Uapi.{Sys, Syscall, create_ruleset, add_rule, restrict_self}
use rust_landlock.BitFlags.{discriminant, bits_of}
use rust_landlock.BitFlags.Digits.{◌⊆◌, contains_iff, is_empty_iff}
use rust_landlock.BitFlags.Model.{words}
use rust_landlock.Compat.Abi.{v3, from}
use rust_landlock.Fs.Rights.{from_all, from_read, from_write}
use rust_landlock.Fs.File.{FilePath}
use rust_landlock.Compat.Abi.{v1, v2}
use rust_landlock.Ruleset.Session.Paths.{restrict_paths, restrict_thread, thread_hierarchies}
use rust_landlock.Ruleset.Types.{fully_enforced, not_enforced}
use rust_landlock.Scenarios.Thread.{thread_hierarchies-AllRules, restrict_thread_enforced}
use rust_landlock.Ruleset.Session.Paths.Documented.{graded_status, restrict_paths_best_effort}
use rust_landlock.Scenarios.{Threads}
use rust_landlock.Scenarios.Closures.{
  allow_root_compat, file_rights_for_a_file, too_much_access_rights_for_a_file,
  path_beneath_rules_with_too_much_access_rights_for_a_file, allow_root_fragile, ruleset_enforced,
  abi_v2_exec_refer, abi_v2_refer_only, abi_v3_truncate,
}
use rust_landlock.Scenarios.Rights.{IsKnown-v1, IsKnown-valid}
use rust_landlock.Scenarios.Requests.{IsJoined}
use rust_landlock.Scenarios.All.{Passes, scenarios_pass}
use rust_landlock.Kernel.{View, Keeps, IsDocumented}
use mathlib.Core.List.{Memᴰ}
use rust_landlock.Sandboxer.{main, pieces, split, command, env_fs_ro_name, env_fs_rw_name}
use rust_landlock.Sandboxer.Endings.{EndsBy, main_ends, IsReachable, main_restricts}
use rust_landlock.Scenarios.Created.{ruleset_created_attr, ruleset_created_attr_passes}
open words use {Flags, empty}

-- Whether a word has only rights of the ABI.
abbrev known : ℕ → Bool
known n = bit_and 0x7fff n == n

-- A ruleset gets the descriptor 5, if the kernel knows its rights.
abbrev answer : Syscall → ℤ
answer (create_ruleset none size flags) = pos 3
answer (create_ruleset (some attr) size flags) =
    if known attr.handled_access_fs then pos 5 else negsuc 0
answer (add_rule fd rule_type attr flags) = if attr.allowed_access == 0 then negsuc 0 else pos 0
answer (restrict_self fd flags) = pos 0

-- The descriptor 7 is open on a file, all others on directories.
abbrev mode : ℤ → ℕ
mode (pos n) = if n == 7 then 32768 else 16384
mode (negsuc n) = 16384

-- The paths of at most four bytes are directories, all others are files.
abbrev is_short : FilePath → Bool
is_short (_ ∷ _ ∷ _ ∷ _ ∷ _ ∷ _) = false
is_short _ = true

abbrev opens : FilePath → ℤ
opens path = if is_short path then pos 8 else pos 7

instance abbrev pub documented : Sys
documented = record {
  World = ℕ;
  errno = λ w. pos 22;
  enosys = pos 38;
  eopnotsupp = pos 95;
  einval = pos 22;
  syscall = λ call w. (answer call, w + 1);
  prctl = λ option arg2 arg3 arg4 arg5 w. (pos 0, w + 1);
  pr_set_no_new_privs = 38;
  pr_get_no_new_privs = 39;
  fstat = λ fd w. ((pos 0, mode fd), w + 1);
  s_ifmt = 61440;
  s_ifdir = 16384;
  close = λ fd w. (pos 0, w + 1);
  open_file = λ read flags path w. (ok (opens path), w + 1);
  o_path = 2097152;
  o_cloexec = 524288;
}

abbrev pub view : View
view = record {
  abi = v3;
  status_errno = pos 38;
  Ready = λ w. Unit {0};
  IsRuleset = λ w fd h. fd ≡ pos 5;
  IsOpen = λ w fd file. not (bit_and (mode fd) 61440 == 16384) ≡ file;
  HasNoNewPrivs = λ w. Unit {0};
  IsPath = λ path file. not (is_short path) ≡ file;
}

keeps : (w : ℕ) → Keeps view w (w + 1)
keeps w = record {
  ready = tt;
  rulesets = λ fd h p. p;
  files = λ fd file p. p;
  no_new_privs = λ p. p;
}

known_within : (h : Flags) → (known h.0 ≡ true) ↔ (h ⊆ from_all v3)
unfolding from_all from_read from_write bits_of discriminant
known_within h = contains_iff (from_all v3) h

unknown : (h : Flags) → ¬ (h ⊆ from_all v3) → known h.0 ≡ false
unknown h n = elim (Bool-cases (known h.0)) [
  | inl e ↦ absurd (n ((known_within h).0 e))
  | inr e ↦ e
]

some_right : (a : Flags) → a ≢ empty → (a.0 == 0) ≡ false
some_right a n = elim (Bool-cases (a.0 == 0)) [
  | inl e ↦ absurd (n ((is_empty_iff a).0 e))
  | inr e ↦ e
]

opened_type : (b : Bool) → not (bit_and (mode (if b then pos 8 else pos 7)) 61440 == 16384) ≡ not b
opened_type true = refl
opened_type false = refl

pub view-IsDocumented : IsDocumented view
unfolding from
view-IsDocumented = record {
  status_lem = inl refl;
  version = λ w r. (
    (omega arith, omega arith),
    refl,
    λ n. absurd (n (omega arith)),
    λ e. cc,
    λ n. omega arith,
    keeps w,
  );
  create_made = λ h w r ne sub.
      rw ((known_within h).1 sub) ((omega arith, omega arith), omega arith, refl, keeps w);
  create_refused = λ h w r declared beyond. (rw (unknown h beyond) refl, refl, keeps w);
  rule_added = λ fd parent h a file w r is_ruleset is_open ne sub of_file.
      (rw (some_right a ne) refl, keeps w);
  restricted = λ fd h w r is_ruleset nnp. refl;
  no_new_privs_set = λ w r. (refl, tt, keeps w);
  type_told = λ fd file w r is_open. (refl, is_open, keeps w);
  opened = λ path w r. ((_, refl), keeps w);
  opened_as = λ path file w r is_path. (opened_type (is_short path) ∙ is_path, keeps w);
}

restrict_paths_best_effort_example :
    (restrict_paths (from_all v1) thread_hierarchies 0).0
    ≡ ok (record { status = graded_status (from_all v1) v3; no_new_privs = true })
restrict_paths_best_effort_example =
    restrict_paths_best_effort view view-IsDocumented (from_all v1) thread_hierarchies 0 tt
      (IsKnown-valid (from_all v1) 0x1fff IsKnown-v1) thread_hierarchies-AllRules

restrict_thread_enforced_example :
    (restrict_thread 0).0 ≡ ok (record { status = fully_enforced; no_new_privs = true })
restrict_thread_enforced_example = restrict_thread_enforced view 0 view-IsDocumented tt

-- A thread that runs at once.
instance abbrev at_once : Threads
at_once = record { spawn_join = λ f w. f w }

at_once-IsJoined : IsJoined view view-IsDocumented
at_once-IsJoined = record { returns = λ f w. refl; ready = λ f w r. tt }

scenarios_pass_example :
    Passes view v1 (some v1) allow_root_compat false 0
    × Passes view v1 (some v1) file_rights_for_a_file false 0
    × Passes view v1 none too_much_access_rights_for_a_file false 0
    × Passes view v1 (some v1) path_beneath_rules_with_too_much_access_rights_for_a_file false 0
    × Passes view v1 (some v1) allow_root_fragile true 0
    × Passes view v1 (some v1) ruleset_enforced false 0
    × Passes view v1 (some v2) abi_v2_exec_refer false 0
    × Passes view v2 (some v2) abi_v2_refer_only false 0
    × Passes view v2 (some v3) abi_v3_truncate false 0
scenarios_pass_example = scenarios_pass view 0 view-IsDocumented at_once-IsJoined refl refl tt

-- Both variables are set to "/".
abbrev root_only : List ℕ → Option (List ℕ)
root_only name = some (47 ∷ [])

main_ends_example : EndsBy view view-IsDocumented root_only (main root_only 0)
main_ends_example = main_ends view view-IsDocumented root_only 0 tt

root_only-IsReachable : (name : List ℕ) → IsReachable view view-IsDocumented root_only name
unfolding pieces split
root_only-IsReachable name = record { value = 47 ∷ []; is_set = refl; there = only }
  where
    only : (p : FilePath) → Memᴰ p ((47 ∷ []) ∷ []) → (file : Bool) × view.IsPath p file
    only p (Memᴰ.head e) = (false, ap (λ (q : FilePath). not (is_short q)) e)
    only p (Memᴰ.tail m) = elim m [ ]

main_restricts_example : (main root_only 0).0 ≡ command
main_restricts_example =
    main_restricts view view-IsDocumented root_only 0 tt (root_only-IsReachable env_fs_ro_name)
      (root_only-IsReachable env_fs_rw_name)

ruleset_created_attr_passes_example :
    (ruleset_created_attr 0).0 ≡ ok (record { status = not_enforced; no_new_privs = true })
ruleset_created_attr_passes_example =
    ruleset_created_attr_passes view view-IsDocumented 0 tt refl refl refl refl
