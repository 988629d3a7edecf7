-- ===== src/Tests/Closed.antt =====
-- A chain of calls on a concrete system whose state counts the calls of close.
use rust_landlock.Prelude.{ℕ, Option, some, ◌+◌, List, [], ◌∷◌, true, false, ◌≡◌, refl}
use rust_landlock.Prelude.Exec.{Result, ok, proceed}
use rust_landlock.Prelude.Int.{ℤ, pos, negsuc}
use rust_landlock.Uapi.{Sys, Syscall, create_ruleset, add_rule, restrict_self}
use rust_landlock.BitFlags.{execute, read_file}
use rust_landlock.BitFlags.Model.{words}
use rust_landlock.Compat.Abi.{v1}
use rust_landlock.Compat.State.{of_abi}
use rust_landlock.Fs.PathBeneath
use rust_landlock.Fs.PathBeneath.{PathBeneath}
use rust_landlock.Ruleset.Rules.{path_rule, add_rules}
use rust_landlock.Errors.{RulesetError}
use rust_landlock.Ruleset.Types.{RulesetCreated}
use rust_landlock.Ruleset.Restrict
use rust_landlock.Ruleset.Session.Calls.{Call, rule, no_new_privs, perform_all}
use rust_landlock.Ruleset.Session.Closed.{Ledger}
use rust_landlock.Ruleset.Session.Closed.Once.{fd_closed_once}
open words use {Flags, make_bitflags}

-- The last call of a chain fails.
abbrev reply : Syscall → ℤ
reply (create_ruleset attr size flags) = pos 5
reply (add_rule fd rule_type attr flags) = pos 0
reply (restrict_self fd flags) = negsuc 0

instance abbrev counting : Sys
counting = record {
  World = ℕ;
  errno = λ w. pos 22;
  enosys = pos 38;
  eopnotsupp = pos 95;
  einval = pos 22;
  syscall = λ call w. (reply call, w);
  prctl = λ option arg2 arg3 arg4 arg5 w. (pos 0, w);
  pr_set_no_new_privs = 38;
  pr_get_no_new_privs = 39;
  fstat = λ fd w. ((pos 0, 16384), w);
  s_ifmt = 61440;
  s_ifdir = 16384;
  close = λ fd w. (pos 0, w + 1);
  open_file = λ read flags path w. (ok (pos 7), w);
  o_path = 2097152;
  o_cloexec = 524288;
}

abbrev ledger : Ledger
ledger = record {
  closes = λ fd w. w;
  close_counted = λ fd w. refl;
  syscall_counted = λ d call w. refl;
  prctl_counted = λ d option a b c e w. refl;
  fstat_counted = λ d fd w. refl;
  open_counted = λ d read flags path w. refl;
}

abbrev access : Flags
access = make_bitflags (execute ∷ read_file ∷ [])

-- A ruleset of the descriptor 5.
abbrev opened : RulesetCreated
opened = record {
  fd = pos 5;
  no_new_privs = false;
  requested_handled_fs = access;
  compat = of_abi v1;
}

-- An iterator of two rules, each with a descriptor that stays open with its owner.
abbrev lent : List (ℕ → Option (Result PathBeneath (RulesetError Flags)) × ℕ)
lent =
    (λ w. (some (ok (PathBeneath.new (pos 7) access)), w))
    ∷ (λ w. (some (ok (PathBeneath.new (pos 8) access)), w))
    ∷ []

abbrev calls : List Call
calls = no_new_privs true ∷ rule (PathBeneath.new (pos 7) access) ∷ []

-- Here restrict_self fails.
fd_closed_once_example :
    (proceed
      (proceed (add_rules path_rule (λ e. e) lent opened 3) (perform_all calls))
      Restrict.restrict_self).1
    ≡ 4
fd_closed_once_example =
    fd_closed_once ledger lent calls opened 3 ((λ w d. refl), ((λ w d. refl), tt))
