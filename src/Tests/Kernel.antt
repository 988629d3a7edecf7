-- ===== src/Tests/Kernel.antt =====
-- A small concrete system, on which the code can be run: a kernel of Landlock's third ABI with
-- no_new_privs. Its state counts the calls that it has answered.
use rust_landlock.Prelude.{ℕ, ◌+◌, none, some, if◌then◌else◌, ◌==◌}
use rust_landlock.Prelude.Exec.{ok}
use rust_landlock.Prelude.Int.{ℤ, pos, negsuc}
use rust_landlock.Uapi.{Sys, Syscall, create_ruleset, add_rule, restrict_self}

-- A ruleset gets the descriptor 5; a rule with no access at all is refused.
abbrev reply : Syscall → ℤ
reply (create_ruleset none size flags) = pos 3
reply (create_ruleset (some attr) size flags) = pos 5
reply (add_rule fd rule_type attr flags) = if attr.allowed_access == 0 then negsuc 0 else pos 0
reply (restrict_self fd flags) = pos 0

-- The descriptor 7 is open on a file, all others on directories.
abbrev mode : ℤ → ℕ
mode (pos n) = if n == 7 then 32768 else 16384
mode (negsuc n) = 16384

instance abbrev pub kernel : Sys
kernel = record {
  World = ℕ;
  errno = λ w. pos 42;
  enosys = pos 38;
  eopnotsupp = pos 95;
  einval = pos 22;
  syscall = λ call w. (reply call, w + 1);
  prctl = λ option arg2 arg3 arg4 arg5 w. (pos 0, w + 1);
  pr_set_no_new_privs = 38;
  pr_get_no_new_privs = 39;
  fstat = λ fd w. ((pos 0, mode fd), w + 1);
  s_ifmt = 61440;
  s_ifdir = 16384;
  close = λ fd w. (pos 0, w + 1);
  open_file = λ read flags path w. (ok (pos 7), w + 1);
  o_path = 2097152;
  o_cloexec = 524288;
}
