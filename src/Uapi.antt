-- ===== src/Uapi.antt =====
-- src/uapi/mod.rs and the parts of src/uapi/landlock.rs that the crate uses: the constants and the
-- structs passed to the kernel, and the wrappers of the three Landlock system calls. The kernel,
-- libc and what the standard library does with files are the parameter `Sys`.
pub mod Words
use rust_landlock.Prelude.{ℕ, Bool, Option, List}
use rust_landlock.Prelude.Exec.{Result}
use rust_landlock.Prelude.Int.{ℤ}
use Words.{as_c_int}

abbrev pub landlock_create_ruleset_version : ℕ
landlock_create_ruleset_version = 1

-- `landlock_rule_type_LANDLOCK_RULE_PATH_BENEATH`
abbrev pub landlock_rule_path_beneath : ℕ
landlock_rule_path_beneath = 1

pub record LandlockRulesetAttr : Type 0 where
  pub handled_access_fs : ℕ  -- __u64
  pub handled_access_net : ℕ  -- __u64

pub record LandlockPathBeneathAttr : Type 0 where
  pub allowed_access : ℕ  -- __u64
  pub parent_fd : ℤ  -- __s32

-- What `libc::syscall` is called with. A pointer to a struct is the struct, the null pointer is
-- `none`.
pub data Syscall : Type 0 where
  create_ruleset : Option LandlockRulesetAttr → ℕ → ℕ → Syscall
  add_rule : ℤ → ℕ → LandlockPathBeneathAttr → ℕ → Syscall
  restrict_self : ℤ → ℕ → Syscall

-- `std::io::Error`: an error of the operating system, or one of the standard library's own.
pub data IoError : Type 0 where
  os : ℤ → IoError
  simple : ℕ → IoError

-- The operating system: its state, and the calls that the crate makes of libc and of std.
pub record Sys : Type 1 where
  pub World : Type 0
  pub errno : World → ℤ
  pub enosys : ℤ
  pub eopnotsupp : ℤ
  pub einval : ℤ
  -- `libc::syscall`, which returns a c_long
  pub syscall : Syscall → World → ℤ × World
  -- `libc::prctl(option, arg2, arg3, arg4, arg5)`
  pub prctl : ℕ → ℕ → ℕ → ℕ → ℕ → World → ℤ × World
  pub pr_set_no_new_privs : ℕ
  pub pr_get_no_new_privs : ℕ
  -- `libc::fstat`: what it returns, and `st_mode` of the struct that it fills in
  pub fstat : ℤ → World → (ℤ × ℕ) × World
  pub s_ifmt : ℕ
  pub s_ifdir : ℕ
  pub close : ℤ → World → ℤ × World
  -- `OpenOptions::new().read(r).custom_flags(flags).open(path)`
  pub open_file : Bool → ℕ → List ℕ → World → Result ℤ IoError × World
  pub o_path : ℕ
  pub o_cloexec : ℕ

module _ ⦃S : Sys⦄ where
  open S use {World, errno, syscall}

  -- `std::io::Error::last_os_error`
  abbrev pub last_os_error : World → IoError
  last_os_error w = os (errno w)

  abbrev int_of : ℤ × World → ℤ × World
  int_of (r, w) = (as_c_int r, w)

  unfoldable pub landlock_create_ruleset : Option LandlockRulesetAttr → ℕ → ℕ → World → ℤ × World
  landlock_create_ruleset attr size flags w = int_of (syscall (create_ruleset attr size flags) w)

  unfoldable pub landlock_add_rule : ℤ → ℕ → LandlockPathBeneathAttr → ℕ → World → ℤ × World
  landlock_add_rule ruleset_fd rule_type rule_attr flags w =
      int_of (syscall (add_rule ruleset_fd rule_type rule_attr flags) w)

  unfoldable pub landlock_restrict_self : ℤ → ℕ → World → ℤ × World
  landlock_restrict_self ruleset_fd flags w = int_of (syscall (restrict_self ruleset_fd flags) w)
