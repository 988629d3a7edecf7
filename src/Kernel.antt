-- ===== src/Kernel.antt =====
-- What the kernel's documentation promises of the calls that the crate makes: uapi/landlock.h and
-- the manual pages landlock(7), landlock_create_ruleset(2), landlock_add_rule(2),
-- landlock_restrict_self(2), prctl(2), fstat(2) and open(2). The kernel is not code of this
-- repository: it is a parameter, and these laws are hypotheses.
pub mod Calls
use rust_landlock.Prelude.{Bool, true, not, none, some, ◌≡◌, ◌≢◌, ◌⊎◌, ◌==◌, bit_and, bit_or}
use rust_landlock.Prelude.Exec.{Result, ok, err}
use rust_landlock.Prelude.Int.{ℤ, pos, negsuc, ◌≤ℤ◌}
use rust_landlock.Uapi.{Sys, Syscall, IoError}
use rust_landlock.Uapi.Words.{IsInt32}
use rust_landlock.BitFlags.{BitFlags}
use rust_landlock.BitFlags.Digits.{◌⊆◌}
use rust_landlock.Compat.Abi.{Abi, unsupported, from}
use rust_landlock.Fs.Rights.{from_all, access_file}
use rust_landlock.Fs.File.{FilePath}

module _ ⦃S : Sys⦄ ⦃E : BitFlags⦄ where
  open S use {
    World, errno, enosys, eopnotsupp, einval, syscall, prctl, pr_set_no_new_privs, fstat, s_ifmt,
    s_ifdir, open_file, o_path, o_cloexec,
  }
  open E use {Flags, bits, empty, all}

  -- What there is to say about a state of the system.
  pub record View : Type 1 where
    -- the ABI of the running kernel, as `ABI::from` names it, which is the latest that src/ knows for a
    -- newer kernel; and errno where the kernel has no Landlock
    pub abi : Abi
    pub status_errno : ℤ
    -- no resource of the process or of the kernel is used up
    pub Ready : World → Type 0
    -- the descriptor is open on a ruleset that handles these rights
    pub IsRuleset : World → ℤ → Flags → Type 0
    -- the descriptor is open on a file (`true`) or on a directory (`false`)
    pub IsOpen : World → ℤ → Bool → Type 0
    pub HasNoNewPrivs : World → Type 0
    -- there is a file, or a directory, at the path, which the process may reach: it has the permission
    -- to search each directory on the way there, and needs no other for O_PATH
    pub IsPath : FilePath → Bool → Type 0

  module _ (V : View) where
    open V use {abi, status_errno, Ready, IsRuleset, IsOpen, HasNoNewPrivs, IsPath}

    -- A call that closes nothing leaves all that is open.
    pub record Keeps (w w' : World) : Type 0 where
      pub ready : Ready w'
      pub rulesets : (fd : ℤ) (h : Flags) → IsRuleset w fd h → IsRuleset w' fd h
      pub files : (fd : ℤ) (file : Bool) → IsOpen w fd file → IsOpen w' fd file
      pub no_new_privs : HasNoNewPrivs w → HasNoNewPrivs w'

    -- errno after a ruleset with unknown rights
    abbrev pub refusal : Abi → ℤ
    refusal unsupported = status_errno
    refusal _ = einval

    abbrev pub Opened : World → Result ℤ IoError × World → Type 0
    Opened w (ok fd, w') = ((file : Bool) × IsOpen w' fd file) × Keeps w w'
    Opened w (err e, w') = Keeps w w'

    abbrev pub OpenedAs : Bool → World → Result ℤ IoError × World → Type 0
    OpenedAs file w (ok fd, w') = IsOpen w' fd file × Keeps w w'
    OpenedAs file w (err e, w') = ⊥

    abbrev pub Versioned : World → ℤ × World → Type 0
    Versioned w (n, w') =
        IsInt32 n
        × (from n ≡ abi)
        × (¬ (pos 0 ≤ℤ n) → errno w' ≡ status_errno)
        × (abi ≡ unsupported → n ≡ negsuc 0)
        × (abi ≢ unsupported → pos 0 ≤ℤ n)
        × Keeps w w'

    pub record IsDocumented : Type 0 where
      pub status_lem : (status_errno ≡ enosys) ⊎ (status_errno ≡ eopnotsupp)
      pub version :
          (w : World) → Ready w → Versioned w (syscall (Syscall.create_ruleset none 0 1) w)
      pub create_made :
          (h : Flags) (w : World)
          → Ready w
          → h ≢ empty
          → h ⊆ from_all abi
          → let (fd, w') =
              syscall
                (Syscall.create_ruleset
                  (some (record { handled_access_fs = bits h; handled_access_net = 0 }))
                  16
                  0)
                w in
            IsInt32 fd × (pos 0 ≤ℤ fd) × IsRuleset w' fd h × Keeps w w'
      -- for rights that src/fs.rs declares: a kernel that is newer than those has them all
      pub create_refused :
          (h : Flags) (w : World)
          → Ready w
          → h ⊆ all
          → ¬ (h ⊆ from_all abi)
          → let (fd, w') =
              syscall
                (Syscall.create_ruleset
                  (some (record { handled_access_fs = bits h; handled_access_net = 0 }))
                  16
                  0)
                w in
            (fd ≡ negsuc 0) × (errno w' ≡ refusal abi) × Keeps w w'
      pub rule_added :
          (fd parent : ℤ) (h a : Flags) (file : Bool) (w : World)
          → Ready w
          → IsRuleset w fd h
          → IsOpen w parent file
          → a ≢ empty
          → a ⊆ h
          → (file ≡ true → a ⊆ access_file)
          → let (ret, w') =
              syscall
                (Syscall.add_rule fd 1 (record { allowed_access = bits a; parent_fd = parent }) 0)
                w in
            (ret ≡ pos 0) × Keeps w w'
      pub restricted :
          (fd : ℤ) (h : Flags) (w : World)
          → Ready w
          → IsRuleset w fd h
          → HasNoNewPrivs w
          → (syscall (Syscall.restrict_self fd 0) w).0 ≡ pos 0
      pub no_new_privs_set :
          (w : World)
          → Ready w
          → let (ret, w') = prctl pr_set_no_new_privs 1 0 0 0 w in
            (ret ≡ pos 0) × HasNoNewPrivs w' × Keeps w w'
      pub type_told :
          (fd : ℤ) (file : Bool) (w : World)
          → Ready w
          → IsOpen w fd file
          → let ((ret, mode), w') = fstat fd w in
            (ret ≡ pos 0) × (not (bit_and mode s_ifmt == s_ifdir) ≡ file) × Keeps w w'
      pub opened :
          (path : FilePath) (w : World)
          → Ready w
          → Opened w (open_file true (bit_or o_path o_cloexec) path w)
      pub opened_as :
          (path : FilePath) (file : Bool) (w : World)
          → Ready w
          → IsPath path file
          → OpenedAs file w (open_file true (bit_or o_path o_cloexec) path w)
