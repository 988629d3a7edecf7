-- ===== src/Fs/File.antt =====
-- `is_file` and `PathFd` of src/fs.rs.
use rust_landlock.Prelude.{ℕ, List, Bool, true, not, bit_and, bit_or, ◌==◌, if◌then◌else◌}
use rust_landlock.Prelude.Exec.{Result, ok, err, map_err}
use rust_landlock.Prelude.Int.{ℤ, is_zero}
use rust_landlock.Uapi.{Sys, IoError, last_os_error}
use rust_landlock.Errors.{PathFdError, open_call}

-- The bytes of a path.
abbrev pub FilePath : Type 0
FilePath = List ℕ

-- The descriptor that an `OwnedFd` holds.
pub record PathFd : Type 0 where
  pub fd : ℤ

-- `fn`s that wrap a value into the struct.
abbrev pub own : {E : Type 0} → Result ℤ E → Result PathFd E
own (ok n) = ok (record { fd = n })
own (err e) = err e

module _ ⦃S : Sys⦄ where
  open S use {World, fstat, s_ifmt, s_ifdir, open_file, o_path, o_cloexec}

  unfoldable pub is_file : ℤ → World → Result Bool IoError × World
  is_file fd w =
      let ((ret, st_mode), w') = fstat fd w in
      if is_zero ret
      then (ok (not (bit_and st_mode s_ifmt == s_ifdir)), w')
      else (err (last_os_error w'), w')

  -- `PathFd::new`
  unfoldable pub open_path : FilePath → World → Result PathFd PathFdError × World
  open_path path w =
      let (r, w') = open_file true (bit_or o_path o_cloexec) path w in
      (own (map_err (λ e. open_call e path) r), w')
