-- ===== src/Fs/Rights.antt =====
-- `impl Access for AccessFs`, `AccessFs::from_file` and `ACCESS_FILE` of src/fs.rs, and the provided
-- method `Access::from_all` of src/access.rs, which `AccessFs` alone implements.
pub mod Tables
use rust_landlock.Prelude.{List, [], ◌∷◌}
use rust_landlock.BitFlags.{
  BitFlags, ◌∪◌, ◌∩◌, execute, write_file, read_file, read_dir, remove_dir, remove_file, make_char,
  make_dir, make_reg, make_sock, make_fifo, make_block, make_sym, refer, truncate,
}
use rust_landlock.Compat.Abi.{Abi, unsupported, v1, v2, v3}

module _ ⦃E : BitFlags⦄ where
  open E use {Flags, empty, make_bitflags, from}

  unfoldable pub from_read : Abi → Flags
  from_read unsupported = empty
  from_read _ = make_bitflags (execute ∷ read_file ∷ read_dir ∷ [])

  -- `Self::from_write(ABI::V1)`
  from_write_v1 : Flags
  from_write_v1 = make_bitflags (
      write_file ∷ remove_dir ∷ remove_file ∷ make_char ∷ make_dir ∷ make_reg ∷ make_sock
      ∷ make_fifo ∷ make_block ∷ make_sym ∷ [])

  unfoldable pub from_write : Abi → Flags
  unfolding from_write_v1
  from_write unsupported = empty
  from_write v1 = from_write_v1
  from_write v2 = from_write_v1 ∪ from refer
  from_write v3 = from_write_v1 ∪ from refer ∪ from truncate

  unfoldable pub from_all : Abi → Flags
  unfolding from_read from_write
  from_all abi = from_read abi ∪ from_write abi

  -- `ACCESS_FILE`
  unfoldable pub access_file : Flags
  access_file = make_bitflags (read_file ∷ write_file ∷ execute ∷ truncate ∷ [])

  unfoldable pub from_file : Abi → Flags
  unfolding from_all access_file
  from_file abi = from_all abi ∩ access_file
