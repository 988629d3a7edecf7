-- ===== src/Access.antt =====
-- src/access.rs, at `AccessFs`, the one type that implements `Access`: the check of a set of access
-- rights against an ABI.
pub mod Difference
pub mod Verdict
pub mod Reported
use rust_landlock.Prelude.{ℕ, ◌-◌, ◌^◌, some, not, if◌then◌else◌}
use rust_landlock.Prelude.Exec.{Result, ok, err, Exec, pure}
use rust_landlock.Uapi.{Sys}
use rust_landlock.BitFlags.{BitFlags, ◌∩◌}
use rust_landlock.Errors.{
  CompatError, access, AccessError, unknown, incompatible, partially_compatible,
}
use rust_landlock.Compat.Abi.{Abi}
use rust_landlock.Compat.TryCompat
use rust_landlock.Compat.TryCompat.{CompatResult, TryCompat}
use rust_landlock.Fs.Rights.{from_all}

module _ ⦃E : BitFlags⦄ where
  open E use {Flags, bits, from_bits_unchecked, all, is_empty, contains, eq}

  -- `!n` on a u64
  abbrev not_u64 : ℕ → ℕ
  not_u64 n = 2 ^ 64 - 1 - n

  unfoldable pub full_negation : Flags → Flags
  full_negation flags = from_bits_unchecked (not_u64 (bits flags))

  -- The last test of `try_compat_inner`, on the rights that the ABI has.
  unfoldable pub against : Flags → Flags → Result (CompatResult Flags Flags) (CompatError Flags)
  against self compat =
      if is_empty compat
      then ok (CompatResult.no_support (access (incompatible self)))
      else if not (eq compat self)
      then ok (
          CompatResult.partial compat
            (access (partially_compatible self (self ∩ full_negation compat))))
      else ok (CompatResult.full self)

  -- `try_compat_inner` of `BitFlags<A>`
  unfoldable pub check_access : Flags → Abi → Result (CompatResult Flags Flags) (CompatError Flags)
  unfolding against
  check_access self abi =
      if is_empty self
      then err (access AccessError.empty)
      else if not (contains all self)
      then err (access (unknown self (self ∩ full_negation all)))
      else against self (self ∩ from_all abi)

  module _ ⦃S : Sys⦄ where
    -- `impl TryCompat<A> for BitFlags<A>`, which has no children and no level of its own.
    abbrev pub access_compat : TryCompat Flags Flags
    access_compat = record {
      tailored = λ self parent_level. parent_level;
      try_compat_children = λ self abi level. pure (some self);
      try_compat_inner = λ self abi w. (check_access self abi, w);
    }
