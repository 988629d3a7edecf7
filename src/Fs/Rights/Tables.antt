-- ===== src/Fs/Rights/Tables.antt =====
-- The access rights of each ABI as words, and how they lie to each other.
use Prim.Native.Nat.{bit_and-bitwise}
use rust_landlock.Prelude.{ℕ, ◌-◌, ◌^◌, ◌≡◌, refl, bit_and, bit_or, arith}
use rust_landlock.Prelude.Int.{◌≤ℤ◌}
use rust_landlock.BitFlags.{BitFlags, ◌∩◌, bits_of}
use rust_landlock.BitFlags.Digits.{◌⊆◌, subset_of_intersection, contains_iff}
use rust_landlock.BitFlags.Sets.{⊆-empty, ⊆-trans, intersection-⊆_right}
use rust_landlock.Compat.Abi.{Abi, unsupported, v1, v2, v3, to_int}
use rust_landlock.Fs.Rights.{from_read, from_write, from_all, access_file}

abbrev pub read_bits : Abi → ℕ
read_bits unsupported = 0
read_bits _ = 0x000d

abbrev pub write_bits : Abi → ℕ
write_bits unsupported = 0
write_bits v1 = 0x1ff2
write_bits v2 = 0x3ff2
write_bits v3 = 0x7ff2

abbrev pub all_bits : Abi → ℕ
all_bits abi = bit_or (read_bits abi) (write_bits abi)

all_bits_grow : (a b : Abi) → to_int a ≤ℤ to_int b → bit_and (all_bits a) (all_bits b) ≡ all_bits a
all_bits_grow unsupported b h = bit_and-bitwise 0 (all_bits b)
all_bits_grow v1 v1 h = refl
all_bits_grow v1 v2 h = refl
all_bits_grow v1 v3 h = refl
all_bits_grow v2 v2 h = refl
all_bits_grow v2 v3 h = refl
all_bits_grow v3 v3 h = refl
all_bits_grow _ _ h = absurd (omega arith)

module _ ⦃E : BitFlags⦄ where
  open E use {
    Flags, empty, contains_lem, bits, all, complement, bits_inj, bits-all, bits-empty,
    bits-make_bitflags, bits-from, bits-union, bits-intersection, bits-complement,
  }

  pub bits-from_read : (abi : Abi) → bits (from_read abi) ≡ read_bits abi
  unfolding from_read bits_of
  bits-from_read unsupported = bits-empty
  bits-from_read v1 = bits-make_bitflags _
  bits-from_read v2 = bits-make_bitflags _
  bits-from_read v3 = bits-make_bitflags _

  bits-from_write : (abi : Abi) → bits (from_write abi) ≡ write_bits abi
  unfolding from_write bits_of
  bits-from_write unsupported = bits-empty
  bits-from_write v1 = bits-make_bitflags _
  bits-from_write v2 = simp (bits-union, bits-make_bitflags, bits-from)
  bits-from_write v3 = simp (bits-union, bits-make_bitflags, bits-from)

  pub bits-from_all : (abi : Abi) → bits (from_all abi) ≡ bit_or (read_bits abi) (write_bits abi)
  unfolding from_all
  bits-from_all abi = rw (bits-union, bits-from_read, bits-from_write)

  -- Without Landlock there is nothing of any rights.
  pub nothing_left : (a : Flags) → a ∩ from_all unsupported ≡ empty
  nothing_left a =
      let none : from_all unsupported ⊆ empty =
        (contains_iff empty (from_all unsupported)).0
          (rw (contains_lem, bits-from_all, bits-empty) refl) in
      ⊆-empty (a ∩ from_all unsupported) (
        ⊆-trans (a ∩ from_all unsupported) (from_all unsupported) empty
          (intersection-⊆_right a (from_all unsupported)) none)

  pub bits-access_file : bits access_file ≡ 0x4007
  unfolding access_file bits_of
  bits-access_file = bits-make_bitflags _

  bits-complement_of :
      (a b : Flags)
      → bits (complement a ∩ b) ≡ bit_and (bit_and (2 ^ 64 - 1 - bits a) 0x7fff) (bits b)
  unfolding bits_of
  bits-complement_of a b = simp (bits-intersection, bits-complement, bits-all)

  from_read_partition :
      (abi : Abi) → bits (from_read abi) ≡ bits (complement (from_write abi) ∩ from_all abi)
  from_read_partition abi =
      simp (bits-complement_of, bits-from_all, bits-from_read, bits-from_write) (table abi)
    where
      table :
          (abi : Abi)
          → read_bits abi
            ≡ bit_and
                (bit_and (2 ^ 64 - 1 - write_bits abi) 0x7fff)
                (bit_or (read_bits abi) (write_bits abi))
      table unsupported = refl
      table v1 = refl
      table v2 = refl
      table v3 = refl

  from_write_partition :
      (abi : Abi) → bits (from_write abi) ≡ bits (complement (from_read abi) ∩ from_all abi)
  from_write_partition abi =
      simp (bits-complement_of, bits-from_all, bits-from_read, bits-from_write) (table abi)
    where
      table :
          (abi : Abi)
          → write_bits abi
            ≡ bit_and
                (bit_and (2 ^ 64 - 1 - read_bits abi) 0x7fff)
                (bit_or (read_bits abi) (write_bits abi))
      table unsupported = refl
      table v1 = refl
      table v2 = refl
      table v3 = refl

  -- For each ABI, the rights for reading are the rights of the ABI that are not for writing, and the
  -- rights for writing are those that are not for reading.
  pub rights_partition :
      (abi : Abi)
      → (from_read abi ≡ complement (from_write abi) ∩ from_all abi)
        × (from_write abi ≡ complement (from_read abi) ∩ from_all abi)
  rights_partition abi =
      (bits_inj _ _ (from_read_partition abi), bits_inj _ _ (from_write_partition abi))

  from_all_grows_bits :
      (a b : Abi) → to_int a ≤ℤ to_int b → bits (from_all a ∩ from_all b) ≡ bits (from_all a)
  from_all_grows_bits a b h = simp (bits-intersection, bits-from_all) (all_bits_grow a b h)

  -- For each ABI and one of the same or a greater number, the second has every right of the first;
  -- and the last ABI has the declared rights.
  pub from_all_grows :
      (a b : Abi) → to_int a ≤ℤ to_int b → (from_all a ⊆ from_all b) × (from_all v3 ≡ all)
  unfolding bits_of
  from_all_grows a b h = (
    subset_of_intersection (from_all a) (from_all b)
        (bits_inj (from_all a ∩ from_all b) (from_all a) (from_all_grows_bits a b h)),
    bits_inj _ _ (simp (bits-from_all, bits-all)),
  )
