-- ===== src/BitFlags.antt =====
-- `enumflags2::BitFlags<AccessFs>`, a type of another crate, with the operations that the code calls
-- and their documented behaviour: a set of flags is a 64-bit word, `bits`, and each operation is the
-- one on words. Also `enum AccessFs` of src/fs.rs, whose declaration the flags are made from.
pub mod Digits
pub mod Sets
pub mod Model
use rust_landlock.Prelude.{
  ℕ, ◌-◌, ◌^◌, ◌<◌, ◌≡◌, Bool, List, [], ◌∷◌, bit_and, bit_or, bit_xor, ◌==◌,
}

pub data AccessFs : Type 0 where
  execute write_file read_file read_dir remove_dir remove_file make_char make_dir make_reg :
      AccessFs
  make_sock make_fifo make_block make_sym refer truncate : AccessFs

-- The constants LANDLOCK_ACCESS_FS_* that the enum takes for its values.
unfoldable pub discriminant : AccessFs → ℕ
discriminant execute = 1
discriminant write_file = 2
discriminant read_file = 4
discriminant read_dir = 8
discriminant remove_dir = 16
discriminant remove_file = 32
discriminant make_char = 64
discriminant make_dir = 128
discriminant make_reg = 256
discriminant make_sock = 512
discriminant make_fifo = 1024
discriminant make_block = 2048
discriminant make_sym = 4096
discriminant refer = 8192
discriminant truncate = 16384

-- Every variant, in the order of the declaration.
abbrev pub variants : List AccessFs
variants =
    execute ∷ write_file ∷ read_file ∷ read_dir ∷ remove_dir ∷ remove_file ∷ make_char ∷ make_dir
    ∷ make_reg ∷ make_sock ∷ make_fifo ∷ make_block ∷ make_sym ∷ refer ∷ truncate ∷ []

-- The word with the bits of all listed variants.
unfoldable pub bits_of : List AccessFs → ℕ
unfolding discriminant
bits_of [] = 0
bits_of (x ∷ xs) = bit_or (discriminant x) (bits_of xs)

pub record BitFlags : Type 1 where
  pub Flags : Type 0
  pub bits : Flags → ℕ
  pub from_bits_unchecked : ℕ → Flags
  -- `make_bitflags!(AccessFs::{A | B})`
  pub make_bitflags : List AccessFs → Flags
  -- `Into::into`
  pub from : AccessFs → Flags
  pub all : Flags
  -- `EMPTY`, which is the default too
  pub empty : Flags
  pub is_empty : Flags → Bool
  pub contains : Flags → Flags → Bool
  -- `==`, `|`, `&`, `^`, `!`
  pub eq : Flags → Flags → Bool
  pub union : Flags → Flags → Flags
  pub intersection : Flags → Flags → Flags
  pub symmetric_difference : Flags → Flags → Flags
  pub complement : Flags → Flags
  pub bits-lt : (a : Flags) → bits a < 2 ^ 64
  pub bits_inj : (a b : Flags) → bits a ≡ bits b → a ≡ b
  pub bits-from_bits_unchecked : (n : ℕ) → n < 2 ^ 64 → bits (from_bits_unchecked n) ≡ n
  pub bits-make_bitflags : (xs : List AccessFs) → bits (make_bitflags xs) ≡ bits_of xs
  pub bits-from : (x : AccessFs) → bits (from x) ≡ discriminant x
  pub bits-all : bits all ≡ bits_of variants
  pub bits-empty : bits empty ≡ 0
  pub is_empty_lem : (a : Flags) → is_empty a ≡ (bits a == 0)
  pub contains_lem : (a b : Flags) → contains a b ≡ (bit_and (bits a) (bits b) == bits b)
  pub eq_lem : (a b : Flags) → eq a b ≡ (bits a == bits b)
  pub bits-union : (a b : Flags) → bits (union a b) ≡ bit_or (bits a) (bits b)
  pub bits-intersection : (a b : Flags) → bits (intersection a b) ≡ bit_and (bits a) (bits b)
  pub bits-symmetric_difference :
      (a b : Flags) → bits (symmetric_difference a b) ≡ bit_xor (bits a) (bits b)
  -- `!` toggles the declared bits only
  pub bits-complement : (a : Flags) → bits (complement a) ≡ bit_and (2 ^ 64 - 1 - bits a) (bits all)

module _ ⦃E : BitFlags⦄ where
  infixl 65 ◌∪◌ ◌⊕◌
  infixl 70 ◌∩◌
  open E use {Flags, union, intersection, symmetric_difference}

  abbrev pub ◌∪◌ : Flags → Flags → Flags
  a ∪ b = union a b

  abbrev pub ◌∩◌ : Flags → Flags → Flags
  a ∩ b = intersection a b

  abbrev pub ◌⊕◌ : Flags → Flags → Flags
  a ⊕ b = symmetric_difference a b
