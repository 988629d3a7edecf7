-- ===== src/Uapi/Words.antt =====
-- The cast `as c_int` of src/uapi/mod.rs: the low 32 bits, read as a signed number.
use rust_landlock.Prelude.{ℕ, ◌-◌, ◌%◌, ◌^◌, ◌≤◌, ◌<◌, ◌≡◌, arith, ltb, if◌then◌else◌}
use rust_landlock.Prelude.Int.{ℤ, pos, negsuc, pos_part, neg_part}

-- The bit pattern of an integer in 32 bits.
abbrev low_word : ℤ → ℕ
low_word (pos n) = n % 2 ^ 32
low_word (negsuc n) = 2 ^ 32 - 1 - n % 2 ^ 32

abbrev signed_word : ℕ → ℤ
signed_word w = if ltb w (2 ^ 31) then pos w else negsuc (2 ^ 32 - 1 - w)

unfoldable pub as_c_int : ℤ → ℤ
as_c_int z = signed_word (low_word z)

-- A value of the range of c_int.
abbrev pub IsInt32 : ℤ → Type 0
IsInt32 z = (pos_part z < 2 ^ 31) × (neg_part z ≤ 2 ^ 31)

-- The cast keeps a value that is in range.
pub as_c_int_in_range : (z : ℤ) → IsInt32 z → as_c_int z ≡ z
unfolding as_c_int
as_c_int_in_range (pos n) h = ground arith
as_c_int_in_range (negsuc n) h = ground arith

-- Its result is always in range.
pub as_c_int-IsInt32 : (z : ℤ) → IsInt32 (as_c_int z)
unfolding as_c_int
as_c_int-IsInt32 (pos n) = ground arith
as_c_int-IsInt32 (negsuc n) = ground arith
