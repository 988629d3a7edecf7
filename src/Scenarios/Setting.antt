-- ===== src/Scenarios/Setting.antt =====
-- The setting of the tests of src/compat.rs: LANDLOCK_CRATE_TEST_ABI.
use rust_landlock.Prelude.{ℕ, zero, suc, Option, none, some, List, ◌≡◌, ◌↔◌, ap, arith}
use rust_landlock.Prelude.Exec.{ok}
use rust_landlock.Prelude.Int.{ℤ, pos, negsuc}
use rust_landlock.Compat.Abi.{Abi, unsupported, v1, v2, v3, to_int, from}
use rust_landlock.Scenarios.{numbered, is_known, test_abi}

number_of : (b a : Abi) → some b ≡ some a → some (to_int b) ≡ some (to_int a)
number_of b a e = ap (λ (x : Option Abi). elim x [ none ↦ none | some c ↦ some (to_int c) ]) e

named : (b a : Abi) → some (to_int b) ≡ some (to_int a) → some b ≡ some a
named b a e = ground arith

not_negative : (n : ℕ) (a : Abi) → some (negsuc n) ≡ some (to_int a) → none ≡ some a
not_negative n a e = ground arith

not_above :
    (n : ℕ) (a : Abi) → some (pos (suc (suc (suc (suc n))))) ≡ some (to_int a) → none ≡ some a
not_above n a e = ground arith

below : (n : ℕ) → numbered (some (negsuc n)) ≡ none
unfolding is_known
below n = ground arith

above : (n : ℕ) → numbered (some (pos (suc (suc (suc (suc n)))))) ≡ none
unfolding is_known
above n = ground arith

number_cases : (o : Option ℤ) (a : Abi) → (numbered o ≡ some a) ↔ (o ≡ some (to_int a))
unfolding is_known from
number_cases none a = (λ e. cc, λ e. cc)
number_cases (some (negsuc n)) a = rw (below n) (λ e. cc, λ e. not_negative n a e)
number_cases (some (pos zero)) a = (λ e. number_of unsupported a e, λ e. named unsupported a e)
number_cases (some (pos (suc zero))) a = (λ e. number_of v1 a e, λ e. named v1 a e)
number_cases (some (pos (suc (suc zero)))) a = (λ e. number_of v2 a e, λ e. named v2 a e)
number_cases (some (pos (suc (suc (suc zero))))) a = (λ e. number_of v3 a e, λ e. named v3 a e)
number_cases (some (pos (suc (suc (suc (suc n)))))) a = rw (above n) (λ e. cc, λ e. not_above n a e)

-- For each way to parse a number and each text, the text sets TEST_ABI to an ABI, without a panic,
-- exactly if it parses to the number of that ABI.
pub test_abi_iff :
    (parse : List ℕ → Option ℤ) (s : List ℕ) (a : Abi)
    → (test_abi parse (ok s) ≡ some a) ↔ (parse s ≡ some (to_int a))
unfolding test_abi
test_abi_iff parse s a = number_cases (parse s) a
