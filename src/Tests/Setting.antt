-- ===== src/Tests/Setting.antt =====
-- The theorem on LANDLOCK_CRATE_TEST_ABI, at a concrete text: "2", read as one decimal digit.
use rust_landlock.Prelude.{ℕ, Option, none, some, List, [], ◌∷◌, ◌≡◌, ◌↔◌, ◌-◌}
use rust_landlock.Prelude.Exec.{ok}
use rust_landlock.Prelude.Int.{ℤ, pos}
use rust_landlock.Compat.Abi.{v2, to_int}
use rust_landlock.Scenarios.{test_abi}
use rust_landlock.Scenarios.Setting.{test_abi_iff}

abbrev digit : List ℕ → Option ℤ
digit [] = none
digit (b ∷ []) = some (pos (b - 48))
digit (_ ∷ _ ∷ _) = none

test_abi_iff_example :
    (test_abi digit (ok (50 ∷ [])) ≡ some v2) ↔ (digit (50 ∷ []) ≡ some (to_int v2))
test_abi_iff_example = test_abi_iff digit (50 ∷ []) v2
