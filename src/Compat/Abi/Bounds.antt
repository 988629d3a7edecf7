-- ===== src/Compat/Abi/Bounds.antt =====
-- How `ABI::from` reads a version number.
use rust_landlock.Prelude.{zero, suc, ◌≡◌, refl, arith}
use rust_landlock.Prelude.Int.{ℤ, pos, negsuc, ◌≤ℤ◌}
use rust_landlock.Compat.Abi.{Abi, unsupported, to_int, from}

-- For each version number, from gives the greatest known ABI whose number is at most the version: no known ABI at most the
-- version is greater than the result, and the result is at most a version that is not negative. For
-- a version of 0 or less the result is `Unsupported`.
pub from_greatest :
    (v : ℤ)
    → ((a : Abi) → to_int a ≤ℤ v → to_int a ≤ℤ to_int (from v))
      × (pos 0 ≤ℤ v → to_int (from v) ≤ℤ v)
      × (v ≤ℤ pos 0 → from v ≡ unsupported)
unfolding from
from_greatest (negsuc n) = (λ a h. ground arith, λ h. omega arith, λ h. refl)
from_greatest (pos zero) = (λ a h. ground arith, λ h. omega arith, λ h. refl)
from_greatest (pos (suc zero)) = (λ a h. ground arith, λ h. omega arith, λ h. absurd (omega arith))
from_greatest (pos (suc (suc zero))) =
    (λ a h. ground arith, λ h. omega arith, λ h. absurd (omega arith))
from_greatest (pos (suc (suc (suc n)))) =
    (λ a h. ground arith, λ h. omega arith, λ h. absurd (omega arith))
