-- ===== src/Compat/Abi.antt =====
-- `enum ABI` of src/compat.rs, and how the running kernel is asked for its version.
pub mod Bounds
use rust_landlock.Prelude.{ℕ, zero, suc, Bool, none}
use rust_landlock.Prelude.Int.{ℤ, pos, negsuc}
use rust_landlock.Uapi.{Sys, landlock_create_ruleset, landlock_create_ruleset_version}

pub data Abi : Type 0 where
  unsupported v1 v2 v3 : Abi

-- The integer that the enum gives a variant.
abbrev pub to_int : Abi → ℤ
to_int unsupported = pos 0
to_int v1 = pos 1
to_int v2 = pos 2
to_int v3 = pos 3

-- `ABI::from`: the first two clauses are `n if n <= 0`, the last is `_`.
unfoldable pub from : ℤ → Abi
from (negsuc _) = unsupported
from (pos zero) = unsupported
from (pos (suc zero)) = v1
from (pos (suc (suc zero))) = v2
from (pos (suc (suc (suc _)))) = v3

module _ ⦃S : Sys⦄ where
  open S use {World}

  -- `ABI::new_current`
  unfoldable pub new_current : World → Abi × World
  new_current w =
      let (version, w') = landlock_create_ruleset none 0 landlock_create_ruleset_version w in
      (from version, w')
