-- ===== src/Compat/Level.antt =====
-- `enum CompatLevel` of src/compat.rs, its order, and how a level is tailored to an object.
pub mod Tailored
use rust_landlock.Prelude.{ℕ, Bool, true, false, Option, none, some, ltb, if◌then◌else◌}

pub data CompatLevel : Type 0 where
  best_effort soft_requirement hard_requirement : CompatLevel

-- The place of a variant, by which the derived order compares.
abbrev pub rank : CompatLevel → ℕ
rank best_effort = 0
rank soft_requirement = 1
rank hard_requirement = 2

-- `Ord::max`
unfoldable pub max : CompatLevel → CompatLevel → CompatLevel
max a b = if ltb (rank b) (rank a) then a else b

-- `From<Option<CompatLevel>>`; `best_effort` is the default.
unfoldable pub into : Option CompatLevel → CompatLevel
into none = best_effort
into (some level) = level

-- `tailored_compat_level` of a `Compatible` object whose own level is the first argument.
unfoldable pub tailored_compat_level : Option CompatLevel → CompatLevel → CompatLevel
unfolding max
tailored_compat_level none parent = parent
tailored_compat_level (some level) parent = max parent level

-- The level that the deprecated `set_best_effort` passes to `set_compatibility`.
unfoldable pub best_effort_level : Bool → CompatLevel
best_effort_level true = best_effort
best_effort_level false = hard_requirement
